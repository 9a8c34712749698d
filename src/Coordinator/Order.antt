-- ===== src/Coordinator/Order.antt =====
-- The order of observations that coordinator.py keeps, over any sequence of its steps.
use ha_ttlock_ble.Base.{
  ℕ, ◌+◌, ◌≤◌, String, Bool, true, not, ◌&&◌, ◌||◌, Option, none, some, is_some, ◌≡◌, refl, ap,
  subst, arith, Bool-cases, inl, inr, str_eq, eq_iff,
}
use text.Mathlib.TextPositions.{eq_refl}
use ha_ttlock_ble.Base.Int.{ℤ}
use ha_ttlock_ble.Base.Texts.{get, put, get-put}
use ha_ttlock_ble.Coordinator.State.{
  Coordinator, Snapshot, Attribution, Source, PollResult, poll_raised, no_answer, observed,
  Advertisement, or_zero, or_else, locked_of, battery_of, next_revision,
  request_active_state_refresh, next_attribution, apply_authoritative_state, note_advertisement,
  apply_advertisement, hint_changed, is_true,
}
use ha_ttlock_ble.Coordinator.Steps.{
  merged, default_for, set_default, schedule_bootstrap_retry, schedule_operation_log, is_superseded,
  merge_state, merge_known, merge_result, unknown_snapshot,
}
use ha_ttlock_ble.Coordinator.Register.{register, IsCounted, IsAttributed, IsOrdered, IsMergeable}

-- the fields that the order is about
abbrev pub SameOrder : Coordinator → Coordinator → Type 0
SameOrder c d =
    (d.attributions ≡ c.attributions) × (d.revisions ≡ c.revisions) × (d.states ≡ c.states)

pub IsOrdered-same : (c d : Coordinator) → SameOrder c d → IsOrdered c → IsOrdered d
IsOrdered-same c d e p = record {
  counted = λ m. rw (e.0, e.1) (p.counted m);
  known = λ m. rw (e.0, e.2) (p.known m);
}

pub register-same : (m : String) (c d : Coordinator) → SameOrder c d → register m d ≡ register m c
unfolding register
register-same m c d e = rw (e.0, e.2)

IsCounted-mono : (a : Option Attribution) (n k : ℕ) → n ≤ k → IsCounted a n → IsCounted a k
IsCounted-mono none n k h p = tt
IsCounted-mono (some a) n k h p = omega arith

-- a lock whose states are written over stays known when it was
IsOrdered-states :
    (mac : String) (s : Snapshot) (c : Coordinator)
    → (is_some (locked_of (get mac c.states)) ≡ true → is_some s.locked ≡ true)
    → IsOrdered c
    → IsOrdered (record c { states = put mac s c.states })
IsOrdered-states mac s c h p = record {
  counted = p.counted;
  known = λ m. simp get-put (elim (Bool-cases (str_eq mac m)) [
    | inl here ↦ rw here (
        kept (get m c.attributions) (locked_of (get m c.states))
          (subst (λ x. is_some (locked_of (get x c.states)) ≡ true → is_some s.locked ≡ true)
            ((eq_iff mac m).0 here) h)
          (p.known m))
    | inr away ↦ rw away (p.known m)
  ]);
}
  where
    kept :
        (a : Option Attribution) (l : Option Bool)
        → (is_some l ≡ true → is_some s.locked ≡ true)
        → IsAttributed a l
        → IsAttributed a s.locked
    kept none l k q = tt
    kept (some a) l k q = k q

pub IsOrdered-count :
    (mac : String) (n : ℕ) (c : Coordinator)
    → or_zero (get mac c.revisions) ≤ n
    → IsOrdered c
    → IsOrdered (record c { revisions = put mac n c.revisions })
IsOrdered-count mac n c h p = record {
  counted = λ m. simp get-put (elim (Bool-cases (str_eq mac m)) [
    | inl here ↦ rw here (
        IsCounted-mono (get m c.attributions) (or_zero (get m c.revisions)) n
          (subst (λ x. or_zero (get x c.revisions) ≤ n) ((eq_iff mac m).0 here) h) (p.counted m))
    | inr away ↦ rw away (p.counted m)
  ]);
  known = p.known;
}

IsOrdered-attribute :
    (mac : String) (a : Attribution) (c : Coordinator)
    → a.revision ≤ or_zero (get mac c.revisions)
    → is_some (locked_of (get mac c.states)) ≡ true
    → IsOrdered c
    → IsOrdered (record c { attributions = put mac a c.attributions })
IsOrdered-attribute mac a c h k p = record {
  counted = λ m. simp get-put (elim (Bool-cases (str_eq mac m)) [
    | inl here ↦
        rw here (subst (λ x. a.revision ≤ or_zero (get x c.revisions)) ((eq_iff mac m).0 here) h)
    | inr away ↦ rw away (p.counted m)
  ]);
  known = λ m. simp get-put (elim (Bool-cases (str_eq mac m)) [
    | inl here ↦
        rw here (subst (λ x. is_some (locked_of (get x c.states)) ≡ true) ((eq_iff mac m).0 here) k)
    | inr away ↦ rw away (p.known m)
  ]);
}

pub IsOrdered-publish :
    (mac : String) (locked : Bool) (battery : Option ℕ) (source : Source) (rssi : Option ℤ)
    (now : ℕ) (c : Coordinator)
    → IsOrdered c
    → IsOrdered (apply_authoritative_state mac locked battery source rssi now c)
unfolding apply_authoritative_state next_attribution next_revision
IsOrdered-publish mac locked battery source rssi now c p =
    let n = or_zero (get mac c.revisions) + 1 in
    let s : Snapshot = record {
      locked = some locked;
      battery_level = or_else battery (battery_of (get mac c.states));
    } in
    let counted = record c { revisions = put mac n c.revisions } in
    let known = record counted { states = put mac s c.states } in
    let q =
      IsOrdered-attribute mac
        (record { source = source; observed_at = now; rssi = rssi; revision = n }) known
        (simp get-put (rw (eq_refl mac) (omega arith))) (simp get-put (rw (eq_refl mac) refl))
        (IsOrdered-states mac s counted (λ h. refl) (IsOrdered-count mac n c (omega arith) p)) in
    record { counted = q.counted; known = q.known }

IsOrdered-note :
    (mac : String) (a : Advertisement) (c : Coordinator)
    → IsOrdered c
    → IsOrdered (note_advertisement mac a c)
unfolding note_advertisement
IsOrdered-note mac a c p =
    let q =
      IsOrdered-states mac
        (record { locked = locked_of (get mac c.states); battery_level = some a.battery }) c
        (λ h. h) p in
    record { counted = q.counted; known = q.known }

pub IsOrdered-refresh :
    (mac : String) (c : Coordinator) → IsOrdered c → IsOrdered (request_active_state_refresh mac c)
unfolding request_active_state_refresh
IsOrdered-refresh mac c p =
    IsOrdered-same c (request_active_state_refresh mac c)
      (unfold request_active_state_refresh in ground arith) p

pub IsOrdered-advertise :
    (mac : String) (a : Advertisement) (c : Coordinator)
    → IsOrdered c
    → IsOrdered (apply_advertisement mac a c)
unfolding apply_advertisement
IsOrdered-advertise mac a c p =
    let noted = note_advertisement mac a c in
    let q = IsOrdered-note mac a c p in
    elim (Bool-cases (
      hint_changed (get mac c.hints) a.lock_state
      || a.has_new_records && not (is_true (get mac c.new_records)))) [
        | inl new ↦ rw new (
            let r = IsOrdered-refresh mac noted q in
            record { counted = r.counted; known = r.known })
        | inr same ↦ rw same q
      ]

IsOrdered-default :
    (s : Option Snapshot) (mac : String) (c : Coordinator)
    → get mac c.states ≡ s
    → IsOrdered c
    → IsOrdered (default_for s mac c)
IsOrdered-default none mac c h p = IsOrdered-states mac unknown_snapshot c (λ k. absurd (no k)) p
  where
    no : is_some (locked_of (get mac c.states)) ≡ true → ⊥
    no k = ground (arith, ap (λ x. is_some (locked_of x)) h)
IsOrdered-default (some s) mac c h p = p

IsOrdered-failed :
    (mac : String) (c : Coordinator)
    → IsOrdered c
    → IsOrdered (schedule_bootstrap_retry mac (set_default mac c))
unfolding schedule_bootstrap_retry set_default
IsOrdered-failed mac c p =
    let q = IsOrdered-default (get mac c.states) mac c refl p in
    IsOrdered-same (default_for (get mac c.states) mac c)
      (schedule_bootstrap_retry mac (default_for (get mac c.states) mac c))
      (unfold schedule_bootstrap_retry in ground arith) q

IsOrdered-known :
    (mac : String) (l : Option Bool) (battery : Option ℕ) (a : Attribution) (c : Coordinator)
    → a.revision ≤ or_zero (get mac c.revisions)
    → IsOrdered c
    → IsOrdered (
        merge_known mac
          (record { state = record { locked = l; battery_level = battery }; attribution = a })
          c)
unfolding merge_known merge_state schedule_operation_log
IsOrdered-known mac none battery a c h p = IsOrdered-states mac _ c (λ k. k) p
IsOrdered-known mac (some b) battery a c h p =
    let s : Snapshot = record {
      locked = some b;
      battery_level = or_else battery (battery_of (get mac c.states));
    } in
    let q =
      IsOrdered-attribute mac a (record c { states = put mac s c.states }) h
        (simp get-put (rw (eq_refl mac) refl)) (IsOrdered-states mac s c (λ k. refl) p) in
    record { counted = q.counted; known = q.known }

pub IsOrdered-result :
    (mac : String) (r : PollResult) (c : Coordinator)
    → IsMergeable (merged mac r) c
    → IsOrdered c
    → IsOrdered (merge_result mac r c)
unfolding merge_result
IsOrdered-result mac poll_raised c h p = IsOrdered-failed mac c p
IsOrdered-result mac no_answer c h p = IsOrdered-failed mac c p
IsOrdered-result mac (observed o) c h p =
    elim (Bool-cases (is_superseded (get mac c.attributions) o.attribution)) [
      | inl old ↦ rw old p
      | inr new ↦
          rw new (IsOrdered-known mac o.state.locked o.state.battery_level o.attribution c h p)
    ]
