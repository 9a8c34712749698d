-- ===== src/Coordinator/Known.antt =====
-- What coordinator.py never loses: the count of observations, a known state, and the bound on its tasks.
use ha_ttlock_ble.Base.{
  ℕ, ◌+◌, ◌≤◌, String, Bool, true, Option, none, some, is_some, List, [], ◌∷◌, ◌≡◌, refl, sym, ap,
  subst, arith, Bool-cases, inl, inr, str_eq, eq_iff,
}
use text.Mathlib.TextPositions.{eq_refl}
use ha_ttlock_ble.Base.Int.{ℤ}
use ha_ttlock_ble.Base.Texts.{get, put, get-put}
use ha_ttlock_ble.Coordinator.State.{
  Coordinator, Snapshot, Source, from_query, PollResult, poll_raised, no_answer, observed,
  Advertisement, or_zero, or_else, locked_of, battery_of, next_revision, has_state,
  request_active_state_refresh, next_attribution, apply_authoritative_state, note_advertisement,
  begin_update, poll_answered, apply_advertisement,
}
use ha_ttlock_ble.Coordinator.Steps.{
  Step, updated, answered, published, advertised, merged, refresh_asked, log_done, retry_done,
  retried, stopped, step, steps, unknown_snapshot, default_for, set_default,
  schedule_bootstrap_retry, schedule_operation_log, merge_state, merge_known, merge_result,
  log_task_done, retry_task_done, retry_turn, shut_down,
}
use ha_ttlock_ble.Coordinator.Register.{IsMergeable}
use ha_ttlock_ble.Coordinator.Newest.{Answer}

abbrev count : String → Coordinator → ℕ
count m c = or_zero (get m c.revisions)

default-revisions :
    (s : Option Snapshot) (mac : String) (c : Coordinator)
    → (default_for s mac c).revisions ≡ c.revisions
default-revisions none mac c = refl
default-revisions (some s) mac c = refl

failed-revisions :
    (mac : String) (c : Coordinator)
    → (schedule_bootstrap_retry mac (set_default mac c)).revisions ≡ c.revisions
unfolding schedule_bootstrap_retry set_default
failed-revisions mac c = ground (arith, default-revisions (get mac c.states) mac c)

merge-revisions :
    (mac : String) (r : PollResult) (c : Coordinator)
    → (merge_result mac r c).revisions ≡ c.revisions
unfolding merge_result merge_known merge_state schedule_operation_log
merge-revisions mac poll_raised c = failed-revisions mac c
merge-revisions mac no_answer c = failed-revisions mac c
merge-revisions mac (observed o) c = ground arith

module _ (m : String) where
  count-next :
      (mac : String) (source : Source) (rssi : Option ℤ) (now : ℕ) (c : Coordinator)
      → count m c ≤ count m (next_attribution mac source rssi now c).1
  unfolding next_attribution next_revision
  count-next mac source rssi now c = simp get-put (elim (Bool-cases (str_eq mac m)) [
    | inl here ↦ rw (here, (eq_iff mac m).0 here) (omega arith)
    | inr away ↦ rw away (omega arith)
  ])

  count-answer :
      (mac : String) (answer : Answer) (rssi : Option ℤ) (now : ℕ) (c : Coordinator)
      → count m c ≤ count m (poll_answered mac answer rssi now c).1
  unfolding poll_answered
  count-answer mac none rssi now c = omega arith
  count-answer mac (some (raw, battery)) rssi now c = count-next mac from_query rssi now c

  -- the steps that count nothing
  same-count : (c d : Coordinator) → d.revisions ≡ c.revisions → count m c ≤ count m d
  same-count c d e = rw e (omega arith)

  count-step : (s : Step) (c : Coordinator) → count m c ≤ count m (step s c)
  unfolding step
  count-step updated c = same-count c (step updated c) (unfold step begin_update in refl)
  count-step (answered mac answer rssi now) c = count-answer mac answer rssi now c
  count-step (published mac locked battery source rssi now) c =
      unfold apply_authoritative_state in count-next mac source rssi now c
  count-step (advertised mac a) c = same-count c (step (advertised mac a) c) (
      unfold step apply_advertisement note_advertisement request_active_state_refresh in
      ground arith)
  count-step (merged mac r) c = same-count c (step (merged mac r) c) (merge-revisions mac r c)
  count-step (refresh_asked mac) c =
      same-count c (step (refresh_asked mac) c)
        (unfold step request_active_state_refresh in ground arith)
  count-step (log_done mac) c =
      same-count c (step (log_done mac) c) (unfold step log_task_done in refl)
  count-step (retry_done mac) c =
      same-count c (step (retry_done mac) c) (unfold step retry_task_done in refl)
  count-step (retried mac) c =
      same-count c (step (retried mac) c)
        (unfold step retry_turn request_active_state_refresh in ground arith)
  count-step stopped c = same-count c (step stopped c) (unfold step shut_down in refl)

  count-steps : (ss : List Step) (c : Coordinator) → count m c ≤ count m (steps ss c)
  unfolding steps
  count-steps [] c = omega arith
  count-steps (s ∷ ss) c = omega (arith, count-step s c, count-steps ss (step s c))

-- the answer of a query is counted before it is merged
answer-IsMergeable :
    (mac : String) (answer : Answer) (rssi : Option ℤ) (now : ℕ) (c d : Coordinator)
    → count mac (poll_answered mac answer rssi now c).1 ≤ count mac d
    → IsMergeable (merged mac (poll_answered mac answer rssi now c).0) d
unfolding poll_answered next_attribution next_revision
answer-IsMergeable mac none rssi now c d h = tt
answer-IsMergeable mac (some (raw, battery)) rssi now c d h =
    let n = or_zero (get mac c.revisions) + 1 in
    let e : or_zero (get mac (put mac n c.revisions)) ≡ n = simp get-put (rw (eq_refl mac) refl) in
    omega (arith, h, e)

-- The answer of a poll can be merged after any steps that follow it: its revision was counted, and the
-- count never falls.
pub poll_answered-IsMergeable :
    (mac : String) (answer : Answer) (rssi : Option ℤ) (now : ℕ) (ss : List Step) (c : Coordinator)
    → let (result, d) = poll_answered mac answer rssi now c in
      IsMergeable (merged mac result) (steps ss d)
poll_answered-IsMergeable mac answer rssi now ss c =
    answer-IsMergeable mac answer rssi now c (steps ss (poll_answered mac answer rssi now c).1)
      (count-steps mac ss (poll_answered mac answer rssi now c).1)

module _ (m : String) where
  abbrev IsKnown : Coordinator → Type 0
  IsKnown c = is_some (locked_of (get m c.states)) ≡ true

  IsKnown-put :
      (mac : String) (s : Snapshot) (c : Coordinator)
      → (is_some (locked_of (get mac c.states)) ≡ true → is_some s.locked ≡ true)
      → IsKnown c
      → IsKnown (record c { states = put mac s c.states })
  IsKnown-put mac s c h p = simp get-put (elim (Bool-cases (str_eq mac m)) [
    | inl here ↦ rw here (
        h (
          subst (λ x. is_some (locked_of (get x c.states)) ≡ true) (sym ((eq_iff mac m).0 here)) p))
    | inr away ↦ rw away p
  ])

  IsKnown-default :
      (s : Option Snapshot) (mac : String) (c : Coordinator)
      → get mac c.states ≡ s
      → IsKnown c
      → IsKnown (default_for s mac c)
  IsKnown-default none mac c h p = IsKnown-put mac unknown_snapshot c (λ k. absurd (no k)) p
    where
      no : is_some (locked_of (get mac c.states)) ≡ true → ⊥
      no k = ground (arith, ap (λ x. is_some (locked_of x)) h)
  IsKnown-default (some s) mac c h p = p

  IsKnown-same : (c d : Coordinator) → d.states ≡ c.states → IsKnown c → IsKnown d
  IsKnown-same c d e p = rw e p

  IsKnown-failed :
      (mac : String) (c : Coordinator)
      → IsKnown c
      → IsKnown (schedule_bootstrap_retry mac (set_default mac c))
  unfolding set_default
  IsKnown-failed mac c p =
      IsKnown-same (set_default mac c) (schedule_bootstrap_retry mac (set_default mac c))
        (unfold schedule_bootstrap_retry in ground arith)
        (IsKnown-default (get mac c.states) mac c refl p)

  or_else-known : (a b : Option Bool) → is_some b ≡ true → is_some (or_else a b) ≡ true
  or_else-known none b h = h
  or_else-known (some a) b h = refl

  IsKnown-result :
      (mac : String) (r : PollResult) (c : Coordinator) → IsKnown c → IsKnown (merge_result mac r c)
  unfolding merge_result merge_known schedule_operation_log
  IsKnown-result mac poll_raised c p = IsKnown-failed mac c p
  IsKnown-result mac no_answer c p = IsKnown-failed mac c p
  IsKnown-result mac (observed o) c p =
      let q : IsKnown (merge_state mac o.state c) =
        unfold merge_state in
        IsKnown-put mac
          (record {
            locked = or_else o.state.locked (locked_of (get mac c.states));
            battery_level = or_else o.state.battery_level (battery_of (get mac c.states));
          })
          c (or_else-known o.state.locked (locked_of (get mac c.states))) p in
      ground (arith, q)

  IsKnown-note :
      (mac : String) (a : Advertisement) (c : Coordinator)
      → IsKnown c
      → IsKnown (note_advertisement mac a c)
  unfolding note_advertisement
  IsKnown-note mac a c p =
      IsKnown-put mac
        (record { locked = locked_of (get mac c.states); battery_level = some a.battery }) c
        (λ h. h) p

  IsKnown-advertise :
      (mac : String) (a : Advertisement) (c : Coordinator)
      → IsKnown c
      → IsKnown (apply_advertisement mac a c)
  unfolding apply_advertisement request_active_state_refresh
  IsKnown-advertise mac a c p = let q = IsKnown-note mac a c p in ground (arith, q)

  IsKnown-step : (s : Step) (c : Coordinator) → IsKnown c → IsKnown (step s c)
  unfolding step
  IsKnown-step updated c p = unfold begin_update in p
  IsKnown-step (answered mac none rssi now) c p = unfold poll_answered in p
  IsKnown-step (answered mac (some answer) rssi now) c p =
      unfold poll_answered next_attribution in p
  IsKnown-step (published mac locked battery source rssi now) c p =
      unfold apply_authoritative_state next_attribution in
      IsKnown-put mac
        (record {
          locked = some locked;
          battery_level = or_else battery (battery_of (get mac c.states));
        })
        c (λ h. refl) p
  IsKnown-step (advertised mac a) c p = IsKnown-advertise mac a c p
  IsKnown-step (merged mac r) c p = IsKnown-result mac r c p
  IsKnown-step (refresh_asked mac) c p =
      IsKnown-same c (step (refresh_asked mac) c)
        (unfold step request_active_state_refresh in ground arith) p
  IsKnown-step (log_done mac) c p = unfold log_task_done in p
  IsKnown-step (retry_done mac) c p = unfold retry_task_done in p
  IsKnown-step (retried mac) c p =
      IsKnown-same c (step (retried mac) c)
        (unfold step retry_turn request_active_state_refresh in ground arith) p
  IsKnown-step stopped c p = unfold shut_down in p

  IsKnown-steps : (ss : List Step) (c : Coordinator) → IsKnown c → IsKnown (steps ss c)
  unfolding steps
  IsKnown-steps [] c p = p
  IsKnown-steps (s ∷ ss) c p = IsKnown-steps ss (step s c) (IsKnown-step s c p)

-- A lock whose state is known once stays known over any steps, whatever polls fail and whatever is
-- advertised.
pub has_state-steps :
    (m : String) (ss : List Step) (c : Coordinator)
    → has_state m c ≡ true
    → has_state m (steps ss c) ≡ true
unfolding has_state
has_state-steps m ss c p = IsKnown-steps m ss c p
