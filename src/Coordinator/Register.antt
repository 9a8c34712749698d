-- ===== src/Coordinator/Register.antt =====
-- What coordinator.py promises of the bolt's state: for every lock a register of the newest observation,
-- however the answers of polls, the commands and the advertisements follow one another.
use ha_ttlock_ble.Base.{
  ℕ, ◌+◌, ◌≤◌, String, Bool, true, false, Option, none, some, is_some, leb, if◌then◌else◌, ◌≡◌,
  refl, sym, ap, ◌∙◌, subst, arith, Bool-cases, inl, inr, str_eq, eq_iff,
}
use ha_ttlock_ble.Base.Int.{ℤ}
use ha_ttlock_ble.Base.Texts.{get, put, get-put}
use ha_ttlock_ble.Coordinator.State.{
  Coordinator, Snapshot, Attribution, Observation, Source, PollResult, poll_raised, no_answer,
  observed, Advertisement, or_zero, locked_of, next_revision, request_active_state_refresh,
  next_attribution, apply_authoritative_state, note_advertisement, apply_advertisement,
}
use ha_ttlock_ble.Coordinator.Steps.{
  Step, published, merged, default_for, set_default, schedule_operation_log, is_superseded,
  merge_state, merge_known, merge_result, unknown_snapshot,
}

-- The register: the revision of the newest observation and the bolt's state in it.
abbrev pub Register : Type 0
Register = Option (ℕ × Bool)

-- An observation takes the register's place only if it is newer.
unfoldable pub write : ℕ → Bool → Register → Register
write revision locked none = some (revision, locked)
write revision locked (some (latest, old)) =
    if leb revision latest then some (latest, old) else some (revision, locked)

abbrev pub observation_of : String → ℕ → Option Bool → Option (String × (ℕ × Bool))
observation_of mac revision none = none
observation_of mac revision (some b) = some (mac, (revision, b))

-- What a step writes, and for which lock.
abbrev pub written_result : String → PollResult → Option (String × (ℕ × Bool))
written_result mac poll_raised = none
written_result mac no_answer = none
written_result mac (observed o) = observation_of mac o.attribution.revision o.state.locked

abbrev pub written : Step → Coordinator → Option (String × (ℕ × Bool))
written (published mac locked battery source rssi now) c = some (mac, (next_revision mac c, locked))
written (merged mac r) c = written_result mac r
written _ c = none

abbrev pub write_for : Option (String × (ℕ × Bool)) → String → Register → Register
write_for none m r = r
write_for (some (mac, (revision, locked))) m r = if str_eq mac m then write revision locked r else r

-- What a coordinator shows of one lock.
abbrev pub shown : Option Attribution → Option Bool → Register
shown none l = none
shown (some a) none = none
shown (some a) (some b) = some (a.revision, b)

unfoldable pub register : String → Coordinator → Register
register m c = shown (get m c.attributions) (locked_of (get m c.states))

-- What holds between two steps: an attributed state is known, and its revision was counted.
abbrev pub IsCounted : Option Attribution → ℕ → Type 0
IsCounted none n = Unit
IsCounted (some a) n = a.revision ≤ n

abbrev pub IsAttributed : Option Attribution → Option Bool → Type 0
IsAttributed none l = Unit
IsAttributed (some a) l = is_some l ≡ true

pub record IsOrdered (c : Coordinator) : Type 0 where
  pub counted : (m : String) → IsCounted (get m c.attributions) (or_zero (get m c.revisions))
  pub known : (m : String) → IsAttributed (get m c.attributions) (locked_of (get m c.states))

-- An observation that was counted before it is merged.
abbrev pub IsMergeable : Step → Coordinator → Type 0
IsMergeable (merged mac (observed o)) c = o.attribution.revision ≤ or_zero (get mac c.revisions)
IsMergeable _ c = Unit

write-newer :
    (a : Option Attribution) (l : Option Bool) (n : ℕ) (b : Bool)
    → IsCounted a n
    → write (n + 1) b (shown a l) ≡ some (n + 1, b)
unfolding write
write-newer none l n b h = refl
write-newer (some a) none n b h = refl
write-newer (some a) (some old) n b h = ground arith

overtakes :
    (old : Option Attribution) (l : Option Bool) (a : Attribution) (b : Bool)
    → is_superseded old a ≡ false
    → write a.revision b (shown old l) ≡ some (a.revision, b)
unfolding write
overtakes none l a b h = refl
overtakes (some o) none a b h = refl
overtakes (some o) (some l) a b h = ground arith

stays :
    (old : Option Attribution) (l : Option Bool) (a : Attribution) (b : Bool)
    → is_superseded old a ≡ true
    → IsAttributed old l
    → write a.revision b (shown old l) ≡ shown old l
unfolding write
stays none l a b h k = ground arith
stays (some o) none a b h k = ground arith
stays (some o) (some l) a b h k = ground arith

module _ (m : String) where
  superseded :
      (mac : String) (l : Option Bool) (a : Attribution) (c : Coordinator)
      → IsOrdered c
      → is_superseded (get mac c.attributions) a ≡ true
      → write_for (observation_of mac a.revision l) m (register m c) ≡ register m c
  unfolding register
  superseded mac none a c p h = refl
  superseded mac (some b) a c p h = elim (Bool-cases (str_eq mac m)) [
    | inl here ↦ rw here (
        stays (get m c.attributions) (locked_of (get m c.states)) a b
          (subst (λ x. is_superseded (get x c.attributions) a ≡ true) ((eq_iff mac m).0 here) h)
          (p.known m))
    | inr away ↦ rw away refl
  ]

  pub register-publish :
      (mac : String) (locked : Bool) (battery : Option ℕ) (source : Source) (rssi : Option ℤ)
      (now : ℕ) (c : Coordinator)
      → IsOrdered c
      → register m (apply_authoritative_state mac locked battery source rssi now c)
        ≡ (if str_eq mac m then write (next_revision mac c) locked (register m c) else register m c)
  unfolding apply_authoritative_state next_attribution register next_revision
  register-publish mac locked battery source rssi now c p =
      simp get-put (elim (Bool-cases (str_eq mac m)) [
        | inl here ↦ rw here (
            sym (
              subst
                (λ x.
                  write (or_zero (get x c.revisions) + 1) locked (register m c)
                  ≡ some (or_zero (get x c.revisions) + 1, locked))
                (sym ((eq_iff mac m).0 here))
                (write-newer (get m c.attributions) (locked_of (get m c.states))
                  (or_zero (get m c.revisions)) locked (p.counted m))))
        | inr away ↦ rw away refl
      ])

  register-states :
      (mac : String) (s : Snapshot) (c : Coordinator)
      → s.locked ≡ locked_of (get mac c.states)
      → register m (record c { states = put mac s c.states }) ≡ register m c
  unfolding register
  register-states mac s c h = simp get-put (elim (Bool-cases (str_eq mac m)) [
    | inl here ↦ rw here (
        ap (shown (get m c.attributions))
          (h ∙ ap (λ x. locked_of (get x c.states)) ((eq_iff mac m).0 here)))
    | inr away ↦ rw away refl
  ])

  register-note :
      (mac : String) (a : Advertisement) (c : Coordinator)
      → register m (note_advertisement mac a c) ≡ register m c
  unfolding note_advertisement register
  register-note mac a c =
      register-states mac
        (record { locked = locked_of (get mac c.states); battery_level = some a.battery }) c refl

  pub register-advertise :
      (mac : String) (a : Advertisement) (c : Coordinator)
      → register m (apply_advertisement mac a c) ≡ register m c
  unfolding apply_advertisement request_active_state_refresh register
  register-advertise mac a c = ground (arith, register-note mac a c)

  default-register :
      (s : Option Snapshot) (mac : String) (c : Coordinator)
      → get mac c.states ≡ s
      → register m (default_for s mac c) ≡ register m c
  default-register none mac c h = register-states mac unknown_snapshot c (sym (ap locked_of h))
  default-register (some s) mac c h = refl

  pub register-default :
      (mac : String) (c : Coordinator) → register m (set_default mac c) ≡ register m c
  unfolding set_default
  register-default mac c = default-register (get mac c.states) mac c refl

  register-known :
      (mac : String) (l : Option Bool) (battery : Option ℕ) (a : Attribution) (c : Coordinator)
      → is_superseded (get mac c.attributions) a ≡ false
      → register m (
          merge_known mac
            (record { state = record { locked = l; battery_level = battery }; attribution = a })
            c)
        ≡ write_for (observation_of mac a.revision l) m (register m c)
  unfolding merge_known merge_state schedule_operation_log
  register-known mac none battery a c h = register-states mac _ c refl
  register-known mac (some b) battery a c h =
      unfold register in
      simp get-put (elim (Bool-cases (str_eq mac m)) [
        | inl here ↦ rw here (
            sym (
              overtakes (get m c.attributions) (locked_of (get m c.states)) a b (
                subst (λ x. is_superseded (get x c.attributions) a ≡ false) ((eq_iff mac m).0 here)
                  h)))
        | inr away ↦ rw away refl
      ])

  pub register-merge :
      (mac : String) (o : Observation) (c : Coordinator)
      → IsOrdered c
      → register m (merge_result mac (observed o) c)
        ≡ write_for (written_result mac (observed o)) m (register m c)
  unfolding merge_result
  register-merge mac o c p =
      elim (Bool-cases (is_superseded (get mac c.attributions) o.attribution)) [
        | inl old ↦ rw old (sym (superseded mac o.state.locked o.attribution c p old))
        | inr new ↦
            rw new (register-known mac o.state.locked o.state.battery_level o.attribution c new)
      ]
