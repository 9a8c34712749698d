-- ===== src/LockEntity/Settling.antt =====
-- The settle window of lock.py: after a command that succeeded, nothing but another one moves the bolt that
-- is shown.
use ha_ttlock_ble.Base.{
  ℕ, ◌+◌, ◌≤◌, ◌<◌, Bool, false, not, Option, none, some, List, [], ◌∷◌, ◌++◌, ◌≡◌, refl, ◌∙◌,
  arith, Bool-cases, inl, inr, All,
}
use ha_ttlock_ble.Base.Exec.{ok, err}
use ha_ttlock_ble.Base.Errors.{Exc}
use ha_ttlock_ble.Client.{Action}
use ha_ttlock_ble.Connection.State.{LockState}
use ha_ttlock_ble.Coordinator.State.{Source, from_command, query_after_push}
use ha_ttlock_ble.LockEntity.{
  Entity, Step, began, ended, pushed_hint, queried, synced, passed, removed, step, steps, is_lock,
  write_state_if_added, set_in_flight, clear_in_flight, set_authoritative_state, is_suppressed,
  sync_from_coordinator, handle_coordinator_update, publish, commanded, release, command_ended,
  query_applied, began_if, ended_if, is_locked_state, settle_window, differs,
}

-- Not the end of a command that succeeded.
abbrev pub IsQuiet : Step → Type 0
IsQuiet (ended (ok u)) = ⊥
IsQuiet _ = Unit

-- What a write leaves alone while the window is open.
record IsHeld (e d : Entity) : Type 0 where
  bolt : e.now < e.settle_until → d.is_locked ≡ e.is_locked
  window : d.settle_until ≡ e.settle_until
  clock : d.now ≡ e.now

IsHeld-refl : (e : Entity) → IsHeld e e
IsHeld-refl e = record { bolt = λ h. refl; window = refl; clock = refl }

IsHeld-trans : (e d f : Entity) → IsHeld e d → IsHeld d f → IsHeld e f
IsHeld-trans e d f p q = record {
  bolt = λ h. q.bolt (omega (arith, h, p.clock, p.window)) ∙ p.bolt h;
  window = q.window ∙ p.window;
  clock = q.clock ∙ p.clock;
}

write-IsHeld : (e : Entity) → IsHeld e (write_state_if_added e)
unfolding write_state_if_added
write-IsHeld e = record { bolt = λ h. ground arith; window = ground arith; clock = ground arith }

agreed : (b : Bool) (l : Option Bool) → differs b l ≡ false → some b ≡ l
agreed b none h = absurd (ground arith)
agreed b (some c) h = ground arith

taken-IsHeld :
    (b : Bool) (e : Entity) → is_suppressed b e ≡ false → IsHeld e (set_authoritative_state b e)
unfolding is_suppressed set_authoritative_state
taken-IsHeld b e t = record {
  bolt = λ h. agreed b e.is_locked (ground arith);
  window = refl;
  clock = refl;
}

sync-IsHeld : (l : Option Bool) (e : Entity) → IsHeld e (sync_from_coordinator l e)
unfolding sync_from_coordinator
sync-IsHeld none e = IsHeld-refl e
sync-IsHeld (some b) e = elim (Bool-cases (is_suppressed b e)) [
  | inl held ↦ rw held (IsHeld-refl e)
  | inr taken ↦ rw taken (taken-IsHeld b e taken)
]

update-IsHeld : (l : Option Bool) (e : Entity) → IsHeld e (handle_coordinator_update l e)
unfolding handle_coordinator_update
update-IsHeld l e =
    IsHeld-trans e (sync_from_coordinator l e) (write_state_if_added (sync_from_coordinator l e))
      (sync-IsHeld l e) (write-IsHeld (sync_from_coordinator l e))

publish-IsHeld :
    (b : Bool) (battery : Option ℕ) (source : Source) (e : Entity)
    → IsHeld e (publish b battery source e)
unfolding publish
publish-IsHeld b battery source e =
    let q = update-IsHeld (some b) (record e {
      published = e.published ++ record { locked = b; battery = battery; source = source } ∷ [];
    }) in
    record { bolt = q.bolt; window = q.window; clock = q.clock }

queried-IsHeld :
    (r : Option (Option LockState × Option ℕ)) (e : Entity) → IsHeld e (query_applied r e)
unfolding query_applied
queried-IsHeld none e = IsHeld-refl e
queried-IsHeld (some (none, battery)) e = IsHeld-refl e
queried-IsHeld (some (some raw, battery)) e =
    elim (Bool-cases (is_suppressed (is_locked_state raw) e)) [
      | inl held ↦ rw held (IsHeld-refl e)
      | inr taken ↦ rw taken (
          let d = set_authoritative_state (is_locked_state raw) e in
          IsHeld-trans e d
            (publish (is_locked_state raw) battery query_after_push (write_state_if_added d))
            (taken-IsHeld (is_locked_state raw) e taken)
            (IsHeld-trans d (write_state_if_added d)
              (publish (is_locked_state raw) battery query_after_push (write_state_if_added d))
              (write-IsHeld d)
              (publish-IsHeld (is_locked_state raw) battery query_after_push
                (write_state_if_added d))))
    ]

began-IsHeld : (r : Option Action) (a : Action) (e : Entity) → IsHeld e (began_if r a e)
unfolding set_in_flight
began-IsHeld none a e =
    let q =
      write-IsHeld
        (record e { running = some a; is_locking = is_lock a; is_unlocking = not (is_lock a) }) in
    record { bolt = q.bolt; window = q.window; clock = q.clock }
began-IsHeld (some b) a e = IsHeld-refl e

failed-IsHeld : (o : Option Action) (x : Exc) (e : Entity) → IsHeld e (ended_if o (err x) e)
unfolding command_ended release clear_in_flight
failed-IsHeld none x e = IsHeld-refl e
failed-IsHeld (some a) x e =
    let q = write-IsHeld (record e { running = none; is_locking = false; is_unlocking = false }) in
    record { bolt = q.bolt; window = q.window; clock = q.clock }

-- What a quiet step leaves alone while the window is open; time passes.
record IsSettled (e d : Entity) : Type 0 where
  bolt : e.now < e.settle_until → d.is_locked ≡ e.is_locked
  window : d.settle_until ≡ e.settle_until
  clock : e.now ≤ d.now

loosen : (e d : Entity) → IsHeld e d → IsSettled e d
loosen e d p = record { bolt = p.bolt; window = p.window; clock = omega (arith, p.clock) }

step-IsSettled : (s : Step) (e : Entity) → IsQuiet s → IsSettled e (step s e)
unfolding step
step-IsSettled (began a) e q = loosen e (began_if e.running a e) (began-IsHeld e.running a e)
step-IsSettled (ended (ok u)) e q = absurd q
step-IsSettled (ended (err x)) e q =
    loosen e (ended_if e.running (err x) e) (failed-IsHeld e.running x e)
step-IsSettled pushed_hint e q = record { bolt = λ h. refl; window = refl; clock = omega arith }
step-IsSettled (queried r) e q = loosen e (query_applied r e) (queried-IsHeld r e)
step-IsSettled (synced l) e q = loosen e (handle_coordinator_update l e) (update-IsHeld l e)
step-IsSettled (passed n) e q = record { bolt = λ h. refl; window = refl; clock = omega arith }
step-IsSettled removed e q = record { bolt = λ h. refl; window = refl; clock = omega arith }

settled-steps :
    (ss : List Step) (e : Entity)
    → All IsQuiet ss
    → ((steps ss e).now < e.settle_until → (steps ss e).is_locked ≡ e.is_locked)
      × (e.now ≤ (steps ss e).now)
unfolding steps
settled-steps [] e q = (λ h. refl, omega arith)
settled-steps (s ∷ ss) e q =
    let p = step-IsSettled s e q.0 in
    let rest = settled-steps ss (step s e) q.1 in
    (
      λ h. rest.0 (omega (arith, h, p.window)) ∙ p.bolt (omega (arith, h, rest.1, p.clock)),
      omega (arith, rest.1, p.clock),
    )

commanded-bolt :
    (a : Action) (e : Entity)
    → ((commanded a e).is_locked ≡ some (is_lock a))
      × ((commanded a e).settle_until ≡ e.now + 4000)
      × ((commanded a e).now ≡ e.now)
unfolding commanded set_authoritative_state settle_window
commanded-bolt a e =
    let d = record e { is_locked = some (is_lock a); settle_until = e.now + 4000 } in
    let q = publish-IsHeld (is_lock a) none from_command d in
    (q.bolt (omega arith), q.window, q.clock)

ended-bolt :
    (a : Action) (e : Entity)
    → ((command_ended a (ok tt) e).is_locked ≡ some (is_lock a))
      × ((command_ended a (ok tt) e).settle_until ≡ e.now + 4000)
      × ((command_ended a (ok tt) e).now ≡ e.now)
unfolding command_ended release clear_in_flight
ended-bolt a e =
    let c = commanded a e in
    let q = write-IsHeld (record c { running = none; is_locking = false; is_unlocking = false }) in
    let k = commanded-bolt a e in
    (q.bolt (omega (arith, k.1, k.2)) ∙ k.0, q.window ∙ k.1, q.clock ∙ k.2)

-- After a command that succeeded, the entity shows the commanded state for four seconds, whatever is
-- read, polled, pushed or fails meanwhile, unless another command succeeds.
pub command_ended-steps :
    (a : Action) (ss : List Step) (e : Entity)
    → All IsQuiet ss
    → (steps ss (command_ended a (ok tt) e)).now < e.now + 4000
    → (steps ss (command_ended a (ok tt) e)).is_locked ≡ some (is_lock a)
command_ended-steps a ss e q h =
    let k = ended-bolt a e in
    (settled-steps ss (command_ended a (ok tt) e) q).0 (omega (arith, h, k.1)) ∙ k.0
