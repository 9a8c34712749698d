-- ===== src/LockEntity/Flags.antt =====
-- What the entity of lock.py shows while a command runs, and after it.
use ha_ttlock_ble.Base.{
  ℕ, Bool, true, false, not, Option, none, some, List, [], ◌∷◌, ◌++◌, if◌then◌else◌, ◌≡◌, refl,
  arith, Bool-cases, inl, inr,
}
use ha_ttlock_ble.Base.Exec.{Result, ok, err}
use ha_ttlock_ble.Client.{Action}
use ha_ttlock_ble.Connection.State.{LockState}
use ha_ttlock_ble.Coordinator.State.{query_after_push}
use ha_ttlock_ble.LockEntity.{
  Entity, Shown, Step, began, ended, pushed_hint, queried, synced, passed, removed, step, steps,
  current, is_lock, write_state_if_added, set_in_flight, clear_in_flight, set_authoritative_state,
  is_suppressed, sync_from_coordinator, handle_coordinator_update, publish, commanded, release,
  command_ended, query_applied, began_if, ended_if, is_locked_state,
}

-- The transitional state is that of the command that runs.
abbrev pub Flies : Option Action → Bool → Bool → Type 0
Flies none locking unlocking = (locking ≡ false) × (unlocking ≡ false)
Flies (some a) locking unlocking = (locking ≡ is_lock a) × (unlocking ≡ not (is_lock a))

-- The last state that was told is the entity's own.
abbrev pub EndsWith : Shown → List Shown → Type 0
EndsWith s [] = Unit
EndsWith s (t ∷ []) = t ≡ s
EndsWith s (t ∷ u ∷ l) = EndsWith s (u ∷ l)

EndsWith-append : (s : Shown) (l : List Shown) → EndsWith s (l ++ s ∷ [])
EndsWith-append s [] = refl
EndsWith-append s (t ∷ []) = refl
EndsWith-append s (t ∷ u ∷ l) = EndsWith-append s (u ∷ l)

pub record IsFlown (e : Entity) : Type 0 where
  pub flies : Flies e.running e.is_locking e.is_unlocking
  pub told : e.added ≡ true → EndsWith (current e) e.shown

written :
    (b : Bool) (e : Entity)
    → b ≡ e.added
    → Flies e.running e.is_locking e.is_unlocking
    → IsFlown (if b then record e { shown = e.shown ++ current e ∷ [] } else e)
written true e q f = record { flies = f; told = λ h. EndsWith-append (current e) e.shown }
written false e q f = record { flies = f; told = λ h. absurd (ground arith) }

-- after a write, what was told is up to date
write-IsFlown :
    (e : Entity) → Flies e.running e.is_locking e.is_unlocking → IsFlown (write_state_if_added e)
unfolding write_state_if_added
write-IsFlown e f = written e.added e refl f

-- the fields that the flags are about
abbrev SameFlags : Entity → Entity → Type 0
SameFlags e d =
    (d.running ≡ e.running) × (d.is_locking ≡ e.is_locking) × (d.is_unlocking ≡ e.is_unlocking)

Flies-same :
    (e d : Entity)
    → SameFlags e d
    → Flies e.running e.is_locking e.is_unlocking
    → Flies d.running d.is_locking d.is_unlocking
Flies-same e d s f = rw (s.0, s.1, s.2) f

sync-same : (l : Option Bool) (e : Entity) → SameFlags e (sync_from_coordinator l e)
unfolding sync_from_coordinator set_authoritative_state
sync-same none e = (refl, refl, refl)
sync-same (some b) e = ground arith

update-IsFlown :
    (l : Option Bool) (e : Entity)
    → Flies e.running e.is_locking e.is_unlocking
    → IsFlown (handle_coordinator_update l e)
unfolding handle_coordinator_update
update-IsFlown l e f =
    write-IsFlown (sync_from_coordinator l e)
      (Flies-same e (sync_from_coordinator l e) (sync-same l e) f)

began-IsFlown :
    (r : Option Action) (a : Action) (e : Entity)
    → r ≡ e.running
    → IsFlown e
    → IsFlown (began_if r a e)
unfolding set_in_flight
began-IsFlown none a e h p =
    write-IsFlown
      (record e { running = some a; is_locking = is_lock a; is_unlocking = not (is_lock a) })
      (refl, refl)
began-IsFlown (some b) a e h p = p

release-IsFlown : (e : Entity) → IsFlown (release e)
unfolding release clear_in_flight
release-IsFlown e =
    write-IsFlown (record e { running = none; is_locking = false; is_unlocking = false })
      (refl, refl)

command-IsFlown : (a : Action) (r : Result (Unit {0})) (e : Entity) → IsFlown (command_ended a r e)
unfolding command_ended
command-IsFlown a (ok u) e =
    let q = release-IsFlown (commanded a e) in record { flies = q.flies; told = q.told }
command-IsFlown a (err x) e = let q = release-IsFlown e in record { flies = q.flies; told = q.told }

ended-IsFlown :
    (o : Option Action) (r : Result (Unit {0})) (e : Entity) → IsFlown e → IsFlown (ended_if o r e)
ended-IsFlown none r e p = p
ended-IsFlown (some a) r e p = command-IsFlown a r e

queried-IsFlown :
    (r : Option (Option LockState × Option ℕ)) (e : Entity)
    → IsFlown e
    → IsFlown (query_applied r e)
unfolding query_applied publish set_authoritative_state
queried-IsFlown none e p = p
queried-IsFlown (some (none, battery)) e p = p
queried-IsFlown (some (some raw, battery)) e p =
    elim (Bool-cases (is_suppressed (is_locked_state raw) e)) [
      | inl held ↦ rw held p
      | inr taken ↦ rw taken (
          let w = write_state_if_added (record e { is_locked = some (is_locked_state raw) }) in
          let q = write-IsFlown (record e { is_locked = some (is_locked_state raw) }) p.flies in
          update-IsFlown (some (is_locked_state raw))
            (record w {
              published =
                  w.published
                  ++ record {
                    locked = is_locked_state raw;
                    battery = battery;
                    source = query_after_push;
                  }
                    ∷ [];
            })
            q.flies)
    ]

step-IsFlown : (s : Step) (e : Entity) → IsFlown e → IsFlown (step s e)
unfolding step
step-IsFlown (began a) e p = began-IsFlown e.running a e refl p
step-IsFlown (ended r) e p = ended-IsFlown e.running r e p
step-IsFlown pushed_hint e p = record { flies = p.flies; told = p.told }
step-IsFlown (queried r) e p = queried-IsFlown r e p
step-IsFlown (synced l) e p = update-IsFlown l e p.flies
step-IsFlown (passed n) e p = record { flies = p.flies; told = p.told }
step-IsFlown removed e p = record { flies = p.flies; told = λ h. absurd (ground arith) }

-- Over any steps, the entity shows the transitional state of the command that runs and none when none
-- runs, and while it is added the last state that was told is its own.
pub IsFlown-steps : (ss : List Step) (e : Entity) → IsFlown e → IsFlown (steps ss e)
unfolding steps
IsFlown-steps [] e p = p
IsFlown-steps (s ∷ ss) e p = IsFlown-steps ss (step s e) (step-IsFlown s e p)
