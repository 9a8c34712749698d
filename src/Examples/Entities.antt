-- ===== src/Examples/Entities.antt =====
-- The properties of the coordinator, the lock entity and the private records at one lock.
use ha_ttlock_ble.Base.{◌+◌, ◌<◌, true, false, none, some, List, [], ◌∷◌, ◌≡◌, refl, arith}
use ha_ttlock_ble.Base.Texts.{get, distinct}
use ha_ttlock_ble.Base.Errors.{timeout}
use ha_ttlock_ble.Base.Exec.{ok, err}
use ha_ttlock_ble.Client.{lock}
use ha_ttlock_ble.Connection.State.{unlocked}
use ha_ttlock_ble.Coordinator.State.{
  Coordinator, Advertisement, poll_answered, from_command, has_state,
}
use ha_ttlock_ble.Coordinator.Steps.{Step, answered, published, advertised, merged, step, steps}
use ha_ttlock_ble.Coordinator.Register.{IsOrdered, register}
use ha_ttlock_ble.Coordinator.Newest.{AreMergeable, writes, register-steps}
use ha_ttlock_ble.Coordinator.Known.{poll_answered-IsMergeable}
use ha_ttlock_ble.Coordinator.Tasks.{IsSingle}
use ha_ttlock_ble.LockEntity
use ha_ttlock_ble.LockEntity.{
  Entity, began, ended, queried, synced, passed, command_ended, query_applied, is_suppressed,
  set_authoritative_state, write_state_if_added, publish, handle_coordinator_update,
  sync_from_coordinator, commanded, settle_window, release, clear_in_flight,
}
use ha_ttlock_ble.LockEntity.Flags.{IsFlown, IsFlown-steps}
use ha_ttlock_ble.LockEntity.Settling.{command_ended-steps}

abbrev pub door : Coordinator
door = record {
  macs = "door" ∷ [];
  states = [];
  attributions = [];
  revisions = [];
  hints = [];
  new_records = [];
  requested = [];
  log_tasks = [];
  retry_tasks = [];
  refreshes = 0;
  notified = 0;
}

door-IsOrdered : IsOrdered door
unfolding get
door-IsOrdered = record { counted = λ m. tt; known = λ m. tt }

abbrev pub beacon : Advertisement
beacon = record { lock_state = true; has_new_records = true; battery = 70 }

-- a poll answers, a command overtakes it, and then the poll is merged
abbrev overtaken : List Step
overtaken =
    answered "door" (some (some 1, some 80)) none 5
    ∷ published "door" true none from_command none 6
    ∷ merged "door" (poll_answered "door" (some (some 1, some 80)) none 5 door).0
    ∷ advertised "door" beacon
    ∷ []

overtaken-AreMergeable : AreMergeable overtaken door
unfolding step steps
overtaken-AreMergeable = (
  tt,
  (
    tt,
    (
      poll_answered-IsMergeable "door" (some (some 1, some 80)) none 5
          (published "door" true none from_command none 6 ∷ []) door,
      (tt, tt),
    ),
  ),
)

register-steps_example :
    (register "door" (steps overtaken door) ≡ writes "door" overtaken door (register "door" door))
    × IsOrdered (steps overtaken door)
register-steps_example = register-steps "door" overtaken door overtaken-AreMergeable door-IsOrdered

abbrev known_door : Coordinator
known_door = record door {
  states = ("door", record { locked = some true; battery_level = none }) ∷ [];
}

known_door-has_state : has_state "door" known_door ≡ true
unfolding has_state get
known_door-has_state = refl

door-IsSingle : IsSingle door
unfolding distinct
door-IsSingle = record { logs = refl; retries = refl }

abbrev bolt : Entity
bolt = record {
  is_locked = none;
  is_locking = false;
  is_unlocking = false;
  settle_until = 0;
  running = none;
  added = true;
  now = 100;
  shown = [];
  published = [];
  tasks = [];
  refreshes = 0;
  endings = [];
}

bolt-IsFlown : IsFlown bolt
bolt-IsFlown = record { flies = (refl, refl); told = λ h. tt }

IsFlown-steps_example :
    IsFlown (LockEntity.steps (began lock ∷ synced (some true) ∷ ended (err timeout) ∷ []) bolt)
IsFlown-steps_example =
    IsFlown-steps (began lock ∷ synced (some true) ∷ ended (err timeout) ∷ []) bolt bolt-IsFlown

abbrev contrary : List LockEntity.Step
contrary = queried (some (some unlocked, some 70)) ∷ passed 100 ∷ synced (some false) ∷ []

contrary-in_time : (LockEntity.steps contrary (command_ended lock (ok tt) bolt)).now < 100 + 4000
unfolding LockEntity.steps LockEntity.step command_ended query_applied is_suppressed
    set_authoritative_state write_state_if_added publish handle_coordinator_update
    sync_from_coordinator commanded settle_window release clear_in_flight
contrary-in_time = omega arith

command_ended-steps_example :
    (LockEntity.steps contrary (command_ended lock (ok tt) bolt)).is_locked ≡ some true
command_ended-steps_example =
    command_ended-steps lock contrary bolt (tt, (tt, (tt, tt))) contrary-in_time
