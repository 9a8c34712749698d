-- ===== src/LockEntity.antt =====
-- custom_components/ttlock_ble/lock.py: the lock entity, its transitional states, and which reading of the
-- bolt it shows. Times are milliseconds on the monotonic clock.
pub mod Flags
pub mod Settling
use ha_ttlock_ble.Base.{
  ℕ, suc, ◌+◌, String, Bool, true, false, not, ◌&&◌, Option, none, some, List, [], ◌∷◌, ◌++◌, ltb,
  if◌then◌else◌, bool_eq,
}
use ha_ttlock_ble.Base.Errors.{Exc, is_ttlock}
use ha_ttlock_ble.Base.Exec.{Result, ok, err}
use ha_ttlock_ble.Client.{Action, lock, unlock}
use ha_ttlock_ble.Connection.State.{LockState, locked, unlocked}
use ha_ttlock_ble.Coordinator.State.{Source, from_command, query_after_push}

-- What Home Assistant is told of the entity.
pub record Shown : Type 0 where
  pub is_locked : Option Bool
  pub is_locking : Bool
  pub is_unlocking : Bool

-- A call of the coordinator's `async_apply_authoritative_state`.
pub record Publication : Type 0 where
  pub locked : Bool
  pub battery : Option ℕ
  pub source : Source

-- The tasks that the entity starts.
pub data Tracked : Type 0 where
  query_state_task fetch_log_task : Tracked

-- How a command ends for the caller: with `HomeAssistantError`, or with the exception as it came.
pub data Ending : Type 0 where
  returned : Ending
  home_assistant_error : Ending
  passed_on : Exc → Ending

-- The fields of `TtlockBleLock`. `running` is the command that holds `_command_lock`; `shown` and
-- `published` list what was told, `endings` how the commands ended.
pub record Entity : Type 0 where
  pub is_locked : Option Bool
  pub is_locking : Bool
  pub is_unlocking : Bool
  pub settle_until : ℕ
  pub running : Option Action
  pub added : Bool
  pub now : ℕ
  pub shown : List Shown
  pub published : List Publication
  pub tasks : List Tracked
  pub refreshes : ℕ
  pub endings : List Ending

abbrev pub current : Entity → Shown
current e = record {
  is_locked = e.is_locked;
  is_locking = e.is_locking;
  is_unlocking = e.is_unlocking;
}

-- `_write_state_if_added`
unfoldable pub write_state_if_added : Entity → Entity
write_state_if_added e = if e.added then record e { shown = e.shown ++ current e ∷ [] } else e

abbrev pub is_lock : Action → Bool
is_lock lock = true
is_lock unlock = false

unfoldable pub set_in_flight : Action → Entity → Entity
unfolding write_state_if_added
set_in_flight a e =
    write_state_if_added (record e { is_locking = is_lock a; is_unlocking = not (is_lock a) })

unfoldable pub clear_in_flight : Entity → Entity
clear_in_flight e = record e { is_locking = false; is_unlocking = false }

unfoldable pub set_authoritative_state : Bool → Entity → Entity
set_authoritative_state b e = record e { is_locked = some b }

abbrev pub differs : Bool → Option Bool → Bool
differs b none = true
differs b (some c) = not (bool_eq b c)

-- The settle window: a reading that disagrees is held back.
unfoldable pub is_suppressed : Bool → Entity → Bool
is_suppressed b e = ltb e.now e.settle_until && differs b e.is_locked

-- `_sync_from_coordinator`, with what the coordinator knows of the bolt
unfoldable pub sync_from_coordinator : Option Bool → Entity → Entity
unfolding is_suppressed set_authoritative_state
sync_from_coordinator none e = e
sync_from_coordinator (some b) e = if is_suppressed b e then e else set_authoritative_state b e

-- `_handle_coordinator_update`
unfoldable pub handle_coordinator_update : Option Bool → Entity → Entity
unfolding sync_from_coordinator write_state_if_added
handle_coordinator_update l e = write_state_if_added (sync_from_coordinator l e)

-- The coordinator takes the state over and tells its listeners, this entity among them.
unfoldable pub publish : Bool → Option ℕ → Source → Entity → Entity
unfolding handle_coordinator_update
publish b battery source e = handle_coordinator_update (some b) (record e {
  published = e.published ++ record { locked = b; battery = battery; source = source } ∷ [];
})

abbrev pub is_locked_state : LockState → Bool
is_locked_state locked = true
is_locked_state unlocked = false

unfoldable pub settle_window : ℕ
settle_window = 4000

-- the `else` clause of a command that succeeded
unfoldable pub commanded : Action → Entity → Entity
unfolding set_authoritative_state publish settle_window
commanded a e =
    let settled = record (set_authoritative_state (is_lock a) e) {
      settle_until = e.now + settle_window;
    } in
    publish (is_lock a) none from_command settled

-- the `finally` clause, and the release of `_command_lock`
unfoldable pub release : Entity → Entity
unfolding clear_in_flight write_state_if_added
release e = write_state_if_added (clear_in_flight (record e { running = none }))

unfoldable pub ending_of : Exc → Ending
ending_of e = if is_ttlock e then home_assistant_error else passed_on e

-- `_async_run_command` after the connection's answer
unfoldable pub command_ended : Action → Result (Unit {0}) → Entity → Entity
unfolding commanded release ending_of
command_ended a (ok u) e =
    let done = release (commanded a e) in
    record done {
      tasks = done.tasks ++ fetch_log_task ∷ [];
      refreshes = suc done.refreshes;
      endings = done.endings ++ returned ∷ [];
    }
command_ended a (err x) e =
    let done = release e in record done { endings = done.endings ++ ending_of x ∷ [] }

-- `_async_query_and_apply` after its query
unfoldable pub query_applied : Option (Option LockState × Option ℕ) → Entity → Entity
unfolding is_suppressed set_authoritative_state write_state_if_added publish
query_applied none e = e
query_applied (some (none, battery)) e = e
query_applied (some (some raw, battery)) e =
    if is_suppressed (is_locked_state raw) e
    then e
    else publish (is_locked_state raw) battery query_after_push
        (write_state_if_added (set_authoritative_state (is_locked_state raw) e))

-- What happens to an entity: whatever does not await is one step.
pub data Step : Type 0 where
  began : Action → Step
  ended : Result (Unit {0}) → Step
  pushed_hint : Step
  queried : Option (Option LockState × Option ℕ) → Step
  synced : Option Bool → Step
  passed : ℕ → Step
  removed : Step

-- A command begins only when no other holds the command lock, and ends only when it runs.
abbrev pub began_if : Option Action → Action → Entity → Entity
began_if none a e = set_in_flight a (record e { running = some a })
began_if (some b) a e = e

abbrev pub ended_if : Option Action → Result (Unit {0}) → Entity → Entity
ended_if none r e = e
ended_if (some a) r e = command_ended a r e

unfoldable pub step : Step → Entity → Entity
unfolding set_in_flight command_ended query_applied handle_coordinator_update
step (began a) e = began_if e.running a e
step (ended r) e = ended_if e.running r e
step pushed_hint e = record e { tasks = e.tasks ++ query_state_task ∷ [] }
step (queried r) e = query_applied r e
step (synced l) e = handle_coordinator_update l e
step (passed n) e = record e { now = e.now + n }
step removed e = record e { added = false }

unfoldable pub steps : List Step → Entity → Entity
steps [] e = e
steps (s ∷ ss) e = steps ss (step s e)
