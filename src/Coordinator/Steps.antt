-- ===== src/Coordinator/Steps.antt =====
-- How coordinator.py merges the answers of a poll, the tasks that it starts, and its steps between two awaits.
use ha_ttlock_ble.Base.{
  ℕ, zero, suc, String, Bool, true, false, Option, none, some, is_some, List, [], ◌∷◌, leb,
  if◌then◌else◌,
}
use ha_ttlock_ble.Base.Int.{ℤ}
use ha_ttlock_ble.Base.Texts.{add, get, put, discard}
use ha_ttlock_ble.Coordinator.State.{
  Source, Attribution, Snapshot, Observation, PollResult, Advertisement, Coordinator, locked_of,
  battery_of, or_else, has_state, request_active_state_refresh, apply_authoritative_state,
  apply_advertisement, begin_update, poll_answered, poll_raised, no_answer, observed,
}

abbrev pub unknown_snapshot : Snapshot
unknown_snapshot = record { locked = none; battery_level = none }

abbrev pub default_for : Option Snapshot → String → Coordinator → Coordinator
default_for none mac c = record c { states = put mac unknown_snapshot c.states }
default_for (some s) mac c = c

-- state.setdefault(mac, …)
unfoldable pub set_default : String → Coordinator → Coordinator
set_default mac c = default_for (get mac c.states) mac c

-- `_async_schedule_bootstrap_retry`: a lock without a state has at most one retry task
unfoldable pub schedule_bootstrap_retry : String → Coordinator → Coordinator
unfolding has_state
schedule_bootstrap_retry mac c =
    if has_state mac c then c else record c { retry_tasks = add mac c.retry_tasks }

-- `_async_schedule_operation_log`
unfoldable pub schedule_operation_log : String → Coordinator → Coordinator
schedule_operation_log mac c = record c { log_tasks = add mac c.log_tasks }

abbrev pub is_superseded : Option Attribution → Attribution → Bool
is_superseded none a = false
is_superseded (some latest) a = leb a.revision latest.revision

unfoldable pub merge_state : String → Snapshot → Coordinator → Coordinator
merge_state mac reading c = record c {
  states =
      put mac
        (record {
          locked = or_else reading.locked (locked_of (get mac c.states));
          battery_level = or_else reading.battery_level (battery_of (get mac c.states));
        })
        c.states;
}

unfoldable pub merge_known : String → Observation → Coordinator → Coordinator
unfolding merge_state schedule_operation_log
merge_known mac o c =
    let d = merge_state mac o.state c in
    if is_some o.state.locked
    then schedule_operation_log mac
        (record d { attributions = put mac o.attribution d.attributions })
    else d

-- The loop over the results in `_async_update_data`, for one lock: it does not await, so the new states are
-- the old ones with this lock's written over.
unfoldable pub merge_result : String → PollResult → Coordinator → Coordinator
unfolding set_default schedule_bootstrap_retry merge_known
merge_result mac poll_raised c = schedule_bootstrap_retry mac (set_default mac c)
merge_result mac no_answer c = schedule_bootstrap_retry mac (set_default mac c)
merge_result mac (observed o) c =
    if is_superseded (get mac c.attributions) o.attribution then c else merge_known mac o c

-- A task's callback drops it from its map.
unfoldable pub log_task_done : String → Coordinator → Coordinator
log_task_done mac c = record c { log_tasks = discard mac c.log_tasks }

unfoldable pub retry_task_done : String → Coordinator → Coordinator
retry_task_done mac c = record c { retry_tasks = discard mac c.retry_tasks }

-- `async_shutdown`
unfoldable pub shut_down : Coordinator → Coordinator
shut_down c = record c { log_tasks = []; retry_tasks = [] }

-- BOOTSTRAP_RETRY_DELAYS_SECONDS
unfoldable pub bootstrap_delay : ℕ → ℕ
bootstrap_delay zero = 60
bootstrap_delay (suc zero) = 120
bootstrap_delay (suc (suc n)) = 300

-- One turn of `_async_retry_unknown_state` after its sleep: whether it goes on.
unfoldable pub retry_turn : String → Coordinator → Bool × Coordinator
unfolding has_state request_active_state_refresh
retry_turn mac c =
    if has_state mac c
    then (false, c)
    else (let d = request_active_state_refresh mac c in
        (true, record d { refreshes = suc d.refreshes }))

-- What happens to a coordinator, step by step: whatever does not await is one step.
pub data Step : Type 0 where
  updated : Step
  answered : (mac : String) → Option (Option ℕ × Option ℕ) → Option ℤ → (now : ℕ) → Step
  published :
      (mac : String) → (locked : Bool) → (battery : Option ℕ) → Source → Option ℤ → (now : ℕ) → Step
  advertised : (mac : String) → Advertisement → Step
  merged : (mac : String) → PollResult → Step
  refresh_asked : (mac : String) → Step
  log_done retry_done : (mac : String) → Step
  retried : (mac : String) → Step
  stopped : Step

unfoldable pub step : Step → Coordinator → Coordinator
unfolding begin_update poll_answered apply_authoritative_state apply_advertisement merge_result
    request_active_state_refresh log_task_done retry_task_done retry_turn shut_down
step updated c = (begin_update c).1
step (answered mac answer rssi now) c = (poll_answered mac answer rssi now c).1
step (published mac locked battery source rssi now) c =
    apply_authoritative_state mac locked battery source rssi now c
step (advertised mac a) c = apply_advertisement mac a c
step (merged mac r) c = merge_result mac r c
step (refresh_asked mac) c = request_active_state_refresh mac c
step (log_done mac) c = log_task_done mac c
step (retry_done mac) c = retry_task_done mac c
step (retried mac) c = (retry_turn mac c).1
step stopped c = shut_down c

unfoldable pub steps : List Step → Coordinator → Coordinator
steps [] c = c
steps (s ∷ ss) c = steps ss (step s c)
