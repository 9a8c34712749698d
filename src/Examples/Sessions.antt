-- ===== src/Examples/Sessions.antt =====
-- The properties of the BLE session at one lock.
use ha_ttlock_ble.Base.{ℕ, true, false, none, some, List, [], ◌++◌, ◌≡◌, refl, arith}
use ha_ttlock_ble.Base.Errors.{outcome_unknown}
use ha_ttlock_ble.Base.Exec.Triple.{Post}
use ha_ttlock_ble.Client.{lock, control, Play}
use ha_ttlock_ble.Client.Gate.{gate_closed}
use ha_ttlock_ble.Client.Outcome.{Verdict, writes, is_known_failure, control-Verdict, IsDocumented}
use ha_ttlock_ble.Connection.State.{Conn, OwnedClient, Candidate, explicit_control, scanner_path}
use ha_ttlock_ble.Connection.Cleanup.{disconnect}
use ha_ttlock_ble.Connection.Teardown.{IsIdle, Cancelled}
use ha_ttlock_ble.Connection.Certain.{TornDown, TearCancelled}
use ha_ttlock_ble.Connection.Torn.{disconnect-Torn}
use ha_ttlock_ble.Connection.Ownership.{IsOwned}
use ha_ttlock_ble.Connection.Acquire.{ensure_connected, acquire_loop}
use ha_ttlock_ble.Connection.Connecting.{Acquired}
use ha_ttlock_ble.Connection.Acquiring.{ensure_connected-Acquired}
use ha_ttlock_ble.Connection.Rounds.{acquire_loop-rounds}
use ha_ttlock_ble.Connection.Signals.{IsCurrent, ensure_connected-IsCurrent}
use ha_ttlock_ble.Connection.Command.{run_command, run_control_task, reconcile}
use ha_ttlock_ble.Connection.Command.Sent.{Sent, Failed}
use ha_ttlock_ble.Connection.Command.Waiting.{run_control_task-Triple}
use ha_ttlock_ble.Connection.Command.Resolved.{Wired, Matched, Reraised, reconcile-Triple}
use ha_ttlock_ble.Connection.Command.Ending.{Confirmed, Refused, run_command-Confirmed}
use ha_ttlock_ble.Connection.Requests.{run_management_command, get_operation_log, stop}
use ha_ttlock_ble.Connection.Requests.Promises.{
  Managed, Unstopped, run_management_command-Managed, stop-IsIdle,
}
use ha_ttlock_ble.Connection.Requests.Dispatch.{Logged, logs_of, get_operation_log-Logged}
use ha_ttlock_ble.Connection.Inventory.{read_access_inventory}
use ha_ttlock_ble.Connection.Inventory.Closing.{
  Concluded, ReadRefused, read_access_inventory-Concluded,
}
use ha_ttlock_ble.Examples.Session.{
  codes, clean, played, house, idle, idle-IsOwned, idle-IsAnnounced, documented,
}
use ha_ttlock_ble.Examples.Journals.{label}

abbrev NothingWritten : List ℕ → Type 0
NothingWritten w = w ≡ []

abbrev phone : OwnedClient
phone = record { generation = 1; device = 5; connect_attempts = 3 }

abbrev route : Candidate
route = record {
  device = 5;
  resolution = scanner_path;
  source = "scanner";
  rssi = none;
  advertisement_time = none;
}

run_command-Confirmed_example :
    Post
      (λ _. Confirmed (house true) lock [])
      (Refused (house true) lock [])
      (run_command (house true) lock idle)
run_command-Confirmed_example =
    (run_command-Confirmed (house true) lock [] (documented true)).at idle (idle-IsOwned, refl)

run_control_task-Triple_example :
    Post
      (λ _. Sent (house true) 0 lock [])
      (Failed (house true) 0 lock [])
      (run_control_task (house true) lock idle)
run_control_task-Triple_example =
    (run_control_task-Triple (house true) 0 lock [] (documented true)).at idle
      ((idle-IsOwned, refl), refl)

reconcile-Triple_example :
    Post
      (λ _ c. Wired NothingWritten c × Matched (house true) lock)
      (Reraised (house true) lock NothingWritten (outcome_unknown false [] false))
      (reconcile (house true) lock phone (outcome_unknown false [] false) idle)
reconcile-Triple_example =
    (reconcile-Triple (house true) lock NothingWritten phone (outcome_unknown false [] false)).at
      idle (idle-IsOwned, refl)

control-Verdict_example :
    let (r, t) = control codes lock (played true 88) clean in Verdict 88 0 r t × (t.active ≡ false)
control-Verdict_example = control-Verdict codes lock (played true 88) clean (documented true 0)

abbrev shut : Play
shut = record (played false 88) { allowed_before_control = false }

shut-IsDocumented : IsDocumented codes 88 shut
shut-IsDocumented = record {
  apart = (documented false 0).apart;
  handshake = (documented false 0).handshake;
  exchange = (documented false 0).exchange;
  queued_plain = refl;
  handshake_plain = refl;
  exchange_plain = refl;
}

gate_closed_example :
    let (r, t) = control codes lock shut clean in (writes 88 t ≡ 0) × (is_known_failure r ≡ true)
gate_closed_example = gate_closed codes lock shut clean shut-IsDocumented refl refl

ensure_connected-Acquired_example :
    Post Acquired Cancelled (ensure_connected (house false) true explicit_control idle)
ensure_connected-Acquired_example =
    (ensure_connected-Acquired (house false) true explicit_control).at idle idle-IsOwned

acquire_loop-rounds_example :
    acquire_loop (house false) 5 true false 60000 (some route) idle
    ≡ acquire_loop (house false) 2 true false 60000 (some route) idle
acquire_loop-rounds_example = acquire_loop-rounds (house false) true 60000 3 false (some route) idle

abbrev linked : Conn
linked = record idle {
  client = some phone;
  owned_client_generation = some 1;
  next_client_generation = 1;
  broadcast_connected = true;
}

linked-IsOwned : IsOwned linked
linked-IsOwned = ground arith

disconnect-Torn_example :
    Post
      (TornDown (house false) (some phone))
      (TearCancelled (house false) (some phone))
      (disconnect (house false) linked)
disconnect-Torn_example =
    (disconnect-Torn (house false) (some phone)).at linked (linked-IsOwned, refl)

ensure_connected-IsCurrent_example :
    Post
      (λ _. IsCurrent)
      (λ _. IsCurrent)
      (ensure_connected (house false) true explicit_control idle)
ensure_connected-IsCurrent_example =
    (ensure_connected-IsCurrent (house false) true explicit_control).at idle
      (idle-IsOwned, idle-IsAnnounced)

run_management_command-Managed_example :
    Post
      (λ _. Wired NothingWritten)
      (Managed (house false) NothingWritten)
      (run_management_command (house false) true idle)
run_management_command-Managed_example =
    (run_management_command-Managed (house false) NothingWritten true).at idle (idle-IsOwned, refl)

get_operation_log-Logged_example :
    Post
      (λ es c. logs_of c.signals ≡ [] ++ es)
      (λ _. Logged (house false) [])
      (get_operation_log (house false) label "lock" idle)
get_operation_log-Logged_example =
    (get_operation_log-Logged (house false) [] label "lock").at idle refl

stop-IsIdle_example : Post (λ _. IsIdle) (Unstopped (house false)) (stop (house false) idle)
stop-IsIdle_example = (stop-IsIdle (house false)).at idle idle-IsOwned

read_access_inventory-Concluded_example :
    Post
      (λ _. Concluded)
      (ReadRefused (house false))
      (read_access_inventory (house false) false linked)
read_access_inventory-Concluded_example =
    (read_access_inventory-Concluded (house false) false).at linked linked-IsOwned
