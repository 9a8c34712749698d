-- ===== src/Connection/State.antt =====
-- The state of `TtlockBleConnection` (connection.py), what it awaits of Home Assistant and of the SDK,
-- and what may run while it awaits. Times are milliseconds on the monotonic clock.
use ha_ttlock_ble.Base.{
  ℕ, suc, ◌+◌, ◌-◌, String, Bool, true, false, Option, none, some, List, [], ◌∷◌, ◌++◌, ◌==◌,
  if◌then◌else◌, bool_eq,
}
use ha_ttlock_ble.Base.Int.{ℤ}
use ha_ttlock_ble.Base.Errors.{Exc, AccessFailure, Stage}
use ha_ttlock_ble.Base.Exec.{Exec, Result, ok}
use ha_ttlock_ble.Client.{Action, Commands, Play, Tracking}
use ha_ttlock_ble.LogHistory.{LogEntry, History}

pub data Intent : Type 0 where
  explicit_control routine_query unknown_bootstrap management : Intent
  inventory_intent ambiguous_reconciliation operation_log background_maintenance : Intent

unfoldable pub acquisition_budget : Intent → ℕ
acquisition_budget explicit_control = 60000
acquisition_budget management = 60000
acquisition_budget inventory_intent = 16000
acquisition_budget unknown_bootstrap = 48000
acquisition_budget ambiguous_reconciliation = 48000
acquisition_budget _ = 16000

-- How a candidate was resolved.
pub data Resolution : Type 0 where
  aggregate_history scanner_path fresh_advertisement : Resolution

-- `_ConnectionCandidate`; a `BLEDevice` is a handle.
pub record Candidate : Type 0 where
  pub device : ℕ
  pub resolution : Resolution
  pub source : String
  pub rssi : Option ℤ
  pub advertisement_time : Option ℕ

-- `BluetoothServiceInfoBleak`
pub record ServiceInfo : Type 0 where
  pub device : ℕ
  pub source : String
  pub rssi : ℤ
  pub time : ℕ

-- One path of `async_scanner_devices_by_address`.
pub record ScannerDevice : Type 0 where
  pub ble_device : ℕ
  pub source : String
  pub rssi : ℤ

-- A `TtlockBleClient` that this object made; the generation is its identity.
pub record OwnedClient : Type 0 where
  pub generation : ℕ
  pub device : ℕ
  pub connect_attempts : ℕ

pub record CleanupResult : Type 0 where
  pub elapsed : ℕ
  pub succeeded : Bool

pub record ConnectTimeoutResult : Type 0 where
  pub acquisition_elapsed : ℕ
  pub cleanup : CleanupResult

-- What goes out through Home Assistant's dispatcher.
pub data Signal : Type 0 where
  connection_signal : Bool → Signal
  event_signal : ℕ → Signal
  log_signal : LogEntry → Signal

-- `_inventory_diagnostics`; the reason is that of a failure, or how a read went.
pub data Reason : Type 0 where
  in_progress : Reason
  failure : AccessFailure → Reason
  reported : ℕ → Reason

pub record Diagnostics : Type 0 where
  pub reason : Option Reason
  pub stage : Option Stage
  pub cleanup_confirmed : Option Bool
  pub elapsed_ms : ℕ
  pub source : Option String

-- The fields of `TtlockBleConnection`. `cleanup_task` holds the client that the running cleanup task is
-- for. `now` is the clock, `steps` numbers the awaits, and `signals` lists what was dispatched.
pub record Conn : Type 0 where
  pub admin_key : List ℕ
  pub client : Option OwnedClient
  pub pending_client : Option OwnedClient
  pub cleanup_task : Option OwnedClient
  pub next_client_generation : ℕ
  pub owned_client_generation : Option ℕ
  pub inventory_running : Bool
  pub control_requests : ℕ
  pub diagnostics : Diagnostics
  pub acquisition_failure : AccessFailure
  pub advertisement_source : Option String
  pub maintaining : Bool
  pub closing : Bool
  pub closing_event : Bool
  pub disconnected : Bool
  pub log_history : History
  pub broadcast_connected : Bool
  pub reachability_diagnostic : Option String
  pub last_connection_rssi : Option ℤ
  pub tracking : Tracking
  pub now : ℕ
  pub steps : ℕ
  pub signals : List Signal

-- What other tasks and callbacks of the event loop do to the object while a method awaits. The methods
-- that hold the object's lock never run beside one another.
pub data Interrupt : Type 0 where
  link_dropped : (generation : Option ℕ) → Interrupt
  pushed : (event : ℕ) → Interrupt
  stop_requested : Interrupt
  control_requested : Interrupt
  control_finished : Interrupt

-- How `client.connect()` under `asyncio.timeout` went: what the call did, whether the timeout expired
-- and whether the caller was being cancelled.
pub record ConnectCall : Type 0 where
  pub call : Result (Unit {0})
  pub expired : Bool
  pub cancelling : Bool

pub data ScanEnd : Type 0 where
  scan_heard : ScanEnd
  scan_raised : Exc → ScanEnd

pub record ScanCall : Type 0 where
  pub heard : List ServiceInfo
  pub ends : ScanEnd

-- How far a control task has come: it waits for the command lock, or has done so many acts of the
-- handshake or of the exchange.
pub data Progress : Type 0 where
  queueing : Progress
  in_handshake in_exchange : ℕ → Progress

-- A caller's cancellation that reaches the wait for a control task: the task was done by then, or still ran.
pub data Wake : Type 0 where
  cancelled_done : Wake
  cancelled_running : Progress → Wake

pub data Reachability : Type 0 where
  unavailable : Reachability
  diagnosed : String → Reachability
  undiagnosed : Reachability

-- `LockState` of the SDK
pub data LockState : Type 0 where
  locked unlocked : LockState

-- The world outside: each answer depends on how often the object has awaited before.
pub record Env : Type 0 where
  pub commands : Commands
  pub elapsed : ℕ → ℕ
  pub during : ℕ → List Interrupt
  pub is_connected : ℕ → OwnedClient → Bool
  pub cleanup_confirmed : ℕ → OwnedClient → Option Bool
  pub disconnect : ℕ → OwnedClient → Option Exc
  pub caller_cancelled : ℕ → Bool
  pub connect : ℕ → OwnedClient → ℕ → ConnectCall
  pub last_service_info : ℕ → Bool → Option ServiceInfo
  pub ble_device : ℕ → Option ℕ
  pub scanner_devices : ℕ → List ScannerDevice
  pub learned_interval : ℕ → Option ℕ
  pub advertisements : ℕ → ℕ → ScanCall
  pub reachability : ℕ → Reachability
  pub query_state : ℕ → OwnedClient → Result (Option LockState × Option ℕ)
  pub play : ℕ → Action → Play
  pub wakes : ℕ → List Wake
  pub reconcile_interrupted : ℕ → Bool
  pub manage : ℕ → OwnedClient → Result ℕ
  pub read_inventory : ℕ → OwnedClient → Result ℕ
  pub inventory_deadline : ℕ → Bool
  pub get_operation_log : ℕ → OwnedClient → Result (List LogEntry)

unfoldable pub broadcast_connection_state : Bool → Conn → Conn
broadcast_connection_state connected c =
    if bool_eq connected c.broadcast_connected then c else record c {
      broadcast_connected = connected;
      signals = c.signals ++ connection_signal connected ∷ [];
    }

abbrev pub is_generation : Option ℕ → ℕ → Bool
is_generation none g = false
is_generation (some h) g = g == h

-- A callback with no generation is never retired.
unfoldable pub on_disconnected : Option ℕ → Conn → Conn
unfolding broadcast_connection_state
on_disconnected none c = broadcast_connection_state false (record c { disconnected = true })
on_disconnected (some g) c =
    if is_generation c.owned_client_generation g
    then broadcast_connection_state false (record c { disconnected = true })
    else c

unfoldable pub on_event : ℕ → Conn → Conn
on_event event c = record c { signals = c.signals ++ event_signal event ∷ [] }

-- `async_stop` up to its first await
unfoldable pub begin_stop : Conn → Conn
begin_stop c = record c { closing = true; closing_event = true; disconnected = true }

unfoldable pub interrupt : Interrupt → Conn → Conn
unfolding on_disconnected on_event begin_stop
interrupt (link_dropped generation) c = on_disconnected generation c
interrupt (pushed event) c = on_event event c
interrupt stop_requested c = begin_stop c
interrupt control_requested c = record c { control_requests = c.control_requests + 1 }
interrupt control_finished c = record c { control_requests = c.control_requests - 1 }

unfoldable pub interrupts : List Interrupt → Conn → Conn
interrupts [] c = c
interrupts (i ∷ is) c = interrupts is (interrupt i c)

module _ (env : Env) where
  -- an await: time passes and other tasks run
  unfoldable pub suspend : Exec Conn (Unit {0})
  suspend c = (
    ok tt,
    interrupts (env.during c.steps)
        (record c { now = c.now + env.elapsed c.steps; steps = suc c.steps }),
  )

abbrev pub same : OwnedClient → OwnedClient → Bool
same a b = a.generation == b.generation

-- `x is client`
abbrev pub holds : Option OwnedClient → OwnedClient → Bool
holds none k = false
holds (some a) k = same a k
