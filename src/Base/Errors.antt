-- ===== src/Base/Errors.antt =====
-- The exceptions that the program raises and catches (exceptions/, access.py, client.py and those of
-- the SDK and of Python), by the classes that its `except` clauses tell apart.
use mathlib.Core.Bool.{Bool, true, false}
use Prim.Native.Nat.{ℕ}
use mathlib.Core.List.{List}

-- `AccessFailure` of access.py.
pub data AccessFailure : Type 0 where
  busy preempted cancelled_read no_candidate discovery_timeout gatt deadline cleanup unknown :
      AccessFailure

-- The `stage` texts of an inventory error.
pub data Stage : Type 0 where
  queue acquisition discovery gatt_stage cleanup_stage inventory : Stage

-- Who raised a plain `TTLockError`.
pub data Origin : Type 0 where
  sdk not_reachable timed_out failed shutdown no_admin_key : Origin

-- The classes of exceptions/ that the cloud client raises.
pub data ApiError : Type 0 where
  authentication communication verification_required api_client_error : ApiError

-- The reasons of `AbortFlow`.
pub data AbortReason : Type 0 where
  already_configured already_in_progress wrong_account : AbortReason

-- The translation keys of `ServiceValidationError` in services.py, and its one message without a key.
pub data ServiceError : Type 0 where
  device_not_found device_not_loaded invalid_passcode invalid_datetime period_window_required
        invalid_period_window legacy_writes_disabled :
      ServiceError

pub data Exc : Type 0 where
  ttlock : Origin → Exc
  outcome_unknown : (disconnected : Bool) (routed_echoes : List ℕ) (unclassified : Bool) → Exc
  aborted_for_shutdown : Exc
  access_inventory : AccessFailure → Stage → Exc
  sdk_inventory : (reason : ℕ) → Stage → Exc
  timeout : Exc
  runtime_error : Exc
  value_error : Exc
  other : Exc
  cancelled : Exc
  api : ApiError → Exc
  service_validation : ServiceError → Exc
  abort_flow : AbortReason → Exc

-- except TTLockError
abbrev pub is_ttlock : Exc → Bool
is_ttlock (ttlock o) = true
is_ttlock (outcome_unknown d r u) = true
is_ttlock aborted_for_shutdown = true
is_ttlock (access_inventory f s) = true
is_ttlock (sdk_inventory n s) = true
is_ttlock timeout = false
is_ttlock runtime_error = false
is_ttlock value_error = false
is_ttlock other = false
is_ttlock cancelled = false
is_ttlock (api e) = false
is_ttlock (service_validation e) = false
is_ttlock (abort_flow r) = false

-- except Exception: all but asyncio.CancelledError
abbrev pub is_exception : Exc → Bool
is_exception cancelled = false
is_exception _ = true
