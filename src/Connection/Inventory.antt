-- ===== src/Connection/Inventory.antt =====
-- The read of the access inventory in connection.py: its guards, its deadline, what its diagnostics keep,
-- and the teardown that ends it on every path.
pub mod Closing
use ha_ttlock_ble.Base.{
  ℕ, ◌+◌, ◌-◌, Bool, true, false, not, ◌&&◌, ◌||◌, Option, none, some, is_none, List, [], ◌∷◌, ◌==◌,
  ltb, if◌then◌else◌,
}
use ha_ttlock_ble.Base.Errors.{
  Exc, AccessFailure, Stage, busy, preempted, cancelled_read, gatt, cleanup, deadline, unknown,
  queue, acquisition, discovery, gatt_stage, cleanup_stage, inventory, ttlock, no_admin_key,
  access_inventory, sdk_inventory, timeout, value_error, cancelled,
}
use ha_ttlock_ble.Base.Exec.{
  Exec, Result, ok, err, pure, raise, lift, gets, modify, catch, ◌>>=◌, ◌>>◌,
}
use ha_ttlock_ble.Connection.State.{
  Conn, Env, OwnedClient, Diagnostics, Reason, in_progress, failure, reported, inventory_intent,
  suspend,
}
use ha_ttlock_ble.Connection.Cleanup.{disconnect}
use ha_ttlock_ble.Connection.Acquire.{ensure_connected}

pub data Method : Type 0 where
  keypad_pin fingerprint ic_card other_method : Method

abbrev pub is_known_method : Method → Bool
is_known_method other_method = false
is_known_method _ = true

abbrev is_digit : ℕ → Bool
is_digit d = ltb 47 d && ltb d 58

abbrev are_digits : List ℕ → Bool
are_digits [] = true
are_digits (d ∷ ds) = is_digit d && are_digits ds

-- `bool(adminPs) and adminPs.isdecimal()`, for the ASCII digits that an admin password has
unfoldable pub inventory_admin_available : List ℕ → Bool
inventory_admin_available [] = false
inventory_admin_available (d ∷ ds) = are_digits (d ∷ ds)

unfoldable pub acquisition_stage : AccessFailure → Stage
acquisition_stage gatt = gatt_stage
acquisition_stage cleanup = cleanup_stage
acquisition_stage _ = discovery

unfoldable pub diagnose : Reason → Stage → Conn → Conn
diagnose reason stage c = record c {
  diagnostics = record c.diagnostics { reason = some reason; stage = some stage };
}

unfoldable pub begin_read : Conn → Conn
begin_read c = record c {
  diagnostics = record {
    reason = some in_progress;
    stage = some acquisition;
    cleanup_confirmed = none;
    elapsed_ms = 0;
    source = none;
  };
  advertisement_source = none;
}

unfoldable pub interrupted_reason : Conn → AccessFailure
interrupted_reason c = if ltb 0 c.control_requests then preempted else cancelled_read

-- The `except` clauses of the read; a cancellation keeps the stage that was reached.
unfoldable pub read_failed : Exc → Exec Conn ℕ
read_failed (access_inventory f s) = do
  modify (diagnose (failure f) s)
  raise (access_inventory f s)
read_failed (sdk_inventory r s) = do modify (diagnose (reported r) s); raise (sdk_inventory r s)
read_failed timeout = do
  modify (diagnose (failure deadline) inventory)
  raise (access_inventory deadline inventory)
read_failed cancelled = do
  modify (λ c. record c {
    diagnostics = record c.diagnostics { reason = some (failure (interrupted_reason c)) };
  })
  raise cancelled
read_failed e = do
  modify (diagnose (failure unknown) inventory)
  raise (access_inventory unknown inventory)

abbrev pub reaches_inventory : Conn → Conn
reaches_inventory c = record c { diagnostics = record c.diagnostics { stage = some inventory } }

-- `self._client is None and self._pending_client is None`
abbrev pub owns_none : Conn → Bool
owns_none c = is_none c.client && is_none c.pending_client

-- The innermost `finally` clause.
unfoldable pub conclude : ℕ → Conn → Conn
unfolding diagnose
conclude started c =
    let d = record c {
      diagnostics = record c.diagnostics {
        cleanup_confirmed = some (owns_none c);
        elapsed_ms = c.now - started;
        source = c.advertisement_source;
      };
    } in
    if owns_none c then d else diagnose (failure cleanup) cleanup_stage d

abbrev pub concluded : ℕ → Result ℕ → Result Bool × Conn → Result ℕ × Conn
concluded started r (ok b, c) = (r, conclude started c)
concluded started r (err e, c) = (err e, conclude started c)

module _ (env : Env) where
  abbrev pub read_client : Option OwnedClient → Exec Conn ℕ
  read_client none = do
    f ← gets (λ (c : Conn). c.acquisition_failure)
    raise (access_inventory f (acquisition_stage f))
  read_client (some client) = do
    modify reaches_inventory
    suspend env
    answer ← gets (λ (c : Conn). env.read_inventory c.steps client)
    result ← lift answer
    modify (diagnose (reported result) inventory)
    pure result

  -- `asyncio.timeout`: its own cancellation comes out as a `TimeoutError`
  abbrev pub deadline_exit : Exc → Exec Conn ℕ
  deadline_exit cancelled = do
    expired ← gets (λ (c : Conn). env.inventory_deadline c.steps)
    if expired then raise timeout else raise cancelled
  deadline_exit e = raise e

  unfoldable pub read_before_deadline : Exec Conn ℕ
  read_before_deadline =
      catch (do client ← ensure_connected env true inventory_intent; read_client client)
        deadline_exit

  -- the outer `finally`: the teardown runs on every path, and its own exception replaces the read's
  abbrev pub closed : ℕ → Result ℕ × Conn → Result ℕ × Conn
  closed started (r, c) = concluded started r (disconnect env c)

  unfoldable pub read_and_close : ℕ → Exec Conn ℕ
  read_and_close started c = closed started (catch read_before_deadline read_failed c)

  -- `_async_read_access_inventory`; `locked` is whether the object's lock was taken
  unfoldable pub read_access_inventory : Bool → Exec Conn ℕ
  read_access_inventory locked = do
    c ← gets (λ (c : Conn). c)
    if ltb 0 c.control_requests || locked || c.closing
        then raise (access_inventory busy queue)
        else (do modify begin_read; read_and_close c.now)

  -- finally: self._inventory_task = None
  abbrev pub finish_inventory : Result ℕ × Conn → Result ℕ × Conn
  finish_inventory (r, c) = (r, record c { inventory_running = false })

  abbrev pub run_inventory : Bool → Exec Conn ℕ
  run_inventory locked c =
      finish_inventory (read_access_inventory locked (record c { inventory_running = true }))

  -- `_async_start_inventory`
  unfoldable pub start_inventory : Method → Bool → Exec Conn ℕ
  start_inventory method locked = do
    c ← gets (λ (c : Conn). c)
    if not (inventory_admin_available c.admin_key)
        then raise (ttlock no_admin_key)
        else (if not (is_known_method method)
            then raise value_error
            else (if c.inventory_running
                then raise (access_inventory busy queue)
                else run_inventory locked))
