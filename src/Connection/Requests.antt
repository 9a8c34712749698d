-- ===== src/Connection/Requests.antt =====
-- What connection.py does for its other callers: a state query, a management command, the operation log,
-- start and stop, and the loop that keeps a session open. A management operation is known by its result.
pub mod Promises
pub mod Backoff
pub mod Dispatch
use ha_ttlock_ble.Base.{
  ℕ, zero, suc, ◌+◌, ◌*◌, min, Bool, true, false, not, ◌&&◌, ◌||◌, Option, none, some, List, [],
  ◌∷◌, ◌++◌, ◌==◌, if◌then◌else◌, is_some, String,
}
use ha_ttlock_ble.Base.Errors.{
  Exc, ttlock, is_ttlock, not_reachable, timed_out, failed, shutdown, timeout, cancelled,
}
use ha_ttlock_ble.Base.Exec.{
  Exec, Result, ok, err, pure, raise, lift, gets, modify, catch, ◌>>=◌, ◌>>◌,
}
use ha_ttlock_ble.LogHistory.{LogEntry, SafeParts, classify}
use ha_ttlock_ble.Connection.State.{
  Conn, Env, OwnedClient, LockState, Signal, log_signal, Intent, routine_query, unknown_bootstrap,
  management, operation_log, background_maintenance, begin_stop, suspend,
}
use ha_ttlock_ble.Connection.Cleanup.{disconnect, retry_pending_cleanup}
use ha_ttlock_ble.Connection.Acquire.{ensure_connected}

abbrev pub State : Type 0
State = Option LockState × Option ℕ

unfoldable pub log_signals : List LogEntry → List Signal
log_signals [] = []
log_signals (e ∷ es) = log_signal e ∷ log_signals es

-- `is_connected`, the property
unfoldable pub owned_client : Conn → Option OwnedClient
owned_client c = elim c.client [ none ↦ c.pending_client | some k ↦ some k ]

-- The maintain loop's backoff after a failure, in milliseconds.
unfoldable pub next_backoff : ℕ → ℕ
next_backoff backoff = min (backoff * 2) 300000

-- What one turn of the maintain loop leaves: the next backoff and how long the loop sleeps first.
pub record Turn : Type 0 where
  pub sleeps : ℕ
  pub backoff : ℕ

-- How a turn's acquisition went; a cancellation ends the loop.
unfoldable pub turn_of : ℕ → ℕ → Result (Option OwnedClient) → Option Turn
turn_of cooldown backoff (ok none) =
    some (record { sleeps = backoff; backoff = next_backoff backoff })
turn_of cooldown backoff (ok (some k)) = some (record { sleeps = cooldown; backoff = 1000 })
turn_of cooldown backoff (err cancelled) = none
turn_of cooldown backoff (err e) =
    some (record { sleeps = backoff; backoff = next_backoff backoff })

-- `_async_maintain`, by how its acquisitions went: how long it sleeps after each turn. After a turn that
-- found a client it first waits for the drop of the link.
unfoldable pub maintain : ℕ → ℕ → List (Result (Option OwnedClient)) → List ℕ
maintain cooldown backoff [] = []
maintain cooldown backoff (r ∷ rs) = elim (turn_of cooldown backoff r) [
  | none ↦ []
  | some t ↦ t.sleeps ∷ maintain cooldown t.backoff rs
]

-- What `async_start` does to the object; the loop itself is a task.
unfoldable pub start : Bool → Conn → Conn
start maintain c =
    if not maintain || c.maintaining
    then c
    else record c { closing = false; closing_event = false; maintaining = true }

module _ (env : Env) where
  abbrev pub query_intent : Bool → Intent
  query_intent active_scan = if active_scan then unknown_bootstrap else routine_query

  -- except Exception
  unfoldable pub query_failed : Exc → Exec Conn (Option State)
  query_failed cancelled = raise cancelled
  query_failed e = do disconnect env; pure none

  unfoldable pub query_client : Option OwnedClient → Exec Conn (Option State)
  query_client none = pure none
  query_client (some client) =
      catch
        (do
          suspend env
          answer ← gets (λ (c : Conn). env.query_state c.steps client)
          state ← lift answer
          pure (some state))
        query_failed

  unfoldable pub query_state : Bool → Exec Conn (Option State)
  query_state active_scan = do
    client ← ensure_connected env active_scan (query_intent active_scan)
    query_client client

  -- the `except` clauses of `_async_run_management_command`
  unfoldable pub management_failed : Exc → Exec Conn ℕ
  management_failed timeout = do disconnect env; raise (ttlock timed_out)
  management_failed cancelled = raise cancelled
  management_failed e = do disconnect env; (if is_ttlock e then raise e else raise (ttlock failed))

  unfoldable pub manage_client : Option OwnedClient → Exec Conn ℕ
  manage_client none = raise (ttlock not_reachable)
  manage_client (some client) =
      catch (do suspend env; answer ← gets (λ (c : Conn). env.manage c.steps client); lift answer)
        management_failed

  unfoldable pub run_management_command : Bool → Exec Conn ℕ
  run_management_command active_scan = do
    client ← ensure_connected env active_scan management
    manage_client client

  abbrev pub log_failed : Exc → Exec Conn (Option (List LogEntry))
  log_failed cancelled = raise cancelled
  log_failed e = pure none

  unfoldable pub read_log : Option OwnedClient → Exec Conn (Option (List LogEntry))
  read_log none = pure none
  read_log (some client) =
      catch
        (do
          suspend env
          answer ← gets (λ (c : Conn). env.get_operation_log c.steps client)
          entries ← lift answer
          pure (some entries))
        log_failed

  -- `async_stop` after the maintain loop's task is gone
  unfoldable pub stop_link : Exec Conn (Unit {0})
  stop_link = do
    disconnected ← disconnect env
    sure ← (if disconnected then pure true else retry_pending_cleanup env)
    if sure then pure tt else raise (ttlock shutdown)

  unfoldable pub stop : Exec Conn (Unit {0})
  stop = do modify (λ c. record (begin_stop c) { maintaining = false }); suspend env; stop_link

  module _ (digest : SafeParts → String) (mac : String) where
    -- the entries are journalled and the new ones go to the dispatcher
    unfoldable pub journal_log : Option (List LogEntry) → Conn → Result (List LogEntry) × Conn
    journal_log none c = (ok [], c)
    journal_log (some entries) c =
        let (history, live) = classify digest c.log_history mac entries in
        (ok live, record c { log_history = history; signals = c.signals ++ log_signals live })

    unfoldable pub get_operation_log : Exec Conn (List LogEntry)
    get_operation_log = do
      client ← ensure_connected env false operation_log
      entries ← read_log client
      journal_log entries
