-- ===== src/Connection/Cleanup.antt =====
-- Teardown of the clients that the connection owns (connection.py). The cleanup runs as a task of its own
-- that the caller awaits to its end: `caller_cancelled` says whether a cancellation of the caller arrived
-- meanwhile, which is raised afterwards.
use ha_ttlock_ble.Base.{
  ℕ, ◌-◌, Bool, true, false, not, ◌&&◌, Option, none, some, is_some, if◌then◌else◌,
}
use ha_ttlock_ble.Base.Errors.{Exc, runtime_error, cancelled}
use ha_ttlock_ble.Base.Exec.{Exec, pure, raise, gets, modify, catch, ◌>>=◌, ◌>>◌}
use ha_ttlock_ble.Connection.State.{
  Conn, Env, OwnedClient, CleanupResult, suspend, same, holds, broadcast_connection_state,
}

abbrev pub is_true : Option Bool → Bool
is_true none = false
is_true (some b) = b

-- `self._cleanup_task is not None and self._cleanup_task_client is not client`
abbrev pub is_foreign : Option OwnedClient → OwnedClient → Bool
is_foreign none k = false
is_foreign (some a) k = not (same a k)

unfoldable pub begin_cleanup : OwnedClient → Exec Conn (Unit {0})
begin_cleanup client = do
  c ← gets (λ (c : Conn). c)
  if is_foreign c.cleanup_task client
      then raise runtime_error
      else modify (λ c. record c { cleanup_task = some client })

abbrev pub clear_cleanup : Conn → Conn
clear_cleanup c = record c { cleanup_task = none }

-- the client is let go only when its teardown is certain
unfoldable pub release_cleaned : OwnedClient → Bool → Conn → Conn
unfolding broadcast_connection_state
release_cleaned client succeeded c =
    if succeeded && holds c.pending_client client
    then broadcast_connection_state false
        (record c { pending_client = none; owned_client_generation = none })
    else c

module _ (env : Env) where
  unfoldable pub client_is_disconnected : OwnedClient → Conn → Bool
  client_is_disconnected client c = is_true (env.cleanup_confirmed c.steps client)

  abbrev pub cleanup_result : ℕ → Bool → Exec Conn CleanupResult
  cleanup_result started succeeded =
      gets (λ (c : Conn). record { elapsed = c.now - started; succeeded = succeeded })

  unfoldable pub after_disconnect : ℕ → OwnedClient → Option Exc → Exec Conn CleanupResult
  after_disconnect started client none = cleanup_result started true
  after_disconnect started client (some cancelled) = raise cancelled
  after_disconnect started client (some e) = do
    confirmed ← gets (client_is_disconnected client)
    cleanup_result started confirmed

  unfoldable pub disconnect_pending_client_once : OwnedClient → Exec Conn CleanupResult
  disconnect_pending_client_once client = do
    c ← gets (λ (c : Conn). c)
    if client_is_disconnected client c then cleanup_result c.now true else (do
      suspend env
      raised ← gets (λ (d : Conn). env.disconnect d.steps client)
      after_disconnect c.now client raised)

  unfoldable pub finish_cleanup : OwnedClient → CleanupResult → Exec Conn CleanupResult
  finish_cleanup client cleanup = do
    interrupted ← gets (λ (c : Conn). env.caller_cancelled c.steps)
    modify (λ c. release_cleaned client cleanup.succeeded (clear_cleanup c))
    if interrupted then raise cancelled else pure cleanup

  unfoldable pub cleanup_candidate : OwnedClient → Exec Conn CleanupResult
  cleanup_candidate client = do
    c ← gets (λ (c : Conn). c)
    if not (holds c.pending_client client) then raise runtime_error else (do
      begin_cleanup client
      suspend env
      cleanup ←
          catch (disconnect_pending_client_once client) (λ e. do modify clear_cleanup; raise e)
      finish_cleanup client cleanup)

  unfoldable pub retry_cleanup : Option OwnedClient → Exec Conn Bool
  retry_cleanup none = pure true
  retry_cleanup (some client) = do cleanup ← cleanup_candidate client; pure cleanup.succeeded

  unfoldable pub retry_pending_cleanup : Exec Conn Bool
  retry_pending_cleanup = do pending ← gets (λ (c : Conn). c.pending_client); retry_cleanup pending

  unfoldable pub disconnect_installed : Option OwnedClient → Exec Conn Bool
  disconnect_installed none = retry_pending_cleanup
  disconnect_installed (some client) = do
    c ← gets (λ (c : Conn). c)
    if is_some c.pending_client then raise runtime_error else (do
      modify (λ c. record c { pending_client = some client; client = none })
      cleanup ← cleanup_candidate client
      pure cleanup.succeeded)

  unfoldable pub disconnect : Exec Conn Bool
  disconnect = do client ← gets (λ (c : Conn). c.client); disconnect_installed client
