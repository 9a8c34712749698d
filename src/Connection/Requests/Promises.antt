-- ===== src/Connection/Requests/Promises.antt =====
-- What the other requests of connection.py promise their callers: which exceptions they let out, and that
-- they write no bolt command.
use ha_ttlock_ble.Base.{
  ℕ, Bool, true, false, ◌≡◌, refl, ◌⊎◌, inl, inr, Option, none, some, is_some, List, subst,
  if◌then◌else◌, arith, String,
}
use ha_ttlock_ble.Base.Errors.{
  Exc, ttlock, is_ttlock, timed_out, failed, shutdown, timeout, cancelled,
}
use ha_ttlock_ble.Base.Exec.{pure, raise, ◌>>◌}
use ha_ttlock_ble.Base.Exec.Triple.{
  Triple, Triple-bind, Triple-if, Triple-raise, Triple-pure, Triple-gets, Triple-lift,
  Triple-modify, Triple-catch, weaken,
}
use ha_ttlock_ble.LogHistory.{LogEntry, SafeParts}
use ha_ttlock_ble.Connection.State.{Conn, Env, OwnedClient, management, operation_log, begin_stop}
use ha_ttlock_ble.Connection.Cleanup.{disconnect, disconnect_installed, retry_pending_cleanup}
use ha_ttlock_ble.Connection.Ownership.{IsOwned, suspend-Triple}
use ha_ttlock_ble.Connection.Teardown.{
  IsIdle, Cancelled, Disconnected, disconnect-Triple, disconnect_installed-Triple,
}
use ha_ttlock_ble.Connection.Command.Resolved.{
  Wired, disconnect-Wired, ensure_connected-Wired, suspend-Wired,
}
use ha_ttlock_ble.Connection.Requests.{
  query_intent, query_failed, query_client, query_state, management_failed, manage_client,
  run_management_command, log_failed, read_log, journal_log, get_operation_log, stop_link, stop,
}

module _ (env : Env) (Q : List ℕ → Type 0) where
  -- only a cancellation got out
  abbrev pub Aborted : Exc → Conn → Type 0
  Aborted e c = Wired Q c × (e ≡ cancelled)

  -- what an answer of the SDK leaves to its handlers
  abbrev Open : Exc → Conn → Type 0
  Open e c = Wired Q c

  query_failed-Triple : (e : Exc) → Triple (Wired Q) (query_failed env e) (λ _. Wired Q) Aborted
  unfolding query_failed
  query_failed-Triple cancelled = Triple-raise _ (λ c p. (p, refl))
  query_failed-Triple e =
      Triple-bind {R = λ _. Wired Q}
        (weaken (λ c p. p) (disconnect-Wired env Q) (λ _ c p. p) (λ x c p. p))
        λ _. Triple-pure none (λ c p. p)

  query_client-Triple :
      (k : Option OwnedClient) → Triple (Wired Q) (query_client env k) (λ _. Wired Q) Aborted
  unfolding query_client
  query_client-Triple none = Triple-pure none (λ c p. p)
  query_client-Triple (some k) =
      Triple-catch {F = Open}
        (Triple-bind (suspend-Wired env Q) λ _.
          Triple-bind {R = λ _. Wired Q} (Triple-gets _ (λ c p. p)) λ answer.
            Triple-bind {R = λ _. Wired Q} (Triple-lift answer (λ a q c p. p) (λ e q c p. p))
              λ s. Triple-pure (some s) (λ c p. p))
        query_failed-Triple

  -- From a state in order, a state query lets out no exception but its caller's cancellation, leaves the
  -- ownership in order, and keeps whatever holds of the bolt commands that were written.
  pub query_state-Aborted :
      (active_scan : Bool) → Triple (Wired Q) (query_state env active_scan) (λ _. Wired Q) Aborted
  unfolding query_state
  query_state-Aborted active_scan =
      Triple-bind (ensure_connected-Wired env Q active_scan (query_intent env active_scan))
        query_client-Triple

  abbrev pub Managed : Exc → Conn → Type 0
  Managed e c = Wired Q c × ((e ≡ cancelled) ⊎ (is_ttlock e ≡ true))

  fail_with :
      (e : Exc)
      → is_ttlock e ≡ true
      → Triple {A = ℕ} (Wired Q) (do disconnect env; raise e) (λ _. Wired Q) Managed
  fail_with e t =
      Triple-bind {R = λ _. Wired Q}
        (weaken (λ c p. p) (disconnect-Wired env Q) (λ _ c p. p) (λ x c p. (p.0, inl p.1)))
        λ _. Triple-raise e (λ c p. (p, inr t))

  management_failed-Triple :
      (e : Exc) → Triple (Wired Q) (management_failed env e) (λ _. Wired Q) Managed
  unfolding management_failed
  management_failed-Triple timeout = fail_with (ttlock timed_out) refl
  management_failed-Triple cancelled = Triple-raise _ (λ c p. (p, inl refl))
  management_failed-Triple e = fail_with (if is_ttlock e then e else ttlock failed) refl

  manage_client-Triple :
      (k : Option OwnedClient) → Triple (Wired Q) (manage_client env k) (λ _. Wired Q) Managed
  unfolding manage_client
  manage_client-Triple none = Triple-raise _ (λ c p. (p, inr refl))
  manage_client-Triple (some k) =
      Triple-catch {F = Open}
        (Triple-bind (suspend-Wired env Q) λ _.
          Triple-bind {R = λ _. Wired Q} (Triple-gets _ (λ c p. p))
            λ answer. Triple-lift answer (λ a q c p. p) (λ e q c p. p))
        management_failed-Triple

  -- From a state in order, a management command lets out a cancellation or one of the integration's own
  -- exceptions, leaves the ownership in order, and keeps whatever holds of the bolt commands that were
  -- written.
  pub run_management_command-Managed :
      (active_scan : Bool)
      → Triple (Wired Q) (run_management_command env active_scan) (λ _. Wired Q) Managed
  unfolding run_management_command
  run_management_command-Managed active_scan =
      Triple-bind
        (weaken (λ c p. p) (ensure_connected-Wired env Q active_scan management) (λ _ c p. p)
          (λ e c p. (p.0, inl p.1)))
        manage_client-Triple

  log_failed-Triple : (e : Exc) → Triple (Wired Q) (log_failed env e) (λ _. Wired Q) Aborted
  log_failed-Triple cancelled = Triple-raise _ (λ c p. (p, refl))
  log_failed-Triple e = Triple-pure none (λ c p. p)

  read_log-Triple :
      (k : Option OwnedClient) → Triple (Wired Q) (read_log env k) (λ _. Wired Q) Aborted
  unfolding read_log
  read_log-Triple none = Triple-pure none (λ c p. p)
  read_log-Triple (some k) =
      Triple-catch {F = Open}
        (Triple-bind (suspend-Wired env Q) λ _.
          Triple-bind {R = λ _. Wired Q} (Triple-gets _ (λ c p. p)) λ answer.
            Triple-bind {R = λ _. Wired Q} (Triple-lift answer (λ a q c p. p) (λ e q c p. p))
              λ s. Triple-pure (some s) (λ c p. p))
        log_failed-Triple

  module _ (digest : SafeParts → String) (mac : String) where
    journal_log-Triple :
        (r : Option (List LogEntry))
        → Triple (Wired Q) (journal_log env digest mac r) (λ _. Wired Q) Aborted
    unfolding journal_log
    journal_log-Triple none = record { at = λ c p. p }
    journal_log-Triple (some es) = record { at = λ c p. (ground arith, p.1) }

    -- From a state in order, a read of the operation log lets out no exception but its caller's
    -- cancellation, leaves the ownership in order, and keeps whatever holds of the bolt commands that
    -- were written.
    pub get_operation_log-Aborted :
        Triple (Wired Q) (get_operation_log env digest mac) (λ _. Wired Q) Aborted
    unfolding get_operation_log
    get_operation_log-Aborted =
        Triple-bind (ensure_connected-Wired env Q false operation_log)
          λ k. Triple-bind (read_log-Triple k) journal_log-Triple

module _ (env : Env) where
  -- what a stop that could not finish leaves
  abbrev pub Unstopped : Exc → Conn → Type 0
  Unstopped e c =
      IsOwned c × ((e ≡ cancelled) ⊎ ((e ≡ ttlock shutdown) × (is_some c.pending_client ≡ true)))

  stopped-Triple :
      (sure : Bool)
      → Triple
          (Disconnected env sure)
          (if sure then pure tt else raise (ttlock shutdown))
          (λ _. IsIdle)
          Unstopped
  stopped-Triple sure =
      Triple-if sure
        (λ b. Triple-pure tt (λ c p. record {
          held = p.owned.held;
          client = p.client;
          pending = p.certain b;
          task = p.owned.settled;
        }))
        (λ b. Triple-raise (ttlock shutdown) (λ c p. (p.owned, inr (refl, p.uncertain b))))

  retry_or :
      (done : Bool)
      → Triple
          (Disconnected env done)
          (if done then pure true else retry_pending_cleanup env)
          (Disconnected env)
          Cancelled
  unfolding retry_pending_cleanup disconnect_installed
  retry_or done =
      Triple-if done (λ b. Triple-pure true (λ c p. subst (λ x. Disconnected env x c) b p))
        (λ b.
          weaken (λ c p. (p.owned, p.client)) (disconnect_installed-Triple env none) (λ r c p. p)
            (λ e c p. p))

  stop_link-Triple : Triple IsOwned (stop_link env) (λ _. IsIdle) Unstopped
  unfolding stop_link
  stop_link-Triple =
      Triple-bind (weaken (λ c p. p) (disconnect-Triple env) (λ r c p. p) (λ e c p. (p.0, inl p.1)))
        λ done.
          Triple-bind (weaken (λ c p. p) (retry_or done) (λ r c p. p) (λ e c p. (p.0, inl p.1)))
            λ sure. stopped-Triple sure

  -- From a state in order, a stop ends with no client owned, or it raises: the caller's cancellation, or
  -- the integration's own exception while a client whose teardown is not certain is still kept.
  pub stop-IsIdle : Triple IsOwned (stop env) (λ _. IsIdle) Unstopped
  unfolding stop begin_stop
  stop-IsIdle = Triple-bind {R = λ _. IsOwned} (Triple-modify _ (λ c p. ground arith)) λ _.
      Triple-bind (suspend-Triple env (λ c p. p.held) (λ c d s h p. ground arith))
        λ _. stop_link-Triple
