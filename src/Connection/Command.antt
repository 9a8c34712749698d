-- ===== src/Connection/Command.antt =====
-- Explicit bolt control in connection.py: the task that runs the SDK's command, the wait for it, the
-- reconciliation of an unknown outcome, and the exceptions that the callers see.
pub mod Sent
pub mod Waiting
pub mod Resolved
pub mod Ending
use ha_ttlock_ble.Base.{
  ℕ, ◌+◌, ◌-◌, Bool, true, false, not, Option, none, some, List, [], ◌∷◌, take, if◌then◌else◌,
}
use ha_ttlock_ble.Base.Errors.{
  Exc, ttlock, is_ttlock, not_reachable, timed_out, failed, outcome_unknown, timeout, cancelled,
}
use ha_ttlock_ble.Base.Exec.{Exec, Result, ok, err, pure, raise, gets, modify, catch, ◌>>=◌, ◌>>◌}
use ha_ttlock_ble.Client.{Action, lock, unlock, Play, Script, Tracking, control, is_committed_stage}
use ha_ttlock_ble.Connection.State.{
  Conn, Env, OwnedClient, Progress, queueing, in_handshake, in_exchange, Wake, cancelled_done,
  cancelled_running, LockState, locked, unlocked, explicit_control, ambiguous_reconciliation,
  suspend,
}
use ha_ttlock_ble.Connection.Cleanup.{disconnect}
use ha_ttlock_ble.Connection.Acquire.{ensure_connected}

-- The play of a task that is cancelled when it has come so far: the SDK does no more, and the
-- cancellation comes out of what it was awaiting.
unfoldable pub cut : Progress → Play → Play
cut queueing p = record p { queued = err cancelled }
cut (in_handshake n) p = record p {
  check_user_time = record { acts = take n p.check_user_time.acts; ends = err cancelled };
}
cut (in_exchange n) p = record p {
  control_lock = record { acts = take n p.control_lock.acts; ends = err cancelled };
}

abbrev pub expected_state : Action → LockState
expected_state lock = locked
expected_state unlock = unlocked

abbrev pub is_state : LockState → LockState → Bool
is_state locked locked = true
is_state unlocked unlocked = true
is_state _ _ = false

-- `state == expected`, where the lock may have told no state
abbrev pub matches : Action → Option LockState → Bool
matches a none = false
matches a (some s) = is_state s (expected_state a)

abbrev pub tracked : Result (Unit {0}) × Tracking → Conn → Result (Unit {0}) × Conn
tracked (r, t) c = (r, record c { tracking = t })

module _ (env : Env) where
  -- the SDK's command on the client that this object tracks
  unfoldable pub run_play : Action → Play → Exec Conn (Unit {0})
  run_play a p c = tracked (control env.commands a p c.tracking) c

  -- `client.control_committed`, while the task runs
  unfoldable pub committed_at : Action → Play → Progress → Conn → Bool
  unfolding cut
  committed_at a p at c = is_committed_stage (control env.commands a (cut at p) c.tracking).1.stage

  -- The wait in `_async_await_control_task_locked`: a cancellation of the caller stops the command only
  -- before a control write may have begun.
  unfoldable pub await_control_task : Action → Play → List Wake → Exec Conn (Unit {0})
  await_control_task a p [] = run_play a p
  await_control_task a p (cancelled_done ∷ wakes) = run_play a p
  await_control_task a p (cancelled_running at ∷ wakes) = do
    committed ← gets (committed_at a p at)
    if not committed
        then (do catch (run_play a (cut at p)) (λ e. pure tt); raise cancelled)
        else await_control_task a p wakes

  -- the gate `_control_is_allowed` at its two readings
  unfoldable pub gated_play : Action → Exec Conn Play
  gated_play a = do
    play ← gets (λ (c : Conn). env.play c.steps a)
    suspend env
    auth ← gets (λ (c : Conn). not c.closing_event)
    suspend env
    exchange ← gets (λ (c : Conn). not c.closing_event)
    pure (record play { allowed_before_auth = auth; allowed_before_control = exchange })

  unfoldable pub run_control_task : Action → Exec Conn (Unit {0})
  run_control_task a = do
    play ← gated_play a
    wakes ← gets (λ (c : Conn). env.wakes c.steps)
    await_control_task a play wakes

  -- the client that a reconciliation asks
  unfoldable pub reconciling_client : OwnedClient → Exec Conn (Option OwnedClient)
  reconciling_client client = do
    live ← gets (λ (c : Conn). env.is_connected c.steps client)
    if live
        then pure (some client)
        else (do disconnect env; ensure_connected env true ambiguous_reconciliation)

  abbrev pub answered : Action → Result (Option LockState × Option ℕ) → Exec Conn Bool
  answered a (ok state) = pure (matches a state.0)
  answered a (err cancelled) = raise cancelled
  answered a (err e) = pure false

  unfoldable pub query_match : Action → Option OwnedClient → Exec Conn Bool
  query_match a none = pure false
  query_match a (some client) = do
    suspend env
    answer ← gets (λ (c : Conn). env.query_state c.steps client)
    answered a answer

  -- `_async_reconcile_control_locked`
  unfoldable pub reconcile_control : Action → OwnedClient → Exec Conn Bool
  reconcile_control a client = do asked ← reconciling_client client; query_match a asked

  -- `_async_capture_reconciliation_outcome`: the ambiguity's own error is what is left of any failure
  unfoldable pub capture_reconciliation : Action → OwnedClient → Exc → Exec Conn (Option Exc)
  capture_reconciliation a client unknown = do
    matched ← catch (reconcile_control a client) (λ e. pure false)
    if matched
        then pure none
        else (do catch (disconnect env) (λ e. pure false); pure (some unknown))

  abbrev pub raise_outcome : Option Exc → Exec Conn (Unit {0})
  raise_outcome none = pure tt
  raise_outcome (some e) = raise e

  -- the reconciliation task and the wait for it; a task that is cancelled before it starts does nothing
  unfoldable pub reconcile : Action → OwnedClient → Exc → Exec Conn (Unit {0})
  reconcile a client unknown = do
    stopped ← gets (λ (c : Conn). env.reconcile_interrupted c.steps)
    if stopped then raise unknown else (do
      suspend env
      outcome ← capture_reconciliation a client unknown
      raise_outcome outcome)

  -- the `except` clauses of `_async_run_control_command`
  unfoldable pub control_failed : Action → OwnedClient → Exc → Exec Conn (Unit {0})
  control_failed a client (outcome_unknown d r u) = reconcile a client (outcome_unknown d r u)
  control_failed a client timeout = do disconnect env; raise (ttlock timed_out)
  control_failed a client cancelled = raise cancelled
  control_failed a client e = do
    disconnect env
    (if is_ttlock e then raise e else raise (ttlock failed))

  unfoldable pub control_connected : Action → Option OwnedClient → Exec Conn (Unit {0})
  control_connected a none = raise (ttlock not_reachable)
  control_connected a (some client) = catch (run_control_task a) (control_failed a client)

  unfoldable pub run_control_command : Action → Exec Conn (Unit {0})
  run_control_command a = do
    client ← ensure_connected env true explicit_control
    control_connected a client

  -- finally: self._control_requests -= 1
  abbrev pub finish_request : Result (Unit {0}) × Conn → Result (Unit {0}) × Conn
  finish_request (r, c) = (r, record c { control_requests = c.control_requests - 1 })

  -- `_async_run_command`
  unfoldable pub run_command : Action → Exec Conn (Unit {0})
  run_command a c =
      finish_request
        (run_control_command a (record c { control_requests = c.control_requests + 1 }))
