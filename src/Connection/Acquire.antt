-- ===== src/Connection/Acquire.antt =====
-- `_async_ensure_connected_locked` of connection.py and the methods that only it calls. Its loop runs on
-- fuel: a second round always ends it, since it follows the one active acquisition.
use ha_ttlock_ble.Base.{
  ℕ, zero, suc, ◌+◌, ◌-◌, Bool, true, false, not, ◌&&◌, ◌||◌, Option, none, some, [], is_some, min,
  ◌==◌, if◌then◌else◌,
}
use ha_ttlock_ble.Base.Errors.{
  Exc, is_ttlock, is_exception, runtime_error, timeout, cancelled, no_candidate, gatt, cleanup,
}
use ha_ttlock_ble.Base.Exec.{Exec, Result, ok, err, pure, raise, gets, modify, catch, ◌>>=◌, ◌>>◌}
use ha_ttlock_ble.Client.{Tracking, before_auth}
use ha_ttlock_ble.Connection.State.{
  Conn, Env, Intent, OwnedClient, Candidate, CleanupResult, ConnectTimeoutResult, ConnectCall,
  Reachability, unavailable, diagnosed, undiagnosed, acquisition_budget, suspend, holds,
  broadcast_connection_state,
}
use ha_ttlock_ble.Connection.Candidate.{
  remaining_acquisition_time, wait_for_connectable_device, resolve_initial_candidate,
}
use ha_ttlock_ble.Connection.Cleanup.{cleanup_candidate, retry_pending_cleanup, disconnect}

-- How a round of the loop ended: with a client or with shutdown winning over it, with `break`, or with
-- the candidate of the one fresh acquisition.
pub data Round : Type 0 where
  adopted : Option OwnedClient → Round
  stopped : Round
  retry : Option Candidate → Round

-- How `connect` ended in a round.
pub data Attempt : Type 0 where
  established : Attempt
  timed_out : ConnectTimeoutResult → Attempt
  failed : CleanupResult → Attempt
  discarded : Attempt

unfoldable pub connect_attempts : Bool → Bool → ℕ
connect_attempts active_scan attempted = if active_scan && not attempted then 1 else 3

unfoldable pub phase_cap : Bool → ℕ
phase_cap attempted = if not attempted then 16000 else 42000

unfoldable pub phase_timeout : Bool → ℕ → Conn → ℕ
unfolding phase_cap remaining_acquisition_time
phase_timeout attempted deadline c =
    min (phase_cap attempted) (remaining_acquisition_time deadline c)

-- A new client has a clean tracking; `set_control_allowed` installs the gate. What was written to the
-- link stays written.
abbrev pub new_tracking : Tracking → Tracking
new_tracking t = record {
  gated = true;
  opcode = none;
  stage = before_auth;
  frame_written = false;
  ack_received = false;
  response_unclassified = false;
  disconnected_during_control = false;
  routed_echoes = [];
  active = false;
  wire = t.wire;
}

abbrev pub new_client : ℕ → Candidate → Conn → OwnedClient
new_client attempts k c = record {
  generation = c.next_client_generation + 1;
  device = k.device;
  connect_attempts = attempts;
}

unfoldable pub install_pending : ℕ → Candidate → Conn → Conn
install_pending attempts k c = record c {
  next_client_generation = c.next_client_generation + 1;
  pending_client = some (new_client attempts k c);
  owned_client_generation = some (c.next_client_generation + 1);
  tracking = new_tracking c.tracking;
  acquisition_failure = gatt;
  advertisement_source = some k.source;
}

unfoldable pub create_client : ℕ → Candidate → Exec Conn OwnedClient
create_client attempts k = do
  c ← gets (λ (c : Conn). c)
  if is_some c.pending_client
      then raise runtime_error
      else (do modify (install_pending attempts k); pure (new_client attempts k c))

unfoldable pub install_client : OwnedClient → Candidate → Conn → Conn
unfolding broadcast_connection_state
install_client client k c = broadcast_connection_state true (record c {
  pending_client = none;
  client = some client;
  last_connection_rssi = k.rssi;
  disconnected = false;
})

unfoldable pub begin_acquisition : Conn → Conn
begin_acquisition c = record c {
  reachability_diagnostic = none;
  acquisition_failure = no_candidate;
}

-- What `async with asyncio.timeout` makes of its body's end: the deadline's own cancellation becomes a
-- `TimeoutError`, unless the caller was cancelled as well.
unfoldable pub timeout_exit : Bool → Bool → Result (Unit {0}) → Result (Unit {0})
timeout_exit expired cancelling (err cancelled) =
    if expired && not cancelling then err timeout else err cancelled
timeout_exit expired cancelling r = r

-- The body: a link that comes late is given up.
unfoldable pub connect_body : ConnectCall → Result (Unit {0})
connect_body call = elim call.call [
  | ok u ↦ if call.expired || call.cancelling then err cancelled else ok u
  | err e ↦ err e
]

unfoldable pub attempt_of : Option ConnectTimeoutResult → Attempt
attempt_of none = established
attempt_of (some t) = timed_out t

unfoldable pub record_reachability : Reachability → Conn → Conn
record_reachability unavailable c = c
record_reachability undiagnosed c = c
record_reachability (diagnosed text) c = record c { reachability_diagnostic = some text }

abbrev pub cleanup_uncertain : Exec Conn (Option OwnedClient)
cleanup_uncertain = do modify (λ c. record c { acquisition_failure = cleanup }); pure none

module _ (env : Env) where
  -- the `except` clauses of `_async_connect_before_deadline`
  unfoldable pub connect_ended :
      ℕ → OwnedClient → Bool → Result (Unit {0}) → Exec Conn (Option ConnectTimeoutResult)
  connect_ended started client expired (ok u) = pure none
  connect_ended started client expired (err cancelled) = do
    cleanup_candidate env client
    raise cancelled
  connect_ended started client expired (err timeout) = if not expired then raise timeout else (do
    elapsed ← gets (λ (c : Conn). c.now - started)
    cleaned ← cleanup_candidate env client
    pure (some (record { acquisition_elapsed = elapsed; cleanup = cleaned })))
  connect_ended started client expired (err e) = raise e

  unfoldable pub connect_before_deadline : OwnedClient → ℕ → Exec Conn (Option ConnectTimeoutResult)
  connect_before_deadline client limit = do
    started ← gets (λ (c : Conn). c.now)
    suspend env
    call ← gets (λ (c : Conn). env.connect c.steps client limit)
    connect_ended started client call.expired
        (timeout_exit call.expired call.cancelling (connect_body call))

  -- the `except` clauses around it in the loop
  unfoldable pub connect_failed : OwnedClient → Exc → Exec Conn Attempt
  connect_failed client e =
      if is_ttlock e
      then (do cleaned ← cleanup_candidate env client; pure (failed cleaned))
      else (if is_exception e then (do cleanup_candidate env client; pure discarded) else raise e)

  unfoldable pub try_connect : OwnedClient → ℕ → Exec Conn Attempt
  try_connect client limit =
      catch (do result ← connect_before_deadline client limit; pure (attempt_of result))
        (connect_failed client)

  unfoldable pub adopt : OwnedClient → Candidate → Exec Conn (Option OwnedClient)
  adopt client k = do
    c ← gets (λ (c : Conn). c)
    if c.closing_event
        then (do cleanup_candidate env client; pure none)
        else (if not (holds c.pending_client client)
            then raise runtime_error
            else (do modify (install_client client k); pure (some client)))

  -- the end of the loop's body
  unfoldable pub try_fresh : Bool → Bool → ℕ → Exec Conn Round
  try_fresh active_scan attempted deadline = do
    closing ← gets (λ (c : Conn). c.closing_event)
    if closing || not active_scan || attempted
        then pure stopped
        else (do candidate ← wait_for_connectable_device env deadline; pure (retry candidate))

  unfoldable pub settle : Bool → Bool → ℕ → OwnedClient → Candidate → Attempt → Exec Conn Round
  settle active_scan attempted deadline client k established = do
    installed ← adopt client k
    pure (adopted installed)
  settle active_scan attempted deadline client k (timed_out t) =
      if not t.cleanup.succeeded then pure stopped else try_fresh active_scan attempted deadline
  settle active_scan attempted deadline client k (failed cleaned) =
      if not cleaned.succeeded then pure stopped else try_fresh active_scan attempted deadline
  settle active_scan attempted deadline client k discarded = pure stopped

  -- the loop's body
  unfoldable pub connect_round : Bool → Bool → ℕ → Candidate → Exec Conn Round
  connect_round active_scan attempted deadline k = do
    limit ← gets (phase_timeout attempted deadline)
    if limit == 0 then pure stopped else (do
      client ← create_client (connect_attempts active_scan attempted) k
      attempt ← try_connect client limit
      settle active_scan attempted deadline client k attempt)

  -- after the loop
  unfoldable pub end_acquisition : Exec Conn (Option OwnedClient)
  end_acquisition = do
    c ← gets (λ (c : Conn). c)
    if c.closing_event
        then pure none
        else (do modify (record_reachability (env.reachability c.steps)); pure none)

  unfoldable pub after_round :
      (Option Candidate → Exec Conn (Option OwnedClient)) → Round → Exec Conn (Option OwnedClient)
  after_round next (adopted client) = pure client
  after_round next stopped = end_acquisition
  after_round next (retry candidate) = next candidate

  unfoldable pub acquire_loop :
      ℕ → Bool → Bool → ℕ → Option Candidate → Exec Conn (Option OwnedClient)
  acquire_loop zero active_scan attempted deadline candidate = end_acquisition
  acquire_loop (suc fuel) active_scan attempted deadline none = end_acquisition
  acquire_loop (suc fuel) active_scan attempted deadline (some k) = do
    closing ← gets (λ (c : Conn). c.closing_event)
    if closing then end_acquisition else (do
      round ← connect_round active_scan attempted deadline k
      after_round (acquire_loop fuel active_scan true deadline) round)

  -- the second part: a new link
  unfoldable pub acquire : Bool → ℕ → Exec Conn (Option OwnedClient)
  acquire active_scan deadline = do
    disconnected ← disconnect env
    if not disconnected then cleanup_uncertain else (do
      (candidate, attempted) ← resolve_initial_candidate env active_scan deadline
      acquire_loop 2 active_scan attempted deadline candidate)

  -- the live client, if there is one
  unfoldable pub reuse_or :
      Option OwnedClient → Exec Conn (Option OwnedClient) → Exec Conn (Option OwnedClient)
  reuse_or none m = m
  reuse_or (some client) m = do
    live ← gets (λ (c : Conn). env.is_connected c.steps client)
    if live then pure (some client) else m

  unfoldable pub ensure_connected : Bool → Intent → Exec Conn (Option OwnedClient)
  ensure_connected active_scan intent = do
    deadline ← gets (λ (c : Conn). c.now + acquisition_budget intent)
    modify begin_acquisition
    closing ← gets (λ (c : Conn). c.closing)
    if closing then pure none else (do
      retried ← retry_pending_cleanup env
      if not retried then cleanup_uncertain else (do
        client ← gets (λ (c : Conn). c.client)
        reuse_or client (acquire active_scan deadline)))
