-- ===== src/Connection/Acquiring.antt =====
-- What an acquisition of connection.py leaves: the client that it hands out, or none, and the ownership in order.
use ha_ttlock_ble.Base.{
  ℕ, zero, suc, Bool, true, false, not, ◌||◌, Option, none, some, is_some, List, ◌≡◌, refl, subst,
  if◌then◌else◌, ◌==◌, arith,
}
use ha_ttlock_ble.Base.Errors.{timeout, cancelled}
use ha_ttlock_ble.Base.Exec.{Exec, pure}
use ha_ttlock_ble.Base.Exec.Triple.{
  Triple, Triple-bind, Triple-read, Triple-if, Triple-raise, Triple-pure, Triple-gets,
  Triple-modify, Triple-absurd, weaken,
}
use ha_ttlock_ble.Connection.State.{
  Conn, Env, Intent, OwnedClient, Candidate, CleanupResult, Reachability, unavailable, undiagnosed,
  diagnosed, ScanEnd, scan_heard, scan_raised,
}
use ha_ttlock_ble.Connection.Candidate.{
  scan_ended, scan, scan_seconds, available, active_history_freshness, wait_for_connectable_device,
  resolve_initial_candidate, needs_scan, resolve_connection_candidate,
}
use ha_ttlock_ble.Connection.Ownership.{IsOwned, suspend-Triple}
use ha_ttlock_ble.Connection.Teardown.{
  IsPending, IsIdle, Cancelled, Cleaned, IsIdle-IsOwned, Cleaned-IsOwned,
  retry_pending_cleanup-Triple, disconnect-Triple,
}
use ha_ttlock_ble.Connection.Acquire.{
  Round, adopted, stopped, retry, Attempt, established, timed_out, failed, discarded, new_client,
  install_pending, create_client, try_fresh, settle, connect_round, record_reachability,
  end_acquisition, after_round, acquire_loop, cleanup_uncertain, acquire, reuse_or,
  ensure_connected,
}
use ha_ttlock_ble.Connection.Connecting.{
  Attempted, Acquired, Rounded, install_pending-IsPending, begin-IsOwned, try_connect-Triple,
  adopt-Triple,
}

module _ (env : Env) where
  scan_ended-Triple :
      (x : ScanEnd) (l : List Candidate) → Triple IsIdle (scan_ended x l) (λ _. IsIdle) Cancelled
  unfolding scan_ended
  scan_ended-Triple scan_heard l = Triple-pure _ (λ c p. p)
  scan_ended-Triple (scan_raised cancelled) l =
      Triple-raise cancelled (λ c p. (IsIdle-IsOwned c p, refl))
  scan_ended-Triple (scan_raised timeout) l =
      Triple-bind {R = λ _. IsIdle} (Triple-modify _ (λ c p. ground arith))
        λ _. Triple-pure none (λ c p. p)
  scan_ended-Triple (scan_raised e) l = Triple-pure none (λ c p. p)

  scan-Triple :
      (seconds max_age : ℕ) → Triple IsIdle (scan env seconds max_age) (λ _. IsIdle) Cancelled
  unfolding scan
  scan-Triple seconds max_age =
      Triple-bind {R = λ _. IsIdle} (suspend-Triple env (λ d p. p.held) (λ d f s h p. ground arith))
        λ _.
          Triple-read (λ d. d)
            λ d.
              Triple-if (env.caller_cancelled d.steps)
                (λ x. Triple-raise cancelled (λ f p. (IsIdle-IsOwned f p.0, refl)))
                λ x.
                  Triple-if (d.closing || d.closing_event) (λ y. Triple-pure none (λ f p. p.0))
                    λ y.
                      weaken (λ f p. p.0)
                        (scan_ended-Triple (env.advertisements d.steps seconds).ends
                          (available d.now max_age (env.advertisements d.steps seconds).heard))
                        (λ r f p. p) (λ e f p. p)

  wait-Triple :
      (deadline : ℕ)
      → Triple IsIdle (wait_for_connectable_device env deadline) (λ _. IsIdle) Cancelled
  unfolding wait_for_connectable_device
  wait-Triple deadline =
      Triple-read (λ c. c)
        λ c.
          Triple-if (scan_seconds deadline c == 0) (λ b. Triple-pure none (λ d p. p.0))
            λ b.
              weaken (λ d p. p.0)
                (scan-Triple (scan_seconds deadline c) (active_history_freshness env c))
                (λ a d p. p) (λ e d p. p)

  try_fresh-Triple :
      (active_scan attempted : Bool) (deadline : ℕ)
      → Triple IsIdle (try_fresh env active_scan attempted deadline) Rounded Cancelled
  unfolding try_fresh
  try_fresh-Triple active_scan attempted deadline =
      Triple-read (λ c. c.closing_event)
        λ closing.
          Triple-if (closing || not active_scan || attempted)
            (λ b. Triple-pure stopped (λ c p. IsIdle-IsOwned c p.0))
            λ b.
              Triple-bind (weaken (λ d p. p.0) (wait-Triple deadline) (λ a d p. p) (λ e d p. p))
                λ candidate. Triple-pure (retry candidate) (λ c p. p)

  settle-Cleaned :
      (active_scan attempted : Bool) (deadline : ℕ) (k : OwnedClient) (r : CleanupResult)
      → Triple
          (Cleaned k r)
          (if not r.succeeded then pure stopped else try_fresh env active_scan attempted deadline)
          Rounded
          Cancelled
  settle-Cleaned active_scan attempted deadline k r =
      Triple-if (not r.succeeded) (λ b. Triple-pure stopped (λ c p. Cleaned-IsOwned k r c p))
        λ b.
          weaken (λ c p. p.gone (ground arith)) (try_fresh-Triple active_scan attempted deadline)
            (λ a c p. p) (λ e c p. p)

  settle-Triple :
      (active_scan attempted : Bool) (deadline : ℕ) (k : OwnedClient) (r : Candidate) (a : Attempt)
      → Triple (Attempted k a) (settle env active_scan attempted deadline k r a) Rounded Cancelled
  unfolding settle
  settle-Triple active_scan attempted deadline k r established =
      Triple-bind (adopt-Triple env k r) λ installed. Triple-pure (adopted installed) (λ c p. p)
  settle-Triple active_scan attempted deadline k r (timed_out t) =
      settle-Cleaned active_scan attempted deadline k t.cleanup
  settle-Triple active_scan attempted deadline k r (failed cleaned) =
      settle-Cleaned active_scan attempted deadline k cleaned
  settle-Triple active_scan attempted deadline k r discarded = Triple-pure stopped (λ c p. p)

  create_client-Triple :
      (n : ℕ) (r : Candidate) → Triple IsIdle (create_client n r) (λ k. IsPending k none) Cancelled
  unfolding create_client
  create_client-Triple n r =
      Triple-read (λ c. c)
        λ c.
          Triple-if (is_some c.pending_client) (λ b. Triple-absurd (λ d p. ground arith))
            λ b.
              Triple-bind {R = λ _. IsPending (new_client n r c) none}
                (Triple-modify _ (λ d p.
                  subst (λ (x : Conn). IsPending (new_client n r x) none (install_pending n r d))
                    p.1 (install_pending-IsPending n r d p.0)))
                λ _. Triple-pure (new_client n r c) (λ d p. p)

  pub connect_round-Triple :
      (active_scan attempted : Bool) (deadline : ℕ) (r : Candidate)
      → Triple IsIdle (connect_round env active_scan attempted deadline r) Rounded Cancelled
  unfolding connect_round
  connect_round-Triple active_scan attempted deadline r =
      Triple-bind (Triple-gets _ (λ c p. p)) λ limit.
        Triple-if (limit == 0) (λ b. Triple-pure stopped (λ c p. IsIdle-IsOwned c p))
          λ b. Triple-bind (create_client-Triple _ r) λ k.
            Triple-bind (try_connect-Triple env k limit)
              λ attempt. settle-Triple active_scan attempted deadline k r attempt

  record-IsOwned : (r : Reachability) (c : Conn) → IsOwned c → IsOwned (record_reachability r c)
  unfolding record_reachability
  record-IsOwned unavailable c p = p
  record-IsOwned undiagnosed c p = p
  record-IsOwned (diagnosed t) c p = ground arith

  end-Triple : Triple IsOwned (end_acquisition env) Acquired Cancelled
  unfolding end_acquisition
  end-Triple =
      Triple-read (λ c. c)
        λ c.
          Triple-if c.closing_event (λ b. Triple-pure none (λ d p. p.0))
            λ b.
              Triple-bind {R = λ _. IsOwned} (Triple-modify _ (λ d p. record-IsOwned _ d p.0))
                λ _. Triple-pure none (λ d p. p)

  after-Triple :
      (next : Option Candidate → Exec Conn (Option OwnedClient)) (round : Round)
      → ((r : Option Candidate) → Triple IsIdle (next r) Acquired Cancelled)
      → Triple (Rounded round) (after_round env next round) Acquired Cancelled
  unfolding after_round
  after-Triple next (adopted r) h = Triple-pure r (λ c p. p)
  after-Triple next stopped h = end-Triple
  after-Triple next (retry r) h = h r

  loop-Triple :
      (fuel : ℕ) (active_scan attempted : Bool) (deadline : ℕ) (r : Option Candidate)
      → Triple IsIdle (acquire_loop env fuel active_scan attempted deadline r) Acquired Cancelled
  unfolding acquire_loop
  loop-Triple zero active_scan attempted deadline r =
      weaken (λ c p. IsIdle-IsOwned c p) end-Triple (λ a c p. p) (λ e c p. p)
  loop-Triple (suc fuel) active_scan attempted deadline none =
      weaken (λ c p. IsIdle-IsOwned c p) end-Triple (λ a c p. p) (λ e c p. p)
  loop-Triple (suc fuel) active_scan attempted deadline (some r) =
      Triple-read (λ c. c.closing_event)
        λ closing.
          Triple-if closing
            (λ b. weaken (λ c p. IsIdle-IsOwned c p.0) end-Triple (λ a c p. p) (λ e c p. p))
            λ b.
              Triple-bind
                (weaken (λ c p. p.0) (connect_round-Triple active_scan attempted deadline r)
                  (λ a c p. p) (λ e c p. p))
                λ round.
                  after-Triple (acquire_loop env fuel active_scan true deadline) round
                    (loop-Triple fuel active_scan true deadline)

  resolve-Triple :
      (active_scan : Bool) (deadline : ℕ)
      → Triple IsIdle (resolve_initial_candidate env active_scan deadline) (λ _. IsIdle) Cancelled
  unfolding resolve_initial_candidate
  resolve-Triple active_scan deadline =
      Triple-read (λ c. c)
        λ c.
          let candidate = resolve_connection_candidate env active_scan c in
          Triple-if (not (needs_scan env active_scan candidate c))
            (λ b. Triple-pure (candidate, false) (λ d p. p.0))
            λ b.
              Triple-bind (weaken (λ d p. p.0) (wait-Triple deadline) (λ a d p. p) (λ e d p. p))
                λ fresh. Triple-pure (fresh, true) (λ d p. p)

  uncertain-Triple : Triple IsOwned cleanup_uncertain Acquired Cancelled
  uncertain-Triple =
      Triple-bind {R = λ _. IsOwned} (Triple-modify _ (λ c p. ground arith))
        λ _. Triple-pure none (λ c p. p)

  acquire-Triple :
      (active_scan : Bool) (deadline : ℕ)
      → Triple IsOwned (acquire env active_scan deadline) Acquired Cancelled
  unfolding acquire
  acquire-Triple active_scan deadline = Triple-bind (disconnect-Triple env) λ done.
      Triple-if (not done) (λ b. weaken (λ c p. p.owned) uncertain-Triple (λ a c p. p) (λ e c p. p))
        λ b.
          Triple-bind
            (weaken (λ c p. ground arith) (resolve-Triple active_scan deadline) (λ a c p. p)
              (λ e c p. p))
            λ r. loop-Triple 2 active_scan r.1 deadline r.0

  reuse-Triple :
      (client : Option OwnedClient) {m : Exec Conn (Option OwnedClient)}
      → Triple IsOwned m Acquired Cancelled
      → Triple
          (λ c. IsOwned c × (c.pending_client ≡ none) × (c.client ≡ client))
          (reuse_or env client m)
          Acquired
          Cancelled
  unfolding reuse_or
  reuse-Triple none h = weaken (λ c p. p.0) h (λ a c p. p) (λ e c p. p)
  reuse-Triple (some k) h =
      Triple-read (λ c. env.is_connected c.steps k)
        λ live.
          Triple-if live (λ b. Triple-pure (some k) (λ c p. (p.0.0, p.0.2, p.0.1)))
            (λ b. weaken (λ c p. p.0.0) h (λ a c p. p) (λ e c p. p))

  -- From a state in order, an acquisition ends in a state in order: it returns no client, or the
  -- installed one with no teardown pending, and raises nothing but its caller's cancellation.
  pub ensure_connected-Acquired :
      (active_scan : Bool) (intent : Intent)
      → Triple IsOwned (ensure_connected env active_scan intent) Acquired Cancelled
  unfolding ensure_connected
  ensure_connected-Acquired active_scan intent = Triple-bind (Triple-gets _ (λ c p. p)) λ deadline.
      Triple-bind {R = λ _. IsOwned} (Triple-modify _ begin-IsOwned) λ _.
        Triple-bind (Triple-gets _ (λ c p. p)) λ closing.
          Triple-if closing (λ b. Triple-pure none (λ c p. p))
            λ b. Triple-bind (retry_pending_cleanup-Triple env) λ retried.
              Triple-if (not retried)
                (λ b. weaken (λ c p. p.owned) uncertain-Triple (λ a c p. p) (λ e c p. p))
                λ b.
                  Triple-read (λ c. c.client)
                    λ client.
                      weaken (λ c p. (p.0.owned, p.0.certain (ground arith), p.1))
                        (reuse-Triple client (acquire-Triple active_scan deadline)) (λ a c p. p)
                        (λ e c p. p)
