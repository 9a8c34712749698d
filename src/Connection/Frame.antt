-- ===== src/Connection/Frame.antt =====
-- What every step of teardown and acquisition (connection.py) leaves alone: a predicate that each write
-- to the object's fields keeps is kept by the methods, whether they return or raise.
use ha_ttlock_ble.Base.{ℕ, zero, suc, ◌+◌, Bool, true, Option, none, some, List, [], ◌∷◌}
use ha_ttlock_ble.Base.Errors.{Exc, AccessFailure, timeout, cancelled}
use ha_ttlock_ble.Base.Exec.{Exec, Result, ok, err, modify}
use ha_ttlock_ble.Base.Exec.Triple.{
  Keeps, Triple-modify, keeps_rules, Keeps-pure, Keeps-raise, Keeps-gets, Keeps-if, Keeps-catch,
  Keeps-bind,
}
use ha_ttlock_ble.Connection.State.{
  Conn, Env, Intent, OwnedClient, Candidate, CleanupResult, Reachability, Interrupt, ScanEnd,
  scan_heard, scan_raised, interrupt, interrupts, suspend,
}
use ha_ttlock_ble.Connection.Candidate.{
  scan_ended, scan, wait_for_connectable_device, resolve_initial_candidate,
}
use ha_ttlock_ble.Connection.Cleanup.{
  begin_cleanup, clear_cleanup, release_cleaned, after_disconnect, disconnect_pending_client_once,
  finish_cleanup, cleanup_candidate, retry_cleanup, retry_pending_cleanup, disconnect_installed,
  disconnect,
}
use ha_ttlock_ble.Connection.Acquire.{
  Round, adopted, stopped, retry, Attempt, established, timed_out, failed, discarded,
  install_pending, create_client, install_client, begin_acquisition, connect_ended,
  connect_before_deadline, connect_failed, try_connect, adopt, try_fresh, settle, connect_round,
  record_reachability, end_acquisition, after_round, acquire_loop, cleanup_uncertain, acquire,
  reuse_or, ensure_connected,
}

pub record IsStable (P : Conn → Type 0) : Type 0 where
  pub ticked : (c : Conn) (t s : ℕ) → P c → P (record c { now = t; steps = s })
  pub interrupted : (i : Interrupt) (c : Conn) → P c → P (interrupt i c)
  pub cleaning : (k : OwnedClient) (c : Conn) → P c → P (record c { cleanup_task = some k })
  pub cleaned : (c : Conn) → P c → P (clear_cleanup c)
  pub released : (k : OwnedClient) (b : Bool) (c : Conn) → P c → P (release_cleaned k b c)
  pub tearing :
      (k : OwnedClient) (c : Conn) → P c → P (record c { pending_client = some k; client = none })
  pub pending : (n : ℕ) (k : Candidate) (c : Conn) → P c → P (install_pending n k c)
  pub installed : (k : OwnedClient) (r : Candidate) (c : Conn) → P c → P (install_client k r c)
  pub begun : (c : Conn) → P c → P (begin_acquisition c)
  pub failing : (f : AccessFailure) (c : Conn) → P c → P (record c { acquisition_failure = f })
  pub reached : (r : Reachability) (c : Conn) → P c → P (record_reachability r c)

module _ (env : Env) {P : Conn → Type 0} (stable : IsStable P) where
  interrupts-keeps : (is : List Interrupt) (c : Conn) → P c → P (interrupts is c)
  unfolding interrupts
  interrupts-keeps [] c p = p
  interrupts-keeps (i ∷ is) c p = interrupts-keeps is (interrupt i c) (stable.interrupted i c p)

  Keeps-modify : {f : Conn → Conn} → ((c : Conn) → P c → P (f c)) → Keeps P (modify f)
  Keeps-modify h = Triple-modify _ h

  pub suspend-Keeps : Keeps P (suspend env)
  unfolding suspend
  suspend-Keeps = record {
    at = λ c p.
        interrupts-keeps (env.during c.steps) _
          (stable.ticked c (c.now + env.elapsed c.steps) (suc c.steps) p);
  }

  ruleset frame = (keeps_rules, suspend-Keeps)

  begin_cleanup-Keeps : (k : OwnedClient) → Keeps P (begin_cleanup k)
  unfolding begin_cleanup
  begin_cleanup-Keeps k =
      Keeps-bind (Keeps-gets _) λ c. Keeps-if _ (Keeps-raise _) (Keeps-modify (stable.cleaning k))

  after_disconnect-Keeps :
      (n : ℕ) (k : OwnedClient) (r : Option Exc) → Keeps P (after_disconnect env n k r)
  unfolding after_disconnect
  after_disconnect-Keeps n k none = search frame
  after_disconnect-Keeps n k (some cancelled) = search frame
  after_disconnect-Keeps n k (some e) = search frame

  once-Keeps : (k : OwnedClient) → Keeps P (disconnect_pending_client_once env k)
  unfolding disconnect_pending_client_once
  once-Keeps k = search (frame, after_disconnect-Keeps) depth 9

  finish_cleanup-Keeps : (k : OwnedClient) (r : CleanupResult) → Keeps P (finish_cleanup env k r)
  unfolding finish_cleanup
  finish_cleanup-Keeps k r = Keeps-bind (Keeps-gets _) λ i.
      Keeps-bind (Keeps-modify (λ c p. stable.released k r.succeeded _ (stable.cleaned c p)))
        λ _. search frame

  pub cleanup_candidate-Keeps : (k : OwnedClient) → Keeps P (cleanup_candidate env k)
  unfolding cleanup_candidate
  cleanup_candidate-Keeps k = Keeps-bind (Keeps-gets _) λ c. Keeps-if _ (Keeps-raise _) (
      Keeps-bind (begin_cleanup-Keeps k) λ _. Keeps-bind suspend-Keeps λ _.
        Keeps-bind
          (Keeps-catch (once-Keeps k)
            (λ e. Keeps-bind (Keeps-modify stable.cleaned) λ _. Keeps-raise e))
          (finish_cleanup-Keeps k))

  retry_cleanup-Keeps : (r : Option OwnedClient) → Keeps P (retry_cleanup env r)
  unfolding retry_cleanup
  retry_cleanup-Keeps none = search frame
  retry_cleanup-Keeps (some k) = search (frame, cleanup_candidate-Keeps)

  pub retry_pending_cleanup-Keeps : Keeps P (retry_pending_cleanup env)
  unfolding retry_pending_cleanup
  retry_pending_cleanup-Keeps = search (frame, retry_cleanup-Keeps)

  disconnect_installed-Keeps : (r : Option OwnedClient) → Keeps P (disconnect_installed env r)
  unfolding disconnect_installed
  disconnect_installed-Keeps none = retry_pending_cleanup-Keeps
  disconnect_installed-Keeps (some k) = Keeps-bind (Keeps-gets _) λ c.
      Keeps-if _ (Keeps-raise _)
        (Keeps-bind (Keeps-modify (stable.tearing k)) λ _. search (frame, cleanup_candidate-Keeps))

  pub disconnect-Keeps : Keeps P (disconnect env)
  unfolding disconnect
  disconnect-Keeps = search (frame, disconnect_installed-Keeps)

  scan_ended-Keeps : (x : ScanEnd) (l : List Candidate) → Keeps P (scan_ended x l)
  unfolding scan_ended
  scan_ended-Keeps scan_heard l = search frame
  scan_ended-Keeps (scan_raised cancelled) l = search frame
  scan_ended-Keeps (scan_raised timeout) l =
      Keeps-bind (Keeps-modify (stable.failing _)) λ _. search frame
  scan_ended-Keeps (scan_raised e) l = search frame

  wait-Keeps : (deadline : ℕ) → Keeps P (wait_for_connectable_device env deadline)
  unfolding wait_for_connectable_device scan
  wait-Keeps deadline = search (frame, scan_ended-Keeps) depth 12

  resolve-Keeps :
      (active_scan : Bool) (deadline : ℕ)
      → Keeps P (resolve_initial_candidate env active_scan deadline)
  unfolding resolve_initial_candidate
  resolve-Keeps active_scan deadline = search (frame, wait-Keeps) depth 9

  create_client-Keeps : (n : ℕ) (r : Candidate) → Keeps P (create_client n r)
  unfolding create_client
  create_client-Keeps n r = Keeps-bind (Keeps-gets _) λ c.
      Keeps-if _ (Keeps-raise _) (Keeps-bind (Keeps-modify (stable.pending n r)) λ _. Keeps-pure _)

  connect_ended-Keeps :
      (n : ℕ) (k : OwnedClient) (expired : Bool) (r : Result (Unit {0}))
      → Keeps P (connect_ended env n k expired r)
  unfolding connect_ended
  connect_ended-Keeps n k expired (ok u) = search frame
  connect_ended-Keeps n k expired (err cancelled) = search (frame, cleanup_candidate-Keeps)
  connect_ended-Keeps n k expired (err timeout) = search (frame, cleanup_candidate-Keeps) depth 9
  connect_ended-Keeps n k expired (err e) = search frame

  connect_before_deadline-Keeps :
      (k : OwnedClient) (limit : ℕ) → Keeps P (connect_before_deadline env k limit)
  unfolding connect_before_deadline
  connect_before_deadline-Keeps k limit = search (frame, connect_ended-Keeps) depth 9

  connect_failed-Keeps : (k : OwnedClient) (e : Exc) → Keeps P (connect_failed env k e)
  unfolding connect_failed
  connect_failed-Keeps k e = search (frame, cleanup_candidate-Keeps) depth 9

  try_connect-Keeps : (k : OwnedClient) (limit : ℕ) → Keeps P (try_connect env k limit)
  unfolding try_connect
  try_connect-Keeps k limit =
      search (frame, connect_before_deadline-Keeps, connect_failed-Keeps) depth 7

  adopt-Keeps : (k : OwnedClient) (r : Candidate) → Keeps P (adopt env k r)
  unfolding adopt
  adopt-Keeps k r = Keeps-bind (Keeps-gets _) λ c.
      Keeps-if _ (Keeps-bind (cleanup_candidate-Keeps k) λ _. Keeps-pure _) (
        Keeps-if _ (Keeps-raise _)
          (Keeps-bind (Keeps-modify (stable.installed k r)) λ _. Keeps-pure _))

  try_fresh-Keeps : (a b : Bool) (deadline : ℕ) → Keeps P (try_fresh env a b deadline)
  unfolding try_fresh
  try_fresh-Keeps a b deadline = search (frame, wait-Keeps) depth 9

  settle-Keeps :
      (a b : Bool) (deadline : ℕ) (k : OwnedClient) (r : Candidate) (t : Attempt)
      → Keeps P (settle env a b deadline k r t)
  unfolding settle
  settle-Keeps a b deadline k r established = search (frame, adopt-Keeps)
  settle-Keeps a b deadline k r (timed_out t) = search (frame, try_fresh-Keeps)
  settle-Keeps a b deadline k r (failed t) = search (frame, try_fresh-Keeps)
  settle-Keeps a b deadline k r discarded = search frame

  connect_round-Keeps :
      (a b : Bool) (deadline : ℕ) (r : Candidate) → Keeps P (connect_round env a b deadline r)
  unfolding connect_round
  connect_round-Keeps a b deadline r =
      search (frame, create_client-Keeps, try_connect-Keeps, settle-Keeps) depth 9

  end-Keeps : Keeps P (end_acquisition env)
  unfolding end_acquisition
  end-Keeps = Keeps-bind (Keeps-gets _) λ c.
      Keeps-if _ (Keeps-pure _) (Keeps-bind (Keeps-modify (stable.reached _)) λ _. Keeps-pure _)

  after-Keeps :
      (next : Option Candidate → Exec Conn (Option OwnedClient)) (round : Round)
      → ((r : Option Candidate) → Keeps P (next r))
      → Keeps P (after_round env next round)
  unfolding after_round
  after-Keeps next (adopted r) h = search frame
  after-Keeps next stopped h = end-Keeps
  after-Keeps next (retry r) h = h r

  loop-Keeps :
      (fuel : ℕ) (a b : Bool) (deadline : ℕ) (r : Option Candidate)
      → Keeps P (acquire_loop env fuel a b deadline r)
  unfolding acquire_loop
  loop-Keeps zero a b deadline r = end-Keeps
  loop-Keeps (suc fuel) a b deadline none = end-Keeps
  loop-Keeps (suc fuel) a b deadline (some r) = Keeps-bind (Keeps-gets _) λ c.
      Keeps-if _ end-Keeps (
        Keeps-bind (connect_round-Keeps a b deadline r)
          λ round. after-Keeps _ round (loop-Keeps fuel a true deadline))

  uncertain-Keeps : Keeps P cleanup_uncertain
  uncertain-Keeps = Keeps-bind (Keeps-modify (stable.failing _)) λ _. Keeps-pure _

  acquire-Keeps : (a : Bool) (deadline : ℕ) → Keeps P (acquire env a deadline)
  unfolding acquire
  acquire-Keeps a deadline = Keeps-bind disconnect-Keeps λ d.
      Keeps-if _ uncertain-Keeps
        (Keeps-bind (resolve-Keeps a deadline) λ r. loop-Keeps 2 a r.1 deadline r.0)

  reuse-Keeps :
      (r : Option OwnedClient) {m : Exec Conn (Option OwnedClient)}
      → Keeps P m
      → Keeps P (reuse_or env r m)
  unfolding reuse_or
  reuse-Keeps none h = h
  reuse-Keeps (some k) h = search frame

  pub ensure_connected-Keeps :
      (a : Bool) (intent : Intent) → Keeps P (ensure_connected env a intent)
  unfolding ensure_connected
  ensure_connected-Keeps a intent = Keeps-bind (Keeps-gets _) λ deadline.
      Keeps-bind (Keeps-modify stable.begun) λ _. Keeps-bind (Keeps-gets _) λ closing.
        Keeps-if _ (Keeps-pure _) (
          Keeps-bind retry_pending_cleanup-Keeps λ b.
            Keeps-if _ uncertain-Keeps
              (Keeps-bind (Keeps-gets _) λ k. reuse-Keeps k (acquire-Keeps a deadline)))
