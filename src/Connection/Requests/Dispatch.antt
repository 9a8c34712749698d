-- ===== src/Connection/Requests/Dispatch.antt =====
-- Which operation records connection.py dispatches: only those that a read of the log returns.
use ha_ttlock_ble.Base.{
  Bool, true, false, ◌≡◌, refl, sym, ap, ◌∙◌, Option, none, some, List, [], ◌∷◌, ◌++◌, bool_eq,
  arith, String, Bool-cases, inl, inr,
}
use ha_ttlock_ble.Base.Errors.{Exc, cancelled}
use ha_ttlock_ble.Base.Exec.{Result, lift}
use ha_ttlock_ble.Base.Exec.Triple.{
  Triple, Keeps, Triple-bind, Keeps-bind, Keeps-pure, Keeps-raise, Keeps-gets, Keeps-catch,
  Triple-lift,
}
use ha_ttlock_ble.LogHistory.{LogEntry, SafeParts, classify}
use ha_ttlock_ble.Connection.State.{
  Conn, Env, OwnedClient, Candidate, Signal, connection_signal, event_signal, log_signal, Interrupt,
  link_dropped, pushed, stop_requested, control_requested, control_finished, interrupt,
  broadcast_connection_state, Reachability, unavailable, diagnosed, undiagnosed, operation_log,
}
use ha_ttlock_ble.Connection.Cleanup.{release_cleaned}
use ha_ttlock_ble.Connection.Acquire.{
  install_pending, install_client, begin_acquisition, record_reachability,
}
use ha_ttlock_ble.Connection.Frame.{IsStable, ensure_connected-Keeps, suspend-Keeps}
use ha_ttlock_ble.Connection.Requests.{
  log_signals, log_failed, read_log, journal_log, get_operation_log,
}

-- The records among what was dispatched.
abbrev pub logs_of : List Signal → List LogEntry
logs_of [] = []
logs_of (log_signal e ∷ s) = e ∷ logs_of s
logs_of (event_signal e ∷ s) = logs_of s
logs_of (connection_signal b ∷ s) = logs_of s

logs-append : (s t : List Signal) → logs_of (s ++ t) ≡ logs_of s ++ logs_of t
logs-append [] t = refl
logs-append (log_signal e ∷ s) t = ap (λ l. e ∷ l) (logs-append s t)
logs-append (event_signal e ∷ s) t = logs-append s t
logs-append (connection_signal b ∷ s) t = logs-append s t

logs-signals : (es : List LogEntry) → logs_of (log_signals es) ≡ es
unfolding log_signals
logs-signals [] = refl
logs-signals (e ∷ es) = ap (λ l. e ∷ l) (logs-signals es)

append_nil : (l : List LogEntry) → l ++ [] ≡ l
append_nil [] = refl
append_nil (e ∷ l) = ap (λ m. e ∷ m) (append_nil l)

-- What stands in the list of signals without a record changes nothing.
silent : (s : List Signal) (t : List Signal) → logs_of t ≡ [] → logs_of (s ++ t) ≡ logs_of s
silent s t h = logs-append s t ∙ (ap (λ l. logs_of s ++ l) h ∙ append_nil (logs_of s))

broadcast-logs :
    (b : Bool) (c : Conn) → logs_of (broadcast_connection_state b c).signals ≡ logs_of c.signals
unfolding broadcast_connection_state
broadcast-logs b c = elim (Bool-cases (bool_eq b c.broadcast_connected)) [
  | inl h ↦ rw h refl
  | inr h ↦ rw h (silent c.signals (connection_signal b ∷ []) refl)
]

interrupt-logs : (i : Interrupt) (c : Conn) → logs_of (interrupt i c).signals ≡ logs_of c.signals
unfolding interrupt
interrupt-logs (link_dropped none) c = broadcast-logs false (record c { disconnected = true })
interrupt-logs (link_dropped (some g)) c =
    ground (arith, broadcast-logs false (record c { disconnected = true }))
interrupt-logs (pushed e) c = silent c.signals (event_signal e ∷ []) refl
interrupt-logs stop_requested c = refl
interrupt-logs control_requested c = refl
interrupt-logs control_finished c = refl

release-logs :
    (k : OwnedClient) (b : Bool) (c : Conn)
    → logs_of (release_cleaned k b c).signals ≡ logs_of c.signals
unfolding release_cleaned
release-logs k b c = ground (
  arith,
  broadcast-logs false (record c { pending_client = none; owned_client_generation = none }),
)

install-logs :
    (k : OwnedClient) (r : Candidate) (c : Conn)
    → logs_of (install_client k r c).signals ≡ logs_of c.signals
unfolding install_client
install-logs k r c = broadcast-logs true (record c {
  pending_client = none;
  client = some k;
  last_connection_rssi = r.rssi;
  disconnected = false;
})

reached-logs :
    (r : Reachability) (c : Conn) → logs_of (record_reachability r c).signals ≡ logs_of c.signals
unfolding record_reachability
reached-logs unavailable c = refl
reached-logs undiagnosed c = refl
reached-logs (diagnosed t) c = refl

module _ (env : Env) (l : List LogEntry) where
  -- so far, the records `l` were dispatched
  abbrev pub Logged : Conn → Type 0
  Logged c = logs_of c.signals ≡ l

  logs-IsStable : IsStable Logged
  unfolding install_pending begin_acquisition
  logs-IsStable = record {
    ticked = λ c t s p. p;
    interrupted = λ i c p. interrupt-logs i c ∙ p;
    cleaning = λ k c p. p;
    cleaned = λ c p. p;
    released = λ k b c p. release-logs k b c ∙ p;
    tearing = λ k c p. p;
    pending = λ n k c p. p;
    installed = λ k r c p. install-logs k r c ∙ p;
    begun = λ c p. p;
    failing = λ f c p. p;
    reached = λ r c p. reached-logs r c ∙ p;
  }

  lift-Keeps : {A : Type 0} (r : Result A) → Keeps Logged (lift r)
  lift-Keeps r = Triple-lift r (λ a q c p. p) (λ e q c p. p)

  log_failed-Keeps : (e : Exc) → Keeps Logged (log_failed env e)
  log_failed-Keeps cancelled = Keeps-raise cancelled
  log_failed-Keeps e = Keeps-pure none

  read_log-Keeps : (k : Option OwnedClient) → Keeps Logged (read_log env k)
  unfolding read_log
  read_log-Keeps none = Keeps-pure none
  read_log-Keeps (some k) =
      Keeps-catch
        (Keeps-bind (suspend-Keeps env logs-IsStable) λ _.
          Keeps-bind (Keeps-gets _)
            λ answer. Keeps-bind (lift-Keeps answer) λ es. Keeps-pure (some es))
        log_failed-Keeps

  module _ (digest : SafeParts → String) (mac : String) where
    journal_log-Triple :
        (r : Option (List LogEntry))
        → Triple Logged
            (journal_log env digest mac r)
            (λ es c. logs_of c.signals ≡ l ++ es)
            (λ _. Logged)
    unfolding journal_log
    journal_log-Triple none = record { at = λ c p. p ∙ sym (append_nil l) }
    journal_log-Triple (some es) = record {
      at = λ c p.
          let live = (classify digest c.log_history mac es).1 in
          logs-append c.signals (log_signals live)
          ∙ (ap (λ m. m ++ logs_of (log_signals live)) p ∙ ap (λ m. l ++ m) (logs-signals live));
    }

    -- A read of the operation log dispatches exactly the entries that it returns, once and in their
    -- order, and none when it raises, whatever else happens meanwhile.
    pub get_operation_log-Logged :
        Triple Logged
          (get_operation_log env digest mac)
          (λ es c. logs_of c.signals ≡ l ++ es)
          (λ _. Logged)
    unfolding get_operation_log
    get_operation_log-Logged =
        Triple-bind (ensure_connected-Keeps env logs-IsStable false operation_log)
          λ k. Triple-bind (read_log-Keeps k) journal_log-Triple
