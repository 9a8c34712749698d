-- ===== src/Connection/Command/Resolved.antt =====
-- How a bolt command of connection.py ends: reconciled, or with an exception that says what is known.
use ha_ttlock_ble.Base.{ℕ, Bool, true, false, ◌≡◌, refl, Option, none, some, List, arith}
use ha_ttlock_ble.Base.Errors.{Exc, cancelled}
use ha_ttlock_ble.Base.Exec.{Result, ok, err}
use ha_ttlock_ble.Base.Exec.Triple.{
  Triple, Triple-bind, Triple-if, Triple-raise, Triple-pure, Triple-gets, Triple-fact, Triple-catch,
  Triple-both, weaken,
}
use ha_ttlock_ble.Client.{Action}
use ha_ttlock_ble.Connection.State.{
  Conn, Env, OwnedClient, LockState, Intent, ambiguous_reconciliation, suspend,
}
use ha_ttlock_ble.Connection.Cleanup.{disconnect}
use ha_ttlock_ble.Connection.Ownership.{IsOwned, suspend-Triple}
use ha_ttlock_ble.Connection.Teardown.{disconnect-Triple}
use ha_ttlock_ble.Connection.Acquire.{ensure_connected}
use ha_ttlock_ble.Connection.Connecting.{Acquired}
use ha_ttlock_ble.Connection.Acquiring.{ensure_connected-Acquired}
use ha_ttlock_ble.Connection.Frame.{suspend-Keeps, disconnect-Keeps, ensure_connected-Keeps}
use ha_ttlock_ble.Connection.Wire.{wire-IsStable}
use ha_ttlock_ble.Connection.Command.{
  matches, reconciling_client, answered, query_match, reconcile_control, capture_reconciliation,
  raise_outcome, reconcile,
}

-- What the wire is, beside an object in order.
abbrev pub Wired : (List ℕ → Type 0) → Conn → Type 0
Wired Q c = IsOwned c × Q c.tracking.wire

pub Acquired-IsOwned : (r : Option OwnedClient) (c : Conn) → Acquired r c → IsOwned c
Acquired-IsOwned none c p = p
Acquired-IsOwned (some k) c p = p.0

module _ (env : Env) (Q : List ℕ → Type 0) where
  abbrev Aborted : Exc → Conn → Type 0
  Aborted e c = Wired Q c × (e ≡ cancelled)

  pub disconnect-Wired : Triple (Wired Q) (disconnect env) (λ _. Wired Q) Aborted
  disconnect-Wired =
      weaken (λ c p. p)
        (Triple-both (disconnect-Triple env) (disconnect-Keeps env (wire-IsStable Q)))
        (λ b c p. (p.0.owned, p.1)) (λ e c p. ((p.0.0, p.1), p.0.1))

  pub ensure_connected-Wired :
      (active_scan : Bool) (intent : Intent)
      → Triple (Wired Q) (ensure_connected env active_scan intent) (λ _. Wired Q) Aborted
  ensure_connected-Wired active_scan intent =
      weaken (λ c p. p)
        (Triple-both (ensure_connected-Acquired env active_scan intent)
          (ensure_connected-Keeps env (wire-IsStable Q) active_scan intent))
        (λ r c p. (Acquired-IsOwned r c p.0, p.1)) (λ e c p. ((p.0.0, p.1), p.0.1))

  pub suspend-Wired : {E : Exc → Conn → Type 0} → Triple (Wired Q) (suspend env) (λ _. Wired Q) E
  unfolding suspend
  suspend-Wired = record {
    at = λ c u. (
      (suspend-Triple env {E = λ _. IsOwned} {P = IsOwned} (λ d p. p.held)
            (λ d e s h p. ground arith)).at
          c u.0,
      (suspend-Keeps env (wire-IsStable Q)).at c u.1,
    );
  }

module _ (env : Env) (a : Action) where
  -- a fresh state query found the state that the command asked for
  pub record Matched : Type 0 where
    pub step : ℕ
    pub asked : OwnedClient
    pub answer : Option LockState × Option ℕ
    pub fresh : env.query_state step asked ≡ ok answer
    pub matched : matches a answer.0 ≡ true

module _ (env : Env) (a : Action) (Q : List ℕ → Type 0) where
  abbrev Fresh : Type 0
  Fresh = Matched env a

  -- a reconciliation's answer, and that it changes nothing on the wire
  abbrev Asked : Bool → Conn → Type 0
  Asked b c = Wired Q c × (b ≡ true → Fresh)

  abbrev Unasked : Exc → Conn → Type 0
  Unasked e c = Wired Q c

  answered-Triple :
      (n : ℕ) (k : OwnedClient) (r : Result (Option LockState × Option ℕ))
      → env.query_state n k ≡ r
      → Triple (Wired Q) (answered env a r) Asked Unasked
  answered-Triple n k (ok s) q =
      Triple-pure _
        (λ c p. (p, λ b. record { step = n; asked = k; answer = s; fresh = q; matched = b }))
  answered-Triple n k (err cancelled) q = Triple-raise _ (λ c p. p)
  answered-Triple n k (err e) q = Triple-pure false (λ c p. (p, ground arith))

  query_match-Triple :
      (k : Option OwnedClient) → Triple (Wired Q) (query_match env a k) Asked Unasked
  unfolding query_match
  query_match-Triple none = Triple-pure false (λ c p. (p, ground arith))
  query_match-Triple (some k) = Triple-bind (suspend-Wired env Q) λ _.
      Triple-bind {R = λ r c. Wired Q c × ((n : ℕ) × (env.query_state n k ≡ r))}
        (Triple-gets _ (λ c p. (p, (c.steps, refl))))
        λ r. Triple-fact λ f. answered-Triple f.0 k r f.1

  reconciling_client-Triple :
      (k : OwnedClient) → Triple (Wired Q) (reconciling_client env k) (λ _. Wired Q) Unasked
  unfolding reconciling_client
  reconciling_client-Triple k = Triple-bind {R = λ _. Wired Q} (Triple-gets _ (λ c p. p)) λ live.
      Triple-if live (λ b. Triple-pure (some k) (λ c p. p))
        λ b.
          Triple-bind (weaken (λ c p. p) (disconnect-Wired env Q) (λ _ c p. p) (λ e c p. p.0)) λ _.
            weaken (λ c p. p) (ensure_connected-Wired env Q true ambiguous_reconciliation)
              (λ _ c p. p) (λ e c p. p.0)

  abbrev Captured : Exc → Option Exc → Conn → Type 0
  Captured u none c = Wired Q c × Fresh
  Captured u (some e) c = Wired Q c × (e ≡ u)

  abbrev pub Reraised : Exc → Exc → Conn → Type 0
  Reraised u e c = Wired Q c × (e ≡ u)

  capture_reconciliation-Triple :
      (k : OwnedClient) (u : Exc)
      → Triple (Wired Q) (capture_reconciliation env a k u) (Captured u) (Reraised u)
  unfolding capture_reconciliation reconcile_control
  capture_reconciliation-Triple k u =
      Triple-bind {R = Asked}
        (Triple-catch (Triple-bind (reconciling_client-Triple k) query_match-Triple)
          (λ e. Triple-pure false (λ c p. (p, ground arith))))
        λ m.
          Triple-if m (λ b. Triple-pure none (λ c p. (p.0, p.1 b)))
            λ b.
              Triple-bind {R = λ _. Wired Q}
                (Triple-catch
                  (weaken (λ c p. p.0) (disconnect-Wired env Q) (λ _ c p. p) (λ e c p. p.0))
                  (λ e. Triple-pure false (λ c p. p)))
                λ _. Triple-pure (some u) (λ c p. (p, refl))

  raise_outcome-Triple :
      (u : Exc) (r : Option Exc)
      → Triple (Captured u r) (raise_outcome env r) (λ _ c. Wired Q c × Fresh) (Reraised u)
  raise_outcome-Triple u none = Triple-pure tt (λ c p. p)
  raise_outcome-Triple u (some e) = Triple-raise e (λ c p. p)

  -- A reconciliation from a state in order keeps the ownership and the bolt frames written, ends well
  -- only when the lock told the state asked for, and otherwise raises the ambiguity's own exception
  -- again.
  pub reconcile-Triple :
      (k : OwnedClient) (u : Exc)
      → Triple (Wired Q) (reconcile env a k u) (λ _ c. Wired Q c × Fresh) (Reraised u)
  unfolding reconcile
  reconcile-Triple k u = Triple-bind {R = λ _. Wired Q} (Triple-gets _ (λ c p. p)) λ stopped.
      Triple-if stopped (λ b. Triple-raise u (λ c p. (p, refl)))
        λ b.
          Triple-bind (suspend-Wired env Q)
            λ _. Triple-bind (capture_reconciliation-Triple k u) λ r. raise_outcome-Triple u r
