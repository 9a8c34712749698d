-- ===== src/Connection/Teardown.antt =====
-- Teardown of a client (connection.py): what it leaves when it succeeds, fails or is cancelled.
use ha_ttlock_ble.Base.{
  ℕ, Bool, true, false, not, Option, none, some, is_some, ◌≡◌, inl, inr, refl, arith, Bool-cases,
}
use ha_ttlock_ble.Base.Errors.{Exc, cancelled}
use ha_ttlock_ble.Base.Exec.Triple.{
  Triple, Triple-bind, Triple-read, Triple-if, Triple-raise, Triple-pure, Triple-gets,
  Triple-modify, Triple-catch, Triple-absurd, weaken,
}
use ha_ttlock_ble.Connection.State.{
  Conn, Env, OwnedClient, CleanupResult, suspend, holds, broadcast_connection_state,
}
use ha_ttlock_ble.Connection.Cleanup.{
  begin_cleanup, is_foreign, clear_cleanup, release_cleaned, client_is_disconnected,
  after_disconnect, disconnect_pending_client_once, finish_cleanup, cleanup_candidate,
  retry_cleanup, retry_pending_cleanup, disconnect_installed, disconnect,
}
use ha_ttlock_ble.Connection.Ownership.{IsHeld, IsOwned, suspend-Triple}

-- A client is being torn down, or waits for another try; `t` is the cleanup task's.
pub record IsPending (k : OwnedClient) (t : Option OwnedClient) (c : Conn) : Type 0 where
  pub held : IsHeld c
  pub client : c.client ≡ none
  pub pending : c.pending_client ≡ some k
  pub task : c.cleanup_task ≡ t

-- No client is owned.
pub record IsIdle (c : Conn) : Type 0 where
  pub held : IsHeld c
  pub client : c.client ≡ none
  pub pending : c.pending_client ≡ none
  pub task : c.cleanup_task ≡ none

-- What a raise leaves: only a cancellation gets out, and the ownership is in order.
abbrev pub Cancelled : Exc → Conn → Type 0
Cancelled e c = IsOwned c × (e ≡ cancelled)

pub IsPending-IsOwned : (k : OwnedClient) (c : Conn) → IsPending k none c → IsOwned c
IsPending-IsOwned k c p = record { held = p.held; settled = p.task }

pub IsIdle-IsOwned : (c : Conn) → IsIdle c → IsOwned c
IsIdle-IsOwned c p = record { held = p.held; settled = p.task }

-- The end of a cleanup: the client is let go exactly when it succeeded.
pub record Cleaned (k : OwnedClient) (r : CleanupResult) (c : Conn) : Type 0 where
  pub gone : r.succeeded ≡ true → IsIdle c
  pub kept : r.succeeded ≡ false → IsPending k none c

pub Cleaned-IsOwned : (k : OwnedClient) (r : CleanupResult) (c : Conn) → Cleaned k r c → IsOwned c
Cleaned-IsOwned k r c p = elim (Bool-cases r.succeeded) [
  | inl b ↦ IsIdle-IsOwned c (p.gone b)
  | inr b ↦ IsPending-IsOwned k c (p.kept b)
]

module _ (env : Env) where
  module _ {E : Exc → Conn → Type 0} where
    pub suspend-IsPending :
        (k : OwnedClient) (t : Option OwnedClient)
        → Triple (IsPending k t) (suspend env) (λ _. IsPending k t) E
    suspend-IsPending k t = suspend-Triple env (λ c p. p.held) (λ c d s h p. ground arith)

  pub begin_cleanup-Triple :
      {E : Exc → Conn → Type 0} (k : OwnedClient)
      → Triple (IsPending k none) (begin_cleanup k) (λ _. IsPending k (some k)) E
  unfolding begin_cleanup
  begin_cleanup-Triple k =
      Triple-read (λ c. c)
        λ c.
          Triple-if (is_foreign c.cleanup_task k) (λ b. Triple-absurd (λ d p. ground arith))
            (λ b. Triple-modify _ (λ d p. ground arith))

  after_disconnect-Triple :
      (started : ℕ) (k : OwnedClient) (raised : Option Exc)
      → Triple
          (IsPending k (some k))
          (after_disconnect env started k raised)
          (λ _. IsPending k (some k))
          (λ e c. IsPending k (some k) c × (e ≡ cancelled))
  unfolding after_disconnect
  after_disconnect-Triple started k none = Triple-gets _ (λ d p. p)
  after_disconnect-Triple started k (some cancelled) = Triple-raise cancelled (λ d p. (p, refl))
  after_disconnect-Triple started k (some e) =
      Triple-bind (Triple-gets _ (λ d p. p)) λ b. Triple-gets _ (λ d p. p)

  once-Triple :
      (k : OwnedClient)
      → Triple
          (IsPending k (some k))
          (disconnect_pending_client_once env k)
          (λ _. IsPending k (some k))
          (λ e c. IsPending k (some k) c × (e ≡ cancelled))
  unfolding disconnect_pending_client_once
  once-Triple k =
      Triple-read (λ c. c)
        λ c.
          Triple-if (client_is_disconnected env k c) (λ b. Triple-gets _ (λ d p. p.0))
            λ b.
              Triple-bind
                (weaken (λ d p. p.0) (suspend-IsPending k (some k)) (λ a d p. p) (λ e d p. p))
                λ _.
                  Triple-read (λ d. env.disconnect d.steps k)
                    λ raised.
                      weaken (λ d p. p.0) (after_disconnect-Triple c.now k raised) (λ a d p. p)
                        (λ e d p. p)

  pub release-Cleaned :
      (k : OwnedClient) (r : CleanupResult) (c : Conn)
      → IsPending k (some k) c
      → Cleaned k r (release_cleaned k r.succeeded (clear_cleanup c))
  unfolding release_cleaned broadcast_connection_state
  release-Cleaned k r c p = ground arith

  finish_cleanup-Triple :
      (k : OwnedClient) (r : CleanupResult)
      → Triple (IsPending k (some k)) (finish_cleanup env k r) (Cleaned k) Cancelled
  unfolding finish_cleanup
  finish_cleanup-Triple k r =
      Triple-read (λ c. env.caller_cancelled c.steps)
        λ interrupted.
          Triple-bind {R = λ _. Cleaned k r} (Triple-modify _ (λ d p. release-Cleaned k r d p.0))
            λ _.
              Triple-if interrupted
                (λ b. Triple-raise cancelled (λ d p. (Cleaned-IsOwned k r d p, refl)))
                (λ b. Triple-pure r (λ d p. p))

  pub cleanup_candidate-Triple :
      (k : OwnedClient) → Triple (IsPending k none) (cleanup_candidate env k) (Cleaned k) Cancelled
  unfolding cleanup_candidate
  cleanup_candidate-Triple k =
      Triple-read (λ c. c)
        λ c.
          Triple-if (not (holds c.pending_client k)) (λ b. Triple-absurd (λ d p. ground arith))
            λ b.
              Triple-bind (weaken (λ d p. p.0) (begin_cleanup-Triple k) (λ a d p. p) (λ e d p. p))
                λ _. Triple-bind (suspend-IsPending k (some k)) λ _.
                  Triple-bind
                    (Triple-catch (once-Triple k) λ e.
                      Triple-bind {R = λ _ d. IsPending k none d × (e ≡ cancelled)}
                        (Triple-modify clear_cleanup (λ d p. (ground arith, p.1)))
                        λ _. Triple-raise e (λ d p. (IsPending-IsOwned k d p.0, p.1)))
                    λ cleanup. finish_cleanup-Triple k cleanup

  -- whether the teardown that was pending is certain, and the installed client is then as it was
  pub record Retried (b : Bool) (c : Conn) : Type 0 where
    pub owned : IsOwned c
    pub certain : b ≡ true → c.pending_client ≡ none
    pub uncertain : b ≡ false → (c.client ≡ none) × (is_some c.pending_client ≡ true)

  Cleaned-Retried :
      (k : OwnedClient) (r : CleanupResult) (c : Conn) → Cleaned k r c → Retried r.succeeded c
  Cleaned-Retried k r c p = elim (Bool-cases r.succeeded) [
    | inl b ↦ let idle = p.gone b in ground (arith, IsIdle-IsOwned c idle)
    | inr b ↦ let pending = p.kept b in ground (arith, IsPending-IsOwned k c pending)
  ]

  retry_cleanup-Triple :
      (pending : Option OwnedClient)
      → Triple
          (λ c. IsOwned c × (c.pending_client ≡ pending))
          (retry_cleanup env pending)
          Retried
          Cancelled
  unfolding retry_cleanup
  retry_cleanup-Triple none = Triple-pure true (λ c p. ground arith)
  retry_cleanup-Triple (some k) =
      Triple-bind
        (weaken (λ c p. ground arith) (cleanup_candidate-Triple k) (λ r c p. p) (λ e c p. p))
        λ cleanup. Triple-pure cleanup.succeeded (λ c p. Cleaned-Retried k cleanup c p)

  pub retry_pending_cleanup-Triple : Triple IsOwned (retry_pending_cleanup env) Retried Cancelled
  unfolding retry_pending_cleanup
  retry_pending_cleanup-Triple =
      Triple-read (λ c. c.pending_client) λ pending. retry_cleanup-Triple pending

  pub record Disconnected (b : Bool) (c : Conn) : Type 0 where
    pub owned : IsOwned c
    pub client : c.client ≡ none
    pub certain : b ≡ true → c.pending_client ≡ none
    pub uncertain : b ≡ false → is_some c.pending_client ≡ true

  Cleaned-Disconnected :
      (k : OwnedClient) (r : CleanupResult) (c : Conn) → Cleaned k r c → Disconnected r.succeeded c
  Cleaned-Disconnected k r c p = elim (Bool-cases r.succeeded) [
    | inl b ↦ let idle = p.gone b in ground (arith, IsIdle-IsOwned c idle)
    | inr b ↦ let pending = p.kept b in ground (arith, IsPending-IsOwned k c pending)
  ]

  disconnect_pending-Triple :
      (pending : Option OwnedClient)
      → Triple
          (λ c. (IsOwned c × (c.client ≡ none)) × (c.pending_client ≡ pending))
          (retry_cleanup env pending)
          Disconnected
          Cancelled
  unfolding retry_cleanup
  disconnect_pending-Triple none = Triple-pure true (λ c p. ground arith)
  disconnect_pending-Triple (some k) =
      Triple-bind
        (weaken (λ c p. ground arith) (cleanup_candidate-Triple k) (λ r c p. p) (λ e c p. p))
        λ cleanup. Triple-pure cleanup.succeeded (λ c p. Cleaned-Disconnected k cleanup c p)

  pub disconnect_installed-Triple :
      (client : Option OwnedClient)
      → Triple
          (λ c. IsOwned c × (c.client ≡ client))
          (disconnect_installed env client)
          Disconnected
          Cancelled
  unfolding disconnect_installed
  disconnect_installed-Triple none =
      unfold retry_pending_cleanup in
      Triple-read (λ c. c.pending_client) λ pending. disconnect_pending-Triple pending
  disconnect_installed-Triple (some k) =
      Triple-read (λ c. c)
        λ c.
          Triple-if (is_some c.pending_client) (λ b. Triple-absurd (λ d p. ground arith))
            λ b.
              Triple-bind {R = λ _. IsPending k none} (Triple-modify _ (λ d p. ground arith)) λ _.
                Triple-bind (cleanup_candidate-Triple k) λ cleanup.
                  Triple-pure cleanup.succeeded (λ d p. Cleaned-Disconnected k cleanup d p)

  -- From a state in order, a teardown leaves no installed client and a state in order, keeps a client
  -- pending exactly when it returns false, and raises nothing but its caller's cancellation.
  pub disconnect-Triple : Triple IsOwned (disconnect env) Disconnected Cancelled
  unfolding disconnect
  disconnect-Triple = Triple-read (λ c. c.client) λ client. disconnect_installed-Triple client
