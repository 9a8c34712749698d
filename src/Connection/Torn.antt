-- ===== src/Connection/Torn.antt =====
-- The teardown of connection.py, which lets a client go only when its end is certain.
use ha_ttlock_ble.Base.{ℕ, true, Option, none, some, is_some, ◌≡◌, refl, sym, subst, arith}
use ha_ttlock_ble.Base.Errors.{cancelled}
use ha_ttlock_ble.Base.Exec.{pure, ◌>>=◌}
use ha_ttlock_ble.Base.Exec.Triple.{
  Triple, Triple-bind, Triple-read, Triple-if, Triple-pure, Triple-modify, Triple-absurd,
  Triple-fact, weaken,
}
use ha_ttlock_ble.Connection.State.{Conn, Env, OwnedClient}
use ha_ttlock_ble.Connection.Cleanup.{
  cleanup_candidate, retry_cleanup, retry_pending_cleanup, disconnect_installed, disconnect,
}
use ha_ttlock_ble.Connection.Ownership.{IsOwned, first}
use ha_ttlock_ble.Connection.Teardown.{IsPending}
use ha_ttlock_ble.Connection.Certain.{IsCertain, TornDown, TearCancelled, cleanup_candidate-Torn}

-- after any teardown, whether it returned or was cancelled
abbrev pub IsReleased : Conn → Type 0
IsReleased c = IsOwned c × (c.client ≡ none)

module _ (env : Env) where
  -- the client that is torn down is the one that was owned
  owned-Torn :
      (k : OwnedClient) (o : Option OwnedClient)
      → Triple
          (λ c. IsPending k none c × (o ≡ some k))
          (do cleanup ← cleanup_candidate env k; pure cleanup.succeeded)
          (TornDown env o)
          (TearCancelled env o)
  owned-Torn k o = Triple-fact λ q.
      subst
        (λ x.
          Triple (IsPending k none) (do cleanup ← cleanup_candidate env k; pure cleanup.succeeded)
            (TornDown env x) (TearCancelled env x))
        (sym q)
        (Triple-bind (cleanup_candidate-Torn env k)
          λ cleanup. Triple-pure cleanup.succeeded (λ c p. p))

  abbrev Owns : Option OwnedClient → Conn → Type 0
  Owns o c = IsOwned c × (first c.client c.pending_client ≡ o)

  none-IsCertain : (o : Option OwnedClient) (n : ℕ) → o ≡ none → IsCertain env n o
  none-IsCertain o n q = subst (IsCertain env n) (sym q) tt

  pending-Torn :
      (o pending : Option OwnedClient)
      → Triple
          (λ c. (Owns o c × (c.client ≡ none)) × (c.pending_client ≡ pending))
          (retry_cleanup env pending)
          (TornDown env o)
          (TearCancelled env o)
  unfolding retry_cleanup
  pending-Torn o none = Triple-pure true (λ c p. record {
    owned = p.0.0.0;
    client = p.0.1;
    gone = λ h. p.1;
    kept = λ h. ground arith;
    says = record {
      certain = λ h. none-IsCertain o c.steps (ground arith);
      uncertain = λ h. ground arith;
    };
  })
  pending-Torn o (some k) = weaken (λ c p. ground arith) (owned-Torn k o) (λ b c p. p) (λ e c p. p)

  installed-Torn :
      (o client : Option OwnedClient)
      → Triple
          (λ c. Owns o c × (c.client ≡ client))
          (disconnect_installed env client)
          (TornDown env o)
          (TearCancelled env o)
  unfolding disconnect_installed
  installed-Torn o none =
      unfold retry_pending_cleanup in
      Triple-read (λ c. c.pending_client) λ pending. pending-Torn o pending
  installed-Torn o (some k) =
      Triple-read (λ c. c)
        λ c.
          Triple-if (is_some c.pending_client) (λ b. Triple-absurd (λ d p. ground arith))
            λ b.
              Triple-bind {R = λ _ d. IsPending k none d × (o ≡ some k)}
                (Triple-modify _ (λ d p. ground arith)) λ _. owned-Torn k o

  -- From a state in order, a teardown leaves a state in order without an installed client. It returns
  -- true only if nothing was owned, or the disconnect of the client that was owned returned or its link
  -- is known to be down, and the client is let go then; it returns false only if that disconnect raised
  -- and the link is not known to be down, and that client stays pending then. It raises nothing but its
  -- caller's cancellation, and the client stays pending then too, or is let go with an end as certain.
  pub disconnect-Torn :
      (o : Option OwnedClient)
      → Triple
          (λ c. IsOwned c × (first c.client c.pending_client ≡ o))
          (disconnect env)
          (TornDown env o)
          (TearCancelled env o)
  unfolding disconnect
  disconnect-Torn o = Triple-read (λ c. c.client) λ client. installed-Torn o client

  pub disconnect-Released :
      Triple IsOwned (disconnect env) (λ _. IsReleased) (λ e c. IsReleased c × (e ≡ cancelled))
  disconnect-Released = record {
    at = λ c p.
        (weaken
            {P = λ d.
              IsOwned d × (first d.client d.pending_client ≡ first c.client c.pending_client)}
            (λ d q. q) (disconnect-Torn (first c.client c.pending_client))
            (λ b d q. (q.owned, q.client)) (λ e d q. ((q.owned, q.client), q.raised))).at
          c (p, refl);
  }
