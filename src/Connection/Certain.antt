-- ===== src/Connection/Certain.antt =====
-- The end of the cleanup of a client in connection.py, against what the SDK and Bleak answered: whether its
-- disconnect returned or its link is known to be down.
use ha_ttlock_ble.Base.{
  ℕ, Bool, true, false, not, Option, none, some, is_some, ◌≡◌, ◌⊎◌, inl, inr, refl, sym, ap, subst,
  arith, Bool-cases,
}
use ha_ttlock_ble.Base.Errors.{Exc, cancelled}
use ha_ttlock_ble.Base.Exec.Triple.{
  Triple, Triple-bind, Triple-read, Triple-if, Triple-raise, Triple-pure, Triple-gets,
  Triple-modify, Triple-catch, Triple-absurd, weaken,
}
use ha_ttlock_ble.Connection.State.{
  Conn, Env, OwnedClient, CleanupResult, holds, broadcast_connection_state,
}
use ha_ttlock_ble.Connection.Cleanup.{
  is_true, clear_cleanup, release_cleaned, client_is_disconnected, after_disconnect,
  disconnect_pending_client_once, finish_cleanup, cleanup_candidate,
}
use ha_ttlock_ble.Connection.Ownership.{IsOwned}
use ha_ttlock_ble.Connection.Teardown.{
  IsPending, IsPending-IsOwned, Cleaned, Cleaned-IsOwned, suspend-IsPending, begin_cleanup-Triple,
  release-Cleaned,
}

module _ (env : Env) where
  -- at the await `n`, the link of the client is known to be down, or its disconnect returned
  abbrev pub IsCertain : ℕ → Option OwnedClient → Type 0
  IsCertain n none = Unit {0}
  IsCertain n (some k) = (is_true (env.cleanup_confirmed n k) ≡ true) ⊎ (env.disconnect n k ≡ none)

  -- at the await `n`, there is a client whose disconnect raised and whose link is not known to be down
  abbrev pub IsUncertain : ℕ → Option OwnedClient → Type 0
  IsUncertain n none = ⊥
  IsUncertain n (some k) =
      (is_true (env.cleanup_confirmed n k) ≡ false) × (is_some (env.disconnect n k) ≡ true)

  -- what a teardown that returns says of the client that was owned, `o`
  pub record Says (o : Option OwnedClient) (b : Bool) (n : ℕ) : Type 0 where
    pub certain : b ≡ true → IsCertain n o
    pub uncertain : b ≡ false → IsUncertain n o

  -- The teardown of `o` returned: it is let go when its end is certain, and else it stays pending.
  pub record TornDown (o : Option OwnedClient) (b : Bool) (c : Conn) : Type 0 where
    pub owned : IsOwned c
    pub client : c.client ≡ none
    pub gone : b ≡ true → c.pending_client ≡ none
    pub kept : b ≡ false → c.pending_client ≡ o
    pub says : Says o b c.steps

  -- The caller of the teardown of `o` was cancelled: it stays pending, or its end is certain.
  pub record TearCancelled (o : Option OwnedClient) (e : Exc) (c : Conn) : Type 0 where
    pub owned : IsOwned c
    pub client : c.client ≡ none
    pub raised : e ≡ cancelled
    pub some_client : is_some o ≡ true
    pub left : (c.pending_client ≡ o) ⊎ ((c.pending_client ≡ none) × IsCertain c.steps o)

  -- during the cleanup of `k`, whose end is known
  abbrev Ended : OwnedClient → CleanupResult → Conn → Type 0
  Ended k r c = IsPending k (some k) c × Says (some k) r.succeeded c.steps

  confirmed-Says :
      (k : OwnedClient) (e : Exc) (n : ℕ)
      → env.disconnect n k ≡ some e
      → Says (some k) (is_true (env.cleanup_confirmed n k)) n
  confirmed-Says k e n q = record { certain = inl; uncertain = λ h. (h, ap is_some q) }

  after_disconnect-Torn :
      (started : ℕ) (k : OwnedClient) (raised : Option Exc)
      → Triple
          (λ c. IsPending k (some k) c × (env.disconnect c.steps k ≡ raised))
          (after_disconnect env started k raised)
          (Ended k)
          (λ e c. IsPending k (some k) c × (e ≡ cancelled))
  unfolding after_disconnect client_is_disconnected
  after_disconnect-Torn started k none =
      Triple-gets _ (λ c p. (p.0, record { certain = λ h. inr p.1; uncertain = λ h. ground arith }))
  after_disconnect-Torn started k (some cancelled) = Triple-raise cancelled (λ c p. (p.0, refl))
  after_disconnect-Torn started k (some e) =
      Triple-bind {R = λ b c. IsPending k (some k) c × Says (some k) b c.steps}
        (Triple-gets _ (λ c p. (p.0, confirmed-Says k e c.steps p.1))) λ b. Triple-gets _ (λ c p. p)

  once-Torn :
      (k : OwnedClient)
      → Triple
          (IsPending k (some k))
          (disconnect_pending_client_once env k)
          (Ended k)
          (λ e c. IsPending k (some k) c × (e ≡ cancelled))
  unfolding disconnect_pending_client_once client_is_disconnected
  once-Torn k =
      Triple-read (λ c. c)
        λ c.
          Triple-if (client_is_disconnected env k c)
            (λ b. Triple-gets _ (λ d p. (
              p.0,
              record {
                certain = λ h. inl (subst (λ x. client_is_disconnected env k x ≡ true) (sym p.1) b);
                uncertain = λ h. ground arith;
              },
            )))
            λ b.
              Triple-bind
                (weaken (λ d p. p.0) (suspend-IsPending env k (some k)) (λ a d p. p) (λ e d p. p))
                λ _.
                  Triple-read (λ d. env.disconnect d.steps k)
                    λ raised. after_disconnect-Torn c.now k raised

  release-steps :
      (k : OwnedClient) (b : Bool) (c : Conn)
      → (release_cleaned k b (clear_cleanup c)).steps ≡ c.steps
  unfolding release_cleaned broadcast_connection_state
  release-steps k b c = ground arith

  abbrev Finished : OwnedClient → CleanupResult → Conn → Type 0
  Finished k r c = Cleaned k r c × Says (some k) r.succeeded c.steps

  release-Finished :
      (k : OwnedClient) (r : CleanupResult) (c : Conn)
      → Ended k r c
      → Finished k r (release_cleaned k r.succeeded (clear_cleanup c))
  release-Finished k r c p = (
    release-Cleaned env k r c p.0,
    subst (Says (some k) r.succeeded) (sym (release-steps k r.succeeded c)) p.1,
  )

  Finished-TornDown :
      (k : OwnedClient) (r : CleanupResult) (c : Conn)
      → Finished k r c
      → TornDown (some k) r.succeeded c
  Finished-TornDown k r c p = record {
    owned = Cleaned-IsOwned k r c p.0;
    client = elim (Bool-cases r.succeeded) [
      | inl b ↦ (p.0.gone b).client
      | inr b ↦ (p.0.kept b).client
    ];
    gone = λ b. (p.0.gone b).pending;
    kept = λ b. (p.0.kept b).pending;
    says = p.1;
  }

  TornDown-cancelled :
      (k : OwnedClient) (b : Bool) (c : Conn)
      → TornDown (some k) b c
      → TearCancelled (some k) cancelled c
  TornDown-cancelled k b c p = record {
    owned = p.owned;
    client = p.client;
    raised = refl;
    some_client = refl;
    left = elim (Bool-cases b) [
      | inl t ↦ inr (p.gone t, p.says.certain t)
      | inr f ↦ inl (p.kept f)
    ];
  }

  finish_cleanup-Torn :
      (k : OwnedClient) (r : CleanupResult)
      → Triple
          (Ended k r)
          (finish_cleanup env k r)
          (λ r. TornDown (some k) r.succeeded)
          (TearCancelled (some k))
  unfolding finish_cleanup
  finish_cleanup-Torn k r =
      Triple-read (λ c. env.caller_cancelled c.steps)
        λ interrupted.
          Triple-bind {R = λ _. TornDown (some k) r.succeeded}
            (Triple-modify _ (λ c p.
              Finished-TornDown k r (release_cleaned k r.succeeded (clear_cleanup c))
                (release-Finished k r c p.0)))
            λ _.
              Triple-if interrupted (λ b. Triple-raise cancelled (TornDown-cancelled k r.succeeded))
                (λ b. Triple-pure r (λ c p. p))

  pub cleanup_candidate-Torn :
      (k : OwnedClient)
      → Triple
          (IsPending k none)
          (cleanup_candidate env k)
          (λ r. TornDown (some k) r.succeeded)
          (TearCancelled (some k))
  unfolding cleanup_candidate
  cleanup_candidate-Torn k =
      Triple-read (λ c. c)
        λ c.
          Triple-if (not (holds c.pending_client k)) (λ b. Triple-absurd (λ d p. ground arith))
            λ b.
              Triple-bind
                (weaken (λ d p. p.0) (begin_cleanup-Triple env k) (λ a d p. p) (λ e d p. p))
                λ _. Triple-bind (suspend-IsPending env k (some k)) λ _.
                  Triple-bind
                    (Triple-catch (once-Torn k) λ e.
                      Triple-bind {R = λ _ d. IsPending k none d × (e ≡ cancelled)}
                        (Triple-modify clear_cleanup (λ d p. (ground arith, p.1)))
                        λ _. Triple-raise e (λ d p. record {
                          owned = IsPending-IsOwned k d p.0;
                          client = p.0.client;
                          raised = p.1;
                          some_client = refl;
                          left = inl p.0.pending;
                        }))
                    λ cleanup. finish_cleanup-Torn k cleanup
