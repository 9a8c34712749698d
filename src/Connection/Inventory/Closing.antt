-- ===== src/Connection/Inventory/Closing.antt =====
-- The end of an inventory read in connection.py, whatever happened in it.
use ha_ttlock_ble.Base.{
  ℕ, Bool, true, false, ◌||◌, ◌≡◌, refl, ◌⊎◌, inl, inr, Option, none, some, ltb, arith, Bool-cases,
}
use ha_ttlock_ble.Base.Errors.{
  Exc, Stage, busy, deadline, unknown, queue, inventory, cleanup, is_ttlock, access_inventory,
  sdk_inventory, timeout, cancelled,
}
use ha_ttlock_ble.Base.Exec.{Result, ok, err, raise, modify, catch, ◌>>◌}
use ha_ttlock_ble.Base.Exec.Triple.{
  Triple, Post, Triple-bind, Triple-read, Triple-if, Triple-raise, Triple-pure, Triple-gets,
  Triple-lift, Triple-modify, Triple-catch, weaken,
}
use ha_ttlock_ble.Connection.State.{
  Conn, Env, OwnedClient, Reason, failure, reported, inventory_intent,
}
use ha_ttlock_ble.Connection.Cleanup.{disconnect}
use ha_ttlock_ble.Connection.Ownership.{IsOwned, suspend-Triple}
use ha_ttlock_ble.Connection.Torn.{IsReleased, disconnect-Released}
use ha_ttlock_ble.Connection.Acquiring.{ensure_connected-Acquired}
use ha_ttlock_ble.Connection.Command.Resolved.{Acquired-IsOwned}
use ha_ttlock_ble.Connection.Inventory.{
  diagnose, begin_read, read_failed, owns_none, conclude, concluded, read_client, deadline_exit,
  read_before_deadline, closed, read_and_close, read_access_inventory,
}

-- The diagnostics say whether a client is still owned, and why the read failed when one is.
pub record Concluded (c : Conn) : Type 0 where
  pub owned : IsOwned c
  pub released : c.client ≡ none
  pub confirmed : c.diagnostics.cleanup_confirmed ≡ some (owns_none c)
  pub uncertain : owns_none c ≡ false → c.diagnostics.reason ≡ some (failure cleanup)

-- What a caller of the read sees.
abbrev pub IsReadError : Exc → Type 0
IsReadError e = (e ≡ cancelled) ⊎ (is_ttlock e ≡ true)

diagnose-IsOwned : (r : Reason) (s : Stage) (c : Conn) → IsOwned c → IsOwned (diagnose r s c)
unfolding diagnose
diagnose-IsOwned r s c p = ground arith

conclude-Concluded :
    (started : ℕ) (c : Conn) → IsOwned c → c.client ≡ none → Concluded (conclude started c)
unfolding conclude diagnose
conclude-Concluded started c p q = elim (Bool-cases (owns_none c)) [
  | inl b ↦ rw b (record {
    owned = ground arith;
    released = q;
    confirmed = rw b;
    uncertain = λ h. ground arith;
  })
  | inr b ↦
      rw b (record { owned = ground arith; released = q; confirmed = rw b; uncertain = λ h. refl })
]

abbrev ReadFailed : Exc → Conn → Type 0
ReadFailed e c = IsOwned c × IsReadError e

diagnosed-Triple :
    (r : Reason) (s : Stage) (e : Exc)
    → is_ttlock e ≡ true
    → Triple {A = ℕ} IsOwned (do modify (diagnose r s); raise e) (λ _. IsOwned) ReadFailed
diagnosed-Triple r s e t =
    Triple-bind {R = λ _. IsOwned} (Triple-modify _ (diagnose-IsOwned r s))
      λ _. Triple-raise e (λ c p. (p, inr t))

read_failed-Triple : (e : Exc) → Triple IsOwned (read_failed e) (λ _. IsOwned) ReadFailed
unfolding read_failed
read_failed-Triple (access_inventory f s) =
    diagnosed-Triple (failure f) s (access_inventory f s) refl
read_failed-Triple (sdk_inventory r s) = diagnosed-Triple (reported r) s (sdk_inventory r s) refl
read_failed-Triple timeout =
    diagnosed-Triple (failure deadline) inventory (access_inventory deadline inventory) refl
read_failed-Triple cancelled =
    Triple-bind {R = λ _. IsOwned} (Triple-modify _ (λ c p. ground arith))
      λ _. Triple-raise cancelled (λ c p. (p, inl refl))
read_failed-Triple e =
    diagnosed-Triple (failure unknown) inventory (access_inventory unknown inventory) refl

module _ (env : Env) where
  abbrev Loose : Exc → Conn → Type 0
  Loose e c = IsOwned c

  read_client-Triple :
      (k : Option OwnedClient) → Triple IsOwned (read_client env k) (λ _. IsOwned) Loose
  read_client-Triple none =
      Triple-bind {R = λ _. IsOwned} (Triple-gets _ (λ c p. p)) λ f. Triple-raise _ (λ c p. p)
  read_client-Triple (some k) =
      Triple-bind {R = λ _. IsOwned} (Triple-modify _ (λ c p. ground arith)) λ _.
        Triple-bind (suspend-Triple env (λ c p. p.held) (λ c d s h p. ground arith)) λ _.
          Triple-bind {R = λ _. IsOwned} (Triple-gets _ (λ c p. p)) λ answer.
            Triple-bind {R = λ _. IsOwned} (Triple-lift answer (λ a q c p. p) (λ e q c p. p))
              λ result.
                Triple-bind {R = λ _. IsOwned}
                  (Triple-modify _ (diagnose-IsOwned (reported result) inventory))
                  λ _. Triple-pure result (λ c p. p)

  deadline_exit-Triple : (e : Exc) → Triple IsOwned (deadline_exit env e) (λ _. IsOwned) Loose
  deadline_exit-Triple cancelled =
      Triple-bind {R = λ _. IsOwned} (Triple-gets _ (λ c p. p)) λ expired.
        Triple-if expired (λ b. Triple-raise _ (λ c p. p)) (λ b. Triple-raise _ (λ c p. p))
  deadline_exit-Triple e = Triple-raise e (λ c p. p)

  read-Triple :
      Triple IsOwned (catch (read_before_deadline env) read_failed) (λ _. IsOwned) ReadFailed
  unfolding read_before_deadline
  read-Triple =
      Triple-catch
        (Triple-catch
          (Triple-bind
            (weaken (λ c p. p) (ensure_connected-Acquired env true inventory_intent)
              (λ r c p. Acquired-IsOwned r c p) (λ e c p. p.0))
            read_client-Triple)
          deadline_exit-Triple)
        read_failed-Triple

  abbrev Closed : Exc → Conn → Type 0
  Closed e c = IsReleased c × (e ≡ cancelled)

  abbrev ReadConcluded : Exc → Conn → Type 0
  ReadConcluded e c = Concluded c × IsReadError e

  concluded-ok :
      (started n : ℕ) (x : Result Bool × Conn)
      → Post (λ _. IsReleased) Closed x
      → Post (λ _. Concluded) ReadConcluded (concluded started (ok n) x)
  concluded-ok started n (ok b, c) p = conclude-Concluded started c p.0 p.1
  concluded-ok started n (err e, c) p = (conclude-Concluded started c p.0.0 p.0.1, inl p.1)

  concluded-err :
      (started : ℕ) (e : Exc) (x : Result Bool × Conn)
      → IsReadError e
      → Post (λ _. IsReleased) Closed x
      → Post (λ _. Concluded) ReadConcluded (concluded started (err e) x)
  concluded-err started e (ok b, c) q p = (conclude-Concluded started c p.0 p.1, q)
  concluded-err started e (err x, c) q p = (conclude-Concluded started c p.0.0 p.0.1, inl p.1)

  closed-Post :
      (started : ℕ) (x : Result ℕ × Conn)
      → Post (λ _. IsOwned) ReadFailed x
      → Post (λ _. Concluded) ReadConcluded (closed env started x)
  closed-Post started (ok n, c) p =
      concluded-ok started n (disconnect env c) ((disconnect-Released env).at c p)
  closed-Post started (err e, c) p =
      concluded-err started e (disconnect env c) p.1 ((disconnect-Released env).at c p.0)

  read_and_close-Triple :
      (started : ℕ) → Triple IsOwned (read_and_close env started) (λ _. Concluded) ReadConcluded
  unfolding read_and_close
  read_and_close-Triple started = record {
    at = λ c p.
        closed-Post started (catch (read_before_deadline env) read_failed c) (read-Triple.at c p);
  }

  -- what a refused read leaves untouched
  abbrev pub ReadRefused : Exc → Conn → Type 0
  ReadRefused e c = (IsOwned c × (e ≡ access_inventory busy queue)) ⊎ ReadConcluded e c

  -- From a state in order, an inventory read that a guard does not refuse leaves no client installed,
  -- however it ends: the diagnostics say whether one still waits for its teardown, one that does makes
  -- cleanup the reason, the ownership is in order, and the exception is a cancellation or one of the
  -- integration's own.
  pub read_access_inventory-Concluded :
      (locked : Bool)
      → Triple IsOwned (read_access_inventory env locked) (λ _. Concluded) ReadRefused
  unfolding read_access_inventory begin_read
  read_access_inventory-Concluded locked =
      Triple-read (λ c. c)
        λ c.
          Triple-if (ltb 0 c.control_requests || locked || c.closing)
            (λ b. Triple-raise _ (λ d p. inl (p.0, refl)))
            λ b.
              Triple-bind {R = λ _. IsOwned} (Triple-modify _ (λ d p. ground arith))
                λ _. weaken (λ d p. p) (read_and_close-Triple c.now) (λ _ d p. p) (λ e d p. inr p)
