-- ===== src/Connection/Rounds.antt =====
-- How often the loop of `_async_ensure_connected_locked` (connection.py) goes round: the fuel of the model
-- is never what ends it.
use ha_ttlock_ble.Base.{
  ℕ, suc, Bool, true, false, not, ◌||◌, ◌≡◌, refl, Option, none, some, if◌then◌else◌, arith, ◌==◌,
}
use ha_ttlock_ble.Base.Errors.{Exc}
use ha_ttlock_ble.Base.Exec.{Exec, Result, ok, err, continue, ◌>>=◌}
use ha_ttlock_ble.Base.Exec.Triple.{
  Triple, Post, Triple-bind, Triple-if, Triple-pure, Triple-absurd,
}
use ha_ttlock_ble.Connection.State.{Conn, Env, OwnedClient, Candidate}
use ha_ttlock_ble.Connection.Acquire.{
  Round, adopted, stopped, retry, Attempt, established, timed_out, failed, discarded,
  connect_attempts, create_client, try_connect, adopt, try_fresh, settle, connect_round,
  end_acquisition, after_round, acquire_loop,
}

abbrev Anything : Conn → Type 0
Anything c = Unit

abbrev Whatever : Exc → Conn → Type 0
Whatever e c = Unit

abbrev is_retry : Round → Bool
is_retry (adopted r) = false
is_retry stopped = false
is_retry (retry r) = true

abbrev Ends : Round → Conn → Type 0
Ends r c = is_retry r ≡ false

-- nothing is claimed of a step
any-Triple : {A : Type 0} (m : Exec Conn A) → Triple Anything m (λ _. Anything) Whatever
any-Triple m = record { at = λ c p. any (m c) }
  where
    any : {A : Type 0} (x : Result A × Conn) → Post {A = A} (λ _. Anything) Whatever x
    any (ok a, c) = tt
    any (err e, c) = tt

unless :
    (b : Bool) (m f g : Exec Conn (Option OwnedClient)) (c : Conn)
    → f c ≡ g c
    → (if b then m else f) c ≡ (if b then m else g) c
unless true m f g c h = refl
unless false m f g c h = h

module _ (env : Env) (active_scan : Bool) (deadline : ℕ) where
  try_fresh-Ends : Triple Anything (try_fresh env active_scan true deadline) Ends Whatever
  unfolding try_fresh
  try_fresh-Ends = Triple-bind (any-Triple _) λ closing.
      Triple-if (closing || not active_scan || true) (λ b. Triple-pure stopped (λ c p. refl))
        (λ b. Triple-absurd (λ c p. ground arith))

  settle-Ends :
      (k : OwnedClient) (r : Candidate) (a : Attempt)
      → Triple Anything (settle env active_scan true deadline k r a) Ends Whatever
  unfolding settle
  settle-Ends k r established =
      Triple-bind (any-Triple (adopt env k r)) λ i. Triple-pure (adopted i) (λ c p. refl)
  settle-Ends k r (timed_out t) =
      Triple-if (not t.cleanup.succeeded) (λ b. Triple-pure stopped (λ c p. refl))
        (λ b. try_fresh-Ends)
  settle-Ends k r (failed t) =
      Triple-if (not t.succeeded) (λ b. Triple-pure stopped (λ c p. refl)) (λ b. try_fresh-Ends)
  settle-Ends k r discarded = Triple-pure stopped (λ c p. refl)

  connect_round-Ends :
      (r : Candidate)
      → Triple Anything (connect_round env active_scan true deadline r) Ends Whatever
  unfolding connect_round
  connect_round-Ends r = Triple-bind (any-Triple _) λ limit.
      Triple-if (limit == 0) (λ b. Triple-pure stopped (λ c p. refl))
        λ b.
          Triple-bind (any-Triple (create_client (connect_attempts active_scan true) r))
            λ k. Triple-bind (any-Triple (try_connect env k limit)) λ a. settle-Ends k r a

  agree :
      (f g : Option Candidate → Exec Conn (Option OwnedClient)) (x : Result Round × Conn)
      → Post Ends Whatever x
      → continue (after_round env f) x ≡ continue (after_round env g) x
  unfolding after_round
  agree f g (ok (adopted r), c) p = refl
  agree f g (ok stopped, c) p = refl
  agree f g (ok (retry r), c) p = absurd (ground arith)
  agree f g (err e, c) p = refl

  -- once the one fresh acquisition is spent, a round ends the loop
  spent :
      (m n : ℕ) (r : Option Candidate) (c : Conn)
      → acquire_loop env (suc m) active_scan true deadline r c
        ≡ acquire_loop env (suc n) active_scan true deadline r c
  unfolding acquire_loop ◌>>=◌
  spent m n none c = refl
  spent m n (some r) c = unless c.closing_event (end_acquisition env) _ _ c (
      agree (acquire_loop env m active_scan true deadline)
        (acquire_loop env n active_scan true deadline)
        (connect_round env active_scan true deadline r c) ((connect_round-Ends r).at c tt))

  again :
      (f g : Option Candidate → Exec Conn (Option OwnedClient)) (x : Result Round × Conn)
      → ((r : Option Candidate) (c : Conn) → f r c ≡ g r c)
      → continue (after_round env f) x ≡ continue (after_round env g) x
  unfolding after_round
  again f g (ok (adopted r), c) h = refl
  again f g (ok stopped, c) h = refl
  again f g (ok (retry r), c) h = h r c
  again f g (err e, c) h = refl

  -- The loop that connects goes round at most twice: any greater number of rounds that is allowed gives
  -- the same end, from every state and for every candidate.
  pub acquire_loop-rounds :
      (n : ℕ) (attempted : Bool) (r : Option Candidate) (c : Conn)
      → acquire_loop env (suc (suc n)) active_scan attempted deadline r c
        ≡ acquire_loop env 2 active_scan attempted deadline r c
  unfolding acquire_loop ◌>>=◌
  acquire_loop-rounds n attempted none c = refl
  acquire_loop-rounds n attempted (some r) c = unless c.closing_event (end_acquisition env) _ _ c (
      again (acquire_loop env (suc n) active_scan true deadline)
        (acquire_loop env 1 active_scan true deadline)
        (connect_round env active_scan attempted deadline r c) (λ s d. spent n 0 s d))
