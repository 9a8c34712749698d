-- ===== src/Connection/Connecting.antt =====
-- What `_async_ensure_connected_locked` of connection.py leaves: it never raises but for a cancellation of
-- its caller, and a client that it returns is the one that is installed.
use ha_ttlock_ble.Base.{ℕ, Bool, true, false, not, Option, none, some, ◌≡◌, refl, sym, subst, arith}
use ha_ttlock_ble.Base.Errors.{Exc, is_ttlock, is_exception, timeout, cancelled}
use ha_ttlock_ble.Base.Exec.{Result, ok, err}
use ha_ttlock_ble.Base.Exec.Triple.{
  Triple, Triple-bind, Triple-read, Triple-if, Triple-raise, Triple-pure, Triple-gets,
  Triple-modify, Triple-catch, Triple-absurd, weaken,
}
use ha_ttlock_ble.Connection.State.{
  Conn, Env, OwnedClient, Candidate, ConnectTimeoutResult, holds, broadcast_connection_state,
}
use ha_ttlock_ble.Connection.Ownership.{IsOwned}
use ha_ttlock_ble.Connection.Teardown.{
  IsPending, IsIdle, Cancelled, Cleaned, IsIdle-IsOwned, Cleaned-IsOwned, suspend-IsPending,
  cleanup_candidate-Triple,
}
use ha_ttlock_ble.Connection.Acquire.{
  Round, adopted, stopped, retry, Attempt, established, timed_out, failed, discarded, new_client,
  install_pending, install_client, begin_acquisition, connect_ended, connect_before_deadline,
  attempt_of, connect_failed, try_connect, adopt,
}

-- what a raise inside the connect phase leaves for its handlers
abbrev pub Interrupted : OwnedClient → Exc → Conn → Type 0
Interrupted k cancelled c = IsOwned c
Interrupted k _ c = IsPending k none c

abbrev Timed : OwnedClient → Option ConnectTimeoutResult → Conn → Type 0
Timed k none c = IsPending k none c
Timed k (some t) c = Cleaned k t.cleanup c

abbrev pub Attempted : OwnedClient → Attempt → Conn → Type 0
Attempted k established c = IsPending k none c
Attempted k (timed_out t) c = Cleaned k t.cleanup c
Attempted k (failed cleaned) c = Cleaned k cleaned c
Attempted k discarded c = IsOwned c

-- a client that is handed out is installed, and nothing waits for its teardown
abbrev pub Acquired : Option OwnedClient → Conn → Type 0
Acquired none c = IsOwned c
Acquired (some k) c = IsOwned c × (c.client ≡ some k) × (c.pending_client ≡ none)

abbrev pub Rounded : Round → Conn → Type 0
Rounded (adopted r) c = Acquired r c
Rounded stopped c = IsOwned c
Rounded (retry r) c = IsIdle c

idle_cancelled : (e : Exc) (c : Conn) → IsIdle c → e ≡ cancelled → Cancelled e c
idle_cancelled e c p h = (IsIdle-IsOwned c p, h)

Cancelled-Interrupted : (k : OwnedClient) (e : Exc) (c : Conn) → Cancelled e c → Interrupted k e c
Cancelled-Interrupted k e c p = subst (λ (x : Exc). Interrupted k x c) (sym p.1) p.0

exception-IsPending :
    (k : OwnedClient) (e : Exc) (c : Conn)
    → is_exception e ≡ true
    → Interrupted k e c
    → IsPending k none c
exception-IsPending k cancelled c h p = cc
exception-IsPending k e c h p = p

ttlock_exception : (e : Exc) → is_ttlock e ≡ true → is_exception e ≡ true
ttlock_exception cancelled h = cc
ttlock_exception e h = refl

other-Cancelled :
    (k : OwnedClient) (e : Exc) (c : Conn)
    → is_exception e ≡ false
    → Interrupted k e c
    → Cancelled e c
other-Cancelled k cancelled c h p = (p, refl)
other-Cancelled k e c h p = cc

attempt_of-Attempted :
    (k : OwnedClient) (r : Option ConnectTimeoutResult) (c : Conn)
    → Timed k r c
    → Attempted k (attempt_of r) c
unfolding attempt_of
attempt_of-Attempted k none c p = p
attempt_of-Attempted k (some t) c p = p

pub install_pending-IsPending :
    (n : ℕ) (k : Candidate) (c : Conn)
    → IsIdle c
    → IsPending (new_client n k c) none (install_pending n k c)
unfolding install_pending
install_pending-IsPending n k c p = ground arith

install_client-Acquired :
    (k : OwnedClient) (r : Candidate) (c : Conn)
    → IsPending k none c
    → Acquired (some k) (install_client k r c)
unfolding install_client broadcast_connection_state
install_client-Acquired k r c p = ground arith

pub begin-IsOwned : (c : Conn) → IsOwned c → IsOwned (begin_acquisition c)
unfolding begin_acquisition
begin-IsOwned c p = ground arith

module _ (env : Env) where
  connect_ended-Triple :
      (started : ℕ) (k : OwnedClient) (expired : Bool) (r : Result (Unit {0}))
      → Triple (IsPending k none) (connect_ended env started k expired r) (Timed k) (Interrupted k)
  unfolding connect_ended
  connect_ended-Triple started k expired (ok u) = Triple-pure none (λ c p. p)
  connect_ended-Triple started k expired (err cancelled) =
      Triple-bind {R = λ _. IsOwned}
        (weaken (λ c p. p) (cleanup_candidate-Triple env k) (λ r c p. Cleaned-IsOwned k r c p)
          (λ e c p. Cancelled-Interrupted k e c p))
        λ _. Triple-raise cancelled (λ c p. p)
  connect_ended-Triple started k expired (err timeout) =
      Triple-if (not expired) (λ b. Triple-raise timeout (λ c p. p))
        λ b. Triple-bind (Triple-gets _ (λ c p. p)) λ elapsed.
          Triple-bind
            (weaken (λ c p. p) (cleanup_candidate-Triple env k) (λ r c p. p)
              (λ e c p. Cancelled-Interrupted k e c p))
            λ cleaned. Triple-pure _ (λ c p. p)
  connect_ended-Triple started k expired (err e) = Triple-raise e (λ c p. p)

  connect_before_deadline-Triple :
      (k : OwnedClient) (limit : ℕ)
      → Triple (IsPending k none) (connect_before_deadline env k limit) (Timed k) (Interrupted k)
  unfolding connect_before_deadline
  connect_before_deadline-Triple k limit =
      Triple-read (λ c. c.now)
        λ started.
          Triple-bind (weaken (λ c p. p.0) (suspend-IsPending env k none) (λ a c p. p) (λ e c p. p))
            λ _.
              Triple-read (λ c. env.connect c.steps k limit)
                λ call.
                  weaken (λ c p. p.0) (connect_ended-Triple started k call.expired _) (λ r c p. p)
                    (λ e c p. p)

  connect_failed-Triple :
      (k : OwnedClient) (e : Exc)
      → Triple (Interrupted k e) (connect_failed env k e) (Attempted k) Cancelled
  unfolding connect_failed
  connect_failed-Triple k e =
      Triple-if (is_ttlock e)
        (λ b.
          Triple-bind
            (weaken (λ c p. exception-IsPending k e c (ttlock_exception e b) p)
              (cleanup_candidate-Triple env k) (λ r c p. p) (λ x c p. p))
            λ cleaned. Triple-pure (failed cleaned) (λ c p. p))
        λ _.
          Triple-if (is_exception e)
            (λ b.
              Triple-bind
                (weaken (λ c p. exception-IsPending k e c b p) (cleanup_candidate-Triple env k)
                  (λ r c p. p) (λ x c p. p))
                λ cleaned. Triple-pure discarded (λ c p. Cleaned-IsOwned k cleaned c p))
            (λ b. Triple-raise e (λ c p. other-Cancelled k e c b p))

  pub try_connect-Triple :
      (k : OwnedClient) (limit : ℕ)
      → Triple (IsPending k none) (try_connect env k limit) (Attempted k) Cancelled
  unfolding try_connect
  try_connect-Triple k limit =
      Triple-catch
        (Triple-bind (connect_before_deadline-Triple k limit)
          λ r. Triple-pure (attempt_of r) (λ c p. attempt_of-Attempted k r c p))
        (connect_failed-Triple k)

  pub adopt-Triple :
      (k : OwnedClient) (r : Candidate)
      → Triple (IsPending k none) (adopt env k r) Acquired Cancelled
  unfolding adopt
  adopt-Triple k r =
      Triple-read (λ c. c)
        λ c.
          Triple-if c.closing_event
            (λ b.
              Triple-bind
                (weaken (λ d p. p.0) (cleanup_candidate-Triple env k) (λ x d p. p) (λ e d p. p))
                λ cleaned. Triple-pure none (λ d p. Cleaned-IsOwned k cleaned d p))
            λ _.
              Triple-if (not (holds c.pending_client k)) (λ b. Triple-absurd (λ d p. ground arith))
                λ b.
                  Triple-bind {R = λ _. Acquired (some k)}
                    (Triple-modify _ (λ d p. install_client-Acquired k r d p.0))
                    λ _. Triple-pure (some k) (λ d p. p)
