-- ===== src/Connection/Command/Ending.antt =====
-- What the end of `_async_run_command` of connection.py says of the bolt.
use ha_ttlock_ble.Base.{
  ℕ, ◌+◌, ◌-◌, Bool, true, false, ◌≡◌, refl, sym, ap, ◌⊎◌, inl, inr, Option, none, some, List, ◌∙◌,
  if◌then◌else◌, arith, subst,
}
use ha_ttlock_ble.Base.Errors.{
  Exc, ttlock, is_ttlock, timed_out, failed, outcome_unknown, timeout, cancelled,
}
use ha_ttlock_ble.Base.Exec.{Result, ok, err, raise, ◌>>◌}
use ha_ttlock_ble.Base.Exec.Triple.{Triple, Post, Triple-bind, Triple-raise, Triple-catch, weaken}
use ha_ttlock_ble.Client.{Action, opcode_of}
use ha_ttlock_ble.Client.Outcome.{IsDocumented, is_unknown_exc}
use ha_ttlock_ble.Connection.State.{Conn, Env, OwnedClient, explicit_control}
use ha_ttlock_ble.Connection.Cleanup.{disconnect}
use ha_ttlock_ble.Connection.Ownership.{IsOwned}
use ha_ttlock_ble.Connection.Command.{
  control_failed, control_connected, run_control_command, finish_request, run_command,
}
use ha_ttlock_ble.Connection.Command.Sent.{Succeeded, Told, Told-kind, Unsent, Failed}
use ha_ttlock_ble.Connection.Command.Waiting.{run_control_task-Triple}
use ha_ttlock_ble.Connection.Command.Resolved.{
  Matched, disconnect-Wired, ensure_connected-Wired, reconcile-Triple,
}

requests-IsOwned : (c : Conn) (n : ℕ) → IsOwned c → IsOwned (record c { control_requests = n })
requests-IsOwned c n p = ground arith

module _ (env : Env) (a : Action) (w : List ℕ) where
  -- the command succeeded, or its outcome was unknown and a fresh query found the state that it asked for
  abbrev pub Confirmed : Conn → Type 0
  Confirmed c =
      IsOwned c
      × (((n : ℕ) × Succeeded env n a w c.tracking.wire)
          ⊎ ((u : Exc) × ((n : ℕ) × Told env n a w u c.tracking.wire)
              × (is_unknown_exc u ≡ true)
              × Matched env a))

  -- a caller sees a cancellation or one of the integration's own exceptions: nothing was sent and the
  -- outcome is not reported as unknown, or one play was sent and the exception says what it did
  abbrev pub Refused : Exc → Conn → Type 0
  Refused e c =
      IsOwned c
      × ((e ≡ cancelled) ⊎ (is_ttlock e ≡ true))
      × (((c.tracking.wire ≡ w) × (is_unknown_exc e ≡ false))
          ⊎ ((n : ℕ) × Told env n a w e c.tracking.wire))

  known-Failed :
      (n : ℕ) (k : OwnedClient) (e f : Exc)
      → is_unknown_exc e ≡ false
      → is_unknown_exc f ≡ false
      → is_ttlock f ≡ true
      → Triple {A = Unit {0}}
          (Failed env n a w e)
          (do disconnect env; raise f)
          (λ _. Confirmed)
          Refused
  known-Failed n k e f p q t =
      Triple-bind {R = λ _. Failed env n a w e}
        (weaken (λ c u. u) (disconnect-Wired env (Told env n a w e)) (λ _ c u. u)
          (λ x c u. (
            u.0.0,
            inl u.1,
            inr (n, Told-kind env n a w e x c.tracking.wire (ap is_unknown_exc u.1 ∙ sym p) u.0.1),
          )))
        λ _.
          Triple-raise f
            (λ c u. (u.0, inr t, inr (n, Told-kind env n a w e f c.tracking.wire (q ∙ sym p) u.1)))

  unknown-Failed :
      (n : ℕ) (k : OwnedClient) (d : Bool) (r : List ℕ) (x : Bool)
      → Triple
          (Failed env n a w (outcome_unknown d r x))
          (control_failed env a k (outcome_unknown d r x))
          (λ _. Confirmed)
          Refused
  unfolding control_failed
  unknown-Failed n k d r x =
      let u = outcome_unknown d r x in
      weaken (λ c p. p) (reconcile-Triple env a (Told env n a w u) k u)
        (λ _ c p. (p.0.0, inr (u, (n, p.0.1), refl, p.1)))
        (λ e c p. (
          p.0.0,
          inr (ap is_ttlock p.1),
          inr (n, subst (λ y. Told env n a w y c.tracking.wire) (sym p.1) p.0.1),
        ))

  control_failed-Triple :
      (n : ℕ) (k : OwnedClient) (e : Exc)
      → Triple (Failed env n a w e) (control_failed env a k e) (λ _. Confirmed) Refused
  unfolding control_failed
  control_failed-Triple n k (outcome_unknown d r x) = unknown-Failed n k d r x
  control_failed-Triple n k timeout = known-Failed n k timeout (ttlock timed_out) refl refl refl
  control_failed-Triple n k cancelled =
      Triple-raise cancelled (λ c p. (p.0, inl refl, inr (n, p.1)))
  control_failed-Triple n k e =
      known-Failed n k e (if is_ttlock e then e else ttlock failed) refl refl refl

  module _
      (documented : (n : ℕ)
        → IsDocumented env.commands (opcode_of env.commands a) (env.play n a)) where
    control_connected-Triple :
        (k : Option OwnedClient)
        → Triple (Unsent w) (control_connected env a k) (λ _. Confirmed) Refused
    unfolding control_connected
    control_connected-Triple none = Triple-raise _ (λ c p. (p.0, inr refl, inl (p.1, refl)))
    control_connected-Triple (some k) = record {
      at = λ c u.
          (Triple-catch
              (weaken (λ d p. p) (run_control_task-Triple env c.steps a w documented)
                (λ _ d p. (p.0, inl (c.steps, p.1))) (λ e d p. p))
              (control_failed-Triple c.steps k)).at
            c (u, refl);
    }

    run_control_command-Triple :
        Triple (Unsent w) (run_control_command env a) (λ _. Confirmed) Refused
    unfolding run_control_command
    run_control_command-Triple =
        Triple-bind
          (weaken (λ c p. p) (ensure_connected-Wired env (λ v. v ≡ w) true explicit_control)
            (λ _ c p. p) (λ e c p. (p.0.0, inl p.1, inl (p.0.1, ap is_unknown_exc p.1))))
          λ k. control_connected-Triple k

    finish-Post :
        (x : Result (Unit {0}) × Conn)
        → Post (λ _. Confirmed) Refused x
        → Post (λ _. Confirmed) Refused (finish_request env x)
    finish-Post (ok tt, c) p = (requests-IsOwned c (c.control_requests - 1) p.0, p.1)
    finish-Post (err e, c) p = (requests-IsOwned c (c.control_requests - 1) p.0, p.1, p.2)

    -- With an SDK that keeps to its documented exchanges, a bolt command of a connection in order sends
    -- no more than one run of one play of the SDK for that action, whole or as far as a cancellation let
    -- it come: what was written before it with what that run adds is all that is on the wire at the end.
    -- It returns only when that whole play succeeded, or when its outcome was unknown and a fresh query
    -- found the state asked for. Otherwise its exception is a cancellation or one of the integration's
    -- own: nothing was sent and it does not report an unknown outcome, or it reports an unknown outcome
    -- exactly if the play raised one, a play that was cut counting as none, and says what that play
    -- wrote.
    pub run_command-Confirmed : Triple (Unsent w) (run_command env a) (λ _. Confirmed) Refused
    unfolding run_command
    run_command-Confirmed = record {
      at = λ c u.
          finish-Post
            (run_control_command env a (record c { control_requests = c.control_requests + 1 }))
            (run_control_command-Triple.at (record c { control_requests = c.control_requests + 1 })
              (requests-IsOwned c (c.control_requests + 1) u.0, u.1));
    }
