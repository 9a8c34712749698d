-- ===== src/Connection/Command/Waiting.antt =====
-- The wait for a control task of connection.py, under any number of cancellations of its caller.
use ha_ttlock_ble.Base.{
  ℕ, Bool, false, not, ◌≡◌, refl, ap, inl, inr, subst, sym, List, [], ◌∷◌, arith,
}
use ha_ttlock_ble.Base.Errors.{cancelled}
use ha_ttlock_ble.Base.Exec.{Result, ok, err, pure, catch, handle}
use ha_ttlock_ble.Base.Exec.Triple.{
  Triple, Post, Triple-bind, Triple-read, Triple-if, Triple-raise, Triple-pure, Triple-gets,
  Triple-fact, weaken,
}
use ha_ttlock_ble.Client.{Action, Commands, Play, Tracking, control, is_committed_stage, opcode_of}
use ha_ttlock_ble.Client.Outcome.{Verdict, IsDocumented}
use ha_ttlock_ble.Connection.State.{
  Conn, Env, Progress, Wake, cancelled_done, cancelled_running, suspend,
}
use ha_ttlock_ble.Connection.Ownership.{IsOwned, suspend-Triple}
use ha_ttlock_ble.Connection.Frame.{suspend-Keeps}
use ha_ttlock_ble.Connection.Wire.{wire-IsStable}
use ha_ttlock_ble.Connection.Command.{
  cut, tracked, run_play, committed_at, await_control_task, gated_play, run_control_task,
}
use ha_ttlock_ble.Connection.Command.Sent.{
  cut-IsDocumented, IsPlay, as_far, IsGated, frames, Unsent, Sent, Failed, run_play-Triple,
  play-Verdict, IsOwned-tracking,
}

module _ (env : Env) (n : ℕ) (a : Action) (w : List ℕ) where
  abbrev cmds : Commands
  cmds = env.commands

  abbrev Stopped : Conn → Type 0
  Stopped c = Failed env n a w cancelled c

  stopped-Verdict :
      (o m : ℕ) (r : Result (Unit {0})) (t : Tracking)
      → is_committed_stage t.stage ≡ false
      → Verdict o m r t
      → Verdict o m (err cancelled) t
  stopped-Verdict o m r t s v = record {
    unknown = λ q. ground arith;
    known = λ q. inl (v.uncommitted s);
    uncommitted = v.uncommitted;
  }

  Stopped-Post :
      (p : Play) (at : Progress) (g : IsGated env n a w p) (c : Conn)
      (x : Result (Unit {0}) × Tracking)
      → Unsent w c
      → control cmds a (cut at p) c.tracking ≡ x
      → Verdict (opcode_of cmds a) (frames env n a w w) (err cancelled) x.1
      → Post (λ _. Stopped) (Failed env n a w) (handle (λ e. pure tt) (tracked x c))
  Stopped-Post p at g c (ok tt, t) u q v = (
    IsOwned-tracking c t u.0,
    record {
      play = cut at p;
      is_play = subst (λ x. IsPlay env n a (cut at x)) (sym g.2) (as_far g.0 g.1 at);
      before = c.tracking;
      after = t;
      from = u.1;
      ran = ap (λ x. x.1) q;
      raised = inr (refl, g.0, g.1, at, ap (cut at) g.2);
      wire = refl;
      verdict = v;
    },
  )
  Stopped-Post p at g c (err e, t) u q v = (
    IsOwned-tracking c t u.0,
    record {
      play = cut at p;
      is_play = subst (λ x. IsPlay env n a (cut at x)) (sym g.2) (as_far g.0 g.1 at);
      before = c.tracking;
      after = t;
      from = u.1;
      ran = ap (λ x. x.1) q;
      raised = inr (refl, g.0, g.1, at, ap (cut at) g.2);
      wire = refl;
      verdict = v;
    },
  )

  -- a command that is stopped before a control write may have begun
  stop-Triple :
      (p : Play) (at : Progress)
      → IsDocumented cmds (opcode_of cmds a) p
      → IsGated env n a w p
      → Triple
          (λ c. Unsent w c × (committed_at env a p at c ≡ false))
          (catch (run_play env a (cut at p)) (λ e. pure tt))
          (λ _. Stopped)
          (Failed env n a w)
  unfolding catch run_play committed_at
  stop-Triple p at d g = record {
    at = λ c u.
        let x = control cmds a (cut at p) c.tracking in
        Stopped-Post p at g c x u.0 refl (
          stopped-Verdict (opcode_of cmds a) (frames env n a w w) x.0 x.1 u.1 (
            play-Verdict env n a w (cut at p) c.tracking
              (cut-IsDocumented cmds (opcode_of cmds a) at p d) u.0.1));
  }

  await_control_task-Triple :
      (p : Play) (wakes : List Wake)
      → IsDocumented cmds (opcode_of cmds a) p
      → IsGated env n a w p
      → Triple
          (Unsent w)
          (await_control_task env a p wakes)
          (λ _. Sent env n a w)
          (Failed env n a w)
  unfolding await_control_task
  await_control_task-Triple p [] d g = run_play-Triple env n a w p d g
  await_control_task-Triple p (cancelled_done ∷ wakes) d g = run_play-Triple env n a w p d g
  await_control_task-Triple p (cancelled_running at ∷ wakes) d g =
      Triple-read (committed_at env a p at) λ committed.
        Triple-if (not committed)
          (λ b.
            Triple-bind
              (weaken (λ c u. (u.0, ground arith)) (stop-Triple p at d g) (λ _ c u. u) (λ e c u. u))
              λ _. Triple-raise cancelled (λ c u. u))
          (λ b.
            weaken (λ c u. u.0) (await_control_task-Triple p wakes d g) (λ _ c u. u) (λ e c u. u))

  regated :
      (p : Play) (auth exchange : Bool)
      → IsDocumented cmds (opcode_of cmds a) p
      → IsDocumented cmds
          (opcode_of cmds a)
          (record p { allowed_before_auth = auth; allowed_before_control = exchange })
  regated p auth exchange d = record {
    apart = d.apart;
    handshake = d.handshake;
    exchange = d.exchange;
    queued_plain = d.queued_plain;
    handshake_plain = d.handshake_plain;
    exchange_plain = d.exchange_plain;
  }

  suspend-Unsent : Triple (Unsent w) (suspend env) (λ _. Unsent w) (Failed env n a w)
  unfolding suspend
  suspend-Unsent = record {
    at = λ c u. (
      (suspend-Triple env {E = λ _. IsOwned} {P = IsOwned} (λ d p. p.held)
            (λ d e s h p. ground arith)).at
          c u.0,
      (suspend-Keeps env (wire-IsStable (λ v. v ≡ w))).at c u.1,
    );
  }

  -- the task begins at the await `n`
  abbrev pub Begins : Conn → Type 0
  Begins c = Unsent w c × (c.steps ≡ n)

  abbrev IsRun : Play → Type 0
  IsRun p = IsDocumented cmds (opcode_of cmds a) p × IsGated env n a w p

  gated_play-Triple :
      ((m : ℕ) → IsDocumented cmds (opcode_of cmds a) (env.play m a))
      → Triple Begins (gated_play env a) (λ p c. Unsent w c × IsRun p) (Failed env n a w)
  unfolding gated_play
  gated_play-Triple documented =
      Triple-bind {R = λ p c. Unsent w c × (p ≡ env.play n a)}
        (Triple-gets _ (λ c u. (u.0, ap (λ m. env.play m a) u.1)))
        λ p. Triple-fact λ q. Triple-bind suspend-Unsent λ _.
          Triple-bind {R = λ _. Unsent w} (Triple-gets _ (λ c u. u)) λ auth.
            Triple-bind suspend-Unsent λ _.
              Triple-bind {R = λ _. Unsent w} (Triple-gets _ (λ c u. u)) λ exchange.
                Triple-pure _ (λ c u. (
                  u,
                  (
                    regated p auth exchange
                        (subst (IsDocumented cmds (opcode_of cmds a)) (sym q) (documented n)),
                    (
                      auth,
                      exchange,
                      ap {A = Play}
                          (λ x. record x {
                            allowed_before_auth = auth;
                            allowed_before_control = exchange;
                          })
                          q,
                    ),
                  ),
                ))

  -- With documented exchanges, a bolt command that is awaited runs the play that the SDK has for the
  -- await at which it begins, once, whatever cancels its caller and whenever, and the wire at the end is
  -- what that run made it: it returns only if the whole play succeeded, and if it raises, it reports an
  -- unknown outcome exactly if the play raised one, a play that was cut by the cancellation counting as
  -- none, and says what the play wrote.
  pub run_control_task-Triple :
      ((m : ℕ) → IsDocumented cmds (opcode_of cmds a) (env.play m a))
      → Triple Begins (run_control_task env a) (λ _. Sent env n a w) (Failed env n a w)
  unfolding run_control_task
  run_control_task-Triple documented = Triple-bind (gated_play-Triple documented) λ play.
      Triple-fact λ d.
        Triple-bind {R = λ _. Unsent w} (Triple-gets _ (λ c u. u))
          λ wakes. await_control_task-Triple play wakes d.0 d.1
