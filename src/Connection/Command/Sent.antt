-- ===== src/Connection/Command/Sent.antt =====
-- What a bolt command of connection.py puts on the link, and what its end says of it. The SDK is assumed
-- to keep to its documented exchanges in every play.
use ha_ttlock_ble.Base.{
  ℕ, Bool, false, ◌⊎◌, inl, inr, not, ◌≡◌, refl, sym, ap, List, ◌∙◌, count_if, ◌==◌, arith,
  All-take, subst,
}
use ha_ttlock_ble.Base.Errors.{Exc}
use ha_ttlock_ble.Base.Exec.{Result, ok, err}
use ha_ttlock_ble.Base.Exec.Triple.{Triple, Post}
use ha_ttlock_ble.Client.{Action, Commands, Play, Tracking, control, opcode_of}
use ha_ttlock_ble.Client.Outcome.{Verdict, IsDocumented, Concerns, is_unknown_exc, control-Verdict}
use ha_ttlock_ble.Connection.State.{Conn, Env, Progress, queueing, in_handshake, in_exchange}
use ha_ttlock_ble.Connection.Ownership.{IsOwned}
use ha_ttlock_ble.Connection.Command.{cut, tracked, run_play}

pub cut-IsDocumented :
    (cmds : Commands) (o : ℕ) (at : Progress) (p : Play)
    → IsDocumented cmds o p
    → IsDocumented cmds o (cut at p)
unfolding cut
cut-IsDocumented cmds o queueing p d = record {
  apart = d.apart;
  handshake = d.handshake;
  exchange = d.exchange;
  queued_plain = refl;
  handshake_plain = d.handshake_plain;
  exchange_plain = d.exchange_plain;
}
cut-IsDocumented cmds o (in_handshake n) p d = record {
  apart = d.apart;
  handshake = All-take (Concerns cmds.check_user_time_cmd) n p.check_user_time.acts d.handshake;
  exchange = d.exchange;
  queued_plain = d.queued_plain;
  handshake_plain = refl;
  exchange_plain = d.exchange_plain;
}
cut-IsDocumented cmds o (in_exchange n) p d = record {
  apart = d.apart;
  handshake = d.handshake;
  exchange = All-take (Concerns o) n p.control_lock.acts d.exchange;
  queued_plain = d.queued_plain;
  handshake_plain = d.handshake_plain;
  exchange_plain = refl;
}

-- The play that the SDK runs for a task that begins at the await `n`, with what the gate answers.
abbrev pub gated : Env → ℕ → Action → (auth exchange : Bool) → Play
gated env n a auth exchange = record (env.play n a) {
  allowed_before_auth = auth;
  allowed_before_control = exchange;
}

-- That play, or as far of it as a cancelled task came.
pub data IsPlay (env : Env) (n : ℕ) (a : Action) : Play → Type 0 where
  whole : (auth exchange : Bool) → IsPlay env n a (gated env n a auth exchange)
  as_far :
      (auth exchange : Bool) (at : Progress) → IsPlay env n a (cut at (gated env n a auth exchange))

-- What one command puts on the link, of the play of the task that begins at the await `n`.
module _ (env : Env) (n : ℕ) (a : Action) (w : List ℕ) where
  abbrev cmds : Commands
  cmds = env.commands

  abbrev pub frames : List ℕ → ℕ
  frames l = count_if (λ d. d == opcode_of cmds a) l

  -- The play has run once from the wire `w`, and made it `v`: it succeeded.
  pub record Succeeded (v : List ℕ) : Type 0 where
    pub auth : Bool
    pub exchange : Bool
    pub before : Tracking
    pub after : Tracking
    pub from : before.wire ≡ w
    pub ran : control cmds a (gated env n a auth exchange) before ≡ (ok tt, after)
    pub wire : v ≡ after.wire

  -- The exception `e` is of the kind that the play raised, or the play was cut by a cancellation.
  abbrev pub IsOf : Exc → Play → Tracking → Type 0
  IsOf e p t =
      ((x : Exc) × ((control cmds a p t).0 ≡ err x) × (is_unknown_exc e ≡ is_unknown_exc x))
      ⊎ ((is_unknown_exc e ≡ false)
          × (auth : Bool) × (exchange : Bool) × (at : Progress) × (p
              ≡ cut at (gated env n a auth exchange)))

  -- The play has run once, or as far as it came, and the exception `e` says of it what `Verdict` states.
  pub record Told (e : Exc) (v : List ℕ) : Type 0 where
    pub play : Play
    pub is_play : IsPlay env n a play
    pub before : Tracking
    pub after : Tracking
    pub from : before.wire ≡ w
    pub ran : (control cmds a play before).1 ≡ after
    pub raised : IsOf e play before
    pub wire : v ≡ after.wire
    pub verdict : Verdict (opcode_of cmds a) (frames w) (err e) after

  IsOf-kind :
      (e f : Exc) (p : Play) (t : Tracking)
      → is_unknown_exc f ≡ is_unknown_exc e
      → IsOf e p t
      → IsOf f p t
  IsOf-kind e f p t h (inl (x, r, k)) = inl (x, r, h ∙ k)
  IsOf-kind e f p t h (inr (k, x, y, at, q)) = inr (h ∙ k, x, y, at, q)

  -- another exception of the same kind
  pub Told-kind :
      (e f : Exc) (v : List ℕ) → is_unknown_exc f ≡ is_unknown_exc e → Told e v → Told f v
  Told-kind e f v h t = record {
    play = t.play;
    is_play = t.is_play;
    before = t.before;
    after = t.after;
    from = t.from;
    ran = t.ran;
    raised = IsOf-kind e f t.play t.before h t.raised;
    wire = t.wire;
    verdict = record {
      unknown = λ q. t.verdict.unknown (sym h ∙ q);
      known = λ q. t.verdict.known (sym (ap not h) ∙ q);
      uncommitted = t.verdict.uncommitted;
    };
  }

pub IsOwned-tracking : (c : Conn) (t : Tracking) → IsOwned c → IsOwned (record c { tracking = t })
IsOwned-tracking c t p = ground arith

-- in order, with the wire at `w`
abbrev pub Unsent : List ℕ → Conn → Type 0
Unsent w c = IsOwned c × (c.tracking.wire ≡ w)

module _ (env : Env) (n : ℕ) (a : Action) (w : List ℕ) where
  abbrev pub Sent : Conn → Type 0
  Sent c = IsOwned c × Succeeded env n a w c.tracking.wire

  abbrev pub Failed : Exc → Conn → Type 0
  Failed e c = IsOwned c × Told env n a w e c.tracking.wire

  -- the whole play, with some answers of the gate
  abbrev pub IsGated : Play → Type 0
  IsGated p = (auth : Bool) × (exchange : Bool) × (p ≡ gated env n a auth exchange)

  tracked-Post :
      (p : Play) (c : Conn) (x : Result (Unit {0}) × Tracking)
      → Unsent w c
      → IsGated p
      → control env.commands a p c.tracking ≡ x
      → Verdict (opcode_of env.commands a) (frames env n a w w) x.0 x.1
      → Post (λ _. Sent) Failed (tracked x c)
  tracked-Post p c (ok tt, t) u g q v = (
    IsOwned-tracking c t u.0,
    record {
      auth = g.0;
      exchange = g.1;
      before = c.tracking;
      after = t;
      from = u.1;
      ran = ap (λ y. control env.commands a y c.tracking) (sym g.2) ∙ q;
      wire = refl;
    },
  )
  tracked-Post p c (err e, t) u g q v = (
    IsOwned-tracking c t u.0,
    record {
      play = p;
      is_play = subst (IsPlay env n a) (sym g.2) (whole g.0 g.1);
      before = c.tracking;
      after = t;
      from = u.1;
      ran = ap (λ x. x.1) q;
      raised = inl (e, ap (λ x. x.0) q, refl);
      wire = refl;
      verdict = v;
    },
  )

  pub play-Verdict :
      (p : Play) (t : Tracking)
      → IsDocumented env.commands (opcode_of env.commands a) p
      → t.wire ≡ w
      → Verdict
          (opcode_of env.commands a)
          (frames env n a w w)
          (control env.commands a p t).0
          (control env.commands a p t).1
  play-Verdict p t d q =
      subst
        (λ l.
          Verdict (opcode_of env.commands a) (frames env n a w l) (control env.commands a p t).0
            (control env.commands a p t).1)
        q (control-Verdict env.commands a p t d).0

  pub run_play-Triple :
      (p : Play)
      → IsDocumented env.commands (opcode_of env.commands a) p
      → IsGated p
      → Triple (Unsent w) (run_play env a p) (λ _. Sent) Failed
  unfolding run_play
  run_play-Triple p d g = record {
    at = λ c u.
        tracked-Post p c (control env.commands a p c.tracking) u g refl
          (play-Verdict p c.tracking d u.1);
  }
