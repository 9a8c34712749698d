-- ===== src/Client/Outcome.antt =====
-- What an explicit control in client.py says of its outcome. The SDK is assumed to keep to its
-- documented exchanges: the handshake sends and awaits only the check-user-time command, the exchange
-- after it only the control command.
use ha_ttlock_ble.Base.{
  ℕ, ◌<◌, ◌≤◌, Bool, true, false, not, ◌&&◌, ◌≡◌, ◌≢◌, ◌⊎◌, refl, none, some, List, [], ◌∷◌, All,
  count_if, count_if-append, ◌==◌, arith,
}
use ha_ttlock_ble.Base.Errors.{Exc, outcome_unknown, cancelled}
use ha_ttlock_ble.Base.Exec.{Result, ok, err, catch}
use ha_ttlock_ble.Base.Exec.Triple.{
  Triple, Post, Triple-bind, Triple-lift, Triple-read, Triple-if, Triple-raise, Triple-pure,
  Triple-modify, Triple-catch, weaken,
}
use ha_ttlock_ble.Client.{
  Commands, Tracking, Act, send, answer, drop_link, Script, Play, Action, is_committed_stage,
  control_committed, act, perform, run_script, reset_control_tracking, require_control_allowed,
  classify_failure, classify_cancelled, classify_exception, control_body, run_control, control,
  opcode_of, deactivate, control_acknowledged,
}

-- An act that is about one command only.
abbrev pub Concerns : ℕ → Act → Type 0
Concerns c (send d raised) = d ≡ c
Concerns c (answer d echo) = d ≡ c
Concerns c drop_link = Unit

-- How many frames of one command went to the BLE stack.
abbrev pub writes : ℕ → Tracking → ℕ
writes c t = count_if (λ d. d == c) t.wire

abbrev pub is_unknown_exc : Exc → Bool
is_unknown_exc (outcome_unknown d r u) = true
is_unknown_exc _ = false

abbrev pub is_unknown : Result (Unit {0}) → Bool
is_unknown (ok a) = false
is_unknown (err e) = is_unknown_exc e

abbrev pub is_known_failure : Result (Unit {0}) → Bool
is_known_failure (ok a) = false
is_known_failure (err e) = not (is_unknown_exc e)

pub record IsDocumented (cmds : Commands) (opcode : ℕ) (p : Play) : Type 0 where
  pub apart : opcode ≢ cmds.check_user_time_cmd
  pub handshake : All (Concerns cmds.check_user_time_cmd) p.check_user_time.acts
  pub exchange : All (Concerns opcode) p.control_lock.acts
  pub queued_plain : is_unknown p.queued ≡ false
  pub handshake_plain : is_unknown p.check_user_time.ends ≡ false
  pub exchange_plain : is_unknown p.control_lock.ends ≡ false

module _ (o n : ℕ) where
  -- before the exchange: no control frame was written and none acknowledged
  pub record IsBefore (t : Tracking) : Type 0 where
    pub opcode : t.opcode ≡ some o
    pub active : t.active ≡ true
    pub unwritten : writes o t ≡ n
    pub unacknowledged : t.ack_received ≡ false

  -- during the exchange: the stage says whether a control write was begun
  pub record IsDuring (t : Tracking) : Type 0 where
    pub opcode : t.opcode ≡ some o
    pub active : t.active ≡ true
    pub uncommitted :
        is_committed_stage t.stage ≡ false → (writes o t ≡ n) × (t.ack_received ≡ false)
    pub committed : is_committed_stage t.stage ≡ true → (n < writes o t) ⊎ (t.ack_received ≡ true)
    pub grows : n ≤ writes o t

  -- an unknown outcome and a known failure mean what they say
  pub record Verdict (r : Result (Unit {0})) (t : Tracking) : Type 0 where
    pub unknown : is_unknown r ≡ true → (n < writes o t) ⊎ (t.ack_received ≡ true)
    pub known : is_known_failure r ≡ true → (writes o t ≡ n) ⊎ (t.ack_received ≡ true)
    pub uncommitted : is_committed_stage t.stage ≡ false → writes o t ≡ n

  abbrev Concluded : Unit {0} → Tracking → Type 0
  Concluded _ t = Verdict (ok tt) t

  abbrev Failed : Exc → Tracking → Type 0
  Failed e t = Verdict (err e) t

  record IsReady (t : Tracking) : Type 0 where
    before : IsBefore t
    uncommitted : is_committed_stage t.stage ≡ false

module _ (cmds : Commands) (o n : ℕ) (apart : o ≢ cmds.check_user_time_cmd) where
  act-IsBefore :
      (a : Act) (t : Tracking)
      → Concerns cmds.check_user_time_cmd a
      → IsBefore o n t
      → IsBefore o n (act cmds a t)
  unfolding act
  act-IsBefore (send c r) t e b = ground (arith, count_if-append (λ d. d == o) t.wire (c ∷ []))
  act-IsBefore (answer c none) t e b = ground arith
  act-IsBefore (answer c (some echo)) t e b = ground arith
  act-IsBefore drop_link t e b = ground arith

  pub perform-IsBefore :
      (acts : List Act) (t : Tracking)
      → All (Concerns cmds.check_user_time_cmd) acts
      → IsBefore o n t
      → IsBefore o n (perform cmds acts t)
  unfolding perform
  perform-IsBefore [] t e b = b
  perform-IsBefore (a ∷ acts) t e b =
      perform-IsBefore acts (act cmds a t) e.1 (act-IsBefore a t e.0 b)

  act-IsDuring :
      (a : Act) (t : Tracking) → Concerns o a → IsDuring o n t → IsDuring o n (act cmds a t)
  unfolding act
  act-IsDuring (send c r) t e b = ground (arith, count_if-append (λ d. d == o) t.wire (c ∷ []))
  act-IsDuring (answer c none) t e b = ground arith
  act-IsDuring (answer c (some echo)) t e b = ground arith
  act-IsDuring drop_link t e b = ground arith

  pub perform-IsDuring :
      (acts : List Act) (t : Tracking)
      → All (Concerns o) acts
      → IsDuring o n t
      → IsDuring o n (perform cmds acts t)
  unfolding perform
  perform-IsDuring [] t e b = b
  perform-IsDuring (a ∷ acts) t e b =
      perform-IsDuring acts (act cmds a t) e.1 (act-IsDuring a t e.0 b)

  plain-Failed :
      (r : Result (Unit {0})) (e : Exc) (t : Tracking)
      → is_unknown r ≡ false
      → r ≡ err e
      → IsBefore o n t
      → Failed o n e t
  plain-Failed r e t h q b = ground arith

  classify_cancelled-Triple :
      Triple (IsDuring o n) classify_cancelled (λ _. IsDuring o n) (Failed o n)
  unfolding classify_cancelled control_committed
  classify_cancelled-Triple =
      Triple-read (λ t. t)
        λ t.
          Triple-if (not (control_committed t)) (λ c. Triple-raise _ (λ s b. ground arith))
            (λ c. Triple-raise _ (λ s b. ground arith))

  classify_exception-Triple :
      (e : Exc)
      → is_unknown_exc e ≡ false
      → Triple (IsDuring o n) (classify_exception e) (λ _. IsDuring o n) (Failed o n)
  unfolding classify_exception control_committed
  classify_exception-Triple e h =
      Triple-read (λ t. t)
        λ t.
          Triple-if t.ack_received
            (λ a.
              Triple-bind {R = λ _ s. (s.ack_received ≡ true) × (is_committed_stage s.stage ≡ true)}
                (Triple-modify _ (λ s b. ground arith)) λ _. Triple-raise e (λ s b. ground arith))
            λ a.
              Triple-if (not (control_committed t)) (λ c. Triple-raise _ (λ s b. ground arith))
                (λ c. Triple-raise _ (λ s b. ground arith))

  classify_failure-Triple :
      (e : Exc)
      → is_unknown_exc e ≡ false
      → Triple (IsDuring o n) (classify_failure e) (λ _. IsDuring o n) (Failed o n)
  unfolding classify_failure
  classify_failure-Triple cancelled h = classify_cancelled-Triple
  classify_failure-Triple e h = classify_exception-Triple e h

  gate-Triple :
      {P : Tracking → Type 0} (allowed : Bool)
      → ((t : Tracking) → P t → IsBefore o n t)
      → Triple P (require_control_allowed allowed) (λ _. P) (Failed o n)
  unfolding require_control_allowed
  gate-Triple allowed before =
      Triple-read (λ t. t.gated)
        λ g.
          Triple-if (g && not allowed) (λ _. Triple-raise _ (λ t b. ground (arith, before t b.0)))
            (λ _. Triple-pure tt (λ t b. b.0))

  handshake-Triple :
      (s : Script)
      → All (Concerns cmds.check_user_time_cmd) s.acts
      → is_unknown s.ends ≡ false
      → Triple (IsBefore o n) (run_script cmds s) (λ _. IsBefore o n) (Failed o n)
  unfolding run_script
  handshake-Triple s c h =
      Triple-bind (Triple-modify _ (λ t b. perform-IsBefore s.acts t c b))
        λ _. Triple-lift s.ends (λ a q t b. b) (λ e q t b. plain-Failed s.ends e t h q b)

  exchange-Triple :
      (s : Script)
      → All (Concerns o) s.acts
      → is_unknown s.ends ≡ false
      → Triple
          (IsDuring o n)
          (catch (run_script cmds s) classify_failure)
          (λ _. IsDuring o n)
          (Failed o n)
  unfolding run_script
  exchange-Triple s c h =
      Triple-catch {F = λ e t. IsDuring o n t × (is_unknown_exc e ≡ false)}
        (Triple-bind (Triple-modify _ (λ t b. perform-IsDuring s.acts t c b))
          λ _. Triple-lift s.ends (λ a q t b. b) (λ e q t b. (b, plain e q)))
        (λ e. record { at = λ t b. (classify_failure-Triple e b.1).at t b.0 })
    where
      plain : (e : Exc) → s.ends ≡ err e → is_unknown_exc e ≡ false
      plain e q = ground arith

  ready-IsDuring : (t : Tracking) → IsReady o n t → IsDuring o n t
  ready-IsDuring t b = ground arith

  body-Triple :
      (p : Play)
      → IsDocumented cmds o p
      → Triple (IsBefore o n) (control_body cmds p) (Concluded o n) (Failed o n)
  unfolding control_body
  body-Triple p d =
      Triple-bind
        (Triple-lift p.queued (λ a q t b. b)
          (λ e q t b. plain-Failed p.queued e t d.queued_plain q b))
        λ _. Triple-bind (gate-Triple p.allowed_before_auth (λ t b. b)) λ _.
          Triple-bind (handshake-Triple p.check_user_time d.handshake d.handshake_plain) λ _.
            Triple-bind (Triple-modify {Q = λ _. IsReady o n} _ (λ t b. ground arith)) λ _.
              Triple-bind (gate-Triple p.allowed_before_control (λ t b. b.before)) λ _.
                Triple-bind
                  (weaken (λ t b. ready-IsDuring t b)
                    (exchange-Triple p.control_lock d.exchange d.exchange_plain) (λ a t b. b)
                    (λ e t b. b))
                  λ _.
                    Triple-modify (λ t. record t { stage = control_acknowledged })
                      (λ t b. ground arith)

-- the `finally` clause leaves the verdict as it is
deactivate-Verdict :
    (o n : ℕ) (r : Result (Unit {0}) × Tracking)
    → Post (Concluded o n) (Failed o n) r
    → Verdict o n (deactivate r).0 (deactivate r).1 × ((deactivate r).1.active ≡ false)
deactivate-Verdict o n (ok tt, t) v =
    (record { unknown = v.unknown; known = v.known; uncommitted = v.uncommitted }, refl)
deactivate-Verdict o n (err e, t) v =
    (record { unknown = v.unknown; known = v.known; uncommitted = v.uncommitted }, refl)

-- With documented exchanges, a control that reports an unknown outcome had begun a control write or was
-- answered, one that reports a failure wrote no control frame or was answered, no control frame was
-- written when the last stage is uncommitted, and the tracking is off afterwards.
pub control-Verdict :
    (cmds : Commands) (a : Action) (p : Play) (t : Tracking)
    → IsDocumented cmds (opcode_of cmds a) p
    → let (r, t') = control cmds a p t in
      Verdict (opcode_of cmds a) (writes (opcode_of cmds a) t) r t' × (t'.active ≡ false)
unfolding control run_control
control-Verdict cmds a p t d =
    let o = opcode_of cmds a in
    let start = record (reset_control_tracking o t) { active = true } in
    deactivate-Verdict o (writes o t) (control_body cmds p start) (
      (body-Triple cmds o (writes o t) d.apart p d).at start
        (unfold reset_control_tracking in ground arith))
