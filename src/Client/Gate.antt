-- ===== src/Client/Gate.antt =====
-- The gate of client.py: a control that it refuses writes nothing to the lock.
use ha_ttlock_ble.Base.{
  ℕ, Bool, true, false, not, ◌&&◌, ◌≡◌, ◌≢◌, refl, none, some, List, [], ◌∷◌, ◌∙◌, All, arith,
}
use ha_ttlock_ble.Base.Errors.{Exc}
use ha_ttlock_ble.Base.Exec.{Result, ok, err}
use ha_ttlock_ble.Base.Exec.Triple.{
  Triple, Post, Triple-bind, Triple-lift, Triple-read, Triple-if, Triple-raise, Triple-pure,
  Triple-modify, Triple-absurd, weaken,
}
use ha_ttlock_ble.Client.{
  Commands, Tracking, Act, send, answer, drop_link, Script, Play, Action, authenticated, act,
  perform, run_script, reset_control_tracking, require_control_allowed, control_body, run_control,
  control, opcode_of, deactivate,
}
use ha_ttlock_ble.Client.Outcome.{
  Concerns, writes, is_unknown_exc, is_unknown, is_known_failure, IsDocumented, IsBefore,
  perform-IsBefore,
}

module _ (cmds : Commands) where
  act-gated : (a : Act) (t : Tracking) → (act cmds a t).gated ≡ t.gated
  unfolding act
  act-gated (send c r) t = ground arith
  act-gated (answer c none) t = ground arith
  act-gated (answer c (some echo)) t = ground arith
  act-gated drop_link t = ground arith

  perform-gated : (acts : List Act) (t : Tracking) → (perform cmds acts t).gated ≡ t.gated
  unfolding perform
  perform-gated [] t = refl
  perform-gated (a ∷ acts) t = perform-gated acts (act cmds a t) ∙ act-gated a t

module _ (cmds : Commands) (o n : ℕ) (apart : o ≢ cmds.check_user_time_cmd) where
  record IsHeld (t : Tracking) : Type 0 where
    before : IsBefore o n t
    gated : t.gated ≡ true

  -- a failure that wrote no control frame
  abbrev pub Unwritten : Exc → Tracking → Type 0
  Unwritten e t = (writes o t ≡ n) × (is_unknown_exc e ≡ false)

  IsHeld-gate :
      (allowed : Bool)
      → Triple IsHeld
          (require_control_allowed allowed)
          (λ _ t. IsHeld t × (allowed ≡ true))
          Unwritten
  unfolding require_control_allowed
  IsHeld-gate allowed =
      Triple-read (λ t. t.gated)
        λ g.
          Triple-if (g && not allowed) (λ c. Triple-raise _ (λ t b. ground arith))
            (λ c. Triple-pure tt (λ t b. (b.0, ground arith)))

  IsHeld-handshake :
      (s : Script)
      → All (Concerns cmds.check_user_time_cmd) s.acts
      → is_unknown s.ends ≡ false
      → Triple IsHeld (run_script cmds s) (λ _. IsHeld) Unwritten
  unfolding run_script
  IsHeld-handshake s c h =
      Triple-bind
        (Triple-modify {Q = λ _. IsHeld} (perform cmds s.acts) (λ t b. record {
          before = perform-IsBefore cmds o n apart s.acts t c b.before;
          gated = perform-gated cmds s.acts t ∙ b.gated;
        }))
        λ _. Triple-lift s.ends (λ a q t b. b) (λ e q t b. ground arith)

  IsHeld-body :
      (p : Play)
      → IsDocumented cmds o p
      → p.allowed_before_control ≡ false
      → Triple IsHeld (control_body cmds p) (λ _ t. ⊥) Unwritten
  unfolding control_body
  IsHeld-body p d shut =
      Triple-bind (Triple-lift p.queued (λ a q t b. b) (λ e q t b. ground (arith, d.queued_plain)))
        λ _. Triple-bind (IsHeld-gate p.allowed_before_auth) λ _.
          Triple-bind
            (weaken (λ t b. b.0) (IsHeld-handshake p.check_user_time d.handshake d.handshake_plain)
              (λ a t b. b) (λ e t b. b))
            λ _.
              Triple-bind
                (Triple-modify {Q = λ _. IsHeld} (λ t. record t { stage = authenticated })
                  (λ t b. ground arith))
                λ _.
                  Triple-bind (IsHeld-gate p.allowed_before_control) λ _. Triple-absurd (λ t b. cc)

held-result :
    (cmds : Commands) (o n : ℕ) (apart : o ≢ cmds.check_user_time_cmd)
    (r : Result (Unit {0}) × Tracking)
    → Post (λ _ t. ⊥) (Unwritten cmds o n apart) r
    → (writes o (deactivate r).1 ≡ n) × (is_known_failure (deactivate r).0 ≡ true)
held-result cmds o n apart (ok tt, t) v = absurd v
held-result cmds o n apart (err e, t) v = (v.0, rw v.1)

-- With documented exchanges and a gate that is closed before the exchange, no control frame is written:
-- the command fails, and its outcome is not reported as unknown.
pub gate_closed :
    (cmds : Commands) (a : Action) (p : Play) (t : Tracking)
    → IsDocumented cmds (opcode_of cmds a) p
    → t.gated ≡ true
    → p.allowed_before_control ≡ false
    → let (r, t') = control cmds a p t in
      (writes (opcode_of cmds a) t' ≡ writes (opcode_of cmds a) t) × (is_known_failure r ≡ true)
unfolding control run_control
gate_closed cmds a p t d g shut =
    let o = opcode_of cmds a in
    let start = record (reset_control_tracking o t) { active = true } in
    held-result cmds o (writes o t) d.apart (control_body cmds p start) (
      (IsHeld-body cmds o (writes o t) d.apart p d shut).at start
        (unfold reset_control_tracking in ground arith))
