-- ===== src/Client.antt =====
-- custom_components/ttlock_ble/client.py: one explicit bolt command and the milestones by which its
-- failure is told apart from an unknown outcome. The SDK's `_check_user_time` and `_control_lock` are
-- scripts: what they do to the methods that this class overrides, and how they end.
pub mod Outcome
pub mod Gate
use ha_ttlock_ble.Base.{
  ℕ, Bool, true, false, not, ◌&&◌, Option, none, some, List, [], ◌∷◌, ◌++◌, ◌==◌, if◌then◌else◌,
}
use ha_ttlock_ble.Base.Errors.{Exc, outcome_unknown, aborted_for_shutdown, cancelled}
use ha_ttlock_ble.Base.Exec.{
  Exec, Result, ok, err, pure, raise, lift, gets, modify, catch, ◌>>=◌, ◌>>◌,
}

pub data ControlStage : Type 0 where
  before_auth auth_write_started auth_sent authenticated : ControlStage
  control_write_started control_frame_written control_ack_received : ControlStage
  control_acknowledged control_ack_rejected : ControlStage

pub data Action : Type 0 where
  lock unlock : Action

-- The command bytes of the SDK's module `commands`.
pub record Commands : Type 0 where
  pub unlock_cmd : ℕ
  pub lock_cmd : ℕ
  pub check_user_time_cmd : ℕ

-- The fields of `TtlockBleClient`. `wire` lists the commands of the frames that were handed to the BLE
-- stack by `super()._send`, whether or not the write succeeded.
pub record Tracking : Type 0 where
  pub gated : Bool
  pub opcode : Option ℕ
  pub stage : ControlStage
  pub frame_written : Bool
  pub ack_received : Bool
  pub response_unclassified : Bool
  pub disconnected_during_control : Bool
  pub routed_echoes : List ℕ
  pub active : Bool
  pub wire : List ℕ

-- What the SDK does to this object while it runs: a call of `_send`, whose write may raise, a call of
-- `_answers` with the echo that was parsed, if it was, or a disconnect callback.
pub data Act : Type 0 where
  send : (command : ℕ) → (raised : Bool) → Act
  answer : (expected_command : ℕ) → (echo : Option ℕ) → Act
  drop_link : Act

pub record Script : Type 0 where
  pub acts : List Act
  pub ends : Result (Unit {0})

-- One command as the SDK and the owner of the client play it: the wait for the command lock, the gate
-- at its two readings, the handshake and the exchange.
pub record Play : Type 0 where
  pub queued : Result (Unit {0})
  pub allowed_before_auth : Bool
  pub allowed_before_control : Bool
  pub check_user_time : Script
  pub control_lock : Script

abbrev pub is_committed_stage : ControlStage → Bool
is_committed_stage control_write_started = true
is_committed_stage control_frame_written = true
is_committed_stage control_ack_received = true
is_committed_stage control_acknowledged = true
is_committed_stage control_ack_rejected = true
is_committed_stage _ = false

unfoldable pub control_committed : Tracking → Bool
control_committed t = t.active && is_committed_stage t.stage

abbrev pub is_opcode : Option ℕ → ℕ → Bool
is_opcode none c = false
is_opcode (some o) c = c == o

module _ (cmds : Commands) where
  -- `_send` up to the call of `super()._send`
  unfoldable pub before_send : ℕ → Tracking → Tracking
  before_send c t =
      let out = record t { wire = t.wire ++ c ∷ [] } in
      if c == cmds.check_user_time_cmd
      then record out { stage = auth_write_started }
      else if is_opcode t.opcode c
      then record out { stage = control_write_started }
      else out

  -- `_send` after it
  unfoldable pub after_send : ℕ → Tracking → Tracking
  after_send c t =
      if c == cmds.check_user_time_cmd
      then record t { stage = auth_sent }
      else if is_opcode t.opcode c
      then record t { frame_written = true; stage = control_frame_written }
      else t

  -- `_answers` beside the answer of the SDK's own method, which it returns
  unfoldable pub answers : ℕ → Option ℕ → Tracking → Tracking
  answers expected none t =
      if is_opcode t.opcode expected then record t { response_unclassified = true } else t
  answers expected (some echo) t =
      if is_opcode t.opcode expected
      then (if echo == expected
          then record t { ack_received = true; stage = control_ack_received }
          else record t { routed_echoes = t.routed_echoes ++ echo ∷ [] })
      else t

  -- `_ha_on_disconnected`, less the call of the owner's callback
  unfoldable pub on_disconnected : Tracking → Tracking
  on_disconnected t = if t.active then record t { disconnected_during_control = true } else t

  unfoldable pub act : Act → Tracking → Tracking
  unfolding before_send after_send answers on_disconnected
  act (send c true) t = before_send c t
  act (send c false) t = after_send c (before_send c t)
  act (answer expected echo) t = answers expected echo t
  act drop_link t = on_disconnected t

  unfoldable pub perform : List Act → Tracking → Tracking
  perform [] t = t
  perform (a ∷ acts) t = perform acts (act a t)

  unfoldable pub run_script : Script → Exec Tracking (Unit {0})
  run_script s = do modify (perform s.acts); lift s.ends

unfoldable pub reset_control_tracking : ℕ → Tracking → Tracking
reset_control_tracking opcode t = record t {
  opcode = some opcode;
  stage = before_auth;
  frame_written = false;
  ack_received = false;
  response_unclassified = false;
  disconnected_during_control = false;
  routed_echoes = [];
}

-- `_ha_require_control_allowed`: with no gate installed the control is allowed
unfoldable pub require_control_allowed : Bool → Exec Tracking (Unit {0})
require_control_allowed allowed = do
  gated ← gets (λ (t : Tracking). t.gated)
  if gated && not allowed then raise aborted_for_shutdown else pure tt

unfoldable pub unknown_control_outcome : Tracking → Exc
unknown_control_outcome t =
    outcome_unknown t.disconnected_during_control t.routed_echoes t.response_unclassified

-- except asyncio.CancelledError
unfoldable pub classify_cancelled : Exec Tracking (Unit {0})
unfolding unknown_control_outcome control_committed
classify_cancelled = do
  t ← gets (λ (t : Tracking). t)
  if not (control_committed t) then raise cancelled else raise (unknown_control_outcome t)

abbrev set_stage : ControlStage → Exec Tracking (Unit {0})
set_stage s = modify (λ t. record t { stage = s })

-- except Exception
unfoldable pub classify_exception : Exc → Exec Tracking (Unit {0})
unfolding unknown_control_outcome control_committed
classify_exception e = do
  t ← gets (λ (t : Tracking). t)
  if t.ack_received
      then (do set_stage control_ack_rejected; raise e)
      else (if not (control_committed t) then raise e else raise (unknown_control_outcome t))

-- the two `except` clauses around `_control_lock`
unfoldable pub classify_failure : Exc → Exec Tracking (Unit {0})
unfolding classify_cancelled classify_exception
classify_failure cancelled = classify_cancelled
classify_failure e = classify_exception e

-- finally: self._ha_control_active = False
abbrev pub deactivate : Result (Unit {0}) × Tracking → Result (Unit {0}) × Tracking
deactivate (r, t) = (r, record t { active = false })

module _ (cmds : Commands) where
  -- the body of the `try` in `_ha_run_control`
  unfoldable pub control_body : Play → Exec Tracking (Unit {0})
  control_body p = do
    lift p.queued
    require_control_allowed p.allowed_before_auth
    run_script cmds p.check_user_time
    set_stage authenticated
    require_control_allowed p.allowed_before_control
    catch (run_script cmds p.control_lock) classify_failure
    set_stage control_acknowledged

  unfoldable pub run_control : ℕ → Play → Exec Tracking (Unit {0})
  unfolding control_body reset_control_tracking
  run_control opcode p t =
      deactivate (control_body p (record (reset_control_tracking opcode t) { active = true }))

  abbrev pub opcode_of : Action → ℕ
  opcode_of lock = cmds.lock_cmd
  opcode_of unlock = cmds.unlock_cmd

  -- `lock` and `unlock`
  unfoldable pub control : Action → Play → Exec Tracking (Unit {0})
  unfolding run_control
  control a p = run_control (opcode_of a) p
