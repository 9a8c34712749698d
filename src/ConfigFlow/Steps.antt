-- ===== src/ConfigFlow/Steps.antt =====
-- The steps of config_flow.py, each whole.
use ha_ttlock_ble.Base.{Option, none, some, List, [], ◌∷◌, if◌then◌else◌, not}
use ha_ttlock_ble.Base.Codes.{Text}
use ha_ttlock_ble.Base.Errors.{value_error, other}
use ha_ttlock_ble.Base.Exec.{Exec, pure, raise, gets, modify, ◌>>=◌, ◌>>◌}
use ha_ttlock_ble.ManualKey
use ha_ttlock_ble.ManualKey.{Input, VirtualKey, FormError}
use ha_ttlock_ble.ConfigFlow.{
  Entry, FlowStep, cloud_step, manual_step, verify_code_step, reauth_confirm_step, reconfigure_step,
  reconfigure_manual_step, FlowError, on_form, FlowResult, show_menu, show_form, create_entry,
  update_entry, Flow, World, no_error, needs_code, outside_at, abort_if_any_lock_configured,
  set_unique_id, abort_if_unique_id_configured, abort_if_unique_id_mismatch,
  login_and_maybe_request_code, validate_code_and_login, login_for_existing_entry,
  finalize_create_entry, finalize_update_entry,
}

-- `TtlockBleCredentialsInput`
pub record Credentials : Type 0 where
  pub username : Text
  pub password : Text

abbrev pub form_errors : List FormError → List FlowError
form_errors [] = []
form_errors (e ∷ es) = on_form e ∷ form_errors es

-- What Home Assistant calls: a step with what the user entered. The entry of a reauth or a reconfigure is its
-- own.
pub data Request : Type 0 where
  user : Request
  cloud : Option Credentials → Request
  manual : Option Input → Request
  verify_code : Option Text → Request
  reauth : Entry → Request
  reauth_confirm : Entry → Option Credentials → Request
  reconfigure : Entry → Option Credentials → Request
  reconfigure_manual : Entry → Option Input → Request

module _ (world : World) where
  -- self._username, self._password = ...
  abbrev pub remember : Credentials → Exec Flow (Unit {0})
  remember given =
      modify (λ (s : Flow). record s { username = given.username; password = given.password })

  -- `async_step_verify_code`
  unfoldable pub step_verify_code : Option Text → Exec Flow FlowResult
  step_verify_code none = pure (show_form verify_code_step [])
  step_verify_code (some code) = do
    errors ← validate_code_and_login world code
    if no_error errors
        then finalize_create_entry world verify_code_step
        else pure (show_form verify_code_step errors)

  -- `async_step_cloud`
  unfoldable pub step_cloud : Option Credentials → Exec Flow FlowResult
  unfolding step_verify_code
  step_cloud none = pure (show_form cloud_step [])
  step_cloud (some given) = do
    set_unique_id world (world.slugify given.username)
    abort_if_unique_id_configured world (world.slugify given.username)
    remember given
    errors ← login_and_maybe_request_code world
    if no_error errors
        then finalize_create_entry world cloud_step
        else (if needs_code errors
            then step_verify_code none
            else pure (show_form cloud_step errors))

  -- a key that the form built, or its ValueError
  abbrev pub key_or_raise : Option VirtualKey → Exec Flow VirtualKey
  key_or_raise none = raise value_error
  key_or_raise (some k) = pure k

  -- `async_step_manual`
  unfoldable pub step_manual : Option Input → Exec Flow FlowResult
  step_manual none = pure (show_form manual_step [])
  step_manual (some i) = do
    s ← gets (λ (s : Flow). s)
    let errors = form_errors (ManualKey.async_validate (outside_at world s.awaits) i)
    if not (no_error errors) then pure (show_form manual_step errors) else (do
      key ← key_or_raise (ManualKey.build world.outside i)
      set_unique_id world (world.outside.format_mac key.lock_mac)
      abort_if_unique_id_configured world (world.outside.format_mac key.lock_mac)
      abort_if_any_lock_configured world none (key ∷ [])
      pure (create_entry key.lock_alias (record { account = none; keys = key ∷ [] })))

  -- the form with `existing["keys"][0]`, an IndexError without keys
  abbrev pub stored_form : List VirtualKey → Exec Flow FlowResult
  stored_form [] = raise other
  stored_form (k ∷ ks) = pure (show_form reconfigure_manual_step [])

  -- `async_step_reconfigure_manual`
  unfoldable pub step_reconfigure_manual : Entry → Option Input → Exec Flow FlowResult
  step_reconfigure_manual e none = stored_form e.stored.keys
  step_reconfigure_manual e (some i) = do
    s ← gets (λ (s : Flow). s)
    let errors = form_errors (ManualKey.async_validate (outside_at world s.awaits) i)
    if not (no_error errors) then pure (show_form reconfigure_manual_step errors) else (do
      key ← key_or_raise (ManualKey.build world.outside i)
      abort_if_any_lock_configured world (some e.entry_id) (key ∷ [])
      pure (
          update_entry e (some (world.outside.format_mac key.lock_mac))
            (record { account = none; keys = key ∷ [] }) (some key.lock_alias)))

  -- `_async_step_credentials_for_entry`
  unfoldable pub step_credentials : Entry → FlowStep → Option Credentials → Exec Flow FlowResult
  step_credentials e step none = pure (show_form step [])
  step_credentials e step (some given) = do
    set_unique_id world (world.slugify given.username)
    abort_if_unique_id_mismatch world e (world.slugify given.username)
    remember given
    errors ← login_for_existing_entry world
    if no_error errors then finalize_update_entry world step e else pure (show_form step errors)

  abbrev pub reconfigure_by :
      Option (Text × Text) → Entry → Option Credentials → Exec Flow FlowResult
  reconfigure_by none e given = step_reconfigure_manual e none
  reconfigure_by (some account) e given = step_credentials e reconfigure_step given

  unfoldable pub run_step : Request → Exec Flow FlowResult
  run_step user = pure show_menu
  run_step (cloud given) = step_cloud given
  run_step (manual i) = step_manual i
  run_step (verify_code code) = step_verify_code code
  run_step (reauth e) = step_credentials e reauth_confirm_step none
  run_step (reauth_confirm e given) = step_credentials e reauth_confirm_step given
  run_step (reconfigure e given) = reconfigure_by e.stored.account e given
  run_step (reconfigure_manual e i) = step_reconfigure_manual e i
