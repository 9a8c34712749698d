-- ===== src/ConfigFlow.antt =====
-- custom_components/ttlock_ble/config_flow.py: the dialogs that create and correct an entry. A step returns what
-- it asks Home Assistant to do; the entries that Home Assistant holds, its test of a unique id and the cloud
-- depend on the number of the await.
pub mod Steps
pub mod Apart
pub mod Vetted
pub mod Asked
use ha_ttlock_ble.Base.{
  ℕ, suc, String, Bool, true, false, ◌&&◌, ◌||◌, not, Option, none, some, List, [], ◌∷◌, map,
  if◌then◌else◌, str_eq,
}
use ha_ttlock_ble.Base.Codes.{Text, text_eq}
use ha_ttlock_ble.Base.Errors.{
  Exc, ApiError, authentication, communication, verification_required, api_client_error, api,
  abort_flow, already_configured, already_in_progress, wrong_account, value_error,
}
use ha_ttlock_ble.Base.Exec.{Exec, pure, raise, gets, modify, catch, ◌>>=◌, ◌>>◌}
use ha_ttlock_ble.ManualKey
use ha_ttlock_ble.ManualKey.{Input, VirtualKey, Outside, FormError, Advertised, defaults_from}
use ha_ttlock_ble.CloudClient.{Cloud, Counter}
use ha_ttlock_ble.CloudClient

-- What an entry's data holds: an account unless its key was entered by hand.
pub record EntryData : Type 0 where
  pub account : Option (Text × Text)
  pub keys : List VirtualKey

pub record Entry : Type 0 where
  pub entry_id : String
  pub stored : EntryData

pub data FlowStep : Type 0 where
  cloud_step manual_step verify_code_step reauth_confirm_step reconfigure_step
        reconfigure_manual_step :
      FlowStep

-- The errors that a form shows.
pub data FlowError : Type 0 where
  auth connection unknown invalid_code verification_needed : FlowError
  on_form : FormError → FlowError

-- What a step returns.
pub data FlowResult : Type 0 where
  show_menu : FlowResult
  show_form : FlowStep → List FlowError → FlowResult
  create_entry : (title : Text) → EntryData → FlowResult
  update_entry : Entry → (unique_id : Option Text) → EntryData → (title : Option Text) → FlowResult

-- The fields of the handler, and the number of the awaits.
pub record Flow : Type 0 where
  pub username : Text
  pub password : Text
  pub awaits : ℕ

abbrev pub counter : Counter Flow
counter = record { calls = λ s. s.awaits; count_call = λ s. record s { awaits = suc s.awaits } }

-- What is outside.
pub record World : Type 0 where
  pub outside : Outside
  pub seen : ℕ → Text → Option (List (ℕ × List ℕ))
  pub slugify : Text → Text
  pub cloud : Cloud (List VirtualKey)
  pub entries : ℕ → List Entry
  pub id_in_progress : Text → ℕ → Bool
  pub id_configured : Text → ℕ → Bool
  pub id_mismatch : Entry → Text → ℕ → Bool

abbrev pub no_error : List FlowError → Bool
no_error [] = true
no_error (e ∷ es) = false

abbrev pub needs_code : List FlowError → Bool
needs_code (verification_needed ∷ es) = true
needs_code _ = false

-- The entry that `ignore_entry_id` names.
abbrev pub is_ignored : Option String → Entry → Bool
is_ignored none e = false
is_ignored (some i) e = str_eq e.entry_id i

module _ (world : World) where
  abbrev pub outside_at : ℕ → Outside
  outside_at n = record (world.outside) { manufacturer_data = world.seen n }

  -- `_abort_if_lock_configured`: the loop over the keys of an entry, and over the entries
  unfoldable pub holds_lock : Text → List VirtualKey → Bool
  holds_lock target [] = false
  holds_lock target (k ∷ ks) =
      text_eq (world.outside.format_mac k.lock_mac) target || holds_lock target ks

  unfoldable pub lock_configured : Option String → Text → List Entry → Bool
  lock_configured ignored target [] = false
  lock_configured ignored target (e ∷ es) =
      (not (is_ignored ignored e) && holds_lock target e.stored.keys)
      || lock_configured ignored target es

  -- `_abort_if_any_lock_configured`
  unfoldable pub any_lock_configured : Option String → List VirtualKey → List Entry → Bool
  any_lock_configured ignored [] es = false
  any_lock_configured ignored (k ∷ ks) es =
      lock_configured ignored (world.outside.format_mac k.lock_mac) es
      || any_lock_configured ignored ks es

  unfoldable pub abort_if_any_lock_configured :
      Option String → List VirtualKey → Exec Flow (Unit {0})
  abort_if_any_lock_configured ignored keys = do
    found ← gets (λ (s : Flow). any_lock_configured ignored keys (world.entries s.awaits))
    if found then raise (abort_flow already_configured) else pure tt

  -- `async_set_unique_id`
  unfoldable pub set_unique_id : Text → Exec Flow (Unit {0})
  set_unique_id i =
      CloudClient.call world.cloud counter
        (λ n. if world.id_in_progress i n then raise (abort_flow already_in_progress) else pure tt)

  abbrev pub abort_if_unique_id_configured : Text → Exec Flow (Unit {0})
  abort_if_unique_id_configured i = do
    found ← gets (λ (s : Flow). world.id_configured i s.awaits)
    if found then raise (abort_flow already_configured) else pure tt

  abbrev pub abort_if_unique_id_mismatch : Entry → Text → Exec Flow (Unit {0})
  abort_if_unique_id_mismatch e i = do
    found ← gets (λ (s : Flow). world.id_mismatch e i s.awaits)
    if found then raise (abort_flow wrong_account) else pure tt

  abbrev pub cloud_login : Exec Flow (Unit {0})
  cloud_login = do
    s ← gets (λ (s : Flow). s)
    CloudClient.login world.cloud counter s.username s.password

  -- `_async_request_verification_code`
  abbrev pub request_failed : Exc → Exec Flow (List FlowError)
  request_failed (api communication) = pure (connection ∷ [])
  request_failed (api e) = pure (unknown ∷ [])
  request_failed e = raise e

  unfoldable pub request_verification_code : Exec Flow (List FlowError)
  request_verification_code =
      catch
        (do
          s ← gets (λ (s : Flow). s)
          CloudClient.request_verification_code world.cloud counter s.username
          pure (verification_needed ∷ []))
        request_failed

  -- `_async_login_and_maybe_request_code`
  abbrev pub login_failed : Exc → Exec Flow (List FlowError)
  login_failed (api verification_required) = request_verification_code
  login_failed (api authentication) = pure (auth ∷ [])
  login_failed (api communication) = pure (connection ∷ [])
  login_failed (api api_client_error) = pure (unknown ∷ [])
  login_failed e = raise e

  unfoldable pub login_and_maybe_request_code : Exec Flow (List FlowError)
  login_and_maybe_request_code = catch (do cloud_login; pure []) login_failed

  -- `_async_validate_code_and_login`
  abbrev pub code_failed : Exc → Exec Flow (List FlowError)
  code_failed (api authentication) = pure (invalid_code ∷ [])
  code_failed (api communication) = pure (connection ∷ [])
  code_failed (api e) = pure (unknown ∷ [])
  code_failed e = raise e

  unfoldable pub validate_code_and_login : Text → Exec Flow (List FlowError)
  validate_code_and_login code =
      catch
        (do
          s ← gets (λ (s : Flow). s)
          CloudClient.validate_new_device_and_login world.cloud counter s.username s.password code
          pure [])
        code_failed

  -- `_async_login_for_existing_entry`
  abbrev pub existing_failed : Exc → Exec Flow (List FlowError)
  existing_failed (api verification_required) = pure (verification_needed ∷ [])
  existing_failed (api authentication) = pure (auth ∷ [])
  existing_failed (api communication) = pure (connection ∷ [])
  existing_failed (api api_client_error) = pure (unknown ∷ [])
  existing_failed e = raise e

  unfoldable pub login_for_existing_entry : Exec Flow (List FlowError)
  login_for_existing_entry = catch (do cloud_login; pure []) existing_failed

  -- `_async_fetch_keys`
  abbrev pub fetch_failed : Exc → Exec Flow (List VirtualKey × List FlowError)
  fetch_failed (api authentication) = pure ([], auth ∷ [])
  fetch_failed (api communication) = pure ([], connection ∷ [])
  fetch_failed (api e) = pure ([], unknown ∷ [])
  fetch_failed e = raise e

  unfoldable pub fetch_keys : Exec Flow (List VirtualKey × List FlowError)
  fetch_keys =
      catch (do cloud_login; keys ← CloudClient.list_keys world.cloud counter; pure (keys, []))
        fetch_failed

  -- the data of an entry of the account that logged in
  abbrev pub account_data : List VirtualKey → Flow → EntryData
  account_data keys s = record { account = some (s.username, s.password); keys = keys }

  -- `_async_finalize_create_entry`: what it returns is a result, or the errors to show
  unfoldable pub finalize_create_entry : FlowStep → Exec Flow FlowResult
  finalize_create_entry step = do
    fetched ← fetch_keys
    if not (no_error fetched.1) then pure (show_form step fetched.1) else (do
      abort_if_any_lock_configured none fetched.0
      s ← gets (λ (s : Flow). s)
      pure (create_entry s.username (account_data fetched.0 s)))

  -- `_async_finalize_update_entry`
  unfoldable pub finalize_update_entry : FlowStep → Entry → Exec Flow FlowResult
  finalize_update_entry step e = do
    fetched ← fetch_keys
    if not (no_error fetched.1) then pure (show_form step fetched.1) else (do
      abort_if_any_lock_configured (some e.entry_id) fetched.0
      s ← gets (λ (s : Flow). s)
      pure (update_entry e none (account_data fetched.0 s) none))
