-- ===== src/Services.antt =====
-- custom_components/ttlock_ble/services.py: the actions of Home Assistant for local management. A connection is
-- known by its number, and what it was asked to do is kept in order; what an exchange with the lock gives
-- depends on how many there were.
pub mod Inventory
pub mod Honest
pub mod Allowed
pub mod Writes
use ha_ttlock_ble.Base.{
  ℕ, suc, String, Bool, true, false, not, ◌&&◌, ◌||◌, ◌==◌, Option, none, some, List, [], ◌∷◌, ◌++◌,
  length, leb, ltb, if◌then◌else◌, bool_eq, str_eq,
}
use ha_ttlock_ble.Base.Texts.{has}
use ha_ttlock_ble.Base.Codes.{Text, is_digits}
use ha_ttlock_ble.Base.Errors.{
  Exc, service_validation, ServiceError, device_not_found, device_not_loaded, invalid_passcode,
  invalid_datetime, period_window_required, invalid_period_window, legacy_writes_disabled, other,
}
use ha_ttlock_ble.Base.Exec.{Exec, Result, ok, err, pure, raise, gets, modify, ◌>>=◌, ◌>>◌}

pub data PasscodeType : Type 0 where
  permanent period : PasscodeType

-- A loaded or failed config entry: its connections by address, and the locks whose legacy writes are disabled,
-- none if the private records could not be loaded.
pub record ServiceEntry : Type 0 where
  pub loaded : Bool
  pub connections : List (String × ℕ)
  pub records : Option (List String)

-- A parsed date: whether it has a zone, and its wall clock.
pub record LockDate : Type 0 where
  pub aware : Bool
  pub wall : ℕ

-- What a connection is asked to do.
pub data Command : Type 0 where
  add : (code : Text) → PasscodeType → (start_date end_date : String) → Command
  delete : (code : Text) → PasscodeType → Command
  clear : Command
  get_auto_lock_time : Command
  set_auto_lock_time : ℕ → Command

pub record Sent : Type 0 where
  pub target : ℕ
  pub command : Command

pub record Bus : Type 0 where
  pub sent : List Sent

-- What is outside: the device registry, the config entries, the addresses and dates of Home Assistant, the
-- digits outside ASCII, and what an exchange gives.
pub record Host : Type 0 where
  pub domain : String
  pub device : String → Option (List (String × String))
  pub entries : List ServiceEntry
  pub format_mac : String → String
  pub other_digit : ℕ → Bool
  pub parse_datetime : String → Option LockDate
  pub as_local : ℕ → ℕ
  pub format_date : ℕ → String
  pub reply : ℕ → Result ℕ

-- The data of a call, after its schema.
pub record Call : Type 0 where
  pub device_id : String
  pub code : Text
  pub passcode_type : PasscodeType
  pub start : Option String
  pub end : Option String
  pub seconds : ℕ

pub data Action : Type 0 where
  add_passcode_action delete_passcode_action clear_passcodes_action get_auto_lock_action
        set_auto_lock_action :
      Action

module _ (host : Host) where
  abbrev invalid : {A : Type 0} → ServiceError → Exec Bus A
  invalid e = raise (service_validation e)

  -- `_validate_code`
  unfoldable pub is_valid_code : Text → Bool
  is_valid_code code = leb 4 (length code) && leb (length code) 9 && is_digits host.other_digit code

  abbrev pub validate_code : Text → Exec Bus (Unit {0})
  validate_code code = if is_valid_code code then pure tt else invalid invalid_passcode

  abbrev pub local_date : Option LockDate → Exec Bus LockDate
  local_date none = invalid invalid_datetime
  local_date (some d) = pure (if d.aware then record d { wall = host.as_local d.wall } else d)

  -- `_parse_lock_datetime`
  abbrev pub parse_lock_datetime : String → Exec Bus LockDate
  parse_lock_datetime value = local_date (host.parse_datetime value)

  -- Two dates are compared only when both have a zone or neither has; else Python raises TypeError.
  abbrev pub window_of : LockDate → LockDate → Exec Bus (String × String)
  window_of start end =
      if not (bool_eq start.aware end.aware)
      then raise other
      else (if leb end.wall start.wall
          then invalid invalid_period_window
          else pure (host.format_date start.wall, host.format_date end.wall))

  -- `_period_window`
  unfoldable pub period_window : Option String → Option String → Exec Bus (String × String)
  period_window (some start_raw) (some end_raw) = do
    start ← parse_lock_datetime start_raw
    end ← parse_lock_datetime end_raw
    window_of start end
  period_window _ _ = invalid period_window_required

  unfoldable pub device_macs : List (String × String) → List String
  device_macs [] = []
  device_macs ((domain, identifier) ∷ rest) =
      let others = device_macs rest in
      if str_eq domain host.domain then identifier ∷ others else others

  -- the loop over the connections of an entry
  unfoldable pub connection_of : List String → List (String × ℕ) → Option ℕ
  connection_of macs [] = none
  connection_of macs ((mac, c) ∷ rest) =
      let later = connection_of macs rest in
      if has (host.format_mac mac) macs then some c else later

  abbrev pub first_of : Option ℕ → Option ℕ → Option ℕ
  first_of none later = later
  first_of (some c) later = some c

  unfoldable pub find_connection : List String → List ServiceEntry → Option ℕ
  find_connection macs [] = none
  find_connection macs (e ∷ es) =
      let later = find_connection macs es in
      if e.loaded then first_of (connection_of macs e.connections) later else later

  abbrev pub found_or : Option ℕ → Exec Bus ℕ
  found_or none = invalid device_not_loaded
  found_or (some c) = pure c

  abbrev pub connection_for : Option (List (String × String)) → Exec Bus ℕ
  connection_for none = invalid device_not_found
  connection_for (some identifiers) =
      found_or (find_connection (device_macs identifiers) host.entries)

  -- `_connection_for_device`
  unfoldable pub connection_for_device : String → Exec Bus ℕ
  connection_for_device device_id = connection_for (host.device device_id)

  -- the address under which an entry holds a connection
  unfoldable pub mac_of : ℕ → List (String × ℕ) → Option String
  mac_of c [] = none
  mac_of c ((mac, d) ∷ rest) = let later = mac_of c rest in if d == c then some mac else later

  abbrev pub permits : Option (List String) → String → Bool
  permits none mac = false
  permits (some disabled) mac = not (has mac disabled)

  abbrev pub permitted_or : Option String → Option (List String) → Bool → Bool
  permitted_or none records later = later
  permitted_or (some mac) records later = permits records mac

  -- the second loop of `_legacy_connection`: the first entry that holds the connection decides
  unfoldable pub is_permitted : ℕ → List ServiceEntry → Bool
  is_permitted c [] = true
  is_permitted c (e ∷ es) =
      let later = is_permitted c es in
      if e.loaded then permitted_or (mac_of c e.connections) e.records later else later

  -- `_legacy_connection`
  unfoldable pub legacy_connection : String → Exec Bus ℕ
  legacy_connection device_id = do
    c ← connection_for_device device_id
    if is_permitted c host.entries then pure c else invalid legacy_writes_disabled

  -- the exchange with the lock
  unfoldable pub send : ℕ → Command → Exec Bus ℕ
  send c command = do
    n ← gets (λ (s : Bus). length s.sent)
    modify
        (λ (s : Bus). record s { sent = s.sent ++ record { target = c; command = command } ∷ [] })
    λ s. (host.reply n, s)

  abbrev pub dates_of : PasscodeType → Call → Exec Bus (String × String)
  dates_of permanent call = pure ("0001311400", "9912311400")
  dates_of period call = period_window call.start call.end

  -- `_async_add_passcode`
  unfoldable pub add_passcode : Call → Exec Bus ℕ
  add_passcode call = do
    validate_code call.code
    dates ← dates_of call.passcode_type call
    c ← legacy_connection call.device_id
    send c (add call.code call.passcode_type dates.0 dates.1)

  -- `_async_delete_passcode`
  unfoldable pub delete_passcode : Call → Exec Bus ℕ
  delete_passcode call = do
    validate_code call.code
    c ← legacy_connection call.device_id
    send c (delete call.code call.passcode_type)

  -- `_async_clear_passcodes`
  unfoldable pub clear_passcodes : Call → Exec Bus ℕ
  clear_passcodes call = do c ← legacy_connection call.device_id; send c clear

  -- `_async_get_auto_lock`
  unfoldable pub get_auto_lock : Call → Exec Bus ℕ
  get_auto_lock call = do c ← connection_for_device call.device_id; send c get_auto_lock_time

  -- `_async_set_auto_lock`
  unfoldable pub set_auto_lock : Call → Exec Bus ℕ
  set_auto_lock call = do
    c ← connection_for_device call.device_id
    send c (set_auto_lock_time call.seconds)

  -- The actions that `async_setup_services` registers, but the inventory.
  unfoldable pub handle : Action → Call → Exec Bus ℕ
  handle add_passcode_action call = add_passcode call
  handle delete_passcode_action call = delete_passcode call
  handle clear_passcodes_action call = clear_passcodes call
  handle get_auto_lock_action call = get_auto_lock call
  handle set_auto_lock_action call = set_auto_lock call
