-- ===== src/Events.antt =====
-- custom_components/ttlock_ble/event.py: the event that a record of the operation log fires. The SDK's enum
-- `LogOperate` is a function from a record type to the name of its member; an enum has no two members of
-- one value, so membership in a table is membership of the name.
pub mod Tables
use ha_ttlock_ble.Base.{
  ℕ, String, Bool, true, false, Option, none, some, List, [], ◌∷◌, if◌then◌else◌,
}
use ha_ttlock_ble.Base.Texts.{has}

abbrev pub passcode_record_types : List String
passcode_record_types =
    "KEYBOARD_PASSWORD_UNLOCK" ∷ "KEYBOARD_MODIFY_PASSWORD" ∷ "KEYBOARD_REMOVE_SINGLE_PASSWORD"
    ∷ "ERROR_PASSWORD_UNLOCK" ∷ "KEYBOARD_REMOVE_ALL_PASSWORDS" ∷ "KEYBOARD_PASSWORD_KICKED"
    ∷ "USE_DELETE_CODE" ∷ "PASSCODE_EXPIRED" ∷ "SPACE_INSUFFICIENT" ∷ "PASSCODE_IN_BLACK_LIST"
    ∷ "PASSCODE_LOCK" ∷ "PASSCODE_UNLOCK_FAILED_LOCK_REVERSE" ∷ "DOUBLE_CHECK_PASSCODE_UNLOCK"
    ∷ "ADMIN_CODE_UNLOCK" ∷ "ADD_PASSCODE_SUCCESSFULLY" ∷ []

abbrev pub unlock_record_types : List String
unlock_record_types =
    "MOBILE_UNLOCK" ∷ "SERVER_UNLOCK" ∷ "KEYBOARD_PASSWORD_UNLOCK" ∷ "IC_UNLOCK_SUCCEED"
    ∷ "FR_UNLOCK_SUCCEED" ∷ "BONG_UNLOCK" ∷ "OPERATE_KEY_UNLOCK" ∷ "GATEWAY_UNLOCK"
    ∷ "WIRELESS_KEY_FOB" ∷ "WIRELESS_KEY_PAD" ∷ "REMOTE_CONTROL_KEY" ∷ "QR_CODE_UNLOCK_SUCCESS"
    ∷ "FACE_3D_UNLOCK_SUCCESS" ∷ "APP_AUTH_KEY_UNLOCK_SUCCESS" ∷ "GATEWAY_AUTH_KEY_UNLOCK_SUCCESS"
    ∷ "DOUBLE_CHECK_KEY_UNLOCK" ∷ "DOUBLE_CHECK_PASSCODE_UNLOCK"
    ∷ "DOUBLE_CHECK_FINGER_PRINT_UNLOCK" ∷ "DOUBLE_CHECK_CARD_UNLOCK" ∷ "DOUBLE_CHECK_FACE_UNLOCK"
    ∷ "DOUBLE_CHECK_KEY_FOB_UNLOCK" ∷ "DOUBLE_CHECK_PALM_VEIN_UNLOCK" ∷ "PALM_VEIN_UNLOCK_SUCCESS"
    ∷ "ADMIN_CODE_UNLOCK" ∷ "THIRD_DEVICE_UNLOCK_SUCCESS" ∷ []

abbrev pub lock_record_types : List String
lock_record_types =
    "OPERATE_BLE_LOCK" ∷ "OPERATE_KEY_LOCK" ∷ "PASSCODE_LOCK" ∷ "IC_LOCK" ∷ "FR_LOCK"
    ∷ "FACE_3D_LOCK" ∷ "PALM_VEIN_LOCK" ∷ "THIRD_DEVICE_LOCK_SUCCESS" ∷ []

abbrev pub unlock_failed_record_types : List String
unlock_failed_record_types =
    "ERROR_PASSWORD_UNLOCK" ∷ "FR_UNLOCK_FAILED" ∷ "IC_UNLOCK_FAILED"
    ∷ "APP_UNLOCK_FAILED_LOCK_REVERSE" ∷ "PASSCODE_UNLOCK_FAILED_LOCK_REVERSE"
    ∷ "IC_UNLOCK_FAILED_LOCK_REVERSE" ∷ "FR_UNLOCK_FAILED_LOCK_REVERSE" ∷ "PASSCODE_EXPIRED"
    ∷ "PASSCODE_IN_BLACK_LIST" ∷ "IC_UNLOCK_FAILED_BLACKLIST" ∷ "QR_CODE_UNLOCK_FAILED"
    ∷ "FACE_3D_UNLOCK_FAILED_LOCK_REVERSE" ∷ "FACE_3D_UNLOCK_FAILED_INVALID_TIME"
    ∷ "PALM_VEIN_UNLOCK_FAILED_LOCK_REVERSE" ∷ "PALM_VEIN_UNLOCK_FAILED" ∷ "CARD_UNLOCK_FAILED"
    ∷ "THIRD_DEVICE_UNLOCK_FAILED_LOCK_REVERSE" ∷ "THIRD_DEVICE_UNLOCK_FAILED_INVALID_TIME" ∷ []

abbrev pub password_change_record_types : List String
password_change_record_types =
    "KEYBOARD_MODIFY_PASSWORD" ∷ "KEYBOARD_REMOVE_SINGLE_PASSWORD" ∷ "KEYBOARD_REMOVE_ALL_PASSWORDS"
    ∷ "KEYBOARD_PASSWORD_KICKED" ∷ "USE_DELETE_CODE" ∷ "ADD_IC" ∷ "CLEAR_IC_SUCCEED"
    ∷ "DELETE_IC_SUCCEED" ∷ "ADD_FR" ∷ "DELETE_FR_SUCCEED" ∷ []

-- The tables in the order in which they are tried.
abbrev pub event_tables : List (String × List String)
event_tables =
    ("unlock", unlock_record_types)
    ∷ ("lock", lock_record_types)
    ∷ ("unlock_failed", unlock_failed_record_types)
    ∷ ("password_change", password_change_record_types)
    ∷ []

abbrev pub method_types : List (String × List String)
method_types =
    ("physical_key", "OPERATE_KEY_UNLOCK" ∷ "OPERATE_KEY_LOCK" ∷ [])
    ∷ (
      "fingerprint",
      "FR_UNLOCK_SUCCEED" ∷ "FR_UNLOCK_FAILED" ∷ "FR_LOCK" ∷ "DOUBLE_CHECK_FINGER_PRINT_UNLOCK"
          ∷ [],
    )
    ∷ (
      "ic_card",
      "IC_UNLOCK_SUCCEED" ∷ "IC_UNLOCK_FAILED" ∷ "IC_LOCK" ∷ "DOUBLE_CHECK_CARD_UNLOCK" ∷ [],
    )
    ∷ (
      "passcode",
      "KEYBOARD_PASSWORD_UNLOCK" ∷ "ERROR_PASSWORD_UNLOCK" ∷ "PASSCODE_LOCK"
          ∷ "DOUBLE_CHECK_PASSCODE_UNLOCK" ∷ "ADMIN_CODE_UNLOCK" ∷ [],
    )
    ∷ ("ttlock_app", "MOBILE_UNLOCK" ∷ "OPERATE_BLE_LOCK" ∷ "APP_AUTH_KEY_UNLOCK_SUCCESS" ∷ [])
    ∷ ("gateway", "GATEWAY_UNLOCK" ∷ "GATEWAY_AUTH_KEY_UNLOCK_SUCCESS" ∷ [])
    ∷ ("key_fob", "WIRELESS_KEY_FOB" ∷ [])
    ∷ ("wireless_keypad", "WIRELESS_KEY_PAD" ∷ [])
    ∷ ("remote_control", "REMOTE_CONTROL_KEY" ∷ [])
    ∷ ("qr_code", "QR_CODE_UNLOCK_SUCCESS" ∷ [])
    ∷ ("face", "FACE_3D_UNLOCK_SUCCESS" ∷ [])
    ∷ ("palm_vein", "PALM_VEIN_UNLOCK_SUCCESS" ∷ [])
    ∷ ("third_party_device", "THIRD_DEVICE_UNLOCK_SUCCESS" ∷ [])
    ∷ []

-- record_type in record_types
abbrev pub is_in : Option String → List String → Bool
is_in none names = false
is_in (some n) names = has n names

-- the label of the first table that has the record type
unfoldable pub first_label : List (String × List String) → Option String → String
first_label [] n = "other"
first_label ((label, names) ∷ tables) n =
    let rest = first_label tables n in if is_in n names then label else rest

-- The SDK's `LogEntry`; a date is the text of its ISO format.
pub record LogEntry : Type 0 where
  pub record_type : ℕ
  pub lock_battery : ℕ
  pub operate_date : Option String
  pub uid : Option ℕ
  pub key_id : Option ℕ
  pub accessory_battery : Option ℕ
  pub password : Option String

-- The attributes of a fired event.
pub record Attributes : Type 0 where
  pub record_type : String
  pub method : String
  pub battery : ℕ
  pub timestamp : Option String
  pub uid : Option ℕ
  pub key_id : Option ℕ
  pub accessory_battery : Option ℕ

-- The enum, and the texts of the language.
pub record Names : Type 0 where
  pub log_operate : ℕ → Option String
  pub lower : String → String
  pub decimal : ℕ → String

abbrev pub name_or : Names → ℕ → Option String → String
name_or names n none = names.decimal n
name_or names n (some name) = names.lower name

module _ (names : Names) where
  -- `_classify_record`
  unfoldable pub classify_record : ℕ → String
  classify_record n = first_label event_tables (names.log_operate n)

  -- `_record_type_name`
  unfoldable pub record_type_name : ℕ → String
  record_type_name n = name_or names n (names.log_operate n)

  -- `_operation_method`
  unfoldable pub operation_method : ℕ → String
  operation_method n = first_label method_types (names.log_operate n)

  -- `_on_log_entry`: the type and the attributes of the event that is fired
  unfoldable pub on_log_entry : LogEntry → String × Attributes
  unfolding classify_record record_type_name operation_method
  on_log_entry e = (
    classify_record e.record_type,
    record {
      record_type = record_type_name e.record_type;
      method = operation_method e.record_type;
      battery = e.lock_battery;
      timestamp = e.operate_date;
      uid = e.uid;
      key_id = e.key_id;
      accessory_battery = e.accessory_battery;
    },
  )
