-- ===== src/Examples/Entries.antt =====
-- The properties of an entry's setup and of its tracker, at an entry with two locks, of which the first cannot
-- confirm that it let go of its link.
use ha_ttlock_ble.Base.{String, none, some, [], ◌∷◌, ◌≡◌, refl, if◌then◌else◌}
use ha_ttlock_ble.Base.Texts.{has}
use ha_ttlock_ble.Base.Errors.{sdk, ttlock, other}
use ha_ttlock_ble.Base.Exec.{ok, err}
use ha_ttlock_ble.Base.Exec.Triple.{Post}
use ha_ttlock_ble.Setup.{
  Options, Entry, Host, loaded, setup_entry, settings, step_init, options_form, options_entry,
}
use ha_ttlock_ble.Setup.Unload.{IsReleased, Raised, setup_entry-IsReleased}
use ha_ttlock_ble.Setup.Form.{step_init-settings}
use ha_ttlock_ble.Coordinator.Register.{register}
use ha_ttlock_ble.Tracker.{Decoder, on_advertisement, IsPassive, on_advertisement-IsPassive}
use ha_ttlock_ble.Examples.Entities.{door, beacon}

abbrev options : Options
options = record {
  scan_interval = none;
  reconnect_interval = some 60;
  background_maintenance = none;
  permanent_connection = none;
}

abbrev host : Host
host = record {
  domain = "ttlock_ble";
  format_mac = λ m. m;
  devices = record { id = "old"; identifiers = ("ttlock_ble", "gone") ∷ [] } ∷ [];
  load_records = loaded;
  load_history = ok tt;
  forward = err other;
  stop = λ m. if has m ("aa" ∷ []) then err (ttlock sdk) else ok tt;
}

abbrev fresh : Entry
fresh = record { done = []; on_unload = [] }

setup_entry-IsReleased_example :
    Post
      (λ _. IsReleased host ("aa" ∷ "bb" ∷ []))
      (Raised host ("aa" ∷ "bb" ∷ []))
      (setup_entry host ("aa" ∷ "bb" ∷ []) options fresh)
setup_entry-IsReleased_example =
    (setup_entry-IsReleased host ("aa" ∷ "bb" ∷ []) options).at fresh (tt, refl)

step_init-settings_example :
    (shown : Options) × (step_init options none ≡ options_form shown)
    × (step_init options (some shown) ≡ options_entry shown)
    × (settings shown ≡ settings options)
step_init-settings_example = step_init-settings options

-- every payload carries the address "aa"
abbrev decoder : Decoder
decoder = record {
  format_mac = λ m. m;
  from_manufacturer_data = λ company_id payload. some (record { lock_mac = "aa"; says = beacon });
}

on_advertisement-IsPassive_example :
    IsPassive decoder "door"
      ((7, []) ∷ [])
      door
      (on_advertisement decoder "door" ((7, []) ∷ []) door)
    × ((m : String)
        → register m (on_advertisement decoder "door" ((7, []) ∷ []) door) ≡ register m door)
on_advertisement-IsPassive_example = on_advertisement-IsPassive decoder "door" ((7, []) ∷ []) door
