-- ===== src/Setup.antt =====
-- custom_components/ttlock_ble/__init__.py and options_flow.py: the setup of a config entry from its keys and
-- options, and the callbacks that Home Assistant runs when it unloads the entry or when its setup fails. Locks
-- are known by their addresses. What was done to them is kept in order. The creation of a task and the
-- registration of a Bluetooth callback are taken not to raise.
pub mod Unload
pub mod Form
use ha_ttlock_ble.Base.{
  ℕ, String, Bool, true, false, not, ◌&&◌, ◌||◌, Option, none, some, is_some, List, [], ◌∷◌, ◌++◌,
  if◌then◌else◌, str_eq,
}
use ha_ttlock_ble.Base.Texts.{has}
use ha_ttlock_ble.Base.Errors.{Exc}
use ha_ttlock_ble.Base.Exec.{Exec, Result, ok, err, pure, raise, gets, lift, modify, ◌>>=◌, ◌>>◌}

-- The options of an entry, none where a key is absent.
pub record Options : Type 0 where
  pub scan_interval : Option ℕ
  pub reconnect_interval : Option ℕ
  pub background_maintenance : Option Bool
  pub permanent_connection : Option Bool

-- What the setup makes of them.
pub record Settings : Type 0 where
  pub maintain : Bool
  pub reconnect_cooldown_seconds : ℕ
  pub scan_interval_seconds : ℕ

abbrev pub get_or : {A : Type 0} → Option A → A → A
get_or none a = a
get_or (some a) b = a

-- entry.options.get(CONF_BACKGROUND_MAINTENANCE, CONF_RECONNECT_INTERVAL in entry.options)
abbrev pub background : Options → Bool
background o = get_or o.background_maintenance (is_some o.reconnect_interval)

-- the options as `async_setup_entry` reads them
unfoldable pub settings : Options → Settings
settings o =
    let permanent = get_or o.permanent_connection false in
    record {
      maintain = permanent || background o;
      reconnect_cooldown_seconds = if permanent then 0 else get_or o.reconnect_interval 300;
      scan_interval_seconds = get_or o.scan_interval 3600;
    }

-- what the form of the options is filled with, which a user may submit as it is
unfoldable pub form_defaults : Options → Options
form_defaults o = record {
  scan_interval = some (get_or o.scan_interval 3600);
  reconnect_interval = some (get_or o.reconnect_interval 300);
  background_maintenance = some (background o);
  permanent_connection = some (get_or o.permanent_connection false);
}

-- `async_step_init`: the form, or the options to store
pub data OptionsStep : Type 0 where
  options_form : Options → OptionsStep
  options_entry : Options → OptionsStep

unfoldable pub step_init : Options → Option Options → OptionsStep
step_init o none = options_form (form_defaults o)
step_init o (some input) = options_entry input

-- A device of the registry.
pub record Device : Type 0 where
  pub id : String
  pub identifiers : List (String × String)

-- What is done, in order.
pub data Did : Type 0 where
  removed_device started tracked untracked stopping : String → Did
  log_saved listened platforms_forwarded : Did

-- The callbacks that are registered on the entry.
pub data OnUnload : Type 0 where
  stop_connections : List String → OnUnload
  stop_tracking : List String → OnUnload
  save_log_history : OnUnload
  remove_listener : OnUnload

-- How the private records load: well, with one of the three exceptions that are caught, or with another.
pub data LoadEnd : Type 0 where
  loaded : LoadEnd
  unavailable : LoadEnd
  load_raised : Exc → LoadEnd

pub record Entry : Type 0 where
  pub done : List Did
  pub on_unload : List OnUnload

-- What is outside.
pub record Host : Type 0 where
  pub domain : String
  pub format_mac : String → String
  pub devices : List Device
  pub load_records : LoadEnd
  pub load_history : Result (Unit {0})
  pub forward : Result (Unit {0})
  pub stop : String → Result (Unit {0})

-- What the entry's runtime data holds of it.
pub record Runtime : Type 0 where
  pub connections : List String
  pub has_records : Bool
  pub settings : Settings

abbrev pub note : Did → Exec Entry (Unit {0})
note d = modify (λ (s : Entry). record s { done = s.done ++ d ∷ [] })

abbrev pub async_on_unload : OnUnload → Exec Entry (Unit {0})
async_on_unload f = modify (λ (s : Entry). record s { on_unload = f ∷ s.on_unload })

-- for x in l: note(f(x))
unfoldable pub note_each : (String → Did) → List String → Exec Entry (Unit {0})
note_each f [] = pure tt
note_each f (x ∷ xs) = do note (f x); note_each f xs

-- the keys of the dict of connections
unfoldable pub connection_macs : List String → List String → List String
connection_macs seen [] = seen
connection_macs seen (m ∷ ms) = connection_macs (if has m seen then seen else seen ++ m ∷ []) ms

module _ (host : Host) where
  -- `_configured_macs`
  unfoldable pub configured_macs : List String → List String
  configured_macs [] = []
  configured_macs (m ∷ ms) = host.format_mac m ∷ configured_macs ms

  -- `_device_macs` & `_configured_macs` is not empty
  unfoldable pub shares : List String → List (String × String) → Bool
  shares configured [] = false
  shares configured ((domain, identifier) ∷ rest) =
      (str_eq domain host.domain && has identifier configured) || shares configured rest

  -- the loop of `_async_prune_stale_devices`
  unfoldable pub prune : List String → List Device → Exec Entry (Unit {0})
  prune configured [] = pure tt
  prune configured (d ∷ ds) = do
    if not (shares configured d.identifiers) then note (removed_device d.id) else pure tt
    prune configured ds

  -- `async_remove_config_entry_device`
  unfoldable pub may_remove_device : List String → Device → Bool
  may_remove_device macs d = not (shares (configured_macs macs) d.identifiers)

  abbrev pub records_loaded : LoadEnd → Exec Entry Bool
  records_loaded loaded = pure true
  records_loaded unavailable = pure false
  records_loaded (load_raised e) = raise e

  -- a connection's `async_start`, which does nothing without maintenance
  abbrev pub start_all : Bool → List String → Exec Entry (Unit {0})
  start_all maintain macs = if maintain then note_each started macs else pure tt

  -- the three callbacks, before the platforms are forwarded
  abbrev pub register_unload : List String → List String → Exec Entry (Unit {0})
  register_unload connections macs = do
    async_on_unload (stop_connections connections)
    async_on_unload (stop_tracking macs)
    async_on_unload save_log_history

  -- `async_setup_entry`
  unfoldable pub setup_entry : List String → Options → Exec Entry Runtime
  setup_entry macs o = do
    prune (configured_macs macs) host.devices
    records ← records_loaded host.load_records
    lift host.load_history
    let connections = connection_macs [] macs
    start_all (settings o).maintain connections
    note_each tracked macs
    register_unload connections macs
    lift host.forward
    note platforms_forwarded
    async_on_unload remove_listener
    pure (record { connections = connections; has_records = records; settings = settings o })

  -- `_stop_connections`
  unfoldable pub stop_each : List String → Exec Entry (Unit {0})
  stop_each [] = pure tt
  stop_each (m ∷ ms) = do note (stopping m); lift (host.stop m); stop_each ms

  abbrev pub run_callback : OnUnload → Exec Entry (Unit {0})
  run_callback (stop_connections macs) = stop_each macs
  run_callback (stop_tracking macs) = note_each untracked macs
  run_callback save_log_history = note log_saved
  run_callback remove_listener = pure tt

  -- Home Assistant runs the callback that was registered last first; one that raises is logged.
  unfoldable pub run_unload : List OnUnload → Entry → Entry
  run_unload [] s = s
  run_unload (f ∷ fs) s = run_unload fs (run_callback f s).1

  unfoldable pub unload : Entry → Entry
  unload s = run_unload s.on_unload (record s { on_unload = [] })
