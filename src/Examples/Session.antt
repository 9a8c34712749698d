-- ===== src/Examples/Session.antt =====
-- One lock in reach of one scanner, whose firmware answers as documented.
use ha_ttlock_ble.Base.{ℕ, Bool, true, false, none, some, [], ◌∷◌, refl, arith, if◌then◌else◌, ◌==◌}
use ha_ttlock_ble.Base.Int.{negsuc}
use ha_ttlock_ble.Base.Errors.{no_candidate, timeout}
use ha_ttlock_ble.Base.Exec.{ok, err}
use ha_ttlock_ble.Client.{lock, Commands, Tracking, before_auth, Play, send, answer, opcode_of}
use ha_ttlock_ble.Client.Outcome.{IsDocumented}
use ha_ttlock_ble.LogHistory.{LogEntry}
use ha_ttlock_ble.LogHistory.Storage.{init}
use ha_ttlock_ble.Connection.State.{
  Conn, Env, link_dropped, pushed, scan_raised, unavailable, locked, cancelled_running, in_exchange,
}
use ha_ttlock_ble.Connection.Ownership.{IsOwned}
use ha_ttlock_ble.Connection.Signals.{IsAnnounced}

abbrev pub codes : Commands
codes = record { unlock_cmd = 71; lock_cmd = 88; check_user_time_cmd = 85 }

abbrev pub clean : Tracking
clean = record {
  gated = true;
  opcode = none;
  stage = before_auth;
  frame_written = false;
  ack_received = false;
  response_unclassified = false;
  disconnected_during_control = false;
  routed_echoes = [];
  active = false;
  wire = [];
}

-- the handshake and the exchange, with the write that is lost or not
abbrev pub played : Bool → ℕ → Play
played lost c = record {
  queued = ok tt;
  allowed_before_auth = true;
  allowed_before_control = true;
  check_user_time = record { acts = send 85 false ∷ answer 85 (some 85) ∷ []; ends = ok tt };
  control_lock = record {
    acts = (if lost then send c true ∷ [] else send c false ∷ answer c (some c) ∷ []);
    ends = (if lost then err timeout else ok tt);
  };
}

abbrev pub entry : LogEntry
entry = record {
  record_number = 7;
  record_type = 1;
  operate_date = some 200;
  uid = some 3;
  record_id = none;
  key_id = none;
  lock_battery = 80;
  accessory_battery = none;
}

-- The first await hears a push event and the second loses the link; a write is lost when `lost` says so.
abbrev pub house : Bool → Env
house lost = record {
  commands = codes;
  elapsed = λ n. 10;
  during = λ n. if n == 1 then pushed 4 ∷ [] else (if n == 2 then link_dropped none ∷ [] else []);
  is_connected = λ n k. false;
  cleanup_confirmed = λ n k. none;
  disconnect = λ n k. none;
  caller_cancelled = λ n. false;
  connect = λ n k limit. record { call = ok tt; expired = false; cancelling = false };
  last_service_info =
      λ n b. some (record { device = 5; source = "scanner"; rssi = negsuc 59; time = 0 });
  ble_device = λ n. some 5;
  scanner_devices = λ n. [];
  learned_interval = λ n. none;
  advertisements = λ n limit. record { heard = []; ends = scan_raised timeout };
  reachability = λ n. unavailable;
  query_state = λ n k. ok (some locked, some 80);
  play = λ n a. played lost (opcode_of codes a);
  wakes = λ n. cancelled_running (in_exchange 1) ∷ [];
  reconcile_interrupted = λ n. false;
  manage = λ n k. ok 15;
  read_inventory = λ n k. ok 2;
  inventory_deadline = λ n. false;
  get_operation_log = λ n k. ok (entry ∷ []);
}

abbrev pub idle : Conn
idle = record {
  admin_key = 49 ∷ [];
  client = none;
  pending_client = none;
  cleanup_task = none;
  next_client_generation = 0;
  owned_client_generation = none;
  inventory_running = false;
  control_requests = 0;
  diagnostics = record {
    reason = none;
    stage = none;
    cleanup_confirmed = none;
    elapsed_ms = 0;
    source = none;
  };
  acquisition_failure = no_candidate;
  advertisement_source = none;
  maintaining = false;
  closing = false;
  closing_event = false;
  disconnected = false;
  log_history = init 100;
  broadcast_connected = false;
  reachability_diagnostic = none;
  last_connection_rssi = none;
  tracking = clean;
  now = 0;
  steps = 0;
  signals = [];
}

pub idle-IsOwned : IsOwned idle
idle-IsOwned = ground arith

pub idle-IsAnnounced : IsAnnounced idle
idle-IsAnnounced = record { alternates = refl; lost = λ d o. refl }

pub documented :
    (lost : Bool) (n : ℕ) → IsDocumented codes (opcode_of codes lock) ((house lost).play n lock)
documented true n = record {
  apart = ground arith;
  handshake = (refl, (refl, tt));
  exchange = (refl, tt);
  queued_plain = refl;
  handshake_plain = refl;
  exchange_plain = refl;
}
documented false n = record {
  apart = ground arith;
  handshake = (refl, (refl, tt));
  exchange = (refl, (refl, tt));
  queued_plain = refl;
  handshake_plain = refl;
  exchange_plain = refl;
}
