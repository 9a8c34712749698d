-- ===== src/Connection/Candidate.antt =====
-- Routes to the lock (connection.py): Home Assistant's history, its scanners, and one active scan.
use ha_ttlock_ble.Base.{
  ℕ, ◌-◌, ◌*◌, ◌/◌, String, Bool, true, false, not, ◌&&◌, ◌||◌, Option, none, some, List, [], ◌∷◌,
  ltb, ◌==◌, min, max, if◌then◌else◌,
}
use ha_ttlock_ble.Base.Int.{ℤ, ltb_ℤ}
use ha_ttlock_ble.Base.Errors.{discovery_timeout, timeout, cancelled}
use ha_ttlock_ble.Base.Exec.{Exec, pure, raise, gets, modify, ◌>>=◌, ◌>>◌}
use ha_ttlock_ble.Connection.State.{
  Conn, Env, Candidate, ServiceInfo, ScannerDevice, ScanEnd, scan_heard, scan_raised,
  aggregate_history, scanner_path, fresh_advertisement, suspend,
}

abbrev pub scan_timeout : ℕ
scan_timeout = 25000

-- max(0.0, deadline - monotonic())
unfoldable pub remaining_acquisition_time : ℕ → Conn → ℕ
remaining_acquisition_time deadline c = deadline - c.now

-- the whole seconds of the scan's share
unfoldable pub scan_seconds : ℕ → Conn → ℕ
unfolding remaining_acquisition_time
scan_seconds deadline c = min scan_timeout (remaining_acquisition_time deadline c) / 1000

abbrev twice_or_zero : Option ℕ → ℕ
twice_or_zero none = 0
twice_or_zero (some i) = i * 2

-- a later path wins only with a stronger signal, as in Python's `max`
unfoldable pub strongest : ScannerDevice → List ScannerDevice → ScannerDevice
strongest best [] = best
strongest best (d ∷ ds) = strongest (if ltb_ℤ best.rssi d.rssi then d else best) ds

abbrev source_of : Option ServiceInfo → String
source_of none = "unknown"
source_of (some i) = i.source

abbrev rssi_of : Option ServiceInfo → Option ℤ
rssi_of none = none
rssi_of (some i) = some i.rssi

abbrev time_of : Option ServiceInfo → Option ℕ
time_of none = none
time_of (some i) = some i.time

unfoldable pub scanner_candidate : List ScannerDevice → Option Candidate
unfolding strongest
scanner_candidate [] = none
scanner_candidate (d ∷ ds) =
    let best = strongest d ds in
    some (record {
      device = best.ble_device;
      resolution = scanner_path;
      source = best.source;
      rssi = some best.rssi;
      advertisement_time = none;
    })

-- the history's device, or else the scanners' best path
unfoldable pub device_candidate :
    Option ℕ → Option ServiceInfo → List ScannerDevice → Option Candidate
unfolding scanner_candidate
device_candidate (some device) info paths = some (record {
  device = device;
  resolution = aggregate_history;
  source = source_of info;
  rssi = rssi_of info;
  advertisement_time = time_of info;
})
device_candidate none info paths = scanner_candidate paths

abbrev fresh_candidate : ServiceInfo → Candidate
fresh_candidate i = record {
  device = i.device;
  resolution = fresh_advertisement;
  source = i.source;
  rssi = some i.rssi;
  advertisement_time = some i.time;
}

abbrev pub last? : List Candidate → Option Candidate
last? [] = none
last? (c ∷ []) = some c
last? (c ∷ d ∷ cs) = last? (d ∷ cs)

abbrev pub stale : ℕ → Option ℕ → Option ℕ → Bool
stale now (some heard) (some interval) = ltb (max scan_timeout (interval * 2)) (now - heard)
stale now (some heard) none = false
stale now none interval = false

-- the callback `_candidate_available` over what was heard during the scan
unfoldable pub available : ℕ → ℕ → List ServiceInfo → List Candidate
available now max_age [] = []
available now max_age (i ∷ is) =
    let rest = available now max_age is in
    if ltb max_age (now - i.time) then rest else fresh_candidate i ∷ rest

unfoldable pub scan_ended : ScanEnd → List Candidate → Exec Conn (Option Candidate)
scan_ended scan_heard resolved = pure (last? resolved)
scan_ended (scan_raised cancelled) resolved = raise cancelled
scan_ended (scan_raised timeout) resolved = do
  modify (λ (c : Conn). record c { acquisition_failure = discovery_timeout })
  pure none
scan_ended (scan_raised e) resolved = pure none

module _ (env : Env) where
  unfoldable pub resolve_connection_candidate : Bool → Conn → Option Candidate
  unfolding device_candidate
  resolve_connection_candidate include_scanner_paths c =
      device_candidate (env.ble_device c.steps) (env.last_service_info c.steps true)
        (if include_scanner_paths then env.scanner_devices c.steps else [])

  unfoldable pub candidate_is_stale : Candidate → Conn → Bool
  candidate_is_stale k c = stale c.now k.advertisement_time (env.learned_interval c.steps)

  unfoldable pub active_history_freshness : Conn → ℕ
  active_history_freshness c = max scan_timeout (twice_or_zero (env.learned_interval c.steps))

  -- The scan and the wait for the closing event, whichever is first.
  unfoldable pub scan : ℕ → ℕ → Exec Conn (Option Candidate)
  scan seconds max_age = do
    suspend env
    c ← gets (λ (c : Conn). c)
    let call = env.advertisements c.steps seconds
    if env.caller_cancelled c.steps
        then raise cancelled
        else (if c.closing || c.closing_event
            then pure none
            else scan_ended call.ends (available c.now max_age call.heard))

  unfoldable pub wait_for_connectable_device : ℕ → Exec Conn (Option Candidate)
  wait_for_connectable_device deadline = do
    c ← gets (λ (c : Conn). c)
    if scan_seconds deadline c == 0
        then pure none
        else scan (scan_seconds deadline c) (active_history_freshness c)

  abbrev pub needs_scan : Bool → Option Candidate → Conn → Bool
  needs_scan active_scan none c = active_scan
  needs_scan active_scan (some k) c = active_scan && candidate_is_stale k c

  -- the candidate, and whether the one active acquisition was used for it
  unfoldable pub resolve_initial_candidate : Bool → ℕ → Exec Conn (Option Candidate × Bool)
  resolve_initial_candidate active_scan deadline = do
    c ← gets (λ (c : Conn). c)
    let candidate = resolve_connection_candidate active_scan c
    if not (needs_scan active_scan candidate c)
        then pure (candidate, false)
        else (do fresh ← wait_for_connectable_device deadline; pure (fresh, true))
