-- ===== src/Coordinator/State.antt =====
-- The state of coordinator.py, the observations, and what changes it at once.
use ha_ttlock_ble.Base.{
  ℕ, suc, ◌+◌, ◌==◌, String, Bool, true, false, not, ◌&&◌, ◌||◌, Option, none, some, is_some, List,
  [], ◌∷◌, if◌then◌else◌, bool_eq,
}
use ha_ttlock_ble.Base.Int.{ℤ}
use ha_ttlock_ble.Base.Texts.{has, add, get, put}

-- The `source` texts of an observation.
pub data Source : Type 0 where
  from_command from_query query_after_push : Source

-- `StateAttribution`
pub record Attribution : Type 0 where
  pub source : Source
  pub observed_at : ℕ
  pub rssi : Option ℤ
  pub revision : ℕ

-- `TtlockBleLockState`
pub record Snapshot : Type 0 where
  pub locked : Option Bool
  pub battery_level : Option ℕ

-- `_StateObservation`
pub record Observation : Type 0 where
  pub state : Snapshot
  pub attribution : Attribution

-- What `asyncio.gather` collects for one lock.
pub data PollResult : Type 0 where
  poll_raised : PollResult
  no_answer : PollResult
  observed : Observation → PollResult

-- The fields of the SDK's `LockAdvertisement` that are read.
pub record Advertisement : Type 0 where
  pub lock_state : Bool
  pub has_new_records : Bool
  pub battery : ℕ

-- The fields of `TtlockBleDataUpdateCoordinator`.
pub record Coordinator : Type 0 where
  pub macs : List String
  pub states : List (String × Snapshot)
  pub attributions : List (String × Attribution)
  pub revisions : List (String × ℕ)
  pub hints : List (String × Bool)
  pub new_records : List (String × Bool)
  pub requested : List String
  pub log_tasks : List String
  pub retry_tasks : List String
  pub refreshes : ℕ
  pub notified : ℕ

abbrev pub or_zero : Option ℕ → ℕ
or_zero none = 0
or_zero (some n) = n

abbrev pub locked_of : Option Snapshot → Option Bool
locked_of none = none
locked_of (some s) = s.locked

abbrev pub battery_of : Option Snapshot → Option ℕ
battery_of none = none
battery_of (some s) = s.battery_level

-- `x if x is not None else y`
abbrev pub or_else {ℓ} : {A : Type ℓ} → Option A → Option A → Option A
or_else none y = y
or_else (some x) y = some x

unfoldable pub has_state : String → Coordinator → Bool
has_state mac c = is_some (locked_of (get mac c.states))

unfoldable pub parse_lock_state : Option ℕ → Option Bool
parse_lock_state none = none
parse_lock_state (some raw) =
    if raw == 0 then some true else (if raw == 1 then some false else none)

unfoldable pub request_active_state_refresh : String → Coordinator → Coordinator
request_active_state_refresh mac c =
    if has mac c.macs then record c { requested = add mac c.requested } else c

unfoldable pub next_revision : String → Coordinator → ℕ
next_revision mac c = or_zero (get mac c.revisions) + 1

-- `_next_attribution`: the attribution, and the coordinator that counted it
unfoldable pub next_attribution :
    String → Source → Option ℤ → ℕ → Coordinator → Attribution × Coordinator
unfolding next_revision
next_attribution mac source rssi now c = (
  record { source = source; observed_at = now; rssi = rssi; revision = next_revision mac c },
  record c { revisions = put mac (next_revision mac c) c.revisions },
)

unfoldable pub apply_authoritative_state :
    String → Bool → Option ℕ → Source → Option ℤ → ℕ → Coordinator → Coordinator
unfolding next_attribution
apply_authoritative_state mac locked battery source rssi now c =
    let (attribution, d) = next_attribution mac source rssi now c in
    record d {
      attributions = put mac attribution d.attributions;
      states =
          put mac
            (record {
              locked = some locked;
              battery_level = or_else battery (battery_of (get mac c.states));
            })
            d.states;
      notified = suc d.notified;
    }

abbrev pub hint_changed : Option Bool → Bool → Bool
hint_changed none new = false
hint_changed (some old) new = not (bool_eq old new)

abbrev pub is_true : Option Bool → Bool
is_true none = false
is_true (some b) = b

unfoldable pub note_advertisement : String → Advertisement → Coordinator → Coordinator
note_advertisement mac a c = record c {
  hints = put mac a.lock_state c.hints;
  new_records = put mac a.has_new_records c.new_records;
  states =
      put mac (record { locked = locked_of (get mac c.states); battery_level = some a.battery })
        c.states;
  notified = suc c.notified;
}

-- an advertisement is a hint: what it says of the bolt is compared with the last hint only
unfoldable pub apply_advertisement : String → Advertisement → Coordinator → Coordinator
unfolding note_advertisement request_active_state_refresh
apply_advertisement mac a c =
    let noted = note_advertisement mac a c in
    if hint_changed (get mac c.hints) a.lock_state
      || a.has_new_records && not (is_true (get mac c.new_records))
    then (let d = request_active_state_refresh mac noted in
        record d { refreshes = suc d.refreshes })
    else noted

-- Which locks a poll asks, and for which of them it may scan.
unfoldable pub poll_flags : List String → Coordinator → List (String × Bool)
unfolding has_state
poll_flags [] c = []
poll_flags (mac ∷ macs) c = (mac, has mac c.requested || not (has_state mac c)) ∷ poll_flags macs c

-- `_async_update_data` up to its `gather`
unfoldable pub begin_update : Coordinator → List (String × Bool) × Coordinator
unfolding poll_flags
begin_update c = (poll_flags c.macs c, record c { requested = [] })

-- `_async_poll`, when its query has ended: the answer is ordered at once
unfoldable pub poll_answered :
    String → Option (Option ℕ × Option ℕ) → Option ℤ → ℕ → Coordinator → PollResult × Coordinator
unfolding next_attribution parse_lock_state
poll_answered mac none rssi now c = (no_answer, c)
poll_answered mac (some (raw, battery)) rssi now c =
    let (attribution, d) = next_attribution mac from_query rssi now c in
    (
      observed (record {
        state = record { locked = parse_lock_state raw; battery_level = battery };
        attribution = attribution;
      }),
      d,
    )
