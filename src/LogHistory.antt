-- ===== src/LogHistory.antt =====
-- custom_components/ttlock_ble/log_history.py: the journal of operation records that keeps a lock's
-- history from being replayed. The clock is read once, for the cutoff; dates are numbers.
-- `sha256(repr(...))` of Python's library is the parameter `digest`.
pub mod Journal
pub mod Replay
pub mod Storage
use ha_ttlock_ble.Base.{
  ℕ, suc, String, Bool, true, false, Option, none, some, List, [], ◌∷◌, ◌++◌, length, ltb, leb,
  ◌==◌, ◌||◌, if◌then◌else◌, drop, ◌-◌,
}
use ha_ttlock_ble.Base.Texts.{has, add, discard, get, put}

abbrev pub max_identities : ℕ
max_identities = 512

-- The fields of the SDK's `LogEntry` that the integration reads.
pub record LogEntry : Type 0 where
  pub record_number : ℕ
  pub record_type : ℕ
  pub operate_date : Option ℕ
  pub uid : Option ℕ
  pub record_id : Option ℕ
  pub key_id : Option ℕ
  pub lock_battery : ℕ
  pub accessory_battery : Option ℕ

pub record SafeParts : Type 0 where
  pub record_number : ℕ
  pub record_type : ℕ
  pub operate_date : Option ℕ
  pub uid : Option ℕ
  pub record_id : Option ℕ
  pub key_id : Option ℕ

abbrev pub safe_parts : LogEntry → SafeParts
safe_parts e = record {
  record_number = e.record_number;
  record_type = e.record_type;
  operate_date = e.operate_date;
  uid = e.uid;
  record_id = e.record_id;
  key_id = e.key_id;
}

pub record History : Type 0 where
  pub startup_cutoff : ℕ
  pub recent : List (String × List String)
  pub recent_sets : List (String × List String)
  pub stored : Bool
  pub saves_requested : ℕ

-- The local variables of the loop of `classify`.
pub record Pass : Type 0 where
  pub recent : List String
  pub recent_set : List String
  pub live : List LogEntry
  pub changed : Bool
  pub suppressed_history : ℕ
  pub suppressed_duplicate : ℕ

-- `deque.append` at `maxlen` drops the oldest item.
unfoldable pub push : List String → String → List String
push [] x = x ∷ []
push (y ∷ ys) x = if leb max_identities (length (y ∷ ys)) then ys ++ x ∷ [] else (y ∷ ys) ++ x ∷ []

-- recent[0] leaves the set when the deque is full
unfoldable pub evict : List String → List String → List String
evict [] s = s
evict (y ∷ ys) s = if length (y ∷ ys) == max_identities then discard y s else s

unfoldable pub is_live : ℕ → Option ℕ → Bool
is_live cutoff none = false
is_live cutoff (some date) = ltb cutoff date

module _ (digest : SafeParts → String) where
  unfoldable pub record_identity : LogEntry → String
  record_identity e = digest (safe_parts e)

  unfoldable pub journal_entry : ℕ → LogEntry → Pass → Pass
  journal_entry cutoff e p =
      let seen = record p {
        recent = push p.recent (record_identity e);
        recent_set = add (record_identity e) (evict p.recent p.recent_set);
        changed = true;
      } in
      if is_live cutoff e.operate_date
      then record seen { live = p.live ++ e ∷ [] }
      else record seen { suppressed_history = suc p.suppressed_history }

  unfoldable pub classify_entry : ℕ → LogEntry → Pass → Pass
  classify_entry cutoff e p =
      if has (record_identity e) p.recent_set
      then record p { suppressed_duplicate = suc p.suppressed_duplicate }
      else journal_entry cutoff e p

  unfoldable pub classify_all : ℕ → List LogEntry → Pass → Pass
  classify_all cutoff [] p = p
  classify_all cutoff (e ∷ es) p = classify_all cutoff es (classify_entry cutoff e p)

abbrev pub get_or_empty : Option (List String) → List String
get_or_empty none = []
get_or_empty (some xs) = xs

-- set(recent)
unfoldable pub set_of : List String → List String
set_of [] = []
set_of (x ∷ xs) = add x (set_of xs)

abbrev pub get_or_set : Option (List String) → List String → List String
get_or_set none recent = set_of recent
get_or_set (some s) recent = s

-- The two `setdefault` calls.
unfoldable pub start_pass : History → String → Pass
start_pass h mac =
    let recent = get_or_empty (get mac h.recent) in
    record {
      recent = recent;
      recent_set = get_or_set (get mac h.recent_sets) recent;
      live = [];
      changed = false;
      suppressed_history = 0;
      suppressed_duplicate = 0;
    }

unfoldable pub classify :
    (SafeParts → String) → History → String → List LogEntry → History × List LogEntry
classify digest h mac entries =
    let p = classify_all digest h.startup_cutoff entries (start_pass h mac) in
    let saves =
      (if p.changed
        then (if h.stored then suc h.saves_requested else h.saves_requested)
        else h.saves_requested) in
    (
      record h {
        recent = put mac p.recent h.recent;
        recent_sets = put mac p.recent_set h.recent_sets;
        saves_requested = saves;
      },
      p.live,
    )
