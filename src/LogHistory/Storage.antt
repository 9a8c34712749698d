-- ===== src/LogHistory/Storage.antt =====
-- Loading and saving the journal (`async_load`, `async_save` and `_serialize` of log_history.py). The
-- stored JSON is the data type `Stored`: what is no text, no list or no dict has a constructor.
use ha_ttlock_ble.Base.{
  ℕ, ◌-◌, ◌≤◌, String, Bool, true, ◌≡◌, refl, ap, sym, ◌∙◌, List, [], ◌∷◌, Option, none, some,
  length, length-drop, drop, map, if◌then◌else◌, arith, eq_iff, str_eq, is_none, ◌||◌, Bool-cases,
  inl, inr,
}
use ha_ttlock_ble.Base.Texts.{has, get, put, get-put, has-add}
use ha_ttlock_ble.LogHistory.Journal.{IsJournal, classify_all-IsJournal}
use ha_ttlock_ble.LogHistory.{
  LogEntry, SafeParts, History, classify, classify_all, max_identities, get_or_empty, set_of,
  start_pass,
}

pub data Json : Type 0 where
  text : String → Json
  not_text : Json

pub data Identities : Type 0 where
  items : List Json → Identities
  not_list : Identities

pub data Stored : Type 0 where
  locks : List (Json × Identities) → Stored
  not_dict : Stored

-- [item for item in identities if isinstance(item, str)]
unfoldable pub texts : List Json → List String
texts [] = []
texts (text s ∷ xs) = s ∷ texts xs
texts (not_text ∷ xs) = texts xs

-- xs[-n:]
abbrev pub last : ℕ → List String → List String
last n xs = drop (length xs - n) xs

unfoldable pub load_lock : Json × Identities → History → History
load_lock (text mac, items xs) h =
    let safe = last max_identities (texts xs) in
    record h { recent = put mac safe h.recent; recent_sets = put mac (set_of safe) h.recent_sets }
load_lock (not_text, i) h = h
load_lock (text mac, not_list) h = h

unfoldable pub load_locks : List (Json × Identities) → History → History
load_locks [] h = h
load_locks (l ∷ ls) h = load_locks ls (load_lock l h)

unfoldable pub load_found : Option Stored → History → History
load_found none h = h
load_found (some not_dict) h = h
load_found (some (locks ls)) h = load_locks ls h

unfoldable pub async_load : Option Stored → History → History
unfolding load_found
async_load found h = if h.stored then load_found found h else h

unfoldable pub serialize_locks : List (String × List String) → List (Json × Identities)
serialize_locks [] = []
serialize_locks ((mac, entries) ∷ d) = (text mac, items (map text entries)) ∷ serialize_locks d

unfoldable pub serialize : History → Stored
serialize h = locks (serialize_locks h.recent)

-- What a flush writes, if anything.
unfoldable pub async_save : History → Option Stored
async_save h = if h.stored then some (serialize h) else none

-- the journals of a dict, each within its limit, and no lock twice
abbrev pub Bounded : List (String × List String) → Type 0
Bounded [] = Unit
Bounded ((mac, entries) ∷ d) =
    (length entries ≤ max_identities) × (is_none (get mac d) ≡ true) × Bounded d

Bounded-put :
    (k : String) (v : List String) (d : List (String × List String))
    → length v ≤ max_identities
    → Bounded d
    → Bounded (put k v d)
unfolding put get
Bounded-put k v [] h b = (h, refl, tt)
Bounded-put k v ((j, w) ∷ d) h b = elim (Bool-cases (str_eq j k)) [
  | inl same ↦
      rw same (h, ap (λ (x : String). is_none (get x d)) (sym ((eq_iff j k).0 same)) ∙ b.1, b.2)
  | inr other ↦
      rw other
        (b.0, ground (arith, get-put k j v d, eq_iff k j, eq_iff j k), Bounded-put k v d h b.2)
]

-- With a bounded history and a journal in order, every journal that is saved after a call of classify is
-- within its limit, and no lock is saved twice.
pub classify-Bounded :
    (digest : SafeParts → String) (h : History) (mac : String) (entries : List LogEntry)
    → IsJournal (start_pass h mac).recent (start_pass h mac).recent_set
    → Bounded h.recent
    → Bounded (classify digest h mac entries).0.recent
unfolding classify
classify-Bounded digest h mac entries j b =
    Bounded-put mac (classify_all digest h.startup_cutoff entries (start_pass h mac)).recent
      h.recent (classify_all-IsJournal digest h.startup_cutoff entries (start_pass h mac) j).bounded
      b

texts-map : (xs : List String) → texts (map text xs) ≡ xs
unfolding texts
texts-map [] = refl
texts-map (x ∷ xs) = ap (λ (l : List String). x ∷ l) (texts-map xs)

last_all : (xs : List String) → length xs ≤ max_identities → last max_identities xs ≡ xs
last_all xs h = let e : length xs - max_identities ≡ 0 = omega arith in rw e

abbrev or_else : Option (List String) → Option (List String) → Option (List String)
or_else none o = o
or_else (some x) o = some x

get-same :
    (k j : String) (d : List (String × List String)) → (str_eq k j) ≡ true → get k d ≡ get j d
get-same k j d h = ap (λ (x : String). get x d) ((eq_iff k j).0 h)

get-load_locks :
    (mac : String) (d : List (String × List String)) (h : History)
    → Bounded d
    → get mac (load_locks (serialize_locks d) h).recent ≡ or_else (get mac d) (get mac h.recent)
unfolding load_locks load_lock serialize_locks get
get-load_locks mac [] h b = refl
get-load_locks mac ((k, v) ∷ d) h b =
    get-load_locks mac d (load_lock (text k, items (map text v)) h) b.2
    ∙ rw (texts-map v, last_all v b.0)
        (ground (
          arith,
          get-put k mac v h.recent,
          eq_iff k mac,
          ap (λ (o : Option (List String)). is_none o) (get-put k mac v h.recent),
          get-same k mac d,
        ))

has-set_of : (x : String) (xs : List String) → has x (set_of xs) ≡ has x xs
unfolding has set_of
has-set_of x [] = refl
has-set_of x (y ∷ xs) =
    has-add x y (set_of xs) ∙ ap (λ (b : Bool). str_eq y x || b) (has-set_of x xs)

-- The set that `classify` starts from has the items of its deque.
abbrev Agrees : History → String → Type 0
Agrees h mac = (x : String) → has x (start_pass h mac).recent_set ≡ has x (start_pass h mac).recent

Agrees-load_lock :
    (l : Json × Identities) (h : History) (mac : String) → Agrees h mac → Agrees (load_lock l h) mac
unfolding load_lock start_pass
Agrees-load_lock (text k, items xs) h mac a x = simp get-put (elim (Bool-cases (str_eq k mac)) [
  | inl here ↦ rw here (has-set_of x (last max_identities (texts xs)))
  | inr away ↦ rw away (a x)
])
Agrees-load_lock (text k, not_list) h mac a x = a x
Agrees-load_lock (not_text, i) h mac a x = a x

Agrees-load_locks :
    (ls : List (Json × Identities)) (h : History) (mac : String)
    → Agrees h mac
    → Agrees (load_locks ls h) mac
unfolding load_locks
Agrees-load_locks [] h mac a = a
Agrees-load_locks (l ∷ ls) h mac a =
    Agrees-load_locks ls (load_lock l h) mac (Agrees-load_lock l h mac a)

-- A history before anything was loaded or classified.
abbrev pub init : ℕ → History
init now = record {
  startup_cutoff = now;
  recent = [];
  recent_sets = [];
  stored = true;
  saves_requested = 0;
}

Agrees-init : (now : ℕ) (mac : String) → Agrees (init now) mac
unfolding start_pass get set_of
Agrees-init now mac x = refl

or_else-none : (o : Option (List String)) → or_else o none ≡ o
or_else-none none = refl
or_else-none (some x) = refl

-- What a restart loads after a flush of a bounded, stored history: for every lock whose journal is in
-- order, the deque is the one that was saved, and the journal is in order again.
pub restart-IsJournal :
    (h : History) (now : ℕ) (mac : String)
    → Bounded h.recent
    → h.stored ≡ true
    → IsJournal (start_pass h mac).recent (start_pass h mac).recent_set
    → let loaded = async_load (async_save h) (init now) in
      ((start_pass loaded mac).recent ≡ (start_pass h mac).recent)
      × IsJournal (start_pass loaded mac).recent (start_pass loaded mac).recent_set
restart-IsJournal h now mac b s j = (
  same,
  record { bounded = rw same j.bounded; unrepeated = rw same j.unrepeated; agrees = agrees },
)
  where
    same :
        (start_pass (async_load (async_save h) (init now)) mac).recent ≡ (start_pass h mac).recent
    same =
        unfold async_load async_save serialize start_pass get in
        rw s (
          ap get_or_empty
            (get-load_locks mac h.recent (init now) b ∙ or_else-none (get mac h.recent)))

    agrees : Agrees (async_load (async_save h) (init now)) mac
    agrees =
        unfold async_load async_save serialize in
        rw s (Agrees-load_locks (serialize_locks h.recent) (init now) mac (Agrees-init now mac))

load_locks-bounded :
    (ls : List (Json × Identities)) (h : History) (mac : String)
    → length (get_or_empty (get mac h.recent)) ≤ max_identities
    → length (get_or_empty (get mac (load_locks ls h).recent)) ≤ max_identities
unfolding load_locks load_lock
load_locks-bounded [] h mac b = b
load_locks-bounded ((text k, items xs) ∷ ls) h mac b =
    load_locks-bounded ls (load_lock (text k, items xs) h) mac (
      ground (
        arith,
        get-put k mac (last max_identities (texts xs)) h.recent,
        length-drop (length (texts xs) - max_identities) (texts xs),
      ))
load_locks-bounded ((text k, not_list) ∷ ls) h mac b = load_locks-bounded ls h mac b
load_locks-bounded ((not_text, i) ∷ ls) h mac b = load_locks-bounded ls h mac b

-- Whatever is stored, malformed or too long, every loaded journal is within its limit and its set agrees
-- with its deque.
pub async_load-bounded :
    (found : Option Stored) (now : ℕ) (mac : String)
    → (length (start_pass (async_load found (init now)) mac).recent ≤ max_identities)
      × ((x : String)
          → has x (start_pass (async_load found (init now)) mac).recent_set
            ≡ has x (start_pass (async_load found (init now)) mac).recent)
unfolding async_load start_pass
async_load-bounded none now mac = unfold get in (omega arith, λ x. unfold set_of in refl)
async_load-bounded (some not_dict) now mac = unfold get in (omega arith, λ x. unfold set_of in refl)
async_load-bounded (some (locks ls)) now mac = (
  load_locks-bounded ls (init now) mac (unfold get in omega arith),
  Agrees-load_locks ls (init now) mac (Agrees-init now mac),
)
