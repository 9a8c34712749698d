-- ===== src/AccessRecords/State.antt =====
-- The state of the private records (access_records.py), the passes over an inventory, and what is outside.
use ha_ttlock_ble.Base.{
  ℕ, zero, suc, ◌+◌, ◌==◌, String, Bool, true, false, not, ◌&&◌, ◌||◌, Option, none, some, is_some,
  List, [], ◌∷◌, ◌++◌, if◌then◌else◌, str_eq,
}
use ha_ttlock_ble.Base.Texts.{has, add, get, put, pop, discard}

abbrev pub max_records : ℕ
max_records = 512

-- The methods that have a scope; the HTTP layer may pass any text.
pub data Method : Type 0 where
  keypad_pin fingerprint ic_card unsupported : Method

-- `PrivateRecord`
pub record PrivateRecord : Type 0 where
  pub base : String
  pub reference : String
  pub record_type : String
  pub validity : String
  pub alias : String
  pub active : Bool

pub record Scope : Type 0 where
  pub epoch : String
  pub records : List PrivateRecord

-- A record of the SDK's `AdministrativeInventory`, and the inventory.
pub record Item : Type 0 where
  pub method : Method
  pub record_type : String
  pub identifier : String
  pub validity : String

pub record Inventory : Type 0 where
  pub records : List Item
  pub records_complete : Bool

-- What is on disk.
pub record Saved : Type 0 where
  pub scopes : List (String × Scope)
  pub legacy_disabled : List String

-- The fields of `AccessRecordStore`; `drawn` counts the random texts, `now` is the clock, `steps` numbers
-- the awaits.
pub record Store : Type 0 where
  pub loaded : Bool
  pub scopes : List (String × Scope)
  pub legacy_disabled : List String
  pub fresh : List (String × ℕ)
  pub revision : List (String × ℕ)
  pub confirmed : List String
  pub observed : List (String × List String)
  pub saved : Option Saved
  pub drawn : ℕ
  pub now : ℕ
  pub steps : ℕ

-- What is outside: the random texts, the keyed hash of a record's identity, whether a save raises, the time
-- an await takes, and the scopes that other tasks mark stale meanwhile.
pub record World : Type 0 where
  pub token_hex : ℕ → String
  pub token :
      (lock : String)
      → Method
      → (epoch : String) → (record_type identifier : String) → Option String
  pub scope_name : String → Method → String
  pub save_raises : ℕ → Bool
  pub elapsed : ℕ → ℕ
  pub marks : ℕ → List String

abbrev pub is_pin : Method → Bool
is_pin keypad_pin = true
is_pin _ = false

abbrev pub same_method : Method → Method → Bool
same_method keypad_pin keypad_pin = true
same_method fingerprint fingerprint = true
same_method ic_card ic_card = true
same_method unsupported unsupported = true
same_method _ _ = false

abbrev pub or_zero : Option ℕ → ℕ
or_zero none = 0
or_zero (some n) = n

abbrev pub or_no_texts : Option (List String) → List String
or_no_texts none = []
or_no_texts (some l) = l

-- `mark_stale` on a scope's name
unfoldable pub mark_scope_stale : String → Store → Store
mark_scope_stale scope s = record s {
  fresh = pop scope s.fresh;
  observed = pop scope s.observed;
  revision = put scope (or_zero (get scope s.revision) + 1) s.revision;
}

unfoldable pub mark_all_stale : List String → Store → Store
mark_all_stale [] s = s
mark_all_stale (scope ∷ scopes) s = mark_all_stale scopes (mark_scope_stale scope s)

unfoldable pub is_current : String → Option ℕ → Store → Bool
is_current scope ticket s = elim ticket [
  | none ↦ not (is_some (get scope s.revision))
  | some n ↦ elim (get scope s.revision) [ none ↦ false | some m ↦ n == m ]
]

-- The dict `active`: the position of the last record of a base that is active, or of any for a PIN.
unfoldable pub last_position : Bool → String → ℕ → List PrivateRecord → Option ℕ
last_position pin base n [] = none
last_position pin base n (r ∷ rs) =
    let later = last_position pin base (suc n) rs in
    if is_some later
    then later
    else (if str_eq r.base base && (r.active || pin) then some n else none)

unfoldable pub observe_at : ℕ → String → List PrivateRecord → List PrivateRecord
observe_at n validity [] = []
observe_at zero validity (r ∷ rs) = record r { active = true; validity = validity } ∷ rs
observe_at (suc n) validity (r ∷ rs) = r ∷ observe_at n validity rs

abbrev pub reference_at : ℕ → List PrivateRecord → String
reference_at n [] = ""
reference_at zero (r ∷ rs) = r.reference
reference_at (suc n) (r ∷ rs) = reference_at n rs

-- The local variables of the loop over an inventory.
pub record Pass : Type 0 where
  pub records : List PrivateRecord
  pub seen : List String
  pub observed : List String
  pub drawn : ℕ

abbrev pub new_record : (reference base : String) → Item → PrivateRecord
new_record reference base item = record {
  base = base;
  reference = reference;
  record_type = item.record_type;
  validity = item.validity;
  alias = "";
  active = true;
}

unfoldable pub note_item : String → String → Item → Option ℕ → Pass → Pass
note_item reference base item none p = record {
  records = p.records ++ new_record reference base item ∷ [];
  seen = add base p.seen;
  observed = add reference p.observed;
  drawn = suc p.drawn;
}
note_item reference base item (some n) p = record {
  records = observe_at n item.validity p.records;
  seen = add base p.seen;
  observed = add (reference_at n p.records) p.observed;
  drawn = p.drawn;
}

-- A record that was not seen: it retires, unless it is a PIN.
unfoldable pub retire : Bool → List String → List PrivateRecord → List PrivateRecord
retire pin seen [] = []
retire pin seen (r ∷ rs) =
    let rest = retire pin seen rs in
    if has r.base seen then r ∷ rest else record r { active = r.active && pin } ∷ rest

unfoldable pub unconfirm : List String → List PrivateRecord → List String → List String
unconfirm seen [] confirmed = confirmed
unconfirm seen (r ∷ rs) confirmed =
    unconfirm seen rs (if has r.base seen then confirmed else discard r.reference confirmed)

abbrev pub any_foreign : Method → List Item → Bool
any_foreign m [] = false
any_foreign m (i ∷ is) = not (same_method i.method m) || any_foreign m is
