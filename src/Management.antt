-- ===== src/Management.antt =====
-- custom_components/ttlock_ble/management_http.py: the administrator's HTTP view. The state is the private
-- record store of the entry that a request names. What aiohttp, yarl, json and Home Assistant answer are
-- parameters; the exchange with the lock is an await, at which other tasks may mark scopes stale.
pub mod Body
pub mod View
pub mod Earned
use ha_ttlock_ble.Base.{
  ℕ, zero, suc, ◌+◌, ◌-◌, ◌==◌, String, Bool, true, false, not, ◌&&◌, ◌||◌, Option, none, some,
  is_some, List, [], ◌∷◌, ◌++◌, length, ltb, leb, if◌then◌else◌, str_eq,
}
use Prim.Native.Char.{code}
use Prim.Native.String as Chars
use ha_ttlock_ble.Base.Texts.{has}
use text.Mathlib.Text.{starts_with}
use ha_ttlock_ble.AccessRecords.State.{Method, keypad_pin, fingerprint, ic_card, unsupported}

-- A JSON value, as far as the schemas tell values apart.
pub data Value : Type 0 where
  words : String → Value
  flag : Bool → Value
  another : Value

pub data Action : Type 0 where
  list_locks state read name reset legacy : Action

-- A request's data once its schema accepted it.
pub record Data : Type 0 where
  pub action : Action
  pub entry_id : String
  pub lock : String
  pub method : Method
  pub reference : String
  pub label : String
  pub disabled : Bool

-- yarl's URL; `is_origin` is the test `origin == origin.origin()`
pub record Url : Type 0 where
  pub scheme : String
  pub raw_host : String
  pub port : ℕ
  pub is_origin : Bool

pub record User : Type 0 where
  pub id : String
  pub is_active : Bool
  pub is_admin : Bool
  pub system_generated : Bool

pub record Token : Type 0 where
  pub user_id : String
  pub is_normal : Bool

-- The parts of a request that are read; `content n k` is the n-th read of at most k bytes.
pub record Request : Type 0 where
  pub user : Option User
  pub token : Option Token
  pub authorization : String
  pub has_query : Bool
  pub origin : Option Url
  pub url : Url
  pub admin_header : Option String
  pub fetch_site : Option String
  pub content_type : String
  pub content_length : Option ℕ
  pub content : ℕ → ℕ → List ℕ

abbrev pub body_limit : ℕ
body_limit = 4096

abbrev pub same_url : Option Url → Url → Bool
same_url none expected = false
same_url (some o) expected =
    o.is_origin
    && (str_eq o.scheme expected.scheme
        && str_eq o.raw_host expected.raw_host
        && o.port == expected.port)

-- `_same_origin`; none stands for the ValueError of yarl
unfoldable pub same_origin : Request → Bool
same_origin r = same_url r.origin r.url

abbrev pub is_owner : Option User → Option Token → Bool
is_owner (some u) (some t) =
    u.is_active && u.is_admin && not u.system_generated && str_eq t.user_id u.id && t.is_normal
is_owner _ _ = false

abbrev pub text_or : String → Option String → String
text_or d none = d
text_or d (some t) = t

-- `_authorized`
unfoldable pub authorized : Request → Bool
unfolding same_origin
authorized r =
    is_owner r.user r.token
    && starts_with r.authorization "Bearer "
    && not r.has_query
    && same_origin r
    && str_eq (text_or "" r.admin_header) "1"
    && str_eq (text_or "same-origin" r.fetch_site) "same-origin"

-- The fields of the JSON object.
unfoldable pub field : String → List (String × Value) → Option Value
field k [] = none
field k ((j, v) ∷ fs) = if str_eq j k then some v else field k fs

unfoldable pub all_known : List String → List (String × Value) → Bool
all_known names [] = true
all_known names ((k, v) ∷ fs) = has k names && all_known names fs

abbrev pub text_of : Option Value → Option String
text_of (some (words t)) = some t
text_of _ = none

-- `_ID`
abbrev pub is_id : String → Bool
is_id t = leb 1 (Chars.count t) && leb (Chars.count t) 128

abbrev pub id_of : Option String → Option String
id_of none = none
id_of (some t) = if is_id t then some t else none

-- `_METHOD`
abbrev pub method_of : Option String → Option Method
method_of none = none
method_of (some t) =
    if str_eq t "keypad_pin"
    then some keypad_pin
    else (if str_eq t "fingerprint"
        then some fingerprint
        else (if str_eq t "ic_card" then some ic_card else none))

-- ^[0-9a-f]{32}$, which also lets one line feed follow
unfoldable pub is_reference : ℕ → String → Bool
is_reference zero Chars.[] = true
is_reference zero (Chars.◌∷◌ c s) = code c == 10 && Chars.count s == 0
is_reference (suc n) Chars.[] = false
is_reference (suc n) (Chars.◌∷◌ c s) =
    ((leb 48 (code c) && leb (code c) 57) || (leb 97 (code c) && leb (code c) 102))
    && is_reference n s

abbrev pub reference_of : Option String → Option String
reference_of none = none
reference_of (some t) = if is_reference 32 t then some t else none

abbrev pub label_of : Option String → Option String
label_of none = none
label_of (some t) = if leb (Chars.count t) 64 then some t else none

abbrev pub flag_of : Option Value → Option Bool
flag_of (some (flag b)) = some b
flag_of _ = none

infixl 5 ◌>>=◌
abbrev pub ◌>>=◌ : {A B : Type 0} → Option A → (A → Option B) → Option B
none >>= f = none
some a >>= f = f a

abbrev pub ensure : Bool → Option (Unit {0})
ensure b = if b then some tt else none

abbrev pub base_data : Action → String → String → Method → Data
base_data a entry_id lock method = record {
  action = a;
  entry_id = entry_id;
  lock = lock;
  method = method;
  reference = "";
  label = "";
  disabled = false;
}

-- `_BASE` with the method, and the keys that the action adds
unfoldable pub based : List String → Action → List (String × Value) → Option Data
based extra a fs = do
  entry_id ← id_of (text_of (field "entry_id" fs))
  lock ← id_of (text_of (field "lock" fs))
  method ← method_of (text_of (field "method" fs))
  known ← ensure (all_known ("action" ∷ "entry_id" ∷ "lock" ∷ "method" ∷ extra) fs)
  some (base_data a entry_id lock method)

unfoldable pub named : List (String × Value) → Option Data
unfolding based
named fs = do
  d ← based ("reference" ∷ "name" ∷ []) name fs
  reference ← reference_of (text_of (field "reference" fs))
  label ← label_of (text_of (field "name" fs))
  some (record d { reference = reference; label = label })

unfoldable pub confirmed_reset : List (String × Value) → Option Data
unfolding based
confirmed_reset fs = do
  d ← based ("confirm" ∷ []) reset fs
  confirm ← text_of (field "confirm" fs)
  sure ← ensure (str_eq confirm "forget_local_labels")
  some d

unfoldable pub switched : List (String × Value) → Option Data
unfolding based
switched fs = do
  d ← based ("disabled" ∷ []) legacy fs
  disabled ← flag_of (field "disabled" fs)
  some (record d { disabled = disabled })

unfoldable pub listed : List (String × Value) → Option Data
listed fs = do
  known ← ensure (all_known ("action" ∷ []) fs)
  some (base_data list_locks "" "" keypad_pin)

abbrev pub of_action : Option String → List (String × Value) → Option Data
of_action none fs = none
of_action (some a) fs =
    if str_eq a "list"
    then listed fs
    else (if str_eq a "state"
        then based [] state fs
        else (if str_eq a "read"
            then based [] read fs
            else (if str_eq a "name"
                then named fs
                else (if str_eq a "reset"
                    then confirmed_reset fs
                    else (if str_eq a "legacy" then switched fs else none)))))

-- `_SCHEMAS`, by the action of the object; none is refused
unfoldable pub validated : Option (List (String × Value)) → Option Data
validated none = none
validated (some fs) = of_action (text_of (field "action" fs)) fs
