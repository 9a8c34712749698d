-- ===== src/AccessRecords/Names.antt =====
-- The display names that access_records.py accepts, and `str.strip` of the language.
use Prim.Native.Char.{Char, code}
use Prim.Native.String.{String, [], ◌∷◌, count}
use mathlib.Core.Bool.{Bool, false, ◌||◌, ◌&&◌}
use ha_ttlock_ble.Base.{ltb, leb, ◌==◌, ℕ, if◌then◌else◌}

abbrev pub max_name : ℕ
max_name = 64

abbrev pub space_ordinal : ℕ
space_ordinal = 32

-- any(ord(c) < SPACE_ORDINAL for c in name)
unfoldable pub any_control : String → Bool
any_control [] = false
any_control (c ∷ s) = ltb (code c) space_ordinal || any_control s

-- The code points that `str.strip` removes.
unfoldable pub is_space : ℕ → Bool
is_space n =
    (leb 9 n && leb n 13)
    || (leb 28 n && leb n 32)
    || n == 133
    || n == 160
    || n == 5760
    || (leb 8192 n && leb n 8202)
    || n == 8232
    || n == 8233
    || n == 8239
    || n == 8287
    || n == 12288

unfoldable pub strip_left : String → String
strip_left [] = []
strip_left (c ∷ s) = let rest = strip_left s in if is_space (code c) then rest else c ∷ s

abbrev pub or_empty : Char → String → String
or_empty c [] = if is_space (code c) then [] else c ∷ []
or_empty c (d ∷ s) = c ∷ d ∷ s

unfoldable pub strip_right : String → String
strip_right [] = []
strip_right (c ∷ s) = or_empty c (strip_right s)

unfoldable pub strip : String → String
strip s = strip_right (strip_left s)

-- the guard of `async_name`
unfoldable pub is_bad_name : String → Bool
is_bad_name name = ltb max_name (count name) || any_control name
