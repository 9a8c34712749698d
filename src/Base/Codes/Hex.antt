-- ===== src/Base/Codes/Hex.antt =====
-- `bytes.hex` and `bytes.fromhex`: what was printed is read back.
use Prim.Native.Nat.{ℕ, suc, ◌+◌, ◌*◌, ◌/◌, ◌%◌, ◌<◌, ◌≤◌}
use mathlib.Core.Path.{◌≡◌, refl, subst}
use mathlib.Core.Logic.{inl, inr}
use mathlib.Core.Bool.{Bool, true, false, ◌&&◌, ◌||◌}
use mathlib.Core.Option.{Option, none, some}
use mathlib.Core.List.{List, [], ◌∷◌}
use native.Mathlib.Omega.{arith}
use ha_ttlock_ble.Base.Tests.{Bool-cases, leb}
use ha_ttlock_ble.Base.Lists.{All, length}
use ha_ttlock_ble.Base.Codes.{
  Text, is_ascii_space, nibble, byte_before, from_hex, hex_digit, hex, all_of, is_space,
}

nibble-hex_digit : (n : ℕ) → n < 16 → nibble (hex_digit n) ≡ some n
unfolding nibble
nibble-hex_digit n h = ground arith

hex_digit-not_space : (n : ℕ) → n < 16 → is_ascii_space (hex_digit n) ≡ false
hex_digit-not_space n h = ground arith

abbrev pub IsByte : ℕ → Type 0
IsByte b = b < 256

pub from_hex_byte :
    (b : ℕ) (s : Text) {bs : List ℕ}
    → IsByte b
    → from_hex s ≡ some bs
    → from_hex (hex_digit (b / 16) ∷ hex_digit (b % 16) ∷ s) ≡ some (b ∷ bs)
unfolding from_hex
from_hex_byte b s {bs} h e =
    let n : 16 * (b / 16) + b % 16 ≡ b = omega arith in
    rw (hex_digit-not_space (b / 16) (omega arith)) (
      rw (nibble-hex_digit (b / 16) (omega arith), nibble-hex_digit (b % 16) (omega arith), e)
        (rw n refl))

pub from_hex_tab : (s : Text) → from_hex (9 ∷ s) ≡ from_hex s
unfolding from_hex
from_hex_tab [] = refl
from_hex_tab (c ∷ s) = refl

pub from_hex-hex : (bs : List ℕ) → All IsByte bs → from_hex (hex bs) ≡ some bs
unfolding hex
from_hex-hex [] h = unfold from_hex in refl
from_hex-hex (b ∷ bs) h = from_hex_byte b (hex bs) h.0 (from_hex-hex bs h.1)

pub length-hex : (bs : List ℕ) → length (hex bs) ≡ 2 * length bs
unfolding hex
length-hex [] = refl
length-hex (b ∷ bs) = omega (arith, length-hex bs)

-- a lower-case hexadecimal digit
abbrev pub is_hex : ℕ → Bool
is_hex c = (leb 48 c && leb c 57) || (leb 97 c && leb c 102)

pub hex_digit-is_hex : (n : ℕ) → n < 16 → is_hex (hex_digit n) ≡ true
hex_digit-is_hex n h = ground arith

pub hex-is_hex : (bs : List ℕ) → All IsByte bs → all_of is_hex (hex bs) ≡ true
unfolding hex all_of
hex-is_hex [] h = refl
hex-is_hex (b ∷ bs) h = ground (arith, hex-is_hex bs, h.0)

pub is_hex-no_space : (c : ℕ) → is_hex c ≡ true → is_space c ≡ false
unfolding is_space
is_hex-no_space c h = ground arith

pub nibble-lt : (c n : ℕ) → nibble c ≡ some n → n < 16
unfolding nibble
nibble-lt c n h = ground arith

byte_before-some :
    (x y : Option ℕ) (z : Option (List ℕ)) {bs : List ℕ}
    → byte_before x y z ≡ some bs
    → (a : ℕ) × (b : ℕ) × (cs : List ℕ) × (x ≡ some a)
      × (y ≡ some b)
      × (z ≡ some cs)
      × (((16 * a + b) ∷ cs) ≡ bs)
byte_before-some none y z h = cc
byte_before-some (some a) none z h = cc
byte_before-some (some a) (some b) none h = cc
byte_before-some (some a) (some b) (some cs) h = (a, b, cs, refl, refl, refl, cc)

-- What is read are bytes, two digits for each.
pub from_hex-IsByte :
    (s : Text) {bs : List ℕ} → from_hex s ≡ some bs → All IsByte bs × (2 * length bs ≤ length s)
unfolding from_hex
from_hex-IsByte [] h = ground arith
from_hex-IsByte (c ∷ []) h = ground arith
from_hex-IsByte (c ∷ d ∷ s) {bs} h = elim (Bool-cases (is_ascii_space c)) [
  | inl space ↦
      let e : from_hex (d ∷ s) ≡ some bs = rw space at h in
      let ih = from_hex-IsByte (d ∷ s) e in (ih.0, omega (arith, ih.1))
  | inr other ↦
      let e : byte_before (nibble c) (nibble d) (from_hex s) ≡ some bs = rw other at h in
      let (a, b, cs, ea, eb, ec, eq) = byte_before-some (nibble c) (nibble d) (from_hex s) e in
      let ih = from_hex-IsByte s ec in
      subst (λ bs. All IsByte bs × (2 * length bs ≤ suc (suc (length s)))) eq
        ((omega (arith, nibble-lt c a ea, nibble-lt d b eb), ih.0), omega (arith, ih.1))
]
