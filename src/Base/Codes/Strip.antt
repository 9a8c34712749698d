-- ===== src/Base/Codes/Strip.antt =====
-- `str.strip` on lists of code points: what it leaves is stripped.
use ha_ttlock_ble.Base.Tests.{Bool-cases}
use Prim.Native.Nat.{ℕ}
use mathlib.Core.Path.{◌≡◌, refl, ◌∙◌, ap}
use mathlib.Core.Logic.{inl, inr}
use mathlib.Core.Bool.{true, false, not}
use mathlib.Core.List.{[], ◌∷◌, ◌++◌}
use native.Mathlib.Omega.{arith}
use ha_ttlock_ble.Base.Codes.{Text, is_space, strip_left, strip_right, or_empty, strip, all_of}

strip_left_idem : (s : Text) → strip_left (strip_left s) ≡ strip_left s
unfolding strip_left
strip_left_idem [] = refl
strip_left_idem (c ∷ s) = ground (arith, strip_left_idem s)

or_empty-strip : (c : ℕ) (s : Text) → strip_right s ≡ s → strip_right (or_empty c s) ≡ or_empty c s
unfolding strip_right
or_empty-strip c [] h = ground arith
or_empty-strip c (d ∷ s) h = rw h refl

strip_right_idem : (s : Text) → strip_right (strip_right s) ≡ strip_right s
unfolding strip_right
strip_right_idem [] = refl
strip_right_idem (c ∷ s) = or_empty-strip c (strip_right s) (strip_right_idem s)

or_empty-left : (c : ℕ) (s : Text) → is_space c ≡ false → strip_left (or_empty c s) ≡ or_empty c s
unfolding strip_left
or_empty-left c [] h = rw h (rw h refl)
or_empty-left c (d ∷ s) h = rw h refl

left-right : (s : Text) → strip_left (strip_right (strip_left s)) ≡ strip_right (strip_left s)
unfolding strip_left strip_right
left-right [] = refl
left-right (c ∷ s) = elim (Bool-cases (is_space c)) [
  | inl space ↦ rw space (left-right s)
  | inr other ↦ rw other (or_empty-left c (strip_right s) other)
]

pub strip_idem : (s : Text) → strip (strip s) ≡ strip s
unfolding strip
strip_idem s = ap strip_right (left-right s) ∙ strip_right_idem (strip_left s)

clean_left : (s : Text) → all_of (λ c. not (is_space c)) s ≡ true → strip_left s ≡ s
unfolding strip_left all_of
clean_left [] h = refl
clean_left (c ∷ s) h = ground (arith, clean_left s)

clean_right : (s : Text) → all_of (λ c. not (is_space c)) s ≡ true → strip_right s ≡ s
unfolding strip_right all_of
clean_right [] h = refl
clean_right (c ∷ []) h = ground arith
clean_right (c ∷ d ∷ s) h = rw (clean_right (d ∷ s) (ground arith)) refl

-- A text with no white space is left as it is.
pub strip_clean : (s : Text) → all_of (λ c. not (is_space c)) s ≡ true → strip s ≡ s
unfolding strip
strip_clean s h = ap strip_right (clean_left s h) ∙ clean_right s h

strip_right-append :
    (s : Text) (d : ℕ) (t : Text)
    → strip_right (d ∷ t) ≡ d ∷ t
    → strip_right (s ++ d ∷ t) ≡ s ++ d ∷ t
unfolding strip_right
strip_right-append [] d t h = h
strip_right-append (c ∷ []) d t h = rw (strip_right-append [] d t h) refl
strip_right-append (c ∷ b ∷ s) d t h = rw (strip_right-append (b ∷ s) d t h) refl

-- A text that begins and ends with what is no white space is left as it is.
pub strip-append :
    (a : ℕ) (s : Text) (d : ℕ) (t : Text)
    → is_space a ≡ false
    → all_of (λ c. not (is_space c)) (d ∷ t) ≡ true
    → strip (a ∷ (s ++ d ∷ t)) ≡ a ∷ (s ++ d ∷ t)
unfolding strip strip_left
strip-append a s d t ha h = rw ha (strip_right-append (a ∷ s) d t (clean_right (d ∷ t) h))
