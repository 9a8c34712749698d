-- ===== src/Base/Texts.antt =====
-- Sets of texts, kept as lists: the program's `set[str]`, `deque[str]` and `dict[str, V]`.
use Prim.Native.String.{String}
use mathlib.Core.Path.{◌≡◌, refl}
use mathlib.Core.Bool.{Bool, true, false, not, ◌||◌, ◌&&◌}
use mathlib.Core.Option.{Option, none, some}
use mathlib.Core.List.{List, [], ◌∷◌, ◌++◌}
use native.Mathlib.Omega.{arith}
use text.Mathlib.Text.{◌==◌}
use text.Mathlib.TextEquality.{eq_iff}
use ha_ttlock_ble.Base.Tests.{if◌then◌else◌}

-- x in s
unfoldable pub has : String → List String → Bool
has x [] = false
has x (y ∷ ys) = y == x || has x ys

-- s.add(x)
unfoldable pub add : String → List String → List String
unfolding has
add x s = if has x s then s else x ∷ s

-- s.discard(x), s - {x}
unfoldable pub discard : String → List String → List String
discard x [] = []
discard x (y ∷ ys) = let rest = discard x ys in if y == x then rest else y ∷ rest

pub has-append : (x : String) (s t : List String) → has x (s ++ t) ≡ (has x s || has x t)
unfolding has
has-append x [] t = refl
has-append x (y ∷ s) t = ground (arith, has-append x s t)

pub has-add : (x y : String) (s : List String) → has x (add y s) ≡ (y == x || has x s)
unfolding has add
has-add x y s = ground (arith, eq_iff y x)

pub has-discard : (x y : String) (s : List String) → has x (discard y s) ≡ (not (y == x) && has x s)
unfolding has discard
has-discard x y [] = ground arith
has-discard x y (z ∷ s) = ground (arith, has-discard x y s, eq_iff y x, eq_iff z y, eq_iff z x)

-- No text stands twice.
unfoldable pub distinct : List String → Bool
unfolding has
distinct [] = true
distinct (x ∷ xs) = not (has x xs) && distinct xs

module _ {ℓ} {V : Type ℓ} where
  -- d.get(k)
  unfoldable pub get : String → List (String × V) → Option V
  get k [] = none
  get k ((j, v) ∷ d) = if j == k then some v else get k d

  -- d[k] = v
  unfoldable pub put : String → V → List (String × V) → List (String × V)
  put k v [] = (k, v) ∷ []
  put k v ((j, w) ∷ d) = if j == k then (k, v) ∷ d else (j, w) ∷ put k v d

  -- d.pop(k, None)
  unfoldable pub pop : String → List (String × V) → List (String × V)
  pop k [] = []
  pop k ((j, w) ∷ d) = let rest = pop k d in if j == k then rest else (j, w) ∷ rest

  pub get-put :
      (k j : String) (v : V) (d : List (String × V))
      → get j (put k v d) ≡ (if k == j then some v else get j d)
  unfolding get put
  get-put k j v [] = refl
  get-put k j v ((i, w) ∷ d) = ground (arith, eq_iff k j, eq_iff i k, eq_iff i j, get-put k j v d)

  pub get-pop :
      (k j : String) (d : List (String × V)) → get j (pop k d) ≡ (if k == j then none else get j d)
  unfolding get pop
  get-pop k j [] = ground arith
  get-pop k j ((i, w) ∷ d) = ground (arith, get-pop k j d, eq_iff i k, eq_iff i j, eq_iff k j)
