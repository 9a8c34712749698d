-- ===== src/Management/Body.antt =====
-- How the view of management_http.py reads a body: never more than it may hold.
use ha_ttlock_ble.Base.{
  ℕ, zero, suc, ◌+◌, ◌-◌, ◌≤◌, ◌<◌, Bool, true, false, not, ◌||◌, Option, none, some, List, [], ◌∷◌,
  ◌++◌, length, length-append, ltb, if◌then◌else◌, str_eq, ◌≡◌, arith, inl, inr, Bool-cases,
}
use ha_ttlock_ble.Management.{Request, body_limit}

pub data BodyRead : Type 0 where
  body : List ℕ → BodyRead
  refused : BodyRead
  out_of_fuel : BodyRead

abbrev pub is_empty : List ℕ → Bool
is_empty [] = true
is_empty (b ∷ bs) = false

-- the loop of `_body` over the reads: `n` of them were made
unfoldable pub read_chunks : ℕ → (ℕ → ℕ → List ℕ) → ℕ → List ℕ → BodyRead
read_chunks zero content n raw = out_of_fuel
read_chunks (suc fuel) content n raw =
    let chunk = content n (body_limit + 1 - length raw) in
    let rest = read_chunks fuel content (suc n) (raw ++ chunk) in
    if is_empty chunk
    then body raw
    else (if ltb body_limit (length (raw ++ chunk)) then refused else rest)

abbrev pub length_or_zero : Option ℕ → ℕ
length_or_zero none = 0
length_or_zero (some n) = n

-- `_body` up to its parsing; one read for each byte it may hold and one more are enough
unfoldable pub read_body : Request → BodyRead
read_body r =
    if not (str_eq r.content_type "application/json")
      || ltb body_limit (length_or_zero r.content_length)
    then refused
    else read_chunks (body_limit + 2) r.content 0 []

-- a body within the limit, or a refusal
abbrev pub IsBounded : BodyRead → Type 0
IsBounded (body raw) = length raw ≤ body_limit
IsBounded refused = Unit
IsBounded out_of_fuel = ⊥

nonempty-length : (l : List ℕ) → is_empty l ≡ false → 0 < length l
nonempty-length [] h = ground arith
nonempty-length (b ∷ l) h = omega arith

read_chunks-IsBounded :
    (fuel : ℕ) (content : ℕ → ℕ → List ℕ) (n : ℕ) (raw : List ℕ)
    → length raw ≤ body_limit
    → body_limit < fuel + length raw
    → IsBounded (read_chunks fuel content n raw)
unfolding read_chunks
read_chunks-IsBounded zero content n raw h f = omega arith
read_chunks-IsBounded (suc fuel) content n raw h f =
    let chunk = content n (body_limit + 1 - length raw) in
    elim (Bool-cases (is_empty chunk)) [
      | inl e ↦ rw e h
      | inr e ↦ elim (Bool-cases (ltb body_limit (length (raw ++ chunk)))) [
        | inl long ↦ rw e (rw long tt)
        | inr short ↦ rw e (
            rw short (
              read_chunks-IsBounded fuel content (suc n) (raw ++ chunk) (ground (arith, short))
                (omega (arith, length-append raw chunk, nonempty-length chunk e))))
      ]
    ]

-- Reading a body ends, with at most as many reads as the limit has bytes and two more, whatever the
-- chunks are; the body is within the limit, or the request is refused.
pub read_body-IsBounded : (r : Request) → IsBounded (read_body r)
unfolding read_body
read_body-IsBounded r =
    elim (Bool-cases (
      not (str_eq r.content_type "application/json")
      || ltb body_limit (length_or_zero r.content_length))) [
        | inl bad ↦ rw bad tt
        | inr good ↦
            rw good
              (read_chunks-IsBounded (body_limit + 2) r.content 0 [] (omega arith) (omega arith))
      ]
