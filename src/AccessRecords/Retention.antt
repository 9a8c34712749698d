-- ===== src/AccessRecords/Retention.antt =====
-- What a reconciliation of access_records.py keeps of the records that were there: their references and
-- names for good, a PIN's record active, and a retired record retired.
use ha_ttlock_ble.Base.{
  ℕ, zero, suc, ◌-◌, ◌≤◌, String, Bool, true, false, Option, none, some, is_some, List, [], ◌∷◌,
  ◌++◌, ◌≡◌, refl, ◌∙◌, subst, arith, Bool-cases, inl, inr,
}
use ha_ttlock_ble.Base.Texts.{has}
use ha_ttlock_ble.AccessRecords.State.{
  Method, PrivateRecord, Item, World, Pass, is_pin, last_position, observe_at, note_item,
  new_record, retire,
}
use ha_ttlock_ble.AccessRecords.Reconcile.{note_base, and_then, note_items}

-- `q` is the record `r` later on.
pub record IsLater (pin : Bool) (r q : PrivateRecord) : Type 0 where
  pub base : q.base ≡ r.base
  pub reference : q.reference ≡ r.reference
  pub record_type : q.record_type ≡ r.record_type
  pub alias : q.alias ≡ r.alias
  pub stays : pin ≡ true → r.active ≡ true → q.active ≡ true
  pub retired : pin ≡ false → r.active ≡ false → q.active ≡ false

-- Every record stands where it stood; new ones come after.
abbrev pub Retained : Bool → List PrivateRecord → List PrivateRecord → Type 0
Retained pin [] new = Unit
Retained pin (r ∷ rs) [] = ⊥
Retained pin (r ∷ rs) (q ∷ qs) = IsLater pin r q × Retained pin rs qs

IsLater-refl : (pin : Bool) (r : PrivateRecord) → IsLater pin r r
IsLater-refl pin r = record {
  base = refl;
  reference = refl;
  record_type = refl;
  alias = refl;
  stays = λ p a. a;
  retired = λ p a. a;
}

IsLater-trans :
    (pin : Bool) (r q t : PrivateRecord) → IsLater pin r q → IsLater pin q t → IsLater pin r t
IsLater-trans pin r q t a b = record {
  base = b.base ∙ a.base;
  reference = b.reference ∙ a.reference;
  record_type = b.record_type ∙ a.record_type;
  alias = b.alias ∙ a.alias;
  stays = λ p h. b.stays p (a.stays p h);
  retired = λ p h. b.retired p (a.retired p h);
}

pub Retained-refl : (pin : Bool) (rs : List PrivateRecord) → Retained pin rs rs
Retained-refl pin [] = tt
Retained-refl pin (r ∷ rs) = (IsLater-refl pin r, Retained-refl pin rs)

pub Retained-trans :
    (pin : Bool) (a b c : List PrivateRecord)
    → Retained pin a b
    → Retained pin b c
    → Retained pin a c
Retained-trans pin [] b c h k = tt
Retained-trans pin (r ∷ a) [] c h k = absurd h
Retained-trans pin (r ∷ a) (q ∷ b) [] h k = absurd k
Retained-trans pin (r ∷ a) (q ∷ b) (t ∷ c) h k =
    (IsLater-trans pin r q t h.0 k.0, Retained-trans pin a b c h.1 k.1)

pub Retained-append :
    (pin : Bool) (a b c : List PrivateRecord) → Retained pin a b → Retained pin a (b ++ c)
Retained-append pin [] b c h = tt
Retained-append pin (r ∷ a) [] c h = absurd h
Retained-append pin (r ∷ a) (q ∷ b) c h = (h.0, Retained-append pin a b c h.1)

pub retire-Retained :
    (pin : Bool) (seen : List String) (rs : List PrivateRecord)
    → Retained pin rs (retire pin seen rs)
unfolding retire
retire-Retained pin seen [] = tt
retire-Retained pin seen (r ∷ rs) = elim (Bool-cases (has r.base seen)) [
  | inl here ↦ rw here (IsLater-refl pin r, retire-Retained pin seen rs)
  | inr gone ↦ rw gone (
    record {
      base = refl;
      reference = refl;
      record_type = refl;
      alias = refl;
      stays = λ p a. ground arith;
      retired = λ p a. ground arith;
    },
    retire-Retained pin seen rs,
  )
]

-- The position of a record that may be observed: an active one, or any PIN's.
abbrev MayObserve : Bool → ℕ → List PrivateRecord → Type 0
MayObserve pin n [] = Unit
MayObserve pin zero (r ∷ rs) = pin ≡ false → r.active ≡ true
MayObserve pin (suc n) (r ∷ rs) = MayObserve pin n rs

observe-Retained :
    (pin : Bool) (n : ℕ) (validity : String) (a b : List PrivateRecord)
    → MayObserve pin n a
    → Retained pin a b
    → Retained pin a (observe_at n validity b)
unfolding observe_at
observe-Retained pin n validity [] b m h = tt
observe-Retained pin n validity (r ∷ a) [] m h = absurd h
observe-Retained pin zero validity (r ∷ a) (q ∷ b) m h = (
  record {
    base = h.0.base;
    reference = h.0.reference;
    record_type = h.0.record_type;
    alias = h.0.alias;
    stays = λ p x. refl;
    retired = λ p x. absurd (ground (arith, m p));
  },
  h.1,
)
observe-Retained pin (suc n) validity (r ∷ a) (q ∷ b) m h =
    (h.0, observe-Retained pin n validity a b m h.1)

abbrev MayObserve? : Bool → Option ℕ → List PrivateRecord → Type 0
MayObserve? pin none rs = Unit
MayObserve? pin (some n) rs = MayObserve pin n rs

position-MayObserve :
    (pin : Bool) (base : String) (k : ℕ) (rs : List PrivateRecord) (n : ℕ)
    → last_position pin base k rs ≡ some n
    → (k ≤ n) × MayObserve pin (n - k) rs
unfolding last_position
position-MayObserve pin base k [] n h = absurd (ground arith)
position-MayObserve pin base k (r ∷ rs) n h =
    elim (Bool-cases (is_some (last_position pin base (suc k) rs))) [
      | inl later ↦
          let found : last_position pin base (suc k) rs ≡ some n = ground arith in
          let rest = position-MayObserve pin base (suc k) rs n found in
          let e : suc (n - suc k) ≡ n - k = omega (arith, rest.0) in
          (omega (arith, rest.0), subst (λ x. MayObserve pin x (r ∷ rs)) e rest.1)
      | inr none_later ↦
          let here : n ≡ k = ground arith in
          let e : 0 ≡ n - k = omega (arith, here) in
          (omega (arith, here), subst (λ x. MayObserve pin x (r ∷ rs)) e (λ p. ground arith))
    ]

module _ (world : World) (lock : String) (method : Method) (epoch : String)
    (before : List PrivateRecord) where
  item-Retained :
      (reference base : String) (item : Item) (o : Option ℕ) (p : Pass)
      → last_position (is_pin method) base 0 before ≡ o
      → Retained (is_pin method) before p.records
      → Retained (is_pin method) before (note_item reference base item o p).records
  unfolding note_item
  item-Retained reference base item none p e h =
      Retained-append (is_pin method) before p.records (new_record reference base item ∷ []) h
  item-Retained reference base item (some n) p e h =
      let at = position-MayObserve (is_pin method) base 0 before n e in
      let zero_offset : n - 0 ≡ n = omega arith in
      observe-Retained (is_pin method) n item.validity before p.records
        (subst (λ x. MayObserve (is_pin method) x before) zero_offset at.1) h

  -- what a finished pass has
  abbrev pub PassRetained : Option Pass → Type 0
  PassRetained none = Unit
  PassRetained (some p) = Retained (is_pin method) before p.records

  base-Retained :
      (item : Item) (base : Option String) (p : Pass)
      → Retained (is_pin method) before p.records
      → PassRetained (note_base world method before item base p)
  base-Retained item none p h = tt
  base-Retained item (some base) p h =
      item-Retained (world.token_hex p.drawn) base item
        (last_position (is_pin method) base 0 before) p refl h

  then-Retained :
      (o : Option Pass) (k : Pass → Option Pass)
      → ((q : Pass) → Retained (is_pin method) before q.records → PassRetained (k q))
      → PassRetained o
      → PassRetained (and_then world o k)
  then-Retained none k f h = tt
  then-Retained (some q) k f h = f q h

  pub items-Retained :
      (items : List Item) (p : Pass)
      → Retained (is_pin method) before p.records
      → PassRetained (note_items world lock method epoch before items p)
  unfolding note_items
  items-Retained [] p h = h
  items-Retained (item ∷ items) p h =
      then-Retained
        (note_base world method before item
          (world.token lock method epoch item.record_type item.identifier) p)
        (λ q. note_items world lock method epoch before items q) (λ q r. items-Retained items q r)
        (base-Retained item (world.token lock method epoch item.record_type item.identifier) p h)
