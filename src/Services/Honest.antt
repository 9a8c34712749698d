-- ===== src/Services/Honest.antt =====
-- That `get_access_inventory` of services.py claims no more than what was read.
use ha_ttlock_ble.Base.{
  ℕ, ◌+◌, String, true, false, ◌||◌, Option, some, List, [], ◌∷◌, length, count_if, str_eq, eq_iff,
  ◌≡◌, refl, ◌∙◌, arith, inl, inr, Bool-cases,
}
use ha_ttlock_ble.Base.Texts.{get, put, get-put}
use ha_ttlock_ble.Base.Errors.{AccessFailure, cleanup_stage}
use ha_ttlock_ble.Services.Inventory.{
  counts_of, Method, InventoryResult, Counts, Response, is_pin, or_zero, count_validity, is_partial,
  is_cleanup, get_access_inventory, was_read, supported, partial, cleanup_uncertain, at,
}

-- Every validity is counted as often as it stands in the entries.
count_validity-count :
    (vs : List String) (counts : List (String × ℕ)) (v : String)
    → or_zero (get v (count_validity vs counts))
      ≡ or_zero (get v counts) + count_if (λ w. str_eq w v) vs
unfolding count_validity
count_validity-count [] counts v = omega arith
count_validity-count (w ∷ vs) counts v =
    count_validity-count vs (put w (or_zero (get w counts) + 1) counts) v
    ∙ rw (get-put w v (or_zero (get w counts) + 1) counts) (ground (arith, eq_iff w v))

-- The verdict of a read status.
pub data IsFair (m : Method) (r : InventoryResult) (failure : Option AccessFailure) (q : Response)
    : Type 0 where
  torn_down_unsure :
      is_cleanup failure ≡ true
      → q.read_status ≡ partial
      → q.reason ≡ cleanup_uncertain
      → q.stage ≡ at cleanup_stage
      → IsFair m r failure q
  in_part :
      is_cleanup failure ≡ false
      → (is_partial m r || r.transport_interrupted) ≡ true
      → q.read_status ≡ partial
      → IsFair m r failure q
  whole :
      is_cleanup failure ≡ false
      → is_pin m ≡ false
      → r.complete ≡ true
      → r.skipped_unknown ≡ 0
      → r.transport_interrupted ≡ false
      → q.read_status ≡ supported
      → IsFair m r failure q

-- What an answer says of a result.
pub record IsHonest (m : Method) (r : InventoryResult) (failure : Option AccessFailure)
    (q : Response) : Type 0 where
  fair : IsFair m r failure q
  counts : Counts
  counted : q.counts ≡ some counts
  total : counts.count ≡ length r.entries
  each :
      (v : String) → or_zero (get v counts.validity_counts) ≡ count_if (λ w. str_eq w v) r.entries

answer-IsFair :
    (m : Method) (r : InventoryResult) (failure : Option AccessFailure)
    → IsFair m r failure (get_access_inventory m true (was_read r) failure)
unfolding get_access_inventory
answer-IsFair m r failure = elim (Bool-cases (is_cleanup failure)) [
  | inl unsure ↦ torn_down_unsure unsure (rw unsure refl) (rw unsure refl) (rw unsure refl)
  | inr sure ↦ elim (Bool-cases (is_partial m r || r.transport_interrupted)) [
    | inl part ↦ in_part sure part (rw sure (rw part refl))
    | inr all ↦
        whole sure (ground (arith, all)) (ground (arith, all)) (ground (arith, all))
          (ground (arith, all)) (rw sure (rw all refl))
  ]
]

answer-counts :
    (m : Method) (r : InventoryResult) (failure : Option AccessFailure)
    → (get_access_inventory m true (was_read r) failure).counts ≡ some (counts_of m r)
unfolding get_access_inventory
answer-counts m r failure = elim (Bool-cases (is_cleanup failure)) [
  | inl unsure ↦ rw unsure refl
  | inr sure ↦ rw sure refl
]

-- The answer to an inventory that was read counts every entry and every validity as often as it stands
-- there, calls it supported only if it was no PIN inventory, complete, without skipped layouts and not
-- interrupted, and calls it partial with the cleanup as its reason when the teardown is uncertain.
pub get_access_inventory-IsHonest :
    (m : Method) (r : InventoryResult) (failure : Option AccessFailure)
    → IsHonest m r failure (get_access_inventory m true (was_read r) failure)
unfolding get
get_access_inventory-IsHonest m r failure = record {
  fair = answer-IsFair m r failure;
  counts = counts_of m r;
  counted = answer-counts m r failure;
  total = refl;
  each = λ v. omega (arith, count_validity-count r.entries [] v);
}
