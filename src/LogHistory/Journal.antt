-- ===== src/LogHistory/Journal.antt =====
-- The journal of one lock in log_history.py: what the deque and the set beside it have in common.
use ha_ttlock_ble.Base.{
  ℕ, ◌≤◌, String, true, false, not, ◌&&◌, ◌≡◌, refl, List, [], ◌∷◌, ◌++◌, length, length-append,
  arith, eq_iff, Bool-cases, inl, inr,
}
use ha_ttlock_ble.Base.Texts.{has, add, discard, distinct, has-append, has-add, has-discard}
use ha_ttlock_ble.LogHistory.{
  LogEntry, SafeParts, Pass, max_identities, push, evict, record_identity, journal_entry,
  classify_entry, classify_all,
}

pub record IsJournal (recent recent_set : List String) : Type 0 where
  pub bounded : length recent ≤ max_identities
  pub unrepeated : distinct recent ≡ true
  pub agrees : (x : String) → has x recent_set ≡ has x recent

distinct-append :
    (x : String) (xs : List String) → distinct (xs ++ x ∷ []) ≡ (distinct xs && not (has x xs))
unfolding distinct has
distinct-append x [] = refl
distinct-append x (y ∷ xs) =
    ground (arith, distinct-append x xs, has-append y xs (x ∷ []), eq_iff x y, eq_iff y x)

length-push :
    (xs : List String) (x : String)
    → length xs ≤ max_identities
    → length (push xs x) ≤ max_identities
unfolding push
length-push [] x h = omega arith
length-push (y ∷ ys) x h = ground (arith, length-append ys (x ∷ []))

distinct-push :
    (xs : List String) (x : String)
    → distinct xs ≡ true
    → has x xs ≡ false
    → distinct (push xs x) ≡ true
unfolding push distinct has
distinct-push [] x h k = refl
distinct-push (y ∷ ys) x h k =
    ground (arith, distinct-append x ys, has-append y ys (x ∷ []), eq_iff x y, eq_iff y x)

module _ (x y : String) where
  -- the set follows the deque when the oldest item is dropped
  has-push :
      (xs s : List String)
      → length xs ≤ max_identities
      → distinct xs ≡ true
      → has y s ≡ has y xs
      → has y (add x (evict xs s)) ≡ has y (push xs x)
  unfolding push evict distinct has
  has-push [] s b d e = ground (arith, has-add y x s)
  has-push (z ∷ zs) s b d e = ground (
    arith,
    has-add y x s,
    has-add y x (discard z s),
    has-discard y z s,
    has-append y zs (x ∷ []),
    eq_iff z y,
    eq_iff x y,
  )

push-IsJournal :
    (recent s : List String) (x : String)
    → IsJournal recent s
    → has x s ≡ false
    → IsJournal (push recent x) (add x (evict recent s))
push-IsJournal recent s x j new = record {
  bounded = length-push recent x j.bounded;
  unrepeated = distinct-push recent x j.unrepeated (ground (arith, j.agrees x));
  agrees = λ y. has-push x y recent s j.bounded j.unrepeated (j.agrees y);
}

module _ (digest : SafeParts → String) (cutoff : ℕ) where
  journal_entry-IsJournal :
      (e : LogEntry) (p : Pass)
      → IsJournal
          (push p.recent (record_identity digest e))
          (add (record_identity digest e) (evict p.recent p.recent_set))
      → IsJournal
          (journal_entry digest cutoff e p).recent
          (journal_entry digest cutoff e p).recent_set
  unfolding journal_entry
  journal_entry-IsJournal e p j = record {
    bounded = ground (arith, j.bounded);
    unrepeated = ground (arith, j.unrepeated);
    agrees = λ x. ground (arith, j.agrees x);
  }

  pub classify_entry-IsJournal :
      (e : LogEntry) (p : Pass)
      → IsJournal p.recent p.recent_set
      → IsJournal
          (classify_entry digest cutoff e p).recent
          (classify_entry digest cutoff e p).recent_set
  unfolding classify_entry
  classify_entry-IsJournal e p j = elim (Bool-cases (has (record_identity digest e) p.recent_set)) [
    | inl old ↦ rw old j
    | inr new ↦ rw new (
        journal_entry-IsJournal e p
          (push-IsJournal p.recent p.recent_set (record_identity digest e) j new))
  ]

  pub classify_all-IsJournal :
      (es : List LogEntry) (p : Pass)
      → IsJournal p.recent p.recent_set
      → IsJournal
          (classify_all digest cutoff es p).recent
          (classify_all digest cutoff es p).recent_set
  unfolding classify_all
  classify_all-IsJournal [] p j = j
  classify_all-IsJournal (e ∷ es) p j =
      classify_all-IsJournal es (classify_entry digest cutoff e p) (classify_entry-IsJournal e p j)
