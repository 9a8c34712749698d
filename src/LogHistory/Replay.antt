-- ===== src/LogHistory/Replay.antt =====
-- What `classify` of log_history.py hands on, and what a second reading of the same records hands on.
use ha_ttlock_ble.Base.{
  ℕ, suc, ◌+◌, ◌≤◌, ◌<◌, String, true, false, ◌≡◌, ◌≢◌, refl, ap, ◌∙◌, sym, subst, List, [], ◌∷◌,
  ◌++◌, All, length, length-append, if◌then◌else◌, arith, eq_iff, Bool-cases, inl, inr,
}
use mathlib.Core.List.{append-nil, append_assoc}
use text.Mathlib.TextPositions.{eq_refl}
use ha_ttlock_ble.Base.Texts.{has, get-put, has-add}
use ha_ttlock_ble.LogHistory.{
  LogEntry, SafeParts, Pass, History, max_identities, push, evict, is_live, record_identity,
  journal_entry, classify_entry, classify_all, start_pass, classify,
}
use ha_ttlock_ble.LogHistory.Journal.{IsJournal, classify_all-IsJournal}

evict-room : (xs s : List String) → length xs < max_identities → evict xs s ≡ s
unfolding evict
evict-room [] s h = refl
evict-room (x ∷ xs) s h = ground arith

length-push-le : (xs : List String) (x : String) → length (push xs x) ≤ length xs + 1
unfolding push
length-push-le [] x = omega arith
length-push-le (y ∷ ys) x =
    ground (arith, length-append ys (x ∷ []), length-append (y ∷ ys) (x ∷ []))

module _ (digest : SafeParts → String) (cutoff : ℕ) where
  -- room for `n` more identities with nothing evicted
  length-entry :
      (e : LogEntry) (p : Pass)
      → length (classify_entry digest cutoff e p).recent ≤ length p.recent + 1
  unfolding classify_entry journal_entry
  length-entry e p = ground (arith, length-push-le p.recent (record_identity digest e))

  -- the identity of a record stands in the set after the record was seen
  has-entry :
      (e : LogEntry) (p : Pass)
      → has (record_identity digest e) (classify_entry digest cutoff e p).recent_set ≡ true
  unfolding classify_entry journal_entry
  has-entry e p = ground (
    arith,
    has-add (record_identity digest e) (record_identity digest e) (evict p.recent p.recent_set),
    eq_iff (record_identity digest e) (record_identity digest e),
  )

  -- with room left, the set only grows
  has-entry_mono :
      (x : String) (e : LogEntry) (p : Pass)
      → length p.recent < max_identities
      → has x p.recent_set ≡ true
      → has x (classify_entry digest cutoff e p).recent_set ≡ true
  unfolding classify_entry journal_entry
  has-entry_mono x e p room h = ground (
    arith,
    has-add x (record_identity digest e) p.recent_set,
    evict-room p.recent p.recent_set room,
  )

  has-all_mono :
      (x : String) (es : List LogEntry) (p : Pass)
      → length p.recent + length es ≤ max_identities
      → has x p.recent_set ≡ true
      → has x (classify_all digest cutoff es p).recent_set ≡ true
  unfolding classify_all
  has-all_mono x [] p room h = h
  has-all_mono x (e ∷ es) p room h =
      has-all_mono x es (classify_entry digest cutoff e p) (omega (arith, length-entry e p))
        (has-entry_mono x e p (omega arith) h)

  has-All :
      (es : List LogEntry) (p : Pass)
      → length p.recent + length es ≤ max_identities
      → All
          (λ e. has (record_identity digest e) (classify_all digest cutoff es p).recent_set ≡ true)
          es
  unfolding classify_all
  has-All [] p room = tt
  has-All (e ∷ es) p room = (
    has-all_mono (record_identity digest e) es (classify_entry digest cutoff e p)
        (omega (arith, length-entry e p)) (has-entry e p),
    has-All es (classify_entry digest cutoff e p) (omega (arith, length-entry e p)),
  )

  entry_known :
      (e : LogEntry) (p : Pass)
      → has (record_identity digest e) p.recent_set ≡ true
      → classify_entry digest cutoff e p
        ≡ record p { suppressed_duplicate = suc p.suppressed_duplicate }
  unfolding classify_entry
  entry_known e p h = rw h

  -- known records change nothing but the count of duplicates
  All-known :
      (es : List LogEntry) (p : Pass)
      → All (λ e. has (record_identity digest e) p.recent_set ≡ true) es
      → (classify_all digest cutoff es p).live ≡ p.live
  unfolding classify_all
  All-known [] p h = refl
  All-known (e ∷ es) p h =
      ap (λ (q : Pass). (classify_all digest cutoff es q).live) (entry_known e p h.0)
      ∙ All-known es (record p { suppressed_duplicate = suc p.suppressed_duplicate }) h.1

module _ (digest : SafeParts → String) (h : History) (mac : String) (entries : List LogEntry) where
  abbrev pass : Pass
  pass = classify_all digest h.startup_cutoff entries (start_pass h mac)

  -- what `classify` wrote is what its next call for the same lock starts from
  restart-set : (start_pass (classify digest h mac entries).0 mac).recent_set ≡ pass.recent_set
  unfolding classify start_pass
  restart-set = simp (get-put, eq_refl)

  -- The same records read a second time are all suppressed, if the journal has room for them.
  pub classify-classify :
      length (start_pass h mac).recent + length entries ≤ max_identities
      → (classify digest (classify digest h mac entries).0 mac entries).1 ≡ []
  unfolding start_pass
  classify-classify room =
      unfold classify in
      All-known digest h.startup_cutoff entries (start_pass (classify digest h mac entries).0 mac) (
        subst (λ (s : List String). All (λ e. has (record_identity digest e) s ≡ true) entries)
          (sym restart-set) (has-All digest h.startup_cutoff entries (start_pass h mac) room))

  -- A call of classify keeps the invariant of the journal that it reads and writes: the deque is bounded
  -- and without repetition, and the set has its items.
  pub classify-IsJournal :
      IsJournal (start_pass h mac).recent (start_pass h mac).recent_set
      → IsJournal
          (start_pass (classify digest h mac entries).0 mac).recent
          (start_pass (classify digest h mac entries).0 mac).recent_set
  unfolding classify start_pass
  classify-IsJournal j =
      simp (get-put, eq_refl)
        (classify_all-IsJournal digest h.startup_cutoff entries (start_pass h mac) j)

  -- A call of classify for one lock leaves the journal of every other lock as it was.
  pub start_pass-classify :
      (other : String)
      → mac ≢ other
      → start_pass (classify digest h mac entries).0 other ≡ start_pass h other
  unfolding classify start_pass
  start_pass-classify other ne = simp get-put (ground (arith, eq_iff mac other))

-- The records of `es` that are new, without journal: dated after the cutoff, and with an identity that
-- neither `seen` nor an earlier record has.
unfoldable pub fresh : (SafeParts → String) → ℕ → List String → List LogEntry → List LogEntry
fresh digest cutoff seen [] = []
fresh digest cutoff seen (e ∷ es) =
    let rest = fresh digest cutoff (record_identity digest e ∷ seen) es in
    if has (record_identity digest e) seen
    then fresh digest cutoff seen es
    else if is_live cutoff e.operate_date
    then e ∷ rest
    else rest

module _ (digest : SafeParts → String) (cutoff : ℕ) where
  set-new :
      (e : LogEntry) (p : Pass) (seen : List String)
      → length p.recent < max_identities
      → has (record_identity digest e) p.recent_set ≡ false
      → ((x : String) → has x p.recent_set ≡ has x seen)
      → (x : String)
      → has x (classify_entry digest cutoff e p).recent_set
        ≡ has x (record_identity digest e ∷ seen)
  unfolding classify_entry journal_entry has
  set-new e p seen room new same x = ground (
    arith,
    has-add x (record_identity digest e) p.recent_set,
    evict-room p.recent p.recent_set room,
    same x,
  )

  live-new :
      (e : LogEntry) (p : Pass)
      → has (record_identity digest e) p.recent_set ≡ false
      → (classify_entry digest cutoff e p).live
        ≡ (if is_live cutoff e.operate_date then p.live ++ e ∷ [] else p.live)
  unfolding classify_entry journal_entry
  live-new e p new = ground arith

  fresh_known :
      (e : LogEntry) (es : List LogEntry) (seen : List String)
      → has (record_identity digest e) seen ≡ true
      → fresh digest cutoff seen (e ∷ es) ≡ fresh digest cutoff seen es
  unfolding fresh
  fresh_known e es seen h = rw h

  fresh_new :
      (e : LogEntry) (es : List LogEntry) (seen : List String) (live : List LogEntry)
      → has (record_identity digest e) seen ≡ false
      → live ++ fresh digest cutoff seen (e ∷ es)
        ≡ (if is_live cutoff e.operate_date then live ++ e ∷ [] else live)
          ++ fresh digest cutoff (record_identity digest e ∷ seen) es
  unfolding fresh
  fresh_new e es seen live h = rw h (elim (Bool-cases (is_live cutoff e.operate_date)) [
    | inl now ↦ rw now (
        sym (append_assoc live (e ∷ []) (fresh digest cutoff (record_identity digest e ∷ seen) es)))
    | inr past ↦ rw past
  ])

  all-fresh :
      (es : List LogEntry) (p : Pass) (seen : List String)
      → length p.recent + length es ≤ max_identities
      → ((x : String) → has x p.recent_set ≡ has x seen)
      → (classify_all digest cutoff es p).live ≡ p.live ++ fresh digest cutoff seen es
  unfolding classify_all
  all-fresh [] p seen room same = unfold fresh in sym (append-nil p.live)
  all-fresh (e ∷ es) p seen room same =
      elim (Bool-cases (has (record_identity digest e) p.recent_set)) [
        | inl old ↦
            ap (λ (q : Pass). (classify_all digest cutoff es q).live)
              (entry_known digest cutoff e p old)
            ∙ all-fresh es (record p { suppressed_duplicate = suc p.suppressed_duplicate }) seen
                (omega arith) same
            ∙ ap (λ (l : List LogEntry). p.live ++ l)
                (sym (fresh_known e es seen (sym (same (record_identity digest e)) ∙ old)))
        | inr new ↦
            all-fresh es (classify_entry digest cutoff e p) (record_identity digest e ∷ seen)
              (omega (arith, length-entry digest cutoff e p))
              (set-new e p seen (omega arith) new same)
            ∙ ap
                (λ (l : List LogEntry).
                  l ++ fresh digest cutoff (record_identity digest e ∷ seen) es)
                (live-new e p new)
            ∙ sym (fresh_new e es seen p.live (sym (same (record_identity digest e)) ∙ new))
      ]

-- With room in the journal, classify hands on exactly the records that are dated after the cutoff and
-- whose identity neither the journal nor an earlier record of the same call has, in their order.
pub classify-fresh :
    (digest : SafeParts → String) (h : History) (mac : String) (entries : List LogEntry)
    → length (start_pass h mac).recent + length entries ≤ max_identities
    → (classify digest h mac entries).1
      ≡ fresh digest h.startup_cutoff (start_pass h mac).recent_set entries
unfolding classify
classify-fresh digest h mac entries room =
    unfold start_pass in
    all-fresh digest h.startup_cutoff entries (start_pass h mac) (start_pass h mac).recent_set room
      (λ x. refl)
