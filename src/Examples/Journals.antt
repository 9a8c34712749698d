-- ===== src/Examples/Journals.antt =====
-- The properties of the journal at one record.
use ha_ttlock_ble.Base.{String, false, [], ◌∷◌, ◌≡◌, ◌≢◌, refl, arith, str_eq, eq_iff}
use ha_ttlock_ble.Base.Texts.{get, distinct}
use ha_ttlock_ble.LogHistory.{SafeParts, History, classify, start_pass, set_of}
use ha_ttlock_ble.LogHistory.Journal.{IsJournal}
use ha_ttlock_ble.LogHistory.Replay.{classify-classify, classify-IsJournal, classify-fresh, fresh}
use ha_ttlock_ble.LogHistory.Storage.{
  Bounded, init, async_load, async_save, classify-Bounded, restart-IsJournal,
}
use ha_ttlock_ble.Examples.Session.{entry}

abbrev pub label : SafeParts → String
label p = "a record"

abbrev first_start : History
first_start = init 100

abbrev later : History
later = (classify label first_start "lock" (entry ∷ [])).0

empty-IsJournal :
    IsJournal (start_pass first_start "lock").recent (start_pass first_start "lock").recent_set
unfolding start_pass get set_of distinct
empty-IsJournal = record { bounded = omega arith; unrepeated = refl; agrees = λ x. refl }

later-IsJournal : IsJournal (start_pass later "lock").recent (start_pass later "lock").recent_set
later-IsJournal = classify-IsJournal label first_start "lock" (entry ∷ []) empty-IsJournal

later-Bounded : Bounded later.recent
later-Bounded = classify-Bounded label first_start "lock" (entry ∷ []) empty-IsJournal tt

classify-classify_example : (classify label later "lock" (entry ∷ [])).1 ≡ []
unfolding start_pass get
classify-classify_example = classify-classify label first_start "lock" (entry ∷ []) (omega arith)

classify-IsJournal_example :
    IsJournal
      (start_pass (classify label later "lock" (entry ∷ [])).0 "lock").recent
      (start_pass (classify label later "lock" (entry ∷ [])).0 "lock").recent_set
classify-IsJournal_example = classify-IsJournal label later "lock" (entry ∷ []) later-IsJournal

apart : (a b : String) → str_eq a b ≡ false → a ≢ b
apart a b h e = ground (arith, eq_iff a b)

classify-fresh_example :
    (classify label first_start "lock" (entry ∷ [])).1
    ≡ fresh label 100 (start_pass first_start "lock").recent_set (entry ∷ [])
unfolding start_pass get
classify-fresh_example = classify-fresh label first_start "lock" (entry ∷ []) (omega arith)

restart-IsJournal_example :
    let loaded = async_load (async_save later) (init 300) in
    ((start_pass loaded "lock").recent ≡ (start_pass later "lock").recent)
    × IsJournal (start_pass loaded "lock").recent (start_pass loaded "lock").recent_set
unfolding classify
restart-IsJournal_example = restart-IsJournal later 300 "lock" later-Bounded refl later-IsJournal
