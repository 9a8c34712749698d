-- ===== src/Setup/Unload.antt =====
-- What the callbacks registered by the setup of __init__.py do to the locks of an entry.
use ha_ttlock_ble.Base.{
  String, true, false, not, List, [], ◌∷◌, ◌++◌, map, ◌≡◌, sym, ◌∙◌, ap, ◌⊎◌, inl, inr, All,
}
use mathlib.Core.List.{append-nil, append_assoc}
use ha_ttlock_ble.Base.Errors.{Exc}
use ha_ttlock_ble.Base.Exec.{Result, ok, err, lift, ◌>>=◌, ◌>>◌}
use ha_ttlock_ble.Base.Exec.Triple.{
  Triple, Keeps, Triple-bind, Triple-if, Triple-raise, Triple-pure, Triple-modify, Triple-lift,
  weaken,
}
use ha_ttlock_ble.Setup.{
  Options, Did, removed_device, started, tracked, untracked, stopping, log_saved, OnUnload,
  stop_connections, stop_tracking, save_log_history, remove_listener, LoadEnd, loaded, unavailable,
  load_raised, Entry, Host, note_each, connection_macs, configured_macs, prune, shares,
  records_loaded, register_unload, setup_entry, stop_each, run_unload, unload, settings, Device,
}

-- The connections that are asked to stop: up to the first whose stop raises.
abbrev pub unless_raised : Result (Unit {0}) → List Did → List Did
unless_raised (ok u) rest = rest
unless_raised (err e) rest = []

unfoldable pub attempts : (String → Result (Unit {0})) → List String → List Did
attempts stop [] = []
attempts stop (m ∷ ms) = stopping m ∷ unless_raised (stop m) (attempts stop ms)

note_each-done :
    (f : String → Did) (xs : List String) (s : Entry)
    → (note_each f xs s).1.done ≡ s.done ++ map f xs
unfolding note_each ◌>>=◌
note_each-done f [] s = sym (append-nil s.done)
note_each-done f (x ∷ xs) s =
    note_each-done f xs (record s { done = s.done ++ f x ∷ [] })
    ∙ append_assoc s.done (f x ∷ []) (map f xs)

module _ (host : Host) where
  stop_tail :
      (ms : List String) (r : Result (Unit {0})) (s : Entry)
      → (stop_each host ms s).1.done ≡ s.done ++ attempts host.stop ms
      → (◌>>◌ (lift {S = Entry} r) (stop_each host ms) s).1.done
        ≡ s.done ++ unless_raised r (attempts host.stop ms)
  unfolding ◌>>=◌
  stop_tail ms (ok u) s h = h
  stop_tail ms (err e) s h = sym (append-nil s.done)

  stop_each-done :
      (ms : List String) (s : Entry)
      → (stop_each host ms s).1.done ≡ s.done ++ attempts host.stop ms
  unfolding stop_each attempts ◌>>=◌
  stop_each-done [] s = sym (append-nil s.done)
  stop_each-done (m ∷ ms) s =
      let t : Entry = record s { done = s.done ++ stopping m ∷ [] } in
      stop_tail ms (host.stop m) t (stop_each-done ms t)
      ∙ append_assoc s.done (stopping m ∷ []) (unless_raised (host.stop m) (attempts host.stop ms))

  -- the callbacks of an entry whose setup got as far as to register them
  abbrev Callbacks : List String → List OnUnload → Type 0
  Callbacks macs fs =
      fs ≡ save_log_history ∷ stop_tracking macs ∷ stop_connections (connection_macs [] macs) ∷ []

  -- The unload saves the log, ends the tracking of every lock, and then asks the connections to stop.
  abbrev pub IsReleased : List String → Entry → Type 0
  IsReleased macs s =
      (unload host s).done
      ≡ s.done ++ log_saved ∷ (map untracked macs ++ attempts host.stop (connection_macs [] macs))

  unload-last :
      (macs : List String) (s : Entry)
      → (run_unload host
          (save_log_history ∷ stop_tracking macs ∷ stop_connections (connection_macs [] macs) ∷ [])
          s).done
        ≡ s.done ++ log_saved ∷ (map untracked macs ++ attempts host.stop (connection_macs [] macs))
  unfolding run_unload
  unload-last macs s =
      let t : Entry = record s { done = s.done ++ log_saved ∷ [] } in
      let u = (note_each untracked macs t).1 in
      let rest = attempts host.stop (connection_macs [] macs) in
      stop_each-done (connection_macs [] macs) u
      ∙ ap (λ l. l ++ rest) (note_each-done untracked macs t)
      ∙ append_assoc t.done (map untracked macs) rest
      ∙ append_assoc s.done (log_saved ∷ []) (map untracked macs ++ rest)

  released_lem : (macs : List String) (s : Entry) → Callbacks macs s.on_unload → IsReleased macs s
  unfolding unload
  released_lem macs s e = rw e (unload-last macs (record s { on_unload = [] }))

  listening_lem :
      (macs : List String) (s : Entry)
      → s.on_unload
        ≡ remove_listener
          ∷ save_log_history
          ∷ stop_tracking macs
          ∷ stop_connections (connection_macs [] macs)
          ∷ []
      → IsReleased macs s
  unfolding unload run_unload
  listening_lem macs s e = rw e (unload-last macs (record s { on_unload = [] }))

abbrev pub IsRemoval : Did → Type 0
IsRemoval (removed_device i) = Unit
IsRemoval _ = ⊥

-- Only devices were removed, and nothing is left to unload.
abbrev pub IsUntouched : Entry → Type 0
IsUntouched s = All IsRemoval s.done × (s.on_unload ≡ [])

All-append : (a : List Did) (d : Did) → All IsRemoval a → IsRemoval d → All IsRemoval (a ++ d ∷ [])
All-append [] d h k = (k, tt)
All-append (x ∷ a) d h k = (h.0, All-append a d h.1 k)

module _ (host : Host) where
  prune-lem :
      (configured : List String) (ds : List Device) → Keeps IsUntouched (prune host configured ds)
  unfolding prune
  prune-lem configured [] = Triple-pure tt (λ s p. p)
  prune-lem configured (d ∷ ds) =
      Triple-bind {R = λ _. IsUntouched}
        (Triple-if (not (shares host configured d.identifiers))
          (λ b. Triple-modify _ (λ s p. (All-append s.done (removed_device d.id) p.0 tt, p.1)))
          (λ b. Triple-pure tt (λ s p. p)))
        λ _. prune-lem configured ds

  records-lem : (l : LoadEnd) → Keeps IsUntouched (records_loaded host l)
  records-lem loaded = Triple-pure true (λ s p. p)
  records-lem unavailable = Triple-pure false (λ s p. p)
  records-lem (load_raised e) = Triple-raise e (λ s p. p)

  abbrev NoCallback : Entry → Type 0
  NoCallback s = s.on_unload ≡ []

  note_each-lem :
      {E : Exc → Entry → Type 0} (f : String → Did) (xs : List String)
      → Triple NoCallback (note_each f xs) (λ _. NoCallback) E
  unfolding note_each
  note_each-lem f [] = Triple-pure tt (λ s p. p)
  note_each-lem f (x ∷ xs) =
      Triple-bind {R = λ _. NoCallback} (Triple-modify _ (λ s p. p)) λ _. note_each-lem f xs

  module _ (macs : List String) where
    abbrev pub Raised : Exc → Entry → Type 0
    Raised e s = IsUntouched s ⊎ IsReleased host macs s

    register-lem :
        Triple NoCallback
          (register_unload host (connection_macs [] macs) macs)
          (λ _ s. Callbacks host macs s.on_unload)
          Raised
    register-lem =
        Triple-bind {R = λ _ s. s.on_unload ≡ stop_connections (connection_macs [] macs) ∷ []}
          (Triple-modify _ (λ s p. ap (λ l. stop_connections (connection_macs [] macs) ∷ l) p))
          λ _.
            Triple-bind
              {R = λ _ s.
                s.on_unload ≡ stop_tracking macs ∷ stop_connections (connection_macs [] macs) ∷ []}
              (Triple-modify _ (λ s p. ap (λ l. stop_tracking macs ∷ l) p))
              λ _. Triple-modify _ (λ s p. ap (λ l. save_log_history ∷ l) p)

    -- However the setup of a fresh entry ends: either it did no more than to remove devices, or the
    -- unload of the entry saves the log, then ends the tracking of every lock, and then asks the
    -- connections to stop in order, up to the first whose stop raises.
    pub setup_entry-IsReleased :
        (o : Options)
        → Triple IsUntouched (setup_entry host macs o) (λ _. IsReleased host macs) Raised
    unfolding setup_entry
    setup_entry-IsReleased o =
        Triple-bind
          (weaken (λ s p. p) (prune-lem (configured_macs host macs) host.devices) (λ _ s p. p)
            (λ _ s p. inl p))
          λ _.
            Triple-bind
              (weaken (λ s p. p) (records-lem host.load_records) (λ _ s p. p) (λ _ s p. inl p))
              λ records.
                Triple-bind {R = λ _. NoCallback}
                  (Triple-lift host.load_history (λ _ e s p. p.1) (λ _ e s p. inl p))
                  λ _.
                    Triple-bind {R = λ _. NoCallback}
                      (Triple-if (settings o).maintain
                        (λ b. note_each-lem started (connection_macs [] macs))
                        (λ b. Triple-pure tt (λ s p. p)))
                      λ _. Triple-bind {R = λ _. NoCallback} (note_each-lem tracked macs) λ _.
                        Triple-bind register-lem λ _.
                          Triple-bind {R = λ _ s. Callbacks host macs s.on_unload}
                            (Triple-lift host.forward (λ _ e s p. p)
                              (λ _ e s p. inr (released_lem host macs s p)))
                            λ _.
                              Triple-bind {R = λ _ s. Callbacks host macs s.on_unload}
                                (Triple-modify _ (λ s p. p))
                                λ _.
                                  Triple-bind {R = λ _. IsReleased host macs}
                                    (Triple-modify _ (λ s p.
                                      listening_lem host macs _ (ap (λ l. remove_listener ∷ l) p)))
                                    λ _. Triple-pure _ (λ s p. p)
