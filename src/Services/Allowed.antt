-- ===== src/Services/Allowed.antt =====
-- That a write of passcodes goes only to a lock whose administrator allows it.
use ha_ttlock_ble.Base.{
  ℕ, String, true, false, ◌==◌, Option, none, some, List, [], ◌∷◌, ◌≡◌, subst, arith, inl, inr,
  Bool-cases, Option-cases, Exists,
}
use ha_ttlock_ble.Base.Texts.{has}
use ha_ttlock_ble.Services.{
  ServiceEntry, Host, device_macs, connection_of, find_connection, mac_of, permits, is_permitted,
}

module _ (host : Host) where
  -- The entry is loaded and holds the connection for an address of the device.
  abbrev pub Serves : List String → ℕ → ServiceEntry → Type 0
  Serves macs c e =
      (e.loaded ≡ true)
      × Exists (λ m. (m.1 ≡ c) × (has (host.format_mac m.0) macs ≡ true)) e.connections

  -- The entry is loaded, holds the connection, has its records, and no opt-out for that address.
  abbrev pub Permits : ℕ → ServiceEntry → Type 0
  Permits c e =
      (e.loaded ≡ true)
      × Exists (λ m. (m.1 ≡ c) × (permits host e.records m.0 ≡ true)) e.connections

  connection_of-lem :
      (macs : List String) (l : List (String × ℕ)) {c : ℕ}
      → connection_of host macs l ≡ some c
      → Exists (λ m. (m.1 ≡ c) × (has (host.format_mac m.0) macs ≡ true)) l
  unfolding connection_of
  connection_of-lem macs [] h = cc
  connection_of-lem macs ((mac, d) ∷ l) h = elim (Bool-cases (has (host.format_mac mac) macs)) [
    | inl e ↦ inl (ground (arith, h, e), e)
    | inr e ↦ inr (connection_of-lem macs l (ground (arith, h, e)))
  ]

  pub find-Serves :
      (macs : List String) (es : List ServiceEntry) {c : ℕ}
      → find_connection host macs es ≡ some c
      → Exists (Serves macs c) es
  unfolding find_connection
  find-Serves macs [] h = cc
  find-Serves macs (e ∷ es) {c = c} h = elim (Bool-cases e.loaded) [
    | inr off ↦ inr (find-Serves macs es (ground (arith, h, off)))
    | inl on ↦ elim (Option-cases (connection_of host macs e.connections)) [
      | inl no_one ↦ inr (find-Serves macs es (ground (arith, h, on, no_one)))
      | inr (d, found) ↦
          let same : d ≡ c = ground (arith, h, on, found) in
          inl (
            on,
            subst
                (λ x.
                  Exists (λ m. (m.1 ≡ x) × (has (host.format_mac m.0) macs ≡ true)) e.connections)
                same (connection_of-lem macs e.connections found),
          )
    ]
  ]

  mac_of-some :
      (records : Option (List String)) (c : ℕ) (l : List (String × ℕ)) {mac : String}
      → mac_of host c l ≡ some mac
      → permits host records mac ≡ true
      → Exists (λ m. (m.1 ≡ c) × (permits host records m.0 ≡ true)) l
  unfolding mac_of
  mac_of-some records c [] h p = cc
  mac_of-some records c ((mac, d) ∷ l) {mac = m} h p = elim (Bool-cases (d == c)) [
    | inl e ↦
        let same : m ≡ mac = ground (arith, h, e) in
        inl (ground (arith, e), subst (λ x. permits host records x ≡ true) same p)
    | inr e ↦ inr (mac_of-some records c l (ground (arith, h, e)) p)
  ]

  -- an entry whose connections hold it
  abbrev Holds : ℕ → ServiceEntry → Type 0
  Holds c e = (e.loaded ≡ true) × Exists (λ m. m.1 ≡ c) e.connections

  mac_of-none :
      (c : ℕ) (l : List (String × ℕ)) → mac_of host c l ≡ none → Exists (λ m. m.1 ≡ c) l → ⊥
  unfolding mac_of
  mac_of-none c [] h x = x
  mac_of-none c ((mac, d) ∷ l) h (inl e) = ground (arith, h, e)
  mac_of-none c ((mac, d) ∷ l) h (inr x) = mac_of-none c l (ground (arith, h)) x

  pub permitted-Permits :
      (c : ℕ) (es : List ServiceEntry)
      → is_permitted host c es ≡ true
      → Exists (Holds c) es
      → Exists (Permits c) es
  unfolding is_permitted
  permitted-Permits c [] h x = x
  permitted-Permits c (e ∷ es) h x = elim (Bool-cases e.loaded) [
    | inr off ↦ inr (permitted-Permits c es (ground (arith, h, off)) (later_off x off))
    | inl on ↦ elim (Option-cases (mac_of host c e.connections)) [
      | inl no_one ↦
          inr (permitted-Permits c es (ground (arith, h, on, no_one)) (later_none x no_one))
      | inr (mac, found) ↦
          inl (on, mac_of-some e.records c e.connections found (ground (arith, h, on, found)))
    ]
  ]
    where
      later_off : Exists (Holds c) (e ∷ es) → e.loaded ≡ false → Exists (Holds c) es
      later_off (inl q) off = cc (q.0, off)
      later_off (inr y) off = y

      later_none :
          Exists (Holds c) (e ∷ es) → mac_of host c e.connections ≡ none → Exists (Holds c) es
      later_none (inl q) no_one = absurd (mac_of-none c e.connections no_one q.1)
      later_none (inr y) no_one = y

  pub Exists-map :
      {A : Type 0} {P Q : A → Type 0}
      → ((a : A) → P a → Q a)
      → (xs : List A) → Exists P xs
      → Exists Q xs
  Exists-map f [] x = x
  Exists-map f (a ∷ xs) (inl p) = inl (f a p)
  Exists-map f (a ∷ xs) (inr x) = inr (Exists-map f xs x)

  pub Serves-Holds : (macs : List String) (c : ℕ) (e : ServiceEntry) → Serves macs c e → Holds c e
  Serves-Holds macs c e s = (s.0, Exists-map (λ m q. q.0) e.connections s.1)

  -- what is known of the connection that a write goes to
  abbrev pub IsLegacyTarget : String → ℕ → Type 0
  IsLegacyTarget device_id c =
      (identifiers : List (String × String)) × (host.device device_id ≡ some identifiers)
      × Exists (Serves (device_macs host identifiers) c) host.entries
      × Exists (Permits c) host.entries
