-- ===== src/Tracker.antt =====
-- custom_components/ttlock_ble/advertisement.py: the tracker that hands advertisements to the coordinator. The
-- SDK's decoder and `format_mac` are parameters.
use ha_ttlock_ble.Base.{
  ℕ, suc, String, true, false, Option, none, some, List, [], ◌∷◌, if◌then◌else◌, str_eq, eq_iff,
  ◌≡◌, refl, arith, Bool-cases, inl, inr, Exists, ◌⊎◌,
}
use ha_ttlock_ble.Coordinator.State.{Coordinator, Advertisement, has_state, apply_advertisement}
use ha_ttlock_ble.Coordinator.Register.{register, register-advertise}

-- The SDK's `LockAdvertisement`: the address it carries, and what it says.
pub record LockAdvertisement : Type 0 where
  pub lock_mac : String
  pub says : Advertisement

pub record Decoder : Type 0 where
  pub format_mac : String → String
  pub from_manufacturer_data : ℕ → List ℕ → Option LockAdvertisement

module _ (decoder : Decoder) where
  abbrev pub accepted :
      String → Option LockAdvertisement → Option Advertisement → Option Advertisement
  accepted expected none later = later
  accepted expected (some a) later =
      if str_eq (decoder.format_mac a.lock_mac) expected then some a.says else later

  -- the loop of `_decode`
  unfoldable pub decode_in : String → List (ℕ × List ℕ) → Option Advertisement
  decode_in expected [] = none
  decode_in expected ((company_id, payload) ∷ rest) =
      accepted expected (decoder.from_manufacturer_data company_id payload)
        (decode_in expected rest)

  -- `_decode`
  unfoldable pub decode : String → List (ℕ × List ℕ) → Option Advertisement
  decode mac packet = decode_in (decoder.format_mac mac) packet

  -- `_async_on_advertisement`; a poll that is asked for is counted
  abbrev pub adopt : String → Option Advertisement → Coordinator → Coordinator
  adopt mac (some a) c = apply_advertisement mac a c
  adopt mac none c = if has_state mac c then c else record c { refreshes = suc c.refreshes }

  unfoldable pub on_advertisement : String → List (ℕ × List ℕ) → Coordinator → Coordinator
  on_advertisement mac packet c = adopt mac (decode mac packet) c

  -- an entry that decodes as an advertisement of the lock
  abbrev pub IsOwn : String → Advertisement → ℕ × List ℕ → Type 0
  IsOwn mac a e =
      (l : LockAdvertisement) × (decoder.from_manufacturer_data e.0 e.1 ≡ some l)
      × (decoder.format_mac l.lock_mac ≡ decoder.format_mac mac)
      × (l.says ≡ a)

  accepted-lem :
      (mac : String) (o : Option LockAdvertisement) (e : ℕ × List ℕ) (packet : List (ℕ × List ℕ))
      {a : Advertisement}
      → decoder.from_manufacturer_data e.0 e.1 ≡ o
      → accepted (decoder.format_mac mac) o (decode_in (decoder.format_mac mac) packet) ≡ some a
      → (decode_in (decoder.format_mac mac) packet ≡ some a → Exists (IsOwn mac a) packet)
      → Exists (IsOwn mac a) (e ∷ packet)
  accepted-lem mac none e packet d h rest = inr (rest h)
  accepted-lem mac (some l) e packet d h rest =
      elim (Bool-cases (str_eq (decoder.format_mac l.lock_mac) (decoder.format_mac mac))) [
        | inl own ↦ inl (
          l,
          d,
          (eq_iff (decoder.format_mac l.lock_mac) (decoder.format_mac mac)).0 own,
          ground (arith, h, own),
        )
        | inr foreign ↦ inr (rest (ground (arith, h, foreign)))
      ]

  decode-IsOwn :
      (mac : String) (packet : List (ℕ × List ℕ)) {a : Advertisement}
      → decode_in (decoder.format_mac mac) packet ≡ some a
      → Exists (IsOwn mac a) packet
  unfolding decode_in
  decode-IsOwn mac [] h = cc
  decode-IsOwn mac (e ∷ packet) h =
      accepted-lem mac (decoder.from_manufacturer_data e.0 e.1) e packet refl h
        (λ k. decode-IsOwn mac packet k)

  -- what a packet did to the coordinator
  abbrev pub IsPassive : String → List (ℕ × List ℕ) → Coordinator → Coordinator → Type 0
  IsPassive mac packet c d =
      ((a : Advertisement) × Exists (IsOwn mac a) packet × (d ≡ apply_advertisement mac a c))
      ⊎ ((d ≡ c) × (has_state mac c ≡ true))
      ⊎ ((d ≡ record c { refreshes = suc c.refreshes }) × (has_state mac c ≡ false))

  adopt-IsPassive :
      (mac : String) (packet : List (ℕ × List ℕ)) (c : Coordinator) (o : Option Advertisement)
      → decode mac packet ≡ o
      → IsPassive mac packet c (adopt mac o c)
        × ((m : String) → register m (adopt mac o c) ≡ register m c)
  unfolding decode
  adopt-IsPassive mac packet c (some a) h =
      (inl (a, decode-IsOwn mac packet h, refl), λ m. register-advertise m mac a c)
  adopt-IsPassive mac packet c none h = elim (Bool-cases (has_state mac c)) [
    | inl known ↦ (inr (inl (rw known refl, known)), λ m. rw known refl)
    | inr unknown ↦
        (inr (inr (rw unknown refl, unknown)), λ m. rw unknown (unfold register in refl))
  ]

  -- Whatever a packet holds, the tracker leaves the newest observation of every lock as it is; it hands
  -- on only what an entry of the packet says that carries the lock's own address, and otherwise asks for
  -- a poll exactly if the lock's state is unknown.
  pub on_advertisement-IsPassive :
      (mac : String) (packet : List (ℕ × List ℕ)) (c : Coordinator)
      → IsPassive mac packet c (on_advertisement mac packet c)
        × ((m : String) → register m (on_advertisement mac packet c) ≡ register m c)
  unfolding on_advertisement
  on_advertisement-IsPassive mac packet c = adopt-IsPassive mac packet c (decode mac packet) refl
