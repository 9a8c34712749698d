-- ===== src/ConfigFlow/Apart.antt =====
-- That an entry never takes over a lock of another one.
use ha_ttlock_ble.Base.{
  String, true, false, Option, List, [], ◌∷◌, ◌≡◌, ◌⊎◌, inl, inr, arith, All, Bool-cases,
}
use ha_ttlock_ble.Base.Codes.{text_eq_iff}
use ha_ttlock_ble.ManualKey.{VirtualKey}
use ha_ttlock_ble.ConfigFlow.{
  Entry, World, holds_lock, is_ignored, lock_configured, any_lock_configured,
}

module _ (world : World) where
  abbrev pub SameLock : VirtualKey → VirtualKey → Type 0
  SameLock a b = world.outside.format_mac a.lock_mac ≡ world.outside.format_mac b.lock_mac

  -- No key of the list stands for a lock of an entry that is not ignored.
  abbrev pub AreApart : Option String → List VirtualKey → List Entry → Type 0
  AreApart ignored keys es =
      All
        (λ k.
          All (λ e. (is_ignored ignored e ≡ true) ⊎ All (λ held. SameLock held k → ⊥) e.stored.keys)
            es)
        keys

  holds_lock-lem :
      (k : VirtualKey) (held : List VirtualKey)
      → holds_lock world (world.outside.format_mac k.lock_mac) held ≡ false
      → All (λ h. SameLock h k → ⊥) held
  unfolding holds_lock
  holds_lock-lem k [] h = tt
  holds_lock-lem k (x ∷ xs) h = (
    λ e. ground (
      arith,
      h,
      e,
      text_eq_iff (world.outside.format_mac x.lock_mac) (world.outside.format_mac k.lock_mac),
    ),
    holds_lock-lem k xs (ground (arith, h)),
  )

  configured-lem :
      (ignored : Option String) (k : VirtualKey) (es : List Entry)
      → lock_configured world ignored (world.outside.format_mac k.lock_mac) es ≡ false
      → All
          (λ e. (is_ignored ignored e ≡ true) ⊎ All (λ held. SameLock held k → ⊥) e.stored.keys)
          es
  unfolding lock_configured
  configured-lem ignored k [] h = tt
  configured-lem ignored k (e ∷ es) h = (
    elim (Bool-cases (is_ignored ignored e)) [
      | inl skip ↦ inl skip
      | inr other ↦ inr (holds_lock-lem k e.stored.keys (ground (arith, h, other)))
    ],
    configured-lem ignored k es (ground (arith, h)),
  )

  pub any-AreApart :
      (ignored : Option String) (keys : List VirtualKey) (es : List Entry)
      → any_lock_configured world ignored keys es ≡ false
      → AreApart ignored keys es
  unfolding any_lock_configured
  any-AreApart ignored [] es h = tt
  any-AreApart ignored (k ∷ ks) es h = (
    configured-lem ignored k es (ground (arith, h)),
    any-AreApart ignored ks es (ground (arith, h)),
  )
