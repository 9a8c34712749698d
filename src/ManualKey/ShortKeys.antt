-- ===== src/ManualKey/ShortKeys.antt =====
-- What `_aes_key_bytes` of manual_key.py makes of a text with tabs inside.
use ha_ttlock_ble.Base.{
  ℕ, ◌/◌, ◌%◌, ◌==◌, ◌≡◌, refl, ◌∙◌, arith, Bool, true, not, ◌||◌, none, some, List, [], ◌∷◌, ◌++◌,
  length, All,
}
use ha_ttlock_ble.Base.Codes.{Text, strip, from_hex, hex, hex_digit, all_of, is_space}
use ha_ttlock_ble.Base.Codes.Strip.{strip-append}
use ha_ttlock_ble.Base.Codes.Hex.{
  from_hex-hex, from_hex_byte, from_hex_tab, hex_digit-is_hex, length-hex, IsByte, is_hex,
  hex-is_hex, is_hex-no_space,
}
use ha_ttlock_ble.ManualKey.{aes_text, aes_key_bytes}
use ha_ttlock_ble.ManualKey.RoundTrip.{all_of_mono, remove_absent, aes_text-hex}

-- the text: two digits, two tabs, and the digits of the other bytes
abbrev pub with_tabs : ℕ → ℕ → List ℕ → Text
with_tabs b c bs = hex (b ∷ []) ++ 9 ∷ 9 ∷ hex (c ∷ bs)

module _ (b c : ℕ) (bs : List ℕ) (hb : IsByte b) (hc : IsByte c) (hbs : All IsByte bs) where
  abbrev hex_or_tab : ℕ → Bool
  hex_or_tab d = is_hex d || d == 9

  tabs-chars : all_of hex_or_tab (with_tabs b c bs) ≡ true
  unfolding hex all_of
  tabs-chars =
      let h = all_of_mono is_hex hex_or_tab (hex bs) (λ d k. rw k refl) (hex-is_hex bs hbs) in
      ground (arith, h)

  tabs-strip : strip (with_tabs b c bs) ≡ with_tabs b c bs
  unfolding hex
  tabs-strip =
      strip-append (hex_digit (b / 16)) (hex_digit (b % 16) ∷ 9 ∷ 9 ∷ []) (hex_digit (c / 16))
        (hex_digit (c % 16) ∷ hex bs) (is_hex-no_space _ (hex_digit-is_hex (b / 16) (omega arith)))
        (all_of_mono is_hex (λ d. not (is_space d)) (hex (c ∷ bs))
          (λ d k. rw (is_hex-no_space d k) refl) (hex-is_hex (c ∷ bs) (hc, hbs)))

  tabs-text : aes_text (with_tabs b c bs) ≡ with_tabs b c bs
  unfolding aes_text
  tabs-text =
      rw
        (
          tabs-strip,
          remove_absent 44 (with_tabs b c bs)
              (all_of_mono hex_or_tab (λ d. not (d == 44)) _ (λ d k. ground arith) tabs-chars),
          remove_absent 46 (with_tabs b c bs)
              (all_of_mono hex_or_tab (λ d. not (d == 46)) _ (λ d k. ground arith) tabs-chars),
          remove_absent 32 (with_tabs b c bs)
              (all_of_mono hex_or_tab (λ d. not (d == 32)) _ (λ d k. ground arith) tabs-chars),
          remove_absent 45 (with_tabs b c bs)
              (all_of_mono hex_or_tab (λ d. not (d == 45)) _ (λ d k. ground arith) tabs-chars),
        )
        refl

  tabs-from_hex : from_hex (with_tabs b c bs) ≡ some (b ∷ c ∷ bs)
  unfolding hex
  tabs-from_hex = from_hex_byte b (9 ∷ 9 ∷ hex (c ∷ bs)) hb (
      from_hex_tab (9 ∷ hex (c ∷ bs))
      ∙ from_hex_tab (hex (c ∷ bs))
      ∙ from_hex-hex (c ∷ bs) (hc, hbs))

  -- A text of fifteen bytes in hexadecimal with two tabs after the first byte is accepted as a key of
  -- these fifteen bytes, and the hexadecimal that is stored of it is refused.
  pub aes_key_bytes_short :
      length bs ≡ 13
      → (aes_key_bytes (with_tabs b c bs) ≡ some (b ∷ c ∷ bs))
        × (aes_key_bytes (hex (b ∷ c ∷ bs)) ≡ none)
  unfolding aes_key_bytes
  aes_key_bytes_short n =
      let l : length (with_tabs b c bs) ≡ 32 = unfold hex in omega (arith, length-hex bs, n) in
      let k : length (hex (b ∷ c ∷ bs)) ≡ 30 = unfold hex in omega (arith, length-hex bs, n) in
      (
        rw tabs-text (rw l tabs-from_hex),
        rw (aes_text-hex (hex (b ∷ c ∷ bs)) (hex-is_hex (b ∷ c ∷ bs) (hb, (hc, hbs)))) (rw k refl),
      )
