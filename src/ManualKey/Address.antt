-- ===== src/ManualKey/Address.antt =====
-- The normalized address of manual_key.py: it is accepted, and is its own normalized form.
use ha_ttlock_ble.Base.{
  ℕ, zero, suc, ◌-◌, ◌==◌, ◌≡◌, refl, sym, ap, ◌∙◌, arith, Bool, true, false, not, ◌&&◌, ◌||◌, [],
  ◌∷◌, map, leb, if◌then◌else◌,
}
use ha_ttlock_ble.Base.Codes.{Text, strip, replace, upper, all_of, is_space}
use ha_ttlock_ble.Base.Codes.Strip.{strip_clean}
use ha_ttlock_ble.ManualKey.{is_hex_char, is_mac_separator, is_mac, normalized_mac}

module _ (other : ℕ → Text) where
  -- the normalized form of the characters of an address
  abbrev norm : Text → Text
  norm s = upper other (replace 45 58 s)

  abbrev norm_char : ℕ → ℕ
  norm_char c = if c == 45 then 58 else (if leb 97 c && leb c 122 then c - 32 else c)

  norm-cons :
      (c : ℕ) (s : Text)
      → (is_hex_char c || is_mac_separator c) ≡ true
      → norm (c ∷ s) ≡ (norm_char c ∷ norm s)
  unfolding upper replace
  norm-cons c s h = ground arith

  -- what the normalized form of a character of an address is
  record IsNormal (c d : ℕ) : Type 0 where
    hex_char : is_hex_char c ≡ is_hex_char d
    separator : is_mac_separator c ≡ is_mac_separator d
    again : norm_char d ≡ d
    no_space : is_space d ≡ false

  norm_char-IsNormal :
      (c : ℕ) → (is_hex_char c || is_mac_separator c) ≡ true → IsNormal c (norm_char c)
  unfolding is_space
  norm_char-IsNormal c h = ground arith

  norm-normal :
      (c : ℕ) (t : Text)
      → (is_hex_char c || is_mac_separator c) ≡ true
      → norm (norm_char c ∷ t) ≡ (norm_char c ∷ norm t)
  norm-normal c t h =
      let v = norm_char-IsNormal c h in
      let h' : (is_hex_char (norm_char c) || is_mac_separator (norm_char c)) ≡ true =
        rw (← v.hex_char, ← v.separator) h in
      norm-cons (norm_char c) t h' ∙ ap (λ d. d ∷ norm t) v.again

  abbrev is_mac_char : ℕ → Bool
  is_mac_char c = is_hex_char c || is_mac_separator c

  norm-map : (s : Text) → all_of is_mac_char s ≡ true → norm s ≡ map norm_char s
  unfolding all_of
  norm-map [] h = unfold upper replace in refl
  norm-map (c ∷ s) h =
      norm-cons c s (ground arith) ∙ ap (λ t. norm_char c ∷ t) (norm-map s (ground arith))

  norm_again : (s : Text) → all_of is_mac_char s ≡ true → norm (map norm_char s) ≡ map norm_char s
  unfolding all_of
  norm_again [] h = unfold upper replace in refl
  norm_again (c ∷ s) h =
      norm-normal c (map norm_char s) (ground arith)
      ∙ ap (λ t. norm_char c ∷ t) (norm_again s (ground arith))

  norm_clean :
      (s : Text)
      → all_of is_mac_char s ≡ true
      → all_of (λ c. not (is_space c)) (map norm_char s) ≡ true
  unfolding all_of
  norm_clean [] h = refl
  norm_clean (c ∷ s) h =
      let v = norm_char-IsNormal c (ground arith) in rw (v.no_space) (norm_clean s (ground arith))

  is_mac-chars : (n : ℕ) (s : Text) → is_mac n s ≡ true → all_of is_mac_char s ≡ true
  unfolding is_mac all_of
  is_mac-chars zero [] h = cc
  is_mac-chars zero (a ∷ []) h = cc
  is_mac-chars zero (a ∷ b ∷ []) h = ground arith
  is_mac-chars zero (a ∷ b ∷ c ∷ s) h = cc
  is_mac-chars (suc n) [] h = cc
  is_mac-chars (suc n) (a ∷ []) h = cc
  is_mac-chars (suc n) (a ∷ b ∷ []) h = cc
  is_mac-chars (suc n) (a ∷ b ∷ c ∷ s) h = ground (arith, is_mac-chars n s)

  normal_hex : (c : ℕ) → is_hex_char c ≡ true → is_hex_char (norm_char c) ≡ true
  normal_hex c h =
      let p : is_mac_char c ≡ true = rw h refl in sym ((norm_char-IsNormal c p).hex_char) ∙ h

  normal_separator : (c : ℕ) → is_mac_separator c ≡ true → is_mac_separator (norm_char c) ≡ true
  normal_separator c h =
      let p : is_mac_char c ≡ true = ground arith in sym ((norm_char-IsNormal c p).separator) ∙ h

  mac_last :
      (a b : ℕ) → is_hex_char a ≡ true → is_hex_char b ≡ true → is_mac zero (a ∷ b ∷ []) ≡ true
  unfolding is_mac
  mac_last a b ha hb = rw (ha, hb) refl

  mac_more :
      (n a b c : ℕ) (s : Text)
      → is_hex_char a ≡ true
      → is_hex_char b ≡ true
      → is_mac_separator c ≡ true
      → is_mac n s ≡ true
      → is_mac (suc n) (a ∷ b ∷ c ∷ s) ≡ true
  unfolding is_mac
  mac_more n a b c s ha hb hc h = rw (ha, hb, hc) h

  -- what an accepted text of more than two characters has
  mac_parts :
      (n a b c : ℕ) (s : Text)
      → is_mac (suc n) (a ∷ b ∷ c ∷ s) ≡ true
      → (is_hex_char a ≡ true)
        × (is_hex_char b ≡ true)
        × (is_mac_separator c ≡ true)
        × (is_mac n s ≡ true)
  unfolding is_mac
  mac_parts n a b c s h = ground arith

  is_mac-map : (n : ℕ) (s : Text) → is_mac n s ≡ true → is_mac n (map norm_char s) ≡ true
  is_mac-map zero [] h = unfold is_mac in cc
  is_mac-map zero (a ∷ []) h = unfold is_mac in cc
  is_mac-map zero (a ∷ b ∷ []) h =
      mac_last (norm_char a) (norm_char b) (normal_hex a (unfold is_mac in ground arith))
        (normal_hex b (unfold is_mac in ground arith))
  is_mac-map zero (a ∷ b ∷ c ∷ s) h = unfold is_mac in cc
  is_mac-map (suc n) [] h = unfold is_mac in cc
  is_mac-map (suc n) (a ∷ []) h = unfold is_mac in cc
  is_mac-map (suc n) (a ∷ b ∷ []) h = unfold is_mac in cc
  is_mac-map (suc n) (a ∷ b ∷ c ∷ s) h =
      let (ha, hb, hc, hs) = mac_parts n a b c s h in
      mac_more n (norm_char a) (norm_char b) (norm_char c) (map norm_char s) (normal_hex a ha)
        (normal_hex b hb) (normal_separator c hc) (is_mac-map n s hs)

  pub normalized_clean :
      (raw : Text)
      → is_mac 5 (strip raw) ≡ true
      → all_of (λ c. not (is_space c)) (normalized_mac other raw) ≡ true
  unfolding normalized_mac
  normalized_clean raw h =
      let chars = is_mac-chars 5 (strip raw) h in
      ap (all_of (λ c. not (is_space c))) (norm-map (strip raw) chars)
      ∙ norm_clean (strip raw) chars

  -- An address that the form accepts is accepted in its normalized form, which is its own.
  pub normalized_mac_again :
      (raw : Text)
      → is_mac 5 (strip raw) ≡ true
      → (is_mac 5 (strip (normalized_mac other raw)) ≡ true)
        × (normalized_mac other (normalized_mac other raw) ≡ normalized_mac other raw)
  unfolding normalized_mac
  normalized_mac_again raw h =
      let chars = is_mac-chars 5 (strip raw) h in
      let e = norm-map (strip raw) chars in
      let clean = strip_clean (map norm_char (strip raw)) (norm_clean (strip raw) chars) in
      (
        ap (λ t. is_mac 5 (strip t)) e ∙ ap (is_mac 5) clean ∙ is_mac-map 5 (strip raw) h,
        ap (λ t. norm (strip t)) e ∙ ap norm clean ∙ norm_again (strip raw) chars ∙ sym e,
      )
