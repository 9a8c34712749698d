-- ===== src/ManualKey/RoundTrip.antt =====
-- That a key which the form built is shown by the form again and accepted unchanged.
use ha_ttlock_ble.Base.{
  ℕ, ◌≤◌, ◌==◌, ◌≡◌, ◌≢◌, refl, ap, arith, Bool, true, false, not, Option, none, some, is_none,
  List, [], ◌∷◌, ◌++◌, length, if◌then◌else◌, All, Bool-cases, inl, inr,
}
use ha_ttlock_ble.Base.Codes.{
  Text, codes, strip, strip_left, strip_right, remove, is_digits, from_hex, hex, all_of, is_space,
}
use ha_ttlock_ble.Base.Codes.Strip.{strip_idem, strip_clean, strip-append}
use ha_ttlock_ble.Base.Codes.Hex.{
  from_hex-hex, from_hex-IsByte, length-hex, IsByte, is_hex, hex-is_hex, is_hex-no_space,
}
use ha_ttlock_ble.ManualKey.{
  Input, Outside, FormError, invalid_mac, invalid_aes_key, invalid_unlock_key,
  invalid_admin_passcode, is_mac, normalized_mac, aes_text, aes_key_bytes, or_blank, error_if,
  check_against_advertisement, bad_admin, async_validate, name_or, assembled, build, defaults_from,
}
use ha_ttlock_ble.ManualKey.Address.{normalized_mac_again, normalized_clean}

pub all_of_mono :
    (p q : ℕ → Bool) (s : Text)
    → ((c : ℕ) → p c ≡ true → q c ≡ true)
    → all_of p s ≡ true
    → all_of q s ≡ true
unfolding all_of
all_of_mono p q [] h k = refl
all_of_mono p q (c ∷ s) h k = ground (arith, h c, all_of_mono p q s h)

pub remove_absent : (c : ℕ) (s : Text) → all_of (λ d. not (d == c)) s ≡ true → remove c s ≡ s
unfolding all_of remove
remove_absent c [] h = refl
remove_absent c (d ∷ s) h = ground (arith, remove_absent c s)

module _ (s : Text) (h : all_of is_hex s ≡ true) where
  pub aes_text-hex : aes_text s ≡ s
  unfolding aes_text
  aes_text-hex =
      let e =
        strip_clean s
          (all_of_mono is_hex (λ c. not (is_space c)) s (λ c k. rw (is_hex-no_space c k) refl) h) in
      rw
        (
          e,
          remove_absent 44 s (all_of_mono is_hex (λ d. not (d == 44)) s (λ c k. ground arith) h),
          remove_absent 46 s (all_of_mono is_hex (λ d. not (d == 46)) s (λ c k. ground arith) h),
          remove_absent 32 s (all_of_mono is_hex (λ d. not (d == 32)) s (λ c k. ground arith) h),
          remove_absent 45 s (all_of_mono is_hex (λ d. not (d == 45)) s (λ c k. ground arith) h),
        )
        refl

aes_key_bytes-hex :
    (bs : List ℕ) → All IsByte bs → length bs ≡ 16 → aes_key_bytes (hex bs) ≡ some bs
unfolding aes_key_bytes
aes_key_bytes-hex bs h n =
    let e = aes_text-hex (hex bs) (hex-is_hex bs h) in
    let l : length (hex bs) ≡ 32 = omega (arith, length-hex bs, n) in
    rw e (rw l (from_hex-hex bs h))

aes_key_bytes-IsByte :
    (raw : Text) {bs : List ℕ} → aes_key_bytes raw ≡ some bs → All IsByte bs × (length bs ≤ 16)
unfolding aes_key_bytes
aes_key_bytes-IsByte raw {bs} h = elim (Bool-cases (length (aes_text raw) == 32)) [
  | inl e ↦
      let k : from_hex (aes_text raw) ≡ some bs = rw e at h in
      let b = from_hex-IsByte (aes_text raw) k in (b.0, ground (arith, b.1, e))
  | inr e ↦ let k : ◌≡◌ {A = Option (List ℕ)} none (some bs) = rw e at h in cc
]

no_errors :
    (a b c d : Bool) (l : List FormError)
    → (error_if a invalid_mac
        ++ (error_if b invalid_aes_key
            ++ (error_if c invalid_unlock_key
                ++ (error_if d invalid_admin_passcode ++ (if a then [] else l)))))
      ≡ []
    → (a ≡ false) × (b ≡ false) × (c ≡ false) × (d ≡ false) × (l ≡ [])
no_errors true b c d l h = cc
no_errors false true c d l h = cc
no_errors false false true d l h = cc
no_errors false false false true l h = cc
no_errors false false false false l h = (refl, refl, refl, refl, h)

-- The name of a key whose address is not empty and has no white space is left as it is.
default_name-strip :
    (mac : Text)
    → (mac ≢ [])
    → all_of (λ c. not (is_space c)) mac ≡ true
    → strip (codes "TTLock " ++ mac) ≡ codes "TTLock " ++ mac
default_name-strip [] ne h = absurd (ne refl)
default_name-strip (d ∷ t) ne h = strip-append 84 (codes "TLock ") d t (unfold is_space in refl) h

name_or-strip :
    (mac n : Text)
    → (mac ≢ [])
    → all_of (λ c. not (is_space c)) mac ≡ true
    → strip n ≡ n
    → (strip (name_or mac n) ≡ name_or mac n) × (name_or mac n ≢ [])
name_or-strip mac [] ne h k = (default_name-strip mac ne h, λ e. cc)
name_or-strip mac (c ∷ s) ne h k = (k, λ e. cc)

name_or-full : (mac n : Text) → (n ≢ []) → name_or mac n ≡ n
name_or-full mac [] h = absurd (h refl)
name_or-full mac (c ∷ s) h = refl

module _ (out : Outside) (i : Input) where
  abbrev mac_of : Text
  mac_of = normalized_mac out.other_upper i.lock_mac

  -- what an accepted form has
  record IsAccepted : Type 0 where
    mac : is_mac 5 (strip i.lock_mac) ≡ true
    unlock : is_digits out.other_digit (strip i.unlock_key) ≡ true
    admin : bad_admin out (strip (or_blank i.admin_passcode)) ≡ false
    advertised : check_against_advertisement out i ≡ []

  accepted : async_validate out i ≡ [] → IsAccepted
  unfolding async_validate
  accepted h =
      let (a, b, c, d, l) =
        no_errors (not (is_mac 5 (strip i.lock_mac))) (is_none (aes_key_bytes i.aes_key))
          (not (is_digits out.other_digit (strip i.unlock_key)))
          (bad_admin out (strip (or_blank i.admin_passcode))) (check_against_advertisement out i)
          h in
      record { mac = ground (arith, a); unlock = ground (arith, c); admin = d; advertised = l }

  accepted_again :
      IsAccepted → (bs : List ℕ) → aes_key_bytes i.aes_key ≡ some bs → async_validate out i ≡ []
  unfolding async_validate
  accepted_again v bs e = rw (v.mac, e, v.unlock, v.admin) (v.advertised)

mac-nonempty : (m : Text) → is_mac 5 (strip m) ≡ true → m ≢ []
mac-nonempty [] h = unfold strip strip_left strip_right is_mac in cc
mac-nonempty (c ∷ s) h = λ e. cc

module _ (out : Outside) (i : Input) (bs : List ℕ) where
  abbrev again : Input
  again = defaults_from (assembled out i bs)

  again-IsAccepted : IsAccepted out i → IsAccepted out again
  unfolding defaults_from check_against_advertisement
  again-IsAccepted v =
      let (m, e) = normalized_mac_again out.other_upper i.lock_mac v.mac in
      record {
        mac = m;
        unlock = rw (strip_idem i.unlock_key) v.unlock;
        admin = rw (strip_idem (or_blank i.admin_passcode)) v.admin;
        advertised = rw e v.advertised;
      }

  again-assembled : IsAccepted out i → assembled out again bs ≡ assembled out i bs
  unfolding defaults_from
  again-assembled v =
      let (m, e) = normalized_mac_again out.other_upper i.lock_mac v.mac in
      let mac = normalized_mac out.other_upper i.lock_mac in
      let (n, full) =
        name_or-strip mac (strip (or_blank i.lock_name)) (mac-nonempty mac m)
          (normalized_clean out.other_upper i.lock_mac v.mac) (strip_idem (or_blank i.lock_name)) in
      rw
        (
          e,
          n,
          name_or-full mac (name_or mac (strip (or_blank i.lock_name))) full,
          strip_idem i.unlock_key,
          strip_idem (or_blank i.admin_passcode),
        )
        refl

  -- A key of sixteen bytes that the form accepts is built, and the key that was built, shown by the form
  -- again, is accepted and built again as it was.
  pub build-defaults_from :
      async_validate out i ≡ []
      → aes_key_bytes i.aes_key ≡ some bs
      → length bs ≡ 16
      → (build out i ≡ some (assembled out i bs))
        × (async_validate out (defaults_from (assembled out i bs)) ≡ [])
        × (build out (defaults_from (assembled out i bs)) ≡ some (assembled out i bs))
  unfolding build
  build-defaults_from h e n =
      let v = accepted out i h in
      let k : aes_key_bytes again.aes_key ≡ some bs =
        unfold defaults_from in aes_key_bytes-hex bs (aes_key_bytes-IsByte i.aes_key e).0 n in
      (
        rw e refl,
        accepted_again out again (again-IsAccepted v) bs k,
        rw k (ap some (again-assembled v)),
      )
