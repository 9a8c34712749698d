-- ===== src/Credentials/Material.antt =====
-- The material of a reference in credential_references.py tells its parts apart.
use ha_ttlock_ble.Base.Texts.{has}
use ha_ttlock_ble.Base.Errors.{Exc, value_error}
use ha_ttlock_ble.Base.Exec.{Result, ok, err, ◌>>=◌}
use ha_ttlock_ble.Base.{
  str_eq, not, ◌||◌, ℕ, String, Bool, true, false, Option, none, some, List, [], ◌∷◌, ◌++◌, length,
  ltb, ◌≡◌, refl, sym, ◌∙◌, ap, arith, Bool-cases, inl, inr,
}
use ha_ttlock_ble.Credentials.{
  methods, References, Vault, to_bytes4, framed, material, is_empty, parts_of, hashed, derive,
  from_verified_record,
}

append_inj : (s s' t t' : List ℕ) → length s ≡ length s' → s ++ t ≡ s' ++ t' → (s ≡ s') × (t ≡ t')
append_inj [] [] t t' n h = (refl, h)
append_inj [] (b ∷ s') t t' n h = ground (arith, n)
append_inj (a ∷ s) [] t t' n h = ground (arith, n)
append_inj (a ∷ s) (b ∷ s') t t' n h =
    ground (arith, append_inj s s' t t' (ground (arith, n)) (ground (arith, h)), h)

to_bytes4_inj : (m n : ℕ) → to_bytes4 m ≡ to_bytes4 n → m ≡ n
to_bytes4_inj m n h = ground (arith, h)

err_ok : {e : Exc} {t : String} → ◌≡◌ {A = Result String} (err e) (ok t) → ⊥
err_ok h = cc

ok_inj : {t u : String} → ◌≡◌ {A = Result String} (ok t) (ok u) → t ≡ u
ok_inj h = cc

cons_inj : {x y : List ℕ} {xs ys : List (List ℕ)} → x ∷ xs ≡ y ∷ ys → (x ≡ y) × (xs ≡ ys)
cons_inj h = (cc, cc)

-- the frame of a part
framed-some :
    (b : Bool) (part : List ℕ) (o : Option (List ℕ)) {m : List ℕ}
    → framed b part o ≡ some m
    → (rest : List ℕ) × (o ≡ some rest) × (to_bytes4 (length part) ++ (part ++ rest) ≡ m)
framed-some true part (some rest) h = (rest, refl, cc)
framed-some true part none h = cc
framed-some false part none h = cc
framed-some false part (some rest) h = cc

-- the first part and the rest of a material
unframed :
    (p q r r' : List ℕ)
    → to_bytes4 (length p) ++ (p ++ r) ≡ to_bytes4 (length q) ++ (q ++ r')
    → (p ≡ q) × (r ≡ r')
unframed p q r r' h =
    let (hd, tl) =
      append_inj (to_bytes4 (length p)) (to_bytes4 (length q)) (p ++ r) (q ++ r') refl h in
    append_inj p q r r' (to_bytes4_inj (length p) (length q) hd) tl

material_inj :
    (ps qs : List (List ℕ)) {m : List ℕ}
    → length ps ≡ length qs
    → material ps ≡ some m
    → material qs ≡ some m
    → ps ≡ qs
unfolding material
material_inj [] [] n h k = refl
material_inj [] (q ∷ qs) n h k = ground (arith, n)
material_inj (p ∷ ps) [] n h k = ground (arith, n)
material_inj (p ∷ ps) (q ∷ qs) n h k =
    let (r, hr, er) = framed-some (ltb (length p) 4294967296) p (material ps) h in
    let (r', hr', er') = framed-some (ltb (length q) 4294967296) q (material qs) k in
    let (same, rest) = unframed p q r r' (er ∙ sym er') in
    ap (λ x. x ∷ ps) same
    ∙ ap (λ x. q ∷ x) (material_inj ps qs (ground (arith, n)) hr (hr' ∙ ap some (sym rest)))

-- What a returned reference is the keyed hash of.
abbrev pub IsHashed :
    Vault → References → (lock method epoch : String) → List ℕ → String → List ℕ → Type 0
IsHashed vault s lock method epoch identifier token m =
    (material (parts_of vault lock method epoch identifier) ≡ some m)
    × (key : List ℕ) × (s.key ≡ some key)
    × (vault.hmac_sha256 key m ≡ token)

module _ (vault : Vault) (s : References) where
  hashed_lem :
      (key : List ℕ) (o : Option (List ℕ)) {token : String}
      → hashed vault key o s ≡ (ok token, s)
      → (m : List ℕ) × (o ≡ some m) × (vault.hmac_sha256 key m ≡ token)
  hashed_lem key none h = absurd (err_ok (ap (λ r. r.0) h))
  hashed_lem key (some m) h = (m, refl, ok_inj (ap (λ r. r.0) h))

  derive_lem :
      (o : Option (List ℕ)) (lock method epoch : String) (identifier : List ℕ) {token : String}
      → s.key ≡ o
      → derive vault o lock method epoch identifier s ≡ (ok token, s)
      → (m : List ℕ) × IsHashed vault s lock method epoch identifier token m
  derive_lem none lock method epoch identifier e h = absurd (err_ok (ap (λ r. r.0) h))
  derive_lem (some key) lock method epoch identifier {token} e h =
      elim (Bool-cases (not (has method methods) || str_eq epoch "" || is_empty identifier)) [
        | inl b ↦
            let k : ◌≡◌ {A = Result String × References} (err value_error, s) (ok token, s) =
              rw b at h in
            absurd (err_ok (ap (λ r. r.0) k))
        | inr b ↦
            let (m, f, t) =
              hashed_lem key (material (parts_of vault lock method epoch identifier)) (rw b at h) in
            (m, (f, key, e, t))
      ]

module _ (vault : Vault) (encode_inj : (a b : String) → vault.encode a ≡ vault.encode b → a ≡ b)
    (s : References) where
  -- Where UTF-8 tells texts apart, two references that were derived with the same key are its hashes of
  -- two materials, and these are equal only if lock, method, epoch and identifier are.
  pub from_verified_record-Apart :
      (lock method epoch : String) (identifier : List ℕ) (token : String)
      (lock' method' epoch' : String) (identifier' : List ℕ) (token' : String)
      → from_verified_record vault lock method epoch identifier s ≡ (ok token, s)
      → from_verified_record vault lock' method' epoch' identifier' s ≡ (ok token', s)
      → (m m' : List ℕ) × IsHashed vault s lock method epoch identifier token m
        × IsHashed vault s lock' method' epoch' identifier' token' m'
        × (m ≡ m'
            → (lock ≡ lock') × (method ≡ method') × (epoch ≡ epoch') × (identifier ≡ identifier'))
  unfolding from_verified_record ◌>>=◌
  from_verified_record-Apart lock method epoch identifier token lock' method' epoch' identifier'
        token' h k =
      let (m, f) = derive_lem vault s s.key lock method epoch identifier refl h in
      let (m', g) = derive_lem vault s s.key lock' method' epoch' identifier' refl k in
      (
        m,
        m',
        f,
        g,
        λ e.
            let same =
              material_inj (parts_of vault lock method epoch identifier)
                (parts_of vault lock' method' epoch' identifier') refl f.0
                (g.0 ∙ ap some (sym e)) in
            let (a, t) = cons_inj same in
            let (b, u) = cons_inj t in
            let (c, v) = cons_inj u in
            (
              encode_inj lock lock' a,
              encode_inj method method' b,
              encode_inj epoch epoch' c,
              (cons_inj v).0,
            ),
      )
