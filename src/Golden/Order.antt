-- ===== src/Golden/Order.antt =====
-- The order of the payloads in internal/golden/fingerprint.go.
use mathlib.Core.List.{Permᴰ}
use mathlib.Core.List.Permᴰ
use gha_mac_broker.Prelude.{
  ◌≡◌, ◌≢◌, refl, sym, ap, ◌∙◌, subst, inl, inr, Bool, true, false, Bool-cases, ltb, ◌==◌,
  if◌then◌else◌, arith, List, [], ◌∷◌, Has,
}
use gha_mac_broker.Golden.Fingerprint.{Bytes, PayloadDigest, FingerprintInputs, fingerprint}

-- The order `<` of Go's strings, by their bytes.
unfoldable pub less : Bytes → Bytes → Bool
less [] [] = false
less [] (b ∷ bs) = true
less (a ∷ as_) [] = false
less (a ∷ as_) (b ∷ bs) =
    let rest = less as_ bs in if ltb a b then true else if a == b then rest else false

less_asym : (a b : Bytes) → less a b ≡ true → less b a ≡ true → ⊥
unfolding less
less_asym [] [] l m = cc
less_asym [] (b ∷ bs) l m = cc
less_asym (a ∷ as_) [] l m = cc
less_asym (a ∷ as_) (b ∷ bs) l m = ground (arith, l, m, less_asym as_ bs)

less_total : (a b : Bytes) → less a b ≡ false → less b a ≡ false → a ≡ b
unfolding less
less_total [] [] l m = refl
less_total [] (b ∷ bs) l m = cc
less_total (a ∷ as_) [] l m = cc
less_total (a ∷ as_) (b ∷ bs) l m =
    let q : a ≡ b = ground (arith, l, m) in
    let r = less_total as_ bs (ground (arith, l, q)) (ground (arith, m, q)) in
    ap (λ x. x ∷ as_) q ∙ ap (λ x. b ∷ x) r

-- A relation that holds of every member and each later one.
abbrev pub Pairs : (PayloadDigest → PayloadDigest → Type 0) → List PayloadDigest → Type 0
Pairs R [] = Unit
Pairs R (p ∷ ps) = ((q : PayloadDigest) → Has q ps → R p q) × Pairs R ps

Has-perm : {xs ys : List PayloadDigest} (p : PayloadDigest) → Permᴰ xs ys → Has p xs → Has p ys
Has-perm p Permᴰ.nil m = m
Has-perm p (Permᴰ.cons e d) (inl q) = inl (sym e ∙ q)
Has-perm p (Permᴰ.cons e d) (inr m) = inr (Has-perm p d m)
Has-perm p (Permᴰ.swap e f) (inl q) = inr (inl (sym e ∙ q))
Has-perm p (Permᴰ.swap e f) (inr (inl q)) = inl (sym f ∙ q)
Has-perm p (Permᴰ.swap e f) (inr (inr m)) = inr (inr m)
Has-perm p (Permᴰ.trans d c) m = Has-perm p c (Has-perm p d m)

Pairs-perm :
    (R : PayloadDigest → PayloadDigest → Type 0) {xs ys : List PayloadDigest}
    → ((p q : PayloadDigest) → R p q → R q p)
    → Permᴰ xs ys
    → Pairs R xs
    → Pairs R ys
Pairs-perm R flip Permᴰ.nil h = h
Pairs-perm R flip (Permᴰ.cons e d) h =
    (λ q m. subst (λ x. R x q) e (h.0 q (Has-perm q (Permᴰ.symm d) m)), Pairs-perm R flip d h.1)
Pairs-perm R flip (Permᴰ.swap {a} {b} {a'} {b'} {l} e f) h = (first, (second, h.1.1))
  where
    first : (q : PayloadDigest) → Has q (b' ∷ l) → R a' q
    first q (inl s) =
        subst (λ x. R a' x) (e ∙ s) (subst (λ x. R x a) f (flip a b (h.0 b (inl refl))))
    first q (inr m) = subst (λ x. R x q) f (h.1.0 q m)

    second : (q : PayloadDigest) → Has q l → R b' q
    second q m = subst (λ x. R x q) e (h.0 q (inr m))
Pairs-perm R flip (Permᴰ.trans d c) h = Pairs-perm R flip c (Pairs-perm R flip d h)

-- Lists with the same members, each before the greater ones, are equal.
unique :
    (R : PayloadDigest → PayloadDigest → Type 0) (xs ys : List PayloadDigest)
    → ((p q : PayloadDigest) → R p q → R q p → ⊥)
    → Pairs R xs
    → Pairs R ys
    → ((p : PayloadDigest) → Has p xs → Has p ys)
    → ((p : PayloadDigest) → Has p ys → Has p xs)
    → xs ≡ ys
unique R [] [] asym hx hy to fro = refl
unique R [] (y ∷ ys) asym hx hy to fro = absurd (fro y (inl refl))
unique R (x ∷ xs) [] asym hx hy to fro = absurd (to x (inl refl))
unique R (x ∷ xs) (y ∷ ys) asym hx hy to fro =
    let heads : x ≡ y = same (to x (inl refl)) (fro y (inl refl)) in
    ap (λ z. z ∷ xs) heads
    ∙ ap (λ zs. y ∷ zs)
        (unique R xs ys asym hx.1 hy.1 (λ p m. down heads p m (to p (inr m)))
          (λ p m. up heads p m (fro p (inr m))))
  where
    same : Has x (y ∷ ys) → Has y (x ∷ xs) → x ≡ y
    same (inl q) n = sym q
    same (inr m) (inl q) = q
    same (inr m) (inr n) = absurd (asym x y (hx.0 y n) (hy.0 x m))

    down : x ≡ y → (p : PayloadDigest) → Has p xs → Has p (y ∷ ys) → Has p ys
    down h p m (inr n) = n
    down h p m (inl q) =
        let r : R p p = subst (λ z. R z p) (h ∙ q) (hx.0 p m) in absurd (asym p p r r)

    up : x ≡ y → (p : PayloadDigest) → Has p ys → Has p (x ∷ xs) → Has p xs
    up h p m (inr n) = n
    up h p m (inl q) =
        let r : R p p = subst (λ z. R z p) (sym h ∙ q) (hy.0 p m) in absurd (asym p p r r)

abbrev pub Before : PayloadDigest → PayloadDigest → Type 0
Before p q = less p.name q.name ≡ true

-- What sort.Slice by the name makes of `ps`: a reordering in which no member is less than an earlier
-- one.
pub record IsSortOf (ps qs : List PayloadDigest) : Type 0 where
  pub perm : Permᴰ ps qs
  pub ordered : Pairs (λ p q. less q.name p.name ≡ false) qs

abbrev pub Distinct : List PayloadDigest → Type 0
Distinct = Pairs (λ p q. p.name ≢ q.name)

strict :
    (ps : List PayloadDigest)
    → Pairs (λ p q. less q.name p.name ≡ false) ps
    → Distinct ps
    → Pairs Before ps
strict [] o d = tt
strict (p ∷ ps) o d = (λ q m. before q (o.0 q m) (d.0 q m), strict ps o.1 d.1)
  where
    before : (q : PayloadDigest) → less q.name p.name ≡ false → p.name ≢ q.name → Before p q
    before q l n = elim (Bool-cases (less p.name q.name)) [
      | inl y ↦ y
      | inr z ↦ absurd (n (less_total p.name q.name z l))
    ]

-- The order in which the payloads are given does not change the fingerprint: inputs that are equal
-- but for a reordering of the payloads, which have different names, hash the same bytes.
pub fingerprint_perm :
    (sort_payloads : List PayloadDigest → List PayloadDigest) (sum encode : Bytes → Bytes)
    (inputs : FingerprintInputs) (ps : List PayloadDigest)
    → IsSortOf inputs.payloads (sort_payloads inputs.payloads)
    → IsSortOf ps (sort_payloads ps)
    → Distinct inputs.payloads
    → Permᴰ inputs.payloads ps
    → fingerprint sort_payloads sum encode (record inputs { payloads = ps })
      ≡ fingerprint sort_payloads sum encode inputs
unfolding fingerprint
fingerprint_perm sort_payloads sum encode inputs ps s z d perm =
    let qs = inputs.payloads in
    let ds : Distinct (sort_payloads qs) =
      Pairs-perm (λ p q. p.name ≢ q.name) (λ p q n e. n (sym e)) s.perm d in
    let dp : Distinct (sort_payloads ps) =
      Pairs-perm (λ p q. p.name ≢ q.name) (λ p q n e. n (sym e)) (Permᴰ.trans perm z.perm) d in
    let across : Permᴰ (sort_payloads qs) (sort_payloads ps) =
      Permᴰ.trans (Permᴰ.symm s.perm) (Permᴰ.trans perm z.perm) in
    let same : sort_payloads ps ≡ sort_payloads qs =
      unique Before (sort_payloads ps) (sort_payloads qs) (λ p q. less_asym p.name q.name)
        (strict (sort_payloads ps) z.ordered dp) (strict (sort_payloads qs) s.ordered ds)
        (λ p m. Has-perm p (Permᴰ.symm across) m) (λ p m. Has-perm p across m) in
    ap (λ x. encode (sum x)) (rw same refl)
