-- ===== src/GuestExec/Maps.antt =====
-- The two maps of internal/guestexec/registry.go as association lists: one entry for a key.
use gha_mac_broker.Prelude.{
  ◌≡◌, Bool, true, false, List, [], ◌∷◌, Option, none, some, ◌↔◌, arith, if◌then◌else◌,
}

-- Equality of keys.
pub record Key (K : Type 0) : Type 0 where
  pub same : K → K → Bool
  pub same_iff : (a b : K) → (same a b ≡ true) ↔ (a ≡ b)

module _ {K V : Type 0} ⦃k : Key K⦄ where
  unfoldable pub lookup : K → List (K × V) → Option V
  lookup a [] = none
  lookup a ((b, v) ∷ m) = if k.same b a then some v else lookup a m

  -- `delete(m, a)`
  unfoldable pub remove : K → List (K × V) → List (K × V)
  remove a [] = []
  remove a ((b, v) ∷ m) = let rest = remove a m in if k.same b a then rest else (b, v) ∷ rest

  -- `m[a] = v`
  unfoldable pub insert : K → V → List (K × V) → List (K × V)
  unfolding remove
  insert a v m = (a, v) ∷ remove a m

  pub lookup-remove :
      (a b : K) (m : List (K × V))
      → lookup b (remove a m) ≡ (if k.same a b then none else lookup b m)
  unfolding lookup remove
  lookup-remove a b [] = ground arith
  lookup-remove a b ((c, v) ∷ m) =
      ground (arith, lookup-remove a b m, k.same_iff c a, k.same_iff a b, k.same_iff c b)

  pub lookup-insert :
      (a b : K) (v : V) (m : List (K × V))
      → lookup b (insert a v m) ≡ (if k.same a b then some v else lookup b m)
  unfolding lookup insert
  lookup-insert a b v m = ground (arith, lookup-remove a b m)

  pub lookup-insert_same : (a : K) (v : V) (m : List (K × V)) → lookup a (insert a v m) ≡ some v
  lookup-insert_same a v m = ground (arith, lookup-insert a a v m, k.same_iff a a)

  pub lookup-insert_other :
      (a b : K) (v : V) (m : List (K × V))
      → k.same a b ≡ false
      → lookup b (insert a v m) ≡ lookup b m
  lookup-insert_other a b v m e = ground (arith, lookup-insert a b v m, e)

  pub lookup-remove_other :
      (a b : K) (m : List (K × V)) → k.same a b ≡ false → lookup b (remove a m) ≡ lookup b m
  lookup-remove_other a b m e = ground (arith, lookup-remove a b m, e)
