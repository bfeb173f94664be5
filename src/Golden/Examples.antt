-- ===== src/Golden/Examples.antt =====
-- The theorems of internal/golden at concrete inputs.
use mathlib.Core.List.{Permᴰ}
use mathlib.Core.List.Permᴰ
use gha_mac_broker.Prelude.{
  ℕ, ◌≡◌, ◌≢◌, refl, ap, subst, inl, inr, false, List, [], ◌∷◌, ◌++◌, some, Has, if◌then◌else◌,
  arith,
}
use gha_mac_broker.Golden.Fingerprint.{
  Bytes, runner_tarball_label, PayloadDigest, FingerprintInputs, fingerprint_stream, fingerprint,
}
use gha_mac_broker.Golden.Fields.{Lacks, in_label, read_fields}
use gha_mac_broker.Golden.Roundtrip.{inputs_of, NulFree, read_fields-fingerprint_stream}
use gha_mac_broker.Golden.Order.{less, IsSortOf, Distinct, fingerprint_perm}

-- A payload "b" and a payload "a", with the digests "2" and "1".
abbrev second : PayloadDigest
second = record { name = 98 ∷ []; digest = 50 ∷ [] }

abbrev first : PayloadDigest
first = record { name = 97 ∷ []; digest = 49 ∷ [] }

abbrev inputs : FingerprintInputs
inputs = record {
  base_image_ref = 120 ∷ 61 ∷ 49 ∷ [];
  runner_version = 50 ∷ 46 ∷ 48 ∷ [];
  runner_tarball_digest = 97 ∷ 98 ∷ [];
  binary_digest = 99 ∷ [];
  payloads = second ∷ first ∷ [];
}

inputs-NulFree : NulFree inputs
inputs-NulFree = record {
  base = refl;
  version = refl;
  tarball = refl;
  binary = refl;
  payload = clean;
}
  where
    clean :
        (p : PayloadDigest) → Has p (second ∷ first ∷ []) → (Lacks 0 p.name) × (Lacks 0 p.digest)
    clean p (inl q) = subst (λ x. (Lacks 0 x.name) × (Lacks 0 x.digest)) q (refl, refl)
    clean p (inr (inl q)) = subst (λ x. (Lacks 0 x.name) × (Lacks 0 x.digest)) q (refl, refl)
    clean p (inr (inr m)) = absurd m

read_fields-fingerprint_stream_example :
    inputs_of (read_fields (in_label []) (fingerprint_stream (λ ps. ps) inputs)) ≡ some inputs
read_fields-fingerprint_stream_example =
    read_fields-fingerprint_stream (λ ps. ps) inputs (λ p ps m. m) inputs-NulFree

-- Insertion sort by the name.
unfoldable insert_payload : PayloadDigest → List PayloadDigest → List PayloadDigest
unfolding less
insert_payload p [] = p ∷ []
insert_payload p (q ∷ qs) =
    let rest = insert_payload p qs in if less q.name p.name then q ∷ rest else p ∷ q ∷ qs

unfoldable sort_payloads : List PayloadDigest → List PayloadDigest
unfolding insert_payload
sort_payloads [] = []
sort_payloads (p ∷ ps) = insert_payload p (sort_payloads ps)

given_sorted : IsSortOf (second ∷ first ∷ []) (sort_payloads (second ∷ first ∷ []))
unfolding sort_payloads less
given_sorted = record { perm = Permᴰ.swap refl refl; ordered = (after, (λ q m. absurd m, tt)) }
  where
    after : (q : PayloadDigest) → Has q (second ∷ []) → less q.name first.name ≡ false
    after q (inl e) = subst (λ x. less x.name first.name ≡ false) e refl
    after q (inr m) = absurd m

kept_sorted : IsSortOf (first ∷ second ∷ []) (sort_payloads (first ∷ second ∷ []))
unfolding sort_payloads less
kept_sorted = record {
  perm = Permᴰ.refl (first ∷ second ∷ []);
  ordered = (after, (λ q m. absurd m, tt));
}
  where
    after : (q : PayloadDigest) → Has q (second ∷ []) → less q.name first.name ≡ false
    after q (inl e) = subst (λ x. less x.name first.name ≡ false) e refl
    after q (inr m) = absurd m

abbrev head_of : Bytes → ℕ
head_of [] = 0
head_of (b ∷ bs) = b

names_differ : Distinct (second ∷ first ∷ [])
names_differ = (other, (λ q m. absurd m, tt))
  where
    other : (q : PayloadDigest) → Has q (first ∷ []) → second.name ≢ q.name
    other q (inl e) =
        subst (λ x. second.name ≢ x.name) e
          (λ z. let heads : 98 ≡ 97 = ap head_of z in absurd (omega arith))
    other q (inr m) = absurd m

fingerprint_perm_example :
    fingerprint sort_payloads (λ d. d) (λ d. d) (record inputs { payloads = first ∷ second ∷ [] })
    ≡ fingerprint sort_payloads (λ d. d) (λ d. d) inputs
fingerprint_perm_example =
    fingerprint_perm sort_payloads (λ d. d) (λ d. d) inputs (first ∷ second ∷ []) given_sorted
      kept_sorted names_differ (Permᴰ.swap refl refl)

-- With a NUL in a value, different inputs hash the same bytes: the runner version "2" and the tarball
-- digest "3<NUL>runner-tarball=4", and the version "2<NUL>runner-tarball=3" and the digest "4".
abbrev nul_label : Bytes
nul_label = 0 ∷ (runner_tarball_label ++ 61 ∷ [])

collides :
    fingerprint_stream sort_payloads (record inputs {
      runner_version = 50 ∷ [];
      runner_tarball_digest = (51 ∷ []) ++ nul_label ++ 52 ∷ [];
    })
    ≡ fingerprint_stream sort_payloads (record inputs {
      runner_version = (50 ∷ []) ++ nul_label ++ 51 ∷ [];
      runner_tarball_digest = 52 ∷ [];
    })
unfolding fingerprint_stream
collides = refl
