-- ===== src/Golden/Roundtrip.antt =====
-- The bytes that internal/golden/fingerprint.go hashes are read back to the inputs.
use gha_mac_broker.Prelude.{
  ◌≡◌, refl, sym, ap, ◌∙◌, inl, inr, List, [], ◌∷◌, ◌++◌, Option, none, some, Has,
}
use mathlib.Core.List.{append_assoc, append-nil}
use gha_mac_broker.Golden.Fingerprint.{
  Bytes, PayloadDigest, FingerprintInputs, base_image_label, runner_version_label,
  runner_tarball_label, binary_label, payload_name_label, payload_digest_label,
  write_fingerprint_field, write_payloads, fingerprint_stream,
}
use gha_mac_broker.Golden.Fields.{
  Field, in_label, read_fields, Lacks, Reads, write_fingerprint_field-Reads,
}

abbrev pub payload_fields : List PayloadDigest → List Field
payload_fields [] = []
payload_fields (p ∷ ps) =
    (payload_name_label, p.name) ∷ (payload_digest_label, p.digest) ∷ payload_fields ps

abbrev pub payloads_of : List Field → List PayloadDigest
payloads_of [] = []
payloads_of (f ∷ []) = []
payloads_of (f ∷ g ∷ fs) = record { name = f.1; digest = g.1 } ∷ payloads_of fs

-- The inputs that the fields stand for.
abbrev pub inputs_of : List Field → Option FingerprintInputs
inputs_of (a ∷ b ∷ c ∷ d ∷ fs) = some (record {
  base_image_ref = a.1;
  runner_version = b.1;
  runner_tarball_digest = c.1;
  binary_digest = d.1;
  payloads = payloads_of fs;
})
inputs_of _ = none

pub record NulFree (inputs : FingerprintInputs) : Type 0 where
  pub base : Lacks 0 inputs.base_image_ref
  pub version : Lacks 0 inputs.runner_version
  pub tarball : Lacks 0 inputs.runner_tarball_digest
  pub binary : Lacks 0 inputs.binary_digest
  pub payload : (p : PayloadDigest) → Has p inputs.payloads → (Lacks 0 p.name) × (Lacks 0 p.digest)

payloads_of-fields : (ps : List PayloadDigest) → payloads_of (payload_fields ps) ≡ ps
payloads_of-fields [] = refl
payloads_of-fields (p ∷ ps) = ap (λ r. p ∷ r) (payloads_of-fields ps)

write_payloads-Reads :
    (d : Bytes) (fs : List Field) (ps : List PayloadDigest)
    → ((p : PayloadDigest) → Has p ps → (Lacks 0 p.name) × (Lacks 0 p.digest))
    → Reads d fs
    → Reads (write_payloads d ps) (fs ++ payload_fields ps)
unfolding write_payloads
write_payloads-Reads d fs [] clean r rest =
    r rest ∙ ap (λ x. x ++ read_fields (in_label []) rest) (sym (append-nil fs))
write_payloads-Reads d fs (p ∷ ps) clean r rest =
    let named =
      write_fingerprint_field-Reads d payload_name_label p.name fs refl (clean p (inl refl)).0 r in
    let both =
      write_fingerprint_field-Reads (write_fingerprint_field d payload_name_label p.name)
        payload_digest_label p.digest (fs ++ (payload_name_label, p.name) ∷ []) refl
        (clean p (inl refl)).1 named in
    write_payloads-Reads _ _ ps (λ q m. clean q (inr m)) both rest
    ∙ ap (λ x. x ++ read_fields (in_label []) rest)
        (append_assoc (fs ++ (payload_name_label, p.name) ∷ [])
            ((payload_digest_label, p.digest) ∷ []) (payload_fields ps)
          ∙ append_assoc fs ((payload_name_label, p.name) ∷ [])
              ((payload_digest_label, p.digest) ∷ payload_fields ps))

all_fields :
    (sort_payloads : List PayloadDigest → List PayloadDigest) (inputs : FingerprintInputs)
    → ((p : PayloadDigest) (ps : List PayloadDigest) → Has p (sort_payloads ps) → Has p ps)
    → NulFree inputs
    → read_fields (in_label []) (fingerprint_stream sort_payloads inputs)
      ≡ (base_image_label, inputs.base_image_ref)
        ∷ (runner_version_label, inputs.runner_version)
        ∷ (runner_tarball_label, inputs.runner_tarball_digest)
        ∷ (binary_label, inputs.binary_digest)
        ∷ payload_fields (sort_payloads inputs.payloads)
unfolding fingerprint_stream read_fields
all_fields sort_payloads inputs members clean =
    let d1 = write_fingerprint_field [] base_image_label inputs.base_image_ref in
    let d2 = write_fingerprint_field d1 runner_version_label inputs.runner_version in
    let d3 = write_fingerprint_field d2 runner_tarball_label inputs.runner_tarball_digest in
    let d4 = write_fingerprint_field d3 binary_label inputs.binary_digest in
    let ps = sort_payloads inputs.payloads in
    let f1 : List Field = (base_image_label, inputs.base_image_ref) ∷ [] in
    let f2 : List Field = f1 ++ (runner_version_label, inputs.runner_version) ∷ [] in
    let f3 : List Field = f2 ++ (runner_tarball_label, inputs.runner_tarball_digest) ∷ [] in
    let f4 : List Field = f3 ++ (binary_label, inputs.binary_digest) ∷ [] in
    let r1 =
      write_fingerprint_field-Reads [] base_image_label inputs.base_image_ref [] refl clean.base
        (λ rest. refl) in
    let r2 =
      write_fingerprint_field-Reads d1 runner_version_label inputs.runner_version f1 refl
        clean.version r1 in
    let r3 =
      write_fingerprint_field-Reads d2 runner_tarball_label inputs.runner_tarball_digest f2 refl
        clean.tarball r2 in
    let r4 =
      write_fingerprint_field-Reads d3 binary_label inputs.binary_digest f3 refl clean.binary r3 in
    let r =
      write_payloads-Reads d4 f4 ps (λ p m. clean.payload p (members p inputs.payloads m)) r4 in
    ap (read_fields (in_label [])) (sym (append-nil (write_payloads d4 ps)))
    ∙ r []
    ∙ append-nil (f4 ++ payload_fields ps)

-- If no string of the inputs has a NUL in it and the sort adds no payload, a reader of the bytes that
-- Fingerprint hashes gives back the four strings and the payloads in the order of the sort. So two
-- such inputs with another string or another sorted payload list hash other bytes.
pub read_fields-fingerprint_stream :
    (sort_payloads : List PayloadDigest → List PayloadDigest) (inputs : FingerprintInputs)
    → ((p : PayloadDigest) (ps : List PayloadDigest) → Has p (sort_payloads ps) → Has p ps)
    → NulFree inputs
    → inputs_of (read_fields (in_label []) (fingerprint_stream sort_payloads inputs))
      ≡ some (record inputs { payloads = sort_payloads inputs.payloads })
unfolding fingerprint_stream
read_fields-fingerprint_stream sort_payloads inputs members clean =
    ap inputs_of (all_fields sort_payloads inputs members clean)
    ∙ ap (λ ps. some (record inputs { payloads = ps }))
        (payloads_of-fields (sort_payloads inputs.payloads))
