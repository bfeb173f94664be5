-- ===== src/Golden/Fingerprint.antt =====
-- internal/golden/fingerprint.go. A string is the list of its bytes.
use gha_mac_broker.Prelude.{ℕ, List, [], ◌∷◌, ◌++◌}

abbrev pub Bytes : Type 0
Bytes = List ℕ

pub record PayloadDigest : Type 0 where
  pub name : Bytes
  pub digest : Bytes

pub record FingerprintInputs : Type 0 where
  pub base_image_ref : Bytes
  pub runner_version : Bytes
  pub runner_tarball_digest : Bytes
  pub binary_digest : Bytes
  pub payloads : List PayloadDigest

-- "base-image"
abbrev pub base_image_label : Bytes
base_image_label = 98 ∷ 97 ∷ 115 ∷ 101 ∷ 45 ∷ 105 ∷ 109 ∷ 97 ∷ 103 ∷ 101 ∷ []

-- "runner-version"
abbrev pub runner_version_label : Bytes
runner_version_label =
    114 ∷ 117 ∷ 110 ∷ 110 ∷ 101 ∷ 114 ∷ 45 ∷ 118 ∷ 101 ∷ 114 ∷ 115 ∷ 105 ∷ 111 ∷ 110 ∷ []

-- "runner-tarball"
abbrev pub runner_tarball_label : Bytes
runner_tarball_label =
    114 ∷ 117 ∷ 110 ∷ 110 ∷ 101 ∷ 114 ∷ 45 ∷ 116 ∷ 97 ∷ 114 ∷ 98 ∷ 97 ∷ 108 ∷ 108 ∷ []

-- "binary"
abbrev pub binary_label : Bytes
binary_label = 98 ∷ 105 ∷ 110 ∷ 97 ∷ 114 ∷ 121 ∷ []

-- "payload-name"
abbrev pub payload_name_label : Bytes
payload_name_label = 112 ∷ 97 ∷ 121 ∷ 108 ∷ 111 ∷ 97 ∷ 100 ∷ 45 ∷ 110 ∷ 97 ∷ 109 ∷ 101 ∷ []

-- "payload-digest"
abbrev pub payload_digest_label : Bytes
payload_digest_label =
    112 ∷ 97 ∷ 121 ∷ 108 ∷ 111 ∷ 97 ∷ 100 ∷ 45 ∷ 100 ∷ 105 ∷ 103 ∷ 101 ∷ 115 ∷ 116 ∷ []

-- writeFingerprintField, on the bytes that the hash has read: the label, "=", the value and a NUL.
unfoldable pub write_fingerprint_field : Bytes → Bytes → Bytes → Bytes
write_fingerprint_field digest label value = (((digest ++ label) ++ 61 ∷ []) ++ value) ++ 0 ∷ []

-- The loop over the sorted payloads.
unfoldable pub write_payloads : Bytes → List PayloadDigest → Bytes
unfolding write_fingerprint_field
write_payloads digest [] = digest
write_payloads digest (payload ∷ payloads) =
    write_payloads
      (write_fingerprint_field (write_fingerprint_field digest payload_name_label payload.name)
        payload_digest_label payload.digest)
      payloads

-- The bytes that Fingerprint gives to the hash. `sort_payloads` is sort.Slice by the name.
unfoldable pub fingerprint_stream :
    (List PayloadDigest → List PayloadDigest) → FingerprintInputs → Bytes
unfolding write_payloads
fingerprint_stream sort_payloads inputs =
    let d1 = write_fingerprint_field [] base_image_label inputs.base_image_ref in
    let d2 = write_fingerprint_field d1 runner_version_label inputs.runner_version in
    let d3 = write_fingerprint_field d2 runner_tarball_label inputs.runner_tarball_digest in
    let d4 = write_fingerprint_field d3 binary_label inputs.binary_digest in
    write_payloads d4 (sort_payloads inputs.payloads)

-- Fingerprint. `sum` is sha256 and `encode` is hex.EncodeToString.
unfoldable pub fingerprint :
    (List PayloadDigest → List PayloadDigest)
    → (Bytes → Bytes)
    → (Bytes → Bytes)
    → FingerprintInputs
    → Bytes
unfolding fingerprint_stream
fingerprint sort_payloads sum encode inputs = encode (sum (fingerprint_stream sort_payloads inputs))
