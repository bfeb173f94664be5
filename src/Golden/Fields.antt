-- ===== src/Golden/Fields.antt =====
-- A reader of the labelled fields that internal/golden/fingerprint.go writes.
use gha_mac_broker.Prelude.{
  ℕ, ◌≡◌, refl, sym, ap, ◌∙◌, false, List, [], ◌∷◌, ◌++◌, ◌==◌, any, if◌then◌else◌, arith,
}
use mathlib.Core.List.{append_assoc, append-nil}
use gha_mac_broker.Golden.Fingerprint.{Bytes, write_fingerprint_field}

-- A label and a value.
abbrev pub Field : Type 0
Field = Bytes × Bytes

-- The part of a field that the reader stands in, with what it has read of it.
pub data Reader : Type 0 where
  in_label : Bytes → Reader
  in_value : Bytes → Bytes → Reader

-- A label ends at "=" and a value at a NUL.
abbrev pub read_byte : Reader → ℕ → Reader × List Field
read_byte (in_label l) b = if b == 61 then (in_value l [], []) else (in_label (l ++ b ∷ []), [])
read_byte (in_value l v) b =
    if b == 0 then (in_label [], (l, v) ∷ []) else (in_value l (v ++ b ∷ []), [])

unfoldable pub read_fields : Reader → Bytes → List Field
read_fields s [] = []
read_fields s (b ∷ bs) = let next = read_byte s b in next.1 ++ read_fields next.0 bs

abbrev pub Lacks : ℕ → Bytes → Type 0
Lacks c bs = any (λ b. b == c) bs ≡ false

read_label :
    (l label rest : Bytes)
    → Lacks 61 label
    → read_fields (in_label l) (label ++ 61 ∷ rest) ≡ read_fields (in_value (l ++ label) []) rest
unfolding read_fields
read_label l [] rest h = rw (append-nil l) refl
read_label l (b ∷ bs) rest h =
    let next = read_label (l ++ b ∷ []) bs rest (ground (arith, h)) in
    ground (arith, h, next, append_assoc l (b ∷ []) bs)

read_value :
    (l v value rest : Bytes)
    → Lacks 0 value
    → read_fields (in_value l v) (value ++ 0 ∷ rest)
      ≡ (l, v ++ value) ∷ read_fields (in_label []) rest
unfolding read_fields
read_value l v [] rest h = rw (append-nil v) refl
read_value l v (b ∷ bs) rest h =
    let next = read_value l (v ++ b ∷ []) bs rest (ground (arith, h)) in
    ground (arith, h, next, append_assoc v (b ∷ []) bs)

-- The bytes hold these fields, whatever follows them.
abbrev pub Reads : Bytes → List Field → Type 0
Reads d fs =
    (rest : Bytes) → read_fields (in_label []) (d ++ rest) ≡ fs ++ read_fields (in_label []) rest

field_bytes :
    (d label value rest : Bytes)
    → write_fingerprint_field d label value ++ rest ≡ d ++ (label ++ 61 ∷ (value ++ 0 ∷ rest))
unfolding write_fingerprint_field
field_bytes d label value rest =
    append_assoc (((d ++ label) ++ 61 ∷ []) ++ value) (0 ∷ []) rest
    ∙ append_assoc ((d ++ label) ++ 61 ∷ []) value (0 ∷ rest)
    ∙ append_assoc (d ++ label) (61 ∷ []) (value ++ 0 ∷ rest)
    ∙ append_assoc d label (61 ∷ (value ++ 0 ∷ rest))

pub write_fingerprint_field-Reads :
    (d label value : Bytes) (fs : List Field)
    → Lacks 61 label
    → Lacks 0 value
    → Reads d fs
    → Reads (write_fingerprint_field d label value) (fs ++ (label, value) ∷ [])
write_fingerprint_field-Reads d label value fs no_eq no_nul r rest =
    ap (read_fields (in_label [])) (field_bytes d label value rest)
    ∙ r (label ++ 61 ∷ (value ++ 0 ∷ rest))
    ∙ ap (λ x. fs ++ x)
        (read_label [] label (value ++ 0 ∷ rest) no_eq ∙ read_value label [] value rest no_nul)
    ∙ sym (append_assoc fs ((label, value) ∷ []) (read_fields (in_label []) rest))
