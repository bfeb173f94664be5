-- ===== src/GuestFiles/Seeded.antt =====
-- The slot count of internal/guestsupervisor/slots.go from the host to the guest.
use gha_mac_broker.Prelude.{
  ℕ, suc, ◌≤◌, ◌<◌, ◌≡◌, ◌≢◌, refl, sym, ap, ◌∙◌, subst, ◌⊎◌, inl, inr, Option-cases, String, List,
  [], ◌∷◌, Option, none, some, All, Has, arith,
}
use gha_mac_broker.GuestExec.Maps.{lookup}
use gha_mac_broker.GuestExec.Keys.{id_key}
use gha_mac_broker.GuestFiles.Files.{Bytes, File, Files, Io, WriteError, replace_file, final}
use gha_mac_broker.GuestFiles.Decimal.{
  format_uint, parse_digits-digits, parse_digits-parse_uint, digits-All, parse_uint,
}
use gha_mac_broker.GuestFiles.Slots.{write_slot_count, read_seeded_slot_count}
use gha_mac_broker.GuestFiles.Atomic.{IsAtomic, replace_file-IsAtomic}

-- ASCII characters other than white space and control characters.
abbrev pub Graphic : Bytes → Type 0
Graphic = All (λ b. (33 ≤ b) × (b ≤ 126))

digits-Graphic : (bs : Bytes) → All (λ b. (48 ≤ b) × (b ≤ 57)) bs → Graphic bs
digits-Graphic [] h = tt
digits-Graphic (b ∷ bs) h = ((omega (arith, h.0.0), omega (arith, h.0.1)), digits-Graphic bs h.1)

read_parsed :
    (trim_space : Bytes → Bytes) (content : Bytes) (n mode : ℕ)
    → parse_uint (trim_space content) ≡ some n
    → 0 < n
    → read_seeded_slot_count trim_space (some (record { content = content; mode = mode })) ≡ some n
unfolding read_seeded_slot_count
read_parsed trim_space content n mode parsed pos = ground (arith, parsed, pos)

read_back :
    (trim_space : Bytes → Bytes) (n mode : ℕ)
    → ((bs : Bytes) → Graphic bs → trim_space bs ≡ bs)
    → 0 < n
    → n < 4294967296
    → read_seeded_slot_count trim_space (some (record { content = format_uint n; mode = mode }))
      ≡ some n
read_back trim_space n mode trims pos small =
    let kept = trims (format_uint n) (digits-Graphic (format_uint n) (digits-All (suc n) n)) in
    let parsed =
      parse_digits-parse_uint n (format_uint n) pos
        (parse_digits-digits (suc n) n (omega arith) small) in
    read_parsed trim_space (format_uint n) n mode (ap parse_uint kept ∙ parsed) pos

All-of-Has : {A : Type 0} (P : A → Type 0) (xs : List A) → ((x : A) → Has x xs → P x) → All P xs
All-of-Has P [] k = tt
All-of-Has P (x ∷ xs) k = (k x (inl refl), All-of-Has P xs (λ y m. k y (inr m)))

-- A slot count from 1 up to the largest uint32 that the host writes is what the guest reads: while
-- the file is replaced, each poll reads what it read before or this count, so never a part of it;
-- after a write without an error it reads this count, and after one with an error what it read
-- before. The temporary file has another name, and trimming keeps graphic ASCII text.
pub write_slot_count-read_seeded_slot_count :
    (trim_space : Bytes → Bytes) (io : Io) (path : String) (n : ℕ) (fs : Files)
    → ((bs : Bytes) → Graphic bs → trim_space bs ≡ bs)
    → ((temp : String) → io.create_temp ≡ some temp → temp ≢ path)
    → 0 < n
    → n < 4294967296
    → let w = write_slot_count io path n fs in
      let poll = λ (g : Files). read_seeded_slot_count trim_space (lookup path g) in
      All (λ g. (poll g ≡ poll fs) ⊎ (poll g ≡ some n)) w.0
      × (((w.1 ≡ none) × (poll (final fs w.0) ≡ some n))
          ⊎ ((e : WriteError) × (w.1 ≡ some e) × (poll (final fs w.0) ≡ poll fs)))
unfolding write_slot_count
write_slot_count-read_seeded_slot_count trim_space io path n fs trims other pos small =
    let file : File = record { content = format_uint n; mode = 420 } in
    let w = replace_file-IsAtomic io 420 path (format_uint n) fs other in
    let same : write_slot_count io path n fs ≡ replace_file io 420 path (format_uint n) fs =
      ground (arith, pos) in
    let a : IsAtomic path file fs (write_slot_count io path n fs) =
      subst (IsAtomic path file fs) (sym same) w in
    let back = read_back trim_space n 420 trims pos small in
    let read : Option File → Option ℕ = read_seeded_slot_count trim_space in
    (
      All-of-Has _ (write_slot_count io path n fs).0
          (λ g m. elim (a.each g m) [ inl q ↦ inl (ap read q) | inr q ↦ inr (ap read q ∙ back) ]),
      elim (Option-cases (write_slot_count io path n fs).1) [
        | inl ok ↦ inl (ok, ap read (a.done ok) ∙ back)
        | inr (e, bad) ↦ inr (e, bad, ap read (a.undone e bad))
      ],
    )
