-- ===== src/GuestFiles/Slots.antt =====
-- internal/guestsupervisor/slots.go.
use gha_mac_broker.Prelude.{ℕ, String, Bool, List, [], ◌∷◌, Option, none, some, ◌==◌, if◌then◌else◌}
use gha_mac_broker.GuestExec.Keys.{id_key}
use gha_mac_broker.GuestFiles.Files.{
  Bytes, File, Files, Io, count_not_positive, Written, replace_file,
}
use gha_mac_broker.GuestFiles.Decimal.{format_uint, parse_uint}

-- WriteSlotCount; the mode is 0644.
unfoldable pub write_slot_count : Io → String → ℕ → Files → Written
unfolding replace_file
write_slot_count io path slot_count fs =
    if slot_count == 0
    then ([], some count_not_positive)
    else replace_file io 420 path (format_uint slot_count) fs

-- readSeededSlotCount of a file, which may be absent. `trim_space` is strings.TrimSpace.
unfoldable pub read_seeded_slot_count : (Bytes → Bytes) → Option File → Option ℕ
unfolding parse_uint
read_seeded_slot_count trim_space file = elim file [
  | none ↦ none
  | some f ↦ elim (parse_uint (trim_space f.content)) [
    | none ↦ none
    | some parsed ↦ if parsed == 0 then none else some parsed
  ]
]

-- A turn of AwaitSlotCount's loop: the file that it reads, and whether the deadline ends the wait.
pub record Turn : Type 0 where
  pub seen : Option File
  pub deadline : Bool

-- AwaitSlotCount, which still waits after the turns if it gives none.
unfoldable pub await_slot_count : (Bytes → Bytes) → ℕ → List Turn → Option ℕ
unfolding read_seeded_slot_count
await_slot_count trim_space fallback [] = none
await_slot_count trim_space fallback (t ∷ ts) =
    let rest = await_slot_count trim_space fallback ts in
    elim (read_seeded_slot_count trim_space t.seen) [
      | some slot_count ↦ some slot_count
      | none ↦ if t.deadline then some fallback else rest
    ]
