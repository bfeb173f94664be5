-- ===== src/GuestFiles/Examples.antt =====
-- Tests of internal/guestsupervisor, and its theorems at concrete inputs.
use gha_mac_broker.Prelude.{
  ◌≡◌, ◌≢◌, ◌⊎◌, refl, String, true, false, [], ◌∷◌, Option, none, some, All, arith,
}
use gha_mac_broker.GuestExec.Maps.{lookup}
use gha_mac_broker.GuestExec.Keys.{id_key}
use gha_mac_broker.GuestFiles.Files.{Bytes, File, Files, Io, WriteError, final}
use gha_mac_broker.GuestFiles.Decimal.{digits, format_uint, parse_uint}
use gha_mac_broker.GuestFiles.Slots.{write_slot_count, read_seeded_slot_count, await_slot_count}
use gha_mac_broker.GuestFiles.Token.{ensure_boot_token}
use gha_mac_broker.GuestFiles.Seeded.{write_slot_count-read_seeded_slot_count}
use gha_mac_broker.GuestFiles.Restart.{ensure_boot_token-restart}

abbrev io : Io
io = record {
  create_temp = some "/tmp/.gha-1";
  short_write = none;
  closes = true;
  chmods = true;
  renames = true;
  removes = true;
}

abbrev untrimmed : Bytes → Bytes
untrimmed bs = bs

other_name : (temp : String) → some "/tmp/.gha-1" ≡ some temp → temp ≢ "/tmp/gha"
other_name temp e q = cc

prints : format_uint 420 ≡ 52 ∷ 50 ∷ 48 ∷ []
unfolding digits
prints = refl

-- 2 ^ 32 does not fit, and neither does a letter.
refuses :
    (parse_uint (52 ∷ 50 ∷ 57 ∷ 52 ∷ 57 ∷ 54 ∷ 55 ∷ 50 ∷ 57 ∷ 54 ∷ []) ≡ none)
    × (parse_uint (52 ∷ 97 ∷ []) ≡ none)
    × (parse_uint [] ≡ none)
unfolding parse_uint
refuses = (refl, refl, refl)

-- The file is seeded at the second turn; without it the deadline gives the fallback.
awaits :
    (await_slot_count untrimmed 1 (
        record { seen = none; deadline = false }
        ∷ record { seen = some (record { content = 50 ∷ []; mode = 420 }); deadline = true }
        ∷ [])
      ≡ some 2)
    × (await_slot_count untrimmed 1 (record { seen = none; deadline = true } ∷ []) ≡ some 1)
unfolding await_slot_count
awaits = (refl, refl)

write_slot_count-read_seeded_slot_count_example :
    let w = write_slot_count io "/tmp/gha" 12 [] in
    let poll = λ (g : Files). read_seeded_slot_count untrimmed (lookup "/tmp/gha" g) in
    All (λ g. (poll g ≡ poll []) ⊎ (poll g ≡ some 12)) w.0
    × (((w.1 ≡ none) × (poll (final [] w.0) ≡ some 12))
        ⊎ ((e : WriteError) × (w.1 ≡ some e) × (poll (final [] w.0) ≡ poll [])))
write_slot_count-read_seeded_slot_count_example =
    write_slot_count-read_seeded_slot_count untrimmed io "/tmp/gha" 12 [] (λ bs g. refl) other_name
      (omega arith) (omega arith)

abbrev bytes : Option Bytes
bytes = some (171 ∷ [])

abbrev token : Bytes
token = 97 ∷ 98 ∷ []

minted : (ensure_boot_token untrimmed io [] "/tmp/gha" bytes []).0 ≡ some token
unfolding ensure_boot_token
minted = refl

ensure_boot_token-restart_example :
    let kept : Option File = some (record { content = token; mode = 384 }) in
    let fs = final [] (ensure_boot_token untrimmed io [] "/tmp/gha" bytes []).1.0 in
    let again = ensure_boot_token untrimmed io [] "/tmp/gha" none fs in
    (lookup "/tmp/gha" fs ≡ kept)
    × (lookup "/tmp/gha" (final fs again.1.0) ≡ kept)
    × ((again.0 ≡ some token) ⊎ ((e : WriteError) × (again.1.1 ≡ some e)))
ensure_boot_token-restart_example =
    ensure_boot_token-restart untrimmed io io [] "/tmp/gha" bytes none [] token (λ bs g. refl)
      (λ bs. refl) refl (λ e. absurd (cc)) other_name other_name minted
