-- ===== src/GuestFiles/Token.antt =====
-- internal/guestsupervisor/token.go.
use gha_mac_broker.Prelude.{
  ℕ, ◌+◌, ◌/◌, ◌%◌, String, [], ◌∷◌, Option, none, some, ltb, if◌then◌else◌,
}
use gha_mac_broker.GuestExec.Maps.{lookup}
use gha_mac_broker.GuestExec.Keys.{id_key}
use gha_mac_broker.GuestFiles.Files.{Bytes, File, Files, Io, mint_failed, Written, replace_file}

-- A digit of hex.EncodeToString.
abbrev pub hex_digit : ℕ → ℕ
hex_digit n = if ltb n 10 then 48 + n else 87 + n

abbrev pub hex_encode : Bytes → Bytes
hex_encode [] = []
hex_encode (b ∷ bs) = hex_digit (b / 16 % 16) ∷ hex_digit (b % 16) ∷ hex_encode bs

-- readBootToken of a file, which may be absent. `trim_space` is strings.TrimSpace.
unfoldable pub read_boot_token : (Bytes → Bytes) → Option File → Bytes
read_boot_token trim_space none = []
read_boot_token trim_space (some f) = trim_space f.content

-- MintToken, of the bytes that rand.Read gives, or of its failure.
unfoldable pub mint_token : Option Bytes → Option Bytes
mint_token none = none
mint_token (some entropy) = some (hex_encode entropy)

-- WriteTokenFile; the mode is 0600.
unfoldable pub write_token_file : Io → String → Bytes → Files → Written
unfolding replace_file
write_token_file io path token fs = replace_file io 384 path token fs

-- The token that EnsureBootToken writes, if it gets one.
unfoldable pub choose_token : (Bytes → Bytes) → Bytes → Option Bytes → Option File → Option Bytes
unfolding read_boot_token mint_token
choose_token trim_space [] entropy file = elim (read_boot_token trim_space file) [
  | [] ↦ mint_token entropy
  | b ∷ bs ↦ some (b ∷ bs)
]
choose_token trim_space (c ∷ cs) entropy file = some (c ∷ cs)

-- EnsureBootToken: the token, or the error, and the files after each call.
unfoldable pub ensure_boot_token :
    (Bytes → Bytes) → Io → Bytes → String → Option Bytes → Files → Option Bytes × Written
unfolding choose_token write_token_file lookup
ensure_boot_token trim_space io env_token path entropy fs =
    elim (choose_token trim_space env_token entropy (lookup path fs)) [
      | none ↦ (none, ([], some mint_failed))
      | some token ↦
          let written = write_token_file io path token fs in
          elim written.1 [ none ↦ (some token, written) | some e ↦ (none, written) ]
    ]
