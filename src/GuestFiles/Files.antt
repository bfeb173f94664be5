-- ===== src/GuestFiles/Files.antt =====
-- The file replacement that internal/guestsupervisor/slots.go and token.go share, call by call.
use gha_mac_broker.Prelude.{ℕ, String, Bool, List, [], ◌∷◌, Option, none, some, if◌then◌else◌}
use gha_mac_broker.GuestExec.Maps.{insert, remove}
use gha_mac_broker.GuestExec.Keys.{id_key}

abbrev pub Bytes : Type 0
Bytes = List ℕ

pub record File : Type 0 where
  pub content : Bytes
  pub mode : ℕ

-- The files by their paths.
abbrev pub Files : Type 0
Files = List (String × File)

-- What the operating system answers to the calls: the name of the temporary file; how much a failing
-- WriteString wrote, where `none` is a write of all of it; and whether the other calls succeed.
pub record Io : Type 0 where
  pub create_temp : Option String
  pub short_write : Option Bytes
  pub closes : Bool
  pub chmods : Bool
  pub renames : Bool
  pub removes : Bool

pub data WriteError : Type 0 where
  count_not_positive create_failed write_failed close_failed chmod_failed rename_failed
        mint_failed :
      WriteError

-- The files after each of the calls, in order, and the error.
abbrev pub Written : Type 0
Written = List Files × Option WriteError

-- `os.Remove(tempName)`
unfoldable pub remove_temp : Io → String → Files → Files
unfolding remove
remove_temp io temp fs = if io.removes then remove temp fs else fs

-- From os.CreateTemp, which makes a file of mode 0600, to os.Rename.
unfoldable pub replace_file : Io → ℕ → String → Bytes → Files → Written
unfolding insert remove remove_temp
replace_file io mode path content fs = elim io.create_temp [
  | none ↦ ([], some create_failed)
  | some temp ↦
      let created = insert temp (record { content = []; mode = 384 }) fs in
      elim io.short_write [
        | some part ↦
            let partial = insert temp (record { content = part; mode = 384 }) created in
            (created ∷ partial ∷ remove_temp io temp partial ∷ [], some write_failed)
        | none ↦
            let full = insert temp (record { content = content; mode = 384 }) created in
            let ready = insert temp (record { content = content; mode = mode }) full in
            if io.closes
            then if io.chmods
              then if io.renames
                then (
                  created
                      ∷ full
                      ∷ ready
                      ∷ insert path (record { content = content; mode = mode }) (remove temp ready)
                      ∷ [],
                  none,
                )
                else (created ∷ full ∷ ready ∷ remove_temp io temp ready ∷ [], some rename_failed)
              else (created ∷ full ∷ remove_temp io temp full ∷ [], some chmod_failed)
            else (created ∷ full ∷ remove_temp io temp full ∷ [], some close_failed)
      ]
]

-- The files at the end.
abbrev pub final : Files → List Files → Files
final fs [] = fs
final fs (g ∷ gs) = final g gs
