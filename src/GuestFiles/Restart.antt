-- ===== src/GuestFiles/Restart.antt =====
-- The boot token of internal/guestsupervisor/token.go over a restart of the guest agent.
use mathlib.Core.Option.{some-injective}
use gha_mac_broker.Prelude.{
  ℕ, ◌/◌, ◌%◌, ◌≤◌, ◌<◌, ◌≡◌, ◌≢◌, refl, sym, ap, ◌∙◌, subst, ◌⊎◌, inl, inr, String, [], ◌∷◌,
  Option, none, some, option_cases, arith,
}
use gha_mac_broker.GuestExec.Maps.{lookup}
use gha_mac_broker.GuestExec.Keys.{id_key}
use gha_mac_broker.GuestFiles.Files.{
  Bytes, File, Files, Io, WriteError, mint_failed, Written, replace_file, final,
}
use gha_mac_broker.GuestFiles.Token.{
  hex_digit, hex_encode, read_boot_token, mint_token, write_token_file, choose_token,
  ensure_boot_token,
}
use gha_mac_broker.GuestFiles.Atomic.{replace_file-IsAtomic}
use gha_mac_broker.GuestFiles.Seeded.{Graphic}

hex_digit-bounds : (n : ℕ) → n < 16 → (33 ≤ hex_digit n) × (hex_digit n ≤ 126)
hex_digit-bounds n h = (ground (arith, h), ground (arith, h))

hex_encode-Graphic : (bs : Bytes) → Graphic (hex_encode bs)
hex_encode-Graphic [] = tt
hex_encode-Graphic (b ∷ bs) = (
  hex_digit-bounds (b / 16 % 16) (omega arith),
  (hex_digit-bounds (b % 16) (omega arith), hex_encode-Graphic bs),
)

-- A token that reading it back does not change, and that is there.
abbrev IsKept : (Bytes → Bytes) → Bytes → Type 0
IsKept trim_space t = (trim_space t ≡ t) × (t ≢ [])

minted-IsKept :
    (trim_space : Bytes → Bytes) (entropy : Option Bytes) (t : Bytes)
    → ((bs : Bytes) → Graphic bs → trim_space bs ≡ bs)
    → entropy ≢ some []
    → mint_token entropy ≡ some t
    → IsKept trim_space t
unfolding mint_token
minted-IsKept trim_space none t trims fresh m = cc
minted-IsKept trim_space (some []) t trims fresh m = absurd (fresh refl)
minted-IsKept trim_space (some (b ∷ bs)) t trims fresh m =
    subst (IsKept trim_space) (some-injective _ _ m)
      (trims (hex_encode (b ∷ bs)) (hex_encode-Graphic (b ∷ bs)), λ q. absurd (cc))

read_again :
    (trim_space : Bytes → Bytes) (bs : Bytes) (file : Option File)
    → ((cs : Bytes) → trim_space (trim_space cs) ≡ trim_space cs)
    → read_boot_token trim_space file ≡ bs
    → trim_space [] ≡ []
    → trim_space bs ≡ bs
unfolding read_boot_token
read_again trim_space bs none twice q nothing = ap trim_space (sym q) ∙ nothing ∙ q
read_again trim_space bs (some f) twice q nothing = ap trim_space (sym q) ∙ twice f.content ∙ q

choose_token-IsKept :
    (trim_space : Bytes → Bytes) (env_token : Bytes) (entropy : Option Bytes) (file : Option File)
    (t : Bytes)
    → ((bs : Bytes) → Graphic bs → trim_space bs ≡ bs)
    → ((bs : Bytes) → trim_space (trim_space bs) ≡ trim_space bs)
    → trim_space env_token ≡ env_token
    → entropy ≢ some []
    → choose_token trim_space env_token entropy file ≡ some t
    → IsKept trim_space t
unfolding choose_token
choose_token-IsKept trim_space (c ∷ cs) entropy file t trims twice env fresh h =
    subst (IsKept trim_space) (some-injective _ _ h) (env, λ q. absurd (cc))
choose_token-IsKept trim_space [] entropy file t trims twice env fresh h =
    by_file (read_boot_token trim_space file) refl h
  where
    by_file :
        (bs : Bytes)
        → read_boot_token trim_space file ≡ bs
        → (elim bs [ [] ↦ mint_token entropy | b ∷ rest ↦ some (b ∷ rest) ]) ≡ some t
        → IsKept trim_space t
    by_file [] q m = minted-IsKept trim_space entropy t trims fresh m
    by_file (b ∷ rest) q m =
        subst (IsKept trim_space) (some-injective _ _ m)
          (read_again trim_space (b ∷ rest) file twice q env, λ z. absurd (cc))

-- The token of a kept file is chosen again.
choose_token-again :
    (trim_space : Bytes → Bytes) (entropy : Option Bytes) (mode : ℕ) (t : Bytes)
    → IsKept trim_space t
    → choose_token trim_space [] entropy (some (record { content = t; mode = mode })) ≡ some t
unfolding choose_token read_boot_token
choose_token-again trim_space entropy mode [] k = absurd (k.1 refl)
choose_token-again trim_space entropy mode (c ∷ cs) k = ground (arith, k.0)

-- What a run of EnsureBootToken without an error has done.
ensured :
    (trim_space : Bytes → Bytes) (io : Io) (env_token : Bytes) (path : String)
    (entropy : Option Bytes) (fs : Files) (t : Bytes)
    → ((temp : String) → io.create_temp ≡ some temp → temp ≢ path)
    → (ensure_boot_token trim_space io env_token path entropy fs).0 ≡ some t
    → (choose_token trim_space env_token entropy (lookup path fs) ≡ some t)
      × (lookup path (final fs (ensure_boot_token trim_space io env_token path entropy fs).1.0)
          ≡ some (record { content = t; mode = 384 }))
unfolding ensure_boot_token write_token_file
ensured trim_space io env_token path entropy fs t other h =
    option_cases Good (choose_token trim_space env_token entropy (lookup path fs))
      {a = (none, ([], some mint_failed))}
      {f = λ token.
        let written = replace_file io 384 path token fs in
        elim written.1 [ none ↦ (some token, written) | some e ↦ (none, written) ]}
      (λ _ q. absurd (cc))
      (λ token chosen.
        option_cases Good (replace_file io 384 path token fs).1
          {a = (some token, replace_file io 384 path token fs)}
          {f = λ e. (none, replace_file io 384 path token fs)}
          (λ ok q.
            let same : token ≡ t = some-injective _ _ q in
            (
              chosen ∙ ap some same,
              (replace_file-IsAtomic io 384 path token fs other).done ok
                  ∙ ap (λ x. some (record { content = x; mode = 384 })) same,
            ))
          (λ e bad q. absurd (cc)))
      h
  where
    Good : Option Bytes × Written → Type 0
    Good p =
        p.0 ≡ some t
        → (choose_token trim_space env_token entropy (lookup path fs) ≡ some t)
          × (lookup path (final fs p.1.0) ≡ some (record { content = t; mode = 384 }))

-- A run that chooses the token that the file has.
rewritten :
    (trim_space : Bytes → Bytes) (io : Io) (env_token : Bytes) (path : String)
    (entropy : Option Bytes) (fs : Files) (t : Bytes)
    → ((temp : String) → io.create_temp ≡ some temp → temp ≢ path)
    → choose_token trim_space env_token entropy (lookup path fs) ≡ some t
    → lookup path fs ≡ some (record { content = t; mode = 384 })
    → let run = ensure_boot_token trim_space io env_token path entropy fs in
      (lookup path (final fs run.1.0) ≡ some (record { content = t; mode = 384 }))
      × ((run.0 ≡ some t) ⊎ ((e : WriteError) × (run.1.1 ≡ some e)))
unfolding ensure_boot_token write_token_file
rewritten trim_space io env_token path entropy fs t other chosen kept =
    option_cases Good (choose_token trim_space env_token entropy (lookup path fs))
      {a = (none, ([], some mint_failed))}
      {f = λ token.
        let written = replace_file io 384 path token fs in
        elim written.1 [ none ↦ (some token, written) | some e ↦ (none, written) ]}
      (λ gone. absurd (ground (arith, gone, chosen)))
      (λ token found.
        let same : token ≡ t = some-injective _ _ (sym found ∙ chosen) in
        let w = replace_file-IsAtomic io 384 path token fs other in
        option_cases Good (replace_file io 384 path token fs).1
          {a = (some token, replace_file io 384 path token fs)}
          {f = λ e. (none, replace_file io 384 path token fs)}
          (λ ok. (
            w.done ok ∙ ap (λ x. some (record { content = x; mode = 384 })) same,
            inl (ap some same),
          ))
          (λ e bad. (w.undone e bad ∙ kept, inr (e, bad))))
  where
    Good : Option Bytes × Written → Type 0
    Good p =
        (lookup path (final fs p.1.0) ≡ some (record { content = t; mode = 384 }))
        × ((p.0 ≡ some t) ⊎ ((e : WriteError) × (p.1.1 ≡ some e)))

-- A guest agent that restarts within one boot keeps its credential: after a run that gave a token, a
-- later run without a token in its environment gives the same token, whatever random bytes it could
-- have had, if its own write succeeds, and both leave that token in a file of mode 0600. Trimming
-- keeps graphic ASCII text and is idempotent, the first run's environment token is trimmed, the
-- random bytes are not empty, and the temporary files have other names.
pub ensure_boot_token-restart :
    (trim_space : Bytes → Bytes) (io io' : Io) (env_token : Bytes) (path : String)
    (entropy entropy' : Option Bytes) (fs : Files) (t : Bytes)
    → ((bs : Bytes) → Graphic bs → trim_space bs ≡ bs)
    → ((bs : Bytes) → trim_space (trim_space bs) ≡ trim_space bs)
    → trim_space env_token ≡ env_token
    → entropy ≢ some []
    → ((temp : String) → io.create_temp ≡ some temp → temp ≢ path)
    → ((temp : String) → io'.create_temp ≡ some temp → temp ≢ path)
    → (ensure_boot_token trim_space io env_token path entropy fs).0 ≡ some t
    → let kept : Option File = some (record { content = t; mode = 384 }) in
      let fs' = final fs (ensure_boot_token trim_space io env_token path entropy fs).1.0 in
      let again = ensure_boot_token trim_space io' [] path entropy' fs' in
      (lookup path fs' ≡ kept)
      × (lookup path (final fs' again.1.0) ≡ kept)
      × ((again.0 ≡ some t) ⊎ ((e : WriteError) × (again.1.1 ≡ some e)))
ensure_boot_token-restart trim_space io io' env_token path entropy entropy' fs t trims twice env
      fresh other other' h =
    let (chosen, kept) = ensured trim_space io env_token path entropy fs t other h in
    let keeps =
      choose_token-IsKept trim_space env_token entropy (lookup path fs) t trims twice env fresh
        chosen in
    let fs' = final fs (ensure_boot_token trim_space io env_token path entropy fs).1.0 in
    let again : choose_token trim_space [] entropy' (lookup path fs') ≡ some t =
      ap (choose_token trim_space [] entropy') kept
      ∙ choose_token-again trim_space entropy' 384 t keeps in
    let next = rewritten trim_space io' [] path entropy' fs' t other' again kept in
    (kept, next.0, next.1)
