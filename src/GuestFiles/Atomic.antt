-- ===== src/GuestFiles/Atomic.antt =====
-- What a reader of a path meets while internal/guestsupervisor replaces the file there.
use gha_mac_broker.Prelude.{
  ℕ, ◌≡◌, ◌≢◌, refl, sym, ap, ◌∙◌, subst, ◌⊎◌, inl, inr, Bool-cases, String, false, List, [], ◌∷◌,
  none, some, str_eq, eq_iff, Has, All, ◌++◌, option_cases, if_cases,
}
use gha_mac_broker.GuestExec.Maps.{
  lookup, insert, remove, lookup-insert_same, lookup-insert_other, lookup-remove_other,
}
use gha_mac_broker.GuestExec.Keys.{id_key}
use gha_mac_broker.GuestFiles.Files.{
  Bytes, File, Files, Io, WriteError, Written, remove_temp, replace_file, final,
}

-- Every state has the old file or the new one at the path; the last one has the new one if there is
-- no error, and the old one if there is.
pub record IsAtomic (path : String) (file : File) (fs : Files) (w : Written) : Type 0 where
  pub each :
      (g : Files) → Has g w.0 → (lookup path g ≡ lookup path fs) ⊎ (lookup path g ≡ some file)
  pub done : w.1 ≡ none → lookup path (final fs w.0) ≡ some file
  pub undone : (e : WriteError) → w.1 ≡ some e → lookup path (final fs w.0) ≡ lookup path fs

apart : (temp path : String) → temp ≢ path → str_eq temp path ≡ false
apart temp path n = elim (Bool-cases (str_eq temp path)) [
  | inl y ↦ absurd (n ((eq_iff temp path).0 y))
  | inr z ↦ z
]

insert_temp :
    (temp path : String) (f : File) (m : Files)
    → temp ≢ path
    → lookup path (insert temp f m) ≡ lookup path m
insert_temp temp path f m n = lookup-insert_other temp path f m (apart temp path n)

remove_temp-lookup :
    (io : Io) (temp path : String) (m : Files)
    → temp ≢ path
    → lookup path (remove_temp io temp m) ≡ lookup path m
unfolding remove_temp
remove_temp-lookup io temp path m n =
    if_cases Good io.removes (λ _. lookup-remove_other temp path m (apart temp path n)) (λ _. refl)
  where
    Good : Files → Type 0
    Good g = lookup path g ≡ lookup path m

-- The old file is at the path.
abbrev Old : String → Files → Files → Type 0
Old path fs g = lookup path g ≡ lookup path fs

All-Has :
    (path : String) (fs : Files) (gs : List Files) (g : Files)
    → All (Old path fs) gs
    → Has g gs
    → Old path fs g
All-Has path fs [] g h m = absurd m
All-Has path fs (k ∷ gs) g h (inl q) = subst (Old path fs) q h.0
All-Has path fs (k ∷ gs) g h (inr m) = All-Has path fs gs g h.1 m

final-Old :
    (path : String) (fs g : Files) (gs : List Files)
    → Old path fs g
    → All (Old path fs) gs
    → Old path fs (final g gs)
final-Old path fs g [] here h = here
final-Old path fs g (k ∷ gs) here h = final-Old path fs k gs h.0 h.1

-- States that all have the old file at the path, and an error.
failing :
    (path : String) (file : File) (fs : Files) (gs : List Files) (e : WriteError)
    → All (Old path fs) gs
    → IsAtomic path file fs (gs, some e)
failing path file fs gs e h = record {
  each = λ g m. inl (All-Has path fs gs g h m);
  done = λ q. absurd (cc);
  undone = λ _ _. final-Old path fs fs gs refl h;
}

final-append : (fs g : Files) (gs : List Files) → final fs (gs ++ g ∷ []) ≡ g
final-append fs g [] = refl
final-append fs g (k ∷ gs) = final-append k g gs

-- The same with the new file in a last state, and no error.
succeeding :
    (path : String) (file : File) (fs : Files) (gs : List Files) (g : Files)
    → All (Old path fs) gs
    → lookup path g ≡ some file
    → IsAtomic path file fs (gs ++ g ∷ [], none)
succeeding path file fs gs g h new = record {
  each = λ k m. each gs k h m;
  done = λ _. ap (lookup path) (final-append fs g gs) ∙ new;
  undone = λ e q. absurd (cc);
}
  where
    each :
        (hs : List Files) (k : Files)
        → All (Old path fs) hs
        → Has k (hs ++ g ∷ [])
        → (lookup path k ≡ lookup path fs) ⊎ (lookup path k ≡ some file)
    each [] k h (inr m) = elim m [ ]
    each [] k h (inl q) = inr (ap (lookup path) (sym q) ∙ new)
    each (x ∷ hs) k h (inl q) = inl (subst (Old path fs) q h.0)
    each (x ∷ hs) k h (inr m) = each hs k h.1 m

-- The temporary file has another name.
pub replace_file-IsAtomic :
    (io : Io) (mode : ℕ) (path : String) (content : Bytes) (fs : Files)
    → ((temp : String) → io.create_temp ≡ some temp → temp ≢ path)
    → IsAtomic path
        (record { content = content; mode = mode })
        fs
        (replace_file io mode path content fs)
unfolding replace_file
replace_file-IsAtomic io mode path content fs other =
    option_cases Good io.create_temp (λ _. failing path file fs [] _ tt)
      λ temp made.
        let n = other temp made in
        let created = insert temp (record { content = []; mode = 384 }) fs in
        let full = insert temp (record { content = content; mode = 384 }) created in
        let ready = insert temp (record { content = content; mode = mode }) full in
        let a = insert_temp temp path (record { content = []; mode = 384 }) fs n in
        let b : lookup path full ≡ lookup path fs =
          insert_temp temp path (record { content = content; mode = 384 }) created n ∙ a in
        let c : lookup path ready ≡ lookup path fs = insert_temp temp path file full n ∙ b in
        let gone : (m : Files) → Old path fs m → Old path fs (remove_temp io temp m) =
          λ m o. remove_temp-lookup io temp path m n ∙ o in
        option_cases Good io.short_write
          (λ _.
            if_cases Good io.closes
              (λ _.
                if_cases Good io.chmods
                  (λ _.
                    if_cases Good io.renames
                      (λ _.
                        succeeding path file fs (created ∷ full ∷ ready ∷ []) _ (a, (b, (c, tt)))
                          (lookup-insert_same path file (remove temp ready)))
                      (λ _. failing path file fs _ _ (a, (b, (c, (gone ready c, tt))))))
                  (λ _. failing path file fs _ _ (a, (b, (gone full b, tt)))))
              (λ _. failing path file fs _ _ (a, (b, (gone full b, tt)))))
          (λ part _.
            let d = insert_temp temp path (record { content = part; mode = 384 }) created n ∙ a in
            failing path file fs _ _ (a, (d, (gone _ d, tt))))
  where
    file : File
    file = record { content = content; mode = mode }

    Good : Written → Type 0
    Good w = IsAtomic path file fs w
