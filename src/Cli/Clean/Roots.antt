-- ===== src/Cli/Clean/Roots.antt =====
-- What removing one root does, for `clean` of crates/cli/src/main.rs.
use mathlib.Core.Bool.{true≢false}
use mathlib.Core.Option.{none-ne-some}
use send_rs.Prelude.{
  List, [], ◌∷◌, ◌++◌, ◌≡◌, ◌≢◌, refl, sym, ◌∙◌, subst, Bool, true, false, ◌&&◌, ◌||◌, String, none,
  some, if◌then◌else◌, ◌⊎◌, inl, inr, Bool-cases, Option-cases,
}
use send_rs.Exec.{Result, ok, with_context, ◌>>=◌}
use send_rs.Disk.{Bytes, Files, Disk, check, exists}
use send_rs.Disk.Steady.{steady}
use send_rs.Cli.{Host}
use send_rs.Cli.Paths.{sessions_root, offers_root, manifests_root, history_path}
use send_rs.Cli.Session.{remove_path_if_exists, covers}
use send_rs.Cli.Clean.{clean_part}

-- A root with a file below it is a folder.
abbrev pub IsRoot : (String → Bool) → String → Files → Type 0
IsRoot dirs root fs =
    (p : String) → covers root p ≡ true → fs p ≢ none → (dirs root ≡ true) ⊎ (p ≡ root)

-- The files without those of the roots that are wanted.
abbrev pub without : Bool → String → Files → Files
without wanted root fs p = if wanted && covers root p then none else fs p

exists-of_ne : (fs : Files) (p : String) → fs p ≢ none → exists fs p ≡ true
exists-of_ne fs p h = elim (Option-cases (fs p)) [
  | inl e ↦ absurd (h e)
  | inr (b, e) ↦ rw (e, exists) refl
]

-- What is left, of a disk where every call succeeds.
abbrev pub Leaves : Result (List String) × Disk → List String → Files → Type 0
Leaves r names after = (g : Files) × (r ≡ (ok names, steady g)) × ((p : String) → g p ≡ after p)

ne_none-of_some : (fs : Files) (p : String) (b : Bytes) → fs p ≡ some b → fs p ≢ none
ne_none-of_some fs p b e gone = none-ne-some b (sym gone ∙ e)

-- What `IsRoot` says of a file below a root means that the root is there.
there-IsRoot :
    (dirs : String → Bool) (root p : String) (fs : Files)
    → fs p ≢ none
    → (dirs root ≡ true) ⊎ (p ≡ root)
    → (exists fs root || dirs root) ≡ true
there-IsRoot dirs root p fs here (inl folder) = elim (Bool-cases (exists fs root)) [
  | inl e ↦ rw e refl
  | inr e ↦ rw (e, folder) refl
]
there-IsRoot dirs root p fs here (inr same) =
    rw (exists-of_ne fs root (subst (λ q. fs q ≢ none) same here)) refl

module _ (dirs : String → Bool) (root : String) (fs : Files) where
  removed :
      (exists fs root || dirs root) ≡ true
      → remove_path_if_exists dirs root (steady fs) ≡ (ok tt, steady (without true root fs))
  unfolding remove_path_if_exists ◌>>=◌ with_context check
  removed there = elim (Bool-cases (dirs root)) [
    | inl folder ↦ rw (there, folder) refl
    | inr file ↦ rw (there, file) refl
  ]

  kept :
      (exists fs root || dirs root) ≡ false
      → remove_path_if_exists dirs root (steady fs) ≡ (ok tt, steady fs)
  unfolding remove_path_if_exists ◌>>=◌
  kept away = rw away refl

  nothing_below :
      IsRoot dirs root fs
      → (exists fs root || dirs root) ≡ false
      → (p : String) → covers root p ≡ true
      → fs p ≡ none
  nothing_below tree away p below = elim (Option-cases (fs p)) [
    | inl e ↦ e
    | inr (b, e) ↦ absurd (
        true≢false (
          sym (
            there-IsRoot dirs root p fs (ne_none-of_some fs p b e)
              (tree p below (ne_none-of_some fs p b e)))
          ∙ away))
  ]

  pub part-Leaves :
      (wanted : Bool) (name : String) (names : List String)
      → IsRoot dirs root fs
      → Leaves
          (clean_part dirs wanted root name names (steady fs))
          (if wanted then names ++ name ∷ [] else names)
          (without wanted root fs)
  unfolding clean_part ◌>>=◌
  part-Leaves false name names tree = (fs, refl, λ p. refl)
  part-Leaves true name names tree = elim (Bool-cases (exists fs root || dirs root)) [
    | inl there ↦ (without true root fs, rw (removed there) refl, λ p. refl)
    | inr away ↦ (
      fs,
      rw (kept away) refl,
      λ p. elim (Bool-cases (covers root p)) [
        | inl below ↦ rw below (nothing_below tree away p below)
        | inr outside ↦ rw outside refl
      ],
    )
  ]

without-none :
    (wanted : Bool) (root : String) (fs : Files) (p : String)
    → fs p ≡ none
    → without wanted root fs p ≡ none
without-none wanted root fs p gone = elim (Bool-cases (wanted && covers root p)) [
  | inl e ↦ rw e refl
  | inr e ↦ rw e gone
]

-- Removing files keeps roots roots.
IsRoot-without :
    (dirs : String → Bool) (root other : String) (wanted : Bool) (fs g : Files)
    → ((p : String) → g p ≡ without wanted other fs p)
    → IsRoot dirs root fs
    → IsRoot dirs root g
IsRoot-without dirs root other wanted fs g e tree p below there =
    tree p below λ gone. there (e p ∙ without-none wanted other fs p gone)

-- The four roots that the command knows are roots of the disk.
abbrev pub AreRoots : Host → (String → Bool) → Files → Type 0
AreRoots host dirs fs =
    IsRoot dirs (sessions_root host) fs
    × IsRoot dirs (offers_root host) fs
    × IsRoot dirs (manifests_root host) fs
    × IsRoot dirs (history_path host) fs

pub AreRoots-without :
    (host : Host) (dirs : String → Bool) (other : String) (wanted : Bool) (fs g : Files)
    → ((p : String) → g p ≡ without wanted other fs p)
    → AreRoots host dirs fs
    → AreRoots host dirs g
AreRoots-without host dirs other wanted fs g e (a, b, c, d) = (
  IsRoot-without dirs (sessions_root host) other wanted fs g e a,
  IsRoot-without dirs (offers_root host) other wanted fs g e b,
  IsRoot-without dirs (manifests_root host) other wanted fs g e c,
  IsRoot-without dirs (history_path host) other wanted fs g e d,
)
