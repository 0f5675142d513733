-- ===== src/Disk/Calls.antt =====
-- What each call guarantees, whatever the environment answers: which files it may change, and what
-- its result says of them.
use send_rs.Prelude.{
  ℕ, ◌≤◌, ◌<◌, ◌≡◌, refl, ap, sym, ◌∙◌, ◌≢◌, true, String, Option, none, some, List, [], ◌∷◌, ltb,
  length, take, drop, max, min, arith,
}
use send_rs.Exec.{IsReal, IsSystem, Exec, Result, ok, err, Error, system}
use send_rs.Exec.Rules.{After, returned, failed, choice-After}
use send_rs.Disk.{
  Bytes, Files, Outcome, full, short, fail, Disk, store, content, exists, slice, resize, write_at,
  syscall, simple, check, seek, open_read, open_write, set_len, read, read_exact, write_all, write,
  read_with, write_with, replace_with, read_to_string,
}
use send_rs.Disk.Laws.{store_ne, take-take, nil_of_take-nil}

-- The files of `g` are those of `f`, but for `path`.
abbrev pub Frame : String → Files → Files → Type 0
Frame path f g = (other : String) → path ≢ other → g other ≡ f other

pub Frame-refl : (path : String) (f : Files) → Frame path f f
Frame-refl path f other ne = refl

pub Frame-same : (path : String) {f g : Files} → g ≡ f → Frame path f g
Frame-same path h other ne = ap (λ (k : Files). k other) h

pub Frame-trans : (path : String) {f g h : Files} → Frame path f g → Frame path g h → Frame path f h
Frame-trans path p q other ne = q other ne ∙ p other ne

pub Frame-store : (path : String) (b : Bytes) (f : Files) → Frame path f (store path b f)
Frame-store path b f other ne = store_ne path other b f ne

module _ {A : Type 0} {Q : A → Disk → Type 0} {E : Error → Disk → Type 0} where
  respond-After :
      (call : Outcome → Exec Disk A) (os : List Outcome) (d : Disk)
      → d.outcomes ≡ os
      → ((o : Outcome) (rest : List Outcome) → After Q E (call o (record d { outcomes = rest })))
      → After Q E (syscall call d)
  unfolding syscall
  respond-After call [] d e h = rw e (h full [])
  respond-After call (o ∷ rest) d e h = rw e (h o rest)

  simple-After :
      (m : Exec Disk A) (d : Disk)
      → ((rest : List Outcome) → After Q E (m (record d { outcomes = rest })))
      → ((rest : List Outcome) → E (system "error") (record d { outcomes = rest }))
      → After Q E (syscall (simple m) d)
  unfolding simple
  simple-After m d h x = respond-After (simple m) d.outcomes d refl (cases)
    where
      cases :
          (o : Outcome) (rest : List Outcome)
          → After Q E (simple m o (record d { outcomes = rest }))
      cases full rest = h rest
      cases (short k) rest = h rest
      cases (fail k) rest = failed _ _ (x rest)

-- A call that reads leaves every file alone.
abbrev pub Keeps : {A : Type 0} → Disk → Result A × Disk → Type 0
Keeps {A} d = After {A = A} (λ a e. e.files ≡ d.files) (λ x e. IsReal x × (e.files ≡ d.files))

-- A call that writes `path` leaves the other files alone.
abbrev pub Touches : {A : Type 0} → String → Disk → Result A × Disk → Type 0
Touches {A} path d =
    After {A = A} (λ a e. Frame path d.files e.files) (λ x e. IsReal x × Frame path d.files e.files)

module _ (d : Disk) where
  pub check-Keeps : Keeps d (check d)
  unfolding check
  check-Keeps = simple-After _ d (λ rest. returned _ _ refl) (λ rest. (tt, refl))

  -- The position after a seek is the one asked for.
  pub seek-After :
      (pos : ℕ)
      → After
          (λ p e. (p ≡ pos) × (e.files ≡ d.files))
          (λ x e. IsReal x × (e.files ≡ d.files))
          (seek pos d)
  unfolding seek
  seek-After pos = simple-After _ d (λ rest. returned _ _ (refl, refl)) (λ rest. (tt, refl))

  -- Only a file that is there is opened for reading.
  pub open_read-After :
      (path : String)
      → After
          (λ u e. (exists d.files path ≡ true) × (e.files ≡ d.files))
          (λ x e. IsSystem x × (e.files ≡ d.files))
          (open_read path d)
  unfolding open_read
  open_read-After path =
      simple-After _ d
        (λ rest.
          choice-After (exists d.files path) _ _ _ (λ h. returned _ _ (h, refl))
            (λ h. failed _ _ (tt, refl)))
        (λ rest. (tt, refl))

  -- What `read_exact` returns is the piece asked for, and is of the length asked for.
  pub read_exact-After :
      (path : String) (pos n : ℕ)
      → After
          (λ buf e.
            (buf ≡ slice pos n (content d.files path)) × (n ≤ length buf) × (e.files ≡ d.files))
          (λ x e. IsReal x × (e.files ≡ d.files))
          (read_exact path pos n d)
  unfolding read_exact
  read_exact-After path pos n =
      simple-After _ d
        (λ rest.
          choice-After (ltb (length (slice pos n (content d.files path))) n) _ _ _
            (λ h. failed _ _ (tt, refl)) (λ h. returned _ _ (refl, ground arith, refl)))
        (λ rest. (tt, refl))

  -- What `read` returns is a piece at the position; at most as long as was asked for, and empty
  -- only at the end of the file.
  pub read-After :
      (path : String) (pos n : ℕ)
      → After
          (λ buf e.
            (k : ℕ) × (k ≤ n)
            × (buf ≡ slice pos k (content d.files path))
            × (buf ≡ [] → 0 < n → drop pos (content d.files path) ≡ [])
            × (e.files ≡ d.files))
          (λ x e. IsSystem x × (e.files ≡ d.files))
          (read path pos n d)
  unfolding read
  read-After path pos n = respond-After (read_with path pos n) d.outcomes d refl cases
    where
      rest_of : Bytes
      rest_of = drop pos (content d.files path)

      cases :
          (o : Outcome) (rest : List Outcome)
          → After
              (λ buf e.
                (k : ℕ) × (k ≤ n)
                × (buf ≡ take k rest_of)
                × (buf ≡ [] → 0 < n → rest_of ≡ [])
                × (e.files ≡ d.files))
              (λ x e. IsSystem x × (e.files ≡ d.files))
              (read_with path pos n o (record d { outcomes = rest }))
      cases full rest =
          returned _ _ (n, omega arith, refl, (λ e h. nil_of_take-nil n rest_of h e), refl)
      cases (short k) rest = returned _ _ (
        min (max 1 k) n,
        omega arith,
        take-take (max 1 k) n rest_of,
        (λ e h.
            nil_of_take-nil (min (max 1 k) n) rest_of (omega arith)
              (sym (take-take (max 1 k) n rest_of) ∙ e)),
        refl,
      )
      cases (fail k) rest = failed _ _ (tt, refl)

  pub open_write-Touches : (path : String) → Touches path d (open_write path d)
  unfolding open_write
  open_write-Touches path =
      simple-After _ d (λ rest. returned _ _ (Frame-store path (content d.files path) d.files))
        (λ rest. (tt, Frame-refl path d.files))

  pub set_len-Touches : (path : String) (n : ℕ) → Touches path d (set_len path n d)
  unfolding set_len
  set_len-Touches path n =
      simple-After _ d
        (λ rest. returned _ _ (Frame-store path (resize n (content d.files path)) d.files))
        (λ rest. (tt, Frame-refl path d.files))

  pub write_all-Touches :
      (path : String) (pos : ℕ) (buf : Bytes) → Touches path d (write_all path pos buf d)
  unfolding write_all
  write_all-Touches path pos buf = respond-After (write_with path pos buf) d.outcomes d refl cases
    where
      cases :
          (o : Outcome) (rest : List Outcome)
          → Touches path d (write_with path pos buf o (record d { outcomes = rest }))
      cases full rest =
          returned _ _ (Frame-store path (write_at pos buf (content d.files path)) d.files)
      cases (short k) rest =
          returned _ _ (Frame-store path (write_at pos buf (content d.files path)) d.files)
      cases (fail k) rest =
          failed _ _
            (tt, Frame-store path (write_at pos (take k buf) (content d.files path)) d.files)

  pub write-Touches : (path : String) (buf : Bytes) → Touches path d (write path buf d)
  unfolding write
  write-Touches path buf = respond-After (replace_with path buf) d.outcomes d refl cases
    where
      cases :
          (o : Outcome) (rest : List Outcome)
          → Touches path d (replace_with path buf o (record d { outcomes = rest }))
      cases full rest = returned _ _ (Frame-store path buf d.files)
      cases (short k) rest = returned _ _ (Frame-store path buf d.files)
      cases (fail k) rest = failed _ _ (tt, Frame-store path (take k buf) d.files)

  looked_up :
      (o : Option Bytes) (rest : List Outcome)
      → Keeps d (
        elim o [ none ↦ err (system "not found") | some bytes ↦ ok bytes ],
        record d { outcomes = rest },
      )
  looked_up none rest = failed _ _ (tt, refl)
  looked_up (some bytes) rest = returned _ _ refl

  pub read_to_string-Keeps : (path : String) → Keeps d (read_to_string path d)
  unfolding read_to_string
  read_to_string-Keeps path =
      simple-After _ d (λ rest. looked_up (d.files path) rest) (λ rest. (tt, refl))
