-- ===== src/Transfer/Execute/Watched/Aside.antt =====
-- A closure that changes one file, which the transfer neither reads nor writes, changes nothing else
-- of a transfer on a steady disk.
use send_rs.Prelude.{
  ◌≡◌, ◌≢◌, refl, subst, ℕ, suc, Bool, true, false, String, length, if◌then◌else◌,
}
use send_rs.Exec.{
  Exec, Result, ok, err, add_context, gets, put, with_context, and_then, attempt, ◌>>=◌,
}
use send_rs.Disk.{
  Bytes, Files, Disk, store, content, check, seek, open_read, open_write, set_len, read, read_exact,
  write_all, write,
}
use send_rs.Disk.Steady.{steady}

-- Two runs with one result, and with states that are related.
pub data Alike {S A : Type 0} (R : S → S → Type 0) : Result A × S → Result A × S → Type 0 where
  both : (x : Result A) (s t : S) → R s t → Alike R (x, s) (x, t)

abbrev pub Sim : {S A : Type 0} → (S → S → Type 0) → Exec S A → Exec S A → Type 0
Sim {S} R m n = (s t : S) → R s t → Alike R (m s) (n t)

module _ {S A B : Type 0} {R : S → S → Type 0} where
  and_then-Alike :
      (k l : A → Exec S B) {p q : Result A × S}
      → Alike R p q
      → ((a : A) → Sim R (k a) (l a))
      → Alike R (and_then k p) (and_then l q)
  and_then-Alike k l (both (ok a) s t r) rest = rest a s t r
  and_then-Alike k l (both (err e) s t r) rest = both (err e) s t r

  pub bind-Sim :
      {m n : Exec S A} {k l : A → Exec S B}
      → Sim R m n
      → ((a : A) → Sim R (k a) (l a))
      → Sim R (m >>= k) (n >>= l)
  unfolding ◌>>=◌
  bind-Sim {m} {n} {k} {l} h rest s t r = and_then-Alike k l (h s t r) rest

module _ {S A : Type 0} {R : S → S → Type 0} where
  pub result-Sim : (x : Result A) → Sim R (λ s. (x, s)) (λ s. (x, s))
  result-Sim x s t r = both x s t r

  pub context-Sim :
      (c : String) {m n : Exec S A} → Sim R m n → Sim R (with_context c m) (with_context c n)
  unfolding with_context
  context-Sim c h s t r = given (h s t r)
    where
      given : {p q : Result A × S} → Alike R p q → Alike R (add_context c p) (add_context c q)
      given (both (ok a) s t r) = both (ok a) s t r
      given (both (err e) s t r) = both _ s t r

  pub if-Sim :
      (b : Bool) {m m' n n' : Exec S A}
      → Sim R m m'
      → Sim R n n'
      → Sim R (if b then m else n) (if b then m' else n')
  if-Sim true h k = h
  if-Sim false h k = k

  pub gets-Sim : (g h : S → A) → ((s t : S) → R s t → g s ≡ h t) → Sim R (gets g) (gets h)
  gets-Sim g h same s t r =
      subst (λ a. Alike R (ok (g s), s) (ok a, t)) (same s t r) (both (ok (g s)) s t r)

  pub attempt-Sim : {m n : Exec S A} → Sim R m n → Sim R (attempt m) (attempt n)
  unfolding attempt
  attempt-Sim h s t r = given (h s t r)
    where
      given :
          {p q : Result A × S}
          → Alike R p q
          → Alike R (let (x, s) = p in (ok x, s)) (let (x, s) = q in (ok x, s))
      given (both x s t r) = both (ok x) s t r

pub put-Sim :
    {S : Type 0} {R : S → S → Type 0} (g h : S → S)
    → ((s t : S) → R s t → R (g s) (h t))
    → Sim R (put g) (put h)
put-Sim g h same s t r = both _ _ _ (same s t r)

module _ (aside : String) where
  -- Files that agree but for the one.
  abbrev pub Agree : Files → Files → Type 0
  Agree f g = (p : String) → aside ≢ p → f p ≡ g p

  pub data Near : Disk → Disk → Type 0 where
    near : (f g : Files) → Agree f g → Near (steady f) (steady g)

  pub Agree-store :
      (path : String) (b : Bytes) (f g : Files)
      → Agree f g
      → Agree (store path b f) (store path b g)
  Agree-store path b f g same p ne = rw (same p ne) refl

  -- What does not depend on that file, nor changes it.
  abbrev pub Blind : {A : Type 0} → Exec Disk A → Type 0
  Blind m = Sim Near m m

  pub check-Blind : Blind check
  unfolding check
  check-Blind _ _ (near f g a) = both _ _ _ (near f g a)

  pub seek-Blind : (pos : ℕ) → Blind (seek pos)
  unfolding seek
  seek-Blind pos _ _ (near f g a) = both _ _ _ (near f g a)

  module _ (path : String) (ne : aside ≢ path) where
    pub open_read-Blind : Blind (open_read path)
    unfolding open_read
    open_read-Blind _ _ (near f g a) = rw (a path ne) (both _ _ _ (near f g a))

    pub read-Blind : (pos n : ℕ) → Blind (read path pos n)
    unfolding read
    read-Blind pos n _ _ (near f g a) = rw (a path ne) (both _ _ _ (near f g a))

    pub read_exact-Blind : (pos n : ℕ) → Blind (read_exact path pos n)
    unfolding read_exact
    read_exact-Blind pos n _ _ (near f g a) = rw (a path ne) (both _ _ _ (near f g a))

    pub open_write-Blind : Blind (open_write path)
    unfolding open_write
    open_write-Blind _ _ (near f g a) =
        rw (a path ne) (both _ _ _ (near _ _ (Agree-store path _ f g a)))

    pub set_len-Blind : (n : ℕ) → Blind (set_len path n)
    unfolding set_len
    set_len-Blind n _ _ (near f g a) =
        rw (a path ne) (both _ _ _ (near _ _ (Agree-store path _ f g a)))

    pub write_all-Blind : (pos : ℕ) (buf : Bytes) → Blind (write_all path pos buf)
    unfolding write_all
    write_all-Blind pos buf _ _ (near f g a) =
        rw (a path ne) (both _ _ _ (near _ _ (Agree-store path _ f g a)))

    pub write-Blind : (buf : Bytes) → Blind (write path buf)
    unfolding write
    write-Blind buf _ _ (near f g a) = both _ _ _ (near _ _ (Agree-store path _ f g a))

    pub fuel-Blind : Blind (gets (λ d. suc (length (content d.files path))))
    fuel-Blind _ _ (near f g a) = rw (a path ne) (both _ _ _ (near f g a))
