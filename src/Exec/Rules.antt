-- ===== src/Exec/Rules.antt =====
-- Reasoning on actions: what holds of the result and the state after a run.
use send_rs.Prelude.{◌≡◌, refl, subst, String, Bool, true, false, if◌then◌else◌}
use send_rs.Exec.{
  Error, Result, ok, err, context, Exec, add_context, with_context, and_then, ◌>>=◌, attempt,
}

-- `Q` of the value and the state after success, `E` of the error and the state after a failure.
pub data After {S A : Type 0} (Q : A → S → Type 0) (E : Error → S → Type 0)
    : Result A × S → Type 0 where
  returned : (a : A) (s : S) → Q a s → After Q E (ok a, s)
  failed : (e : Error) (s : S) → E e s → After Q E (err e, s)

module _ {S A B : Type 0} {Q : A → S → Type 0} {R : B → S → Type 0} {E F : Error → S → Type 0} where
  and_then-After :
      (f : A → Exec S B) {p : Result A × S}
      → After Q E p
      → ((e : Error) (s : S) → E e s → F e s)
      → ((a : A) (s : S) → Q a s → After R F (f a s))
      → After R F (and_then f p)
  and_then-After f (returned a s q) weak rest = rest a s q
  and_then-After f (failed e s x) weak rest = failed e s (weak e s x)

  -- The rule for `?`.
  pub bind-After :
      (m : Exec S A) (f : A → Exec S B) (s : S)
      → After Q E (m s)
      → ((e : Error) (t : S) → E e t → F e t)
      → ((a : A) (t : S) → Q a t → After R F (f a t))
      → After R F ((m >>= f) s)
  unfolding ◌>>=◌
  bind-After m f s h weak rest = and_then-After f h weak rest

module _ {S A : Type 0} {Q : A → S → Type 0} {E : Error → S → Type 0} where
  -- A test that chooses the action.
  pub if-After :
      (b : Bool) (m n : Exec S A) (s : S)
      → (b ≡ true → After Q E (m s))
      → (b ≡ false → After Q E (n s))
      → After Q E ((if b then m else n) s)
  if-After true m n s h k = h refl
  if-After false m n s h k = k refl

  -- A test that chooses the result alone.
  pub choice-After :
      (b : Bool) (x y : Result A) (s : S)
      → (b ≡ true → After Q E (x, s))
      → (b ≡ false → After Q E (y, s))
      → After Q E (if b then x else y, s)
  choice-After true x y s h k = h refl
  choice-After false x y s h k = k refl

module _ {S A : Type 0} {Q : A → S → Type 0} {E F : Error → S → Type 0} where
  add_context-After :
      (t : String) {p : Result A × S}
      → After Q E p
      → ((e : Error) (s : S) → E e s → F (context t e) s)
      → After Q F (add_context t p)
  add_context-After t (returned a s q) f = returned a s q
  add_context-After t (failed e s x) f = failed (context t e) s (f e s x)

  pub context-After :
      (t : String) (m : Exec S A) (s : S)
      → After Q E (m s)
      → ((e : Error) (s : S) → E e s → F (context t e) s)
      → After Q F (with_context t m s)
  unfolding with_context
  context-After t m s h f = add_context-After t h f

module _ {S A : Type 0} {Q R : A → S → Type 0} {E F : Error → S → Type 0} where
  pub After-mono :
      {p : Result A × S}
      → After Q E p
      → ((a : A) (s : S) → Q a s → R a s)
      → ((e : Error) (s : S) → E e s → F e s)
      → After R F p
  After-mono (returned a s q) f g = returned a s (f a s q)
  After-mono (failed e s x) f g = failed e s (g e s x)

module _ {S A B : Type 0} {Q : A → S → Type 0} {R : B → S → Type 0} {E F : Error → S → Type 0} where
  -- The rule for `.context(..)?`.
  pub bind_context-After :
      (t : String) (m : Exec S A) (f : A → Exec S B) (s : S)
      → After Q E (m s)
      → ((e : Error) (u : S) → E e u → F (context t e) u)
      → ((a : A) (u : S) → Q a u → After R F (f a u))
      → After R F ((with_context t m >>= f) s)
  bind_context-After t m f s h weak rest =
      bind-After {E = F} {F = F} (with_context t m) f s (context-After t m s h weak) (λ e u x. x)
        rest

module _ {S A : Type 0} {Q : A → S → Type 0} {E F : Error → S → Type 0}
    {R : Result A → S → Type 0} where
  -- The rule for a `match` on a result: an error is a value too.
  pub attempt-After :
      (m : Exec S A) (s : S)
      → After Q E (m s)
      → ((a : A) (t : S) → Q a t → R (ok a) t)
      → ((e : Error) (t : S) → E e t → R (err e) t)
      → After R F (attempt m s)
  unfolding attempt
  attempt-After m s h f g = given h
    where
      given : {p : Result A × S} → After Q E p → After R F (let (r, t) = p in (ok r, t))
      given (returned a t q) = returned _ _ (f a t q)
      given (failed e t x) = returned _ _ (g e t x)

abbrev pub Holds : {S A : Type 0} → (A → S → Type 0) → (Error → S → Type 0) → Result A × S → Type 0
Holds Q E (ok a, s) = Q a s
Holds Q E (err e, s) = E e s

module _ {S A : Type 0} {Q : A → S → Type 0} {E : Error → S → Type 0} where
  pub After-Holds : {p : Result A × S} → After Q E p → Holds Q E p
  After-Holds (returned a s q) = q
  After-Holds (failed e s x) = x

  -- What a run that returned, or that failed, satisfies.
  pub After-ok : {p : Result A × S} {a : A} {t : S} → After Q E p → p ≡ (ok a, t) → Q a t
  After-ok h e = subst (Holds Q E) e (After-Holds h)

  pub After-err : {p : Result A × S} {x : Error} {t : S} → After Q E p → p ≡ (err x, t) → E x t
  After-err h e = subst (Holds Q E) e (After-Holds h)

module _ {S A : Type 0} {Q R : A → S → Type 0} {E F : Error → S → Type 0} where
  -- Two accounts of one run, together.
  pub After-both :
      {p : Result A × S}
      → After Q E p
      → After R F p
      → After (λ a s. Q a s × R a s) (λ e s. E e s × F e s) p
  After-both {p} h k = join p (After-Holds h) (After-Holds k)
    where
      join :
          (p : Result A × S)
          → Holds Q E p
          → Holds R F p
          → After (λ a s. Q a s × R a s) (λ e s. E e s × F e s) p
      join (ok a, s) q r = returned a s (q, r)
      join (err e, s) x y = failed e s (x, y)
