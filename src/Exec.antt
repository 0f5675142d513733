-- ===== src/Exec.antt =====
-- Fallible code over a state: `anyhow::Result` values and the actions that return them. What an
-- action wrote before it failed stays written, so the state comes back beside the error too.
pub mod Rules
use send_rs.Prelude.{String}

-- An `anyhow::Error`: what the operating system or a library reported, a message of the program,
-- or an error under one more line of context.
pub data Error : Type 0 where
  system : String → Error
  message : String → Error
  context : String → Error → Error
  -- A loop of the model ran out of fuel; no program error. The theorems show that it never does.
  diverged : Error

pub data Result {ℓ} (A : Type ℓ) : Type ℓ where
  ok : A → Result A
  err : Error → Result A

-- `err.to_string()` is the outermost line.
abbrev pub to_string : Error → String
to_string (system t) = t
to_string (message t) = t
to_string (context t e) = t
to_string diverged = ""

-- An error of the program itself: no loop of the model ran out of fuel.
abbrev pub IsReal : Error → Type 0
IsReal (system t) = Unit {0}
IsReal (message t) = Unit {0}
IsReal (context t e) = IsReal e
IsReal diverged = ⊥

-- An error that the operating system reported, in any context.
abbrev pub IsSystem : Error → Type 0
IsSystem (system t) = Unit {0}
IsSystem (message t) = ⊥
IsSystem (context t e) = IsSystem e
IsSystem diverged = ⊥

pub IsSystem-IsReal : (e : Error) → IsSystem e → IsReal e
IsSystem-IsReal (system t) s = tt
IsSystem-IsReal (message t) s = elim s [ ]
IsSystem-IsReal (context t e) s = IsSystem-IsReal e s
IsSystem-IsReal diverged s = elim s [ ]

abbrev pub Exec {ℓ} : Type ℓ → Type ℓ → Type ℓ
Exec S A = S → Result A × S

module _ {ℓ} {S A : Type ℓ} where
  abbrev pub pure : A → Exec S A
  pure a s = (ok a, s)

  abbrev pub raise : Error → Exec S A
  raise e s = (err e, s)

  -- `.context(..)`, `.with_context(..)`
  abbrev pub add_context : String → Result A × S → Result A × S
  add_context t (ok a, s) = (ok a, s)
  add_context t (err e, s) = (err (context t e), s)

  unfoldable pub with_context : String → Exec S A → Exec S A
  with_context t m s = add_context t (m s)

  abbrev pub gets : (S → A) → Exec S A
  gets f s = (ok (f s), s)

-- Change the state.
abbrev pub put : {S : Type 0} → (S → S) → Exec S (Unit {0})
put f s = (ok tt, f s)

module _ {ℓ} {S A B : Type ℓ} where
  abbrev pub and_then : (A → Exec S B) → Result A × S → Result B × S
  and_then f (ok a, s) = f a s
  and_then f (err e, s) = (err e, s)

  infixl 10 ◌>>=◌ ◌>>◌
  -- The operator `?`, with the rest of the function as the continuation.
  unfoldable pub ◌>>=◌ : Exec S A → (A → Exec S B) → Exec S B
  ◌>>=◌ m f s = and_then f (m s)

  abbrev pub ◌>>◌ : Exec S A → Exec S B → Exec S B
  m >> n = m >>= λ _. n

-- Run an action and go on with its result, as a `match` on it does.
unfoldable pub attempt : {S A : Type 0} → Exec S A → Exec S (Result A)
attempt m s = let (r, t) = m s in (ok r, t)
