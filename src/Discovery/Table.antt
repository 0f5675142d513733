-- ===== src/Discovery/Table.antt =====
-- The `HashMap`s of crates/discovery/src/lib.rs: what an insertion finds and keeps.
use mathlib.Core.Option.{some-injective, none-ne-some}
use send_rs.Prelude.{
  Bool, true, false, String, some, List, [], ◌∷◌, ◌==◌, if◌then◌else◌, ◌≡◌, refl, sym, subst,
  eq_iff, arith, All,
}
use send_rs.Discovery.{lookup, insert, into_values}

module _ {V : Type 0} where
  -- What a key finds after an insertion: the new value at its own key, the old ones elsewhere.
  pub lookup-insert :
      (k j : String) (v : V) (l : List (String × V))
      → lookup j (insert k v l) ≡ (if k == j then some v else lookup j l)
  unfolding lookup insert
  lookup-insert k j v [] = refl
  lookup-insert k j v ((i, u) ∷ l) =
      ground (arith, lookup-insert k j v l, eq_iff i k, eq_iff i j, eq_iff k j)

  pub insert-All :
      (P : String → V → Type 0) (k : String) (v : V) (l : List (String × V))
      → P k v
      → All (λ e. P e.0 e.1) l
      → All (λ e. P e.0 e.1) (insert k v l)
  unfolding insert
  insert-All P k v [] p a = (p, tt)
  insert-All P k v ((j, u) ∷ l) p (q, a) = choose (insert-All P k v l p a) (j == k) refl
    where
      choose :
          All (λ e. P e.0 e.1) (insert k v l)
          → (b : Bool) → (j == k) ≡ b
          → All (λ e. P e.0 e.1) (if b then (j, v) ∷ l else (j, u) ∷ insert k v l)
      choose rest true e = (subst (λ i. P i v) (sym ((eq_iff j k).0 e)) p, a)
      choose rest false e = (q, rest)

  pub All-lookup :
      (P : String → V → Type 0) (k : String) (v : V) (l : List (String × V))
      → All (λ e. P e.0 e.1) l
      → lookup k l ≡ some v
      → P k v
  unfolding lookup
  All-lookup P k v [] a h = absurd (none-ne-some v h)
  All-lookup P k v ((j, u) ∷ l) (p, a) h = choose (All-lookup P k v l a) (j == k) refl h
    where
      choose :
          (lookup k l ≡ some v → P k v)
          → (b : Bool) → (j == k) ≡ b
          → (if b then some u else lookup k l) ≡ some v
          → P k v
      choose rest true e g =
          subst (λ i. P i v) ((eq_iff j k).0 e) (subst (P j) (some-injective u v g) p)
      choose rest false e g = rest g

  pub into_values-All :
      (Q : V → Type 0) (P : String → V → Type 0) (l : List (String × V))
      → ((k : String) (v : V) → P k v → Q v)
      → All (λ e. P e.0 e.1) l
      → All Q (into_values l)
  unfolding into_values
  into_values-All Q P [] f a = tt
  into_values-All Q P ((k, v) ∷ l) f (p, a) = (f k v p, into_values-All Q P l f a)
