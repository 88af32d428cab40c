-- ===== src/Base/Actions.antt =====
-- A call that reads and writes a state and may throw. What was written before a throw stays written.
use mathlib.Core.List.{List, [], ◌∷◌}
use multi_tenant_saa_s_platf.Base.Exceptions.{Result, ok, fail, Exception}

abbrev pub Action : Type 0 → Type 0 → Type 0
Action S A = S → Result A × S

module _ {S A : Type 0} where
  abbrev pub pure : A → Action S A
  pure a s = (ok a, s)

  abbrev pub throw : Exception → Action S A
  throw e s = (fail e, s)

  abbrev pub lift : Result A → Action S A
  lift r s = (r, s)

  -- A statement that only reads.
  abbrev pub reading : (S → Result A) → Action S A
  reading f s = (f s, s)

infixl 5 ◌>>=◌ ◌>>◌
abbrev pub ◌>>=◌ : {S A B : Type 0} → Action S A → (A → Action S B) → Action S B
◌>>=◌ m f s = let (r, s') = m s in elim r [ ok a ↦ f a s' | fail e ↦ (fail e, s') ]

abbrev pub ◌>>◌ : {S A B : Type 0} → Action S A → Action S B → Action S B
m >> k = m >>= λ _. k

-- A call on one part of a state of two parts.
module _ {S T A : Type 0} where
  abbrev pub on_first : Action S A → Action (S × T) A
  on_first m (s, t) = let (r, s') = m s in (r, (s', t))

  abbrev pub on_second : Action T A → Action (S × T) A
  on_second m (s, t) = let (r, t') = m t in (r, (s, t'))

-- `for (const x of xs) await f(x);`
unfoldable pub each : {S A : Type 0} → (A → Action S (Unit {0})) → List A → Action S (Unit {0})
each f [] = pure tt
each f (x ∷ xs) = f x >> each f xs
