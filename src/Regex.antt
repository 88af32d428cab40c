-- ===== src/Regex.antt =====
-- Regular expressions that are concatenations of repeated character classes, anchored at both ends:
-- the form of every pattern of the source. `match` is a backtracking matcher.
pub mod Matching
use multi_tenant_saa_s_platf.Base.{
  ℕ, zero, suc, ◌≤◌, ◌≡◌, Bool, true, false, ◌&&◌, List, [], ◌∷◌, ◌++◌, Text, All, length,
}

-- `one p` is a class, `up_to p n` is `p{0,n}`, `star p` is `p*`.
pub data Atom : Type 0 where
  one star : (ℕ → Bool) → Atom
  up_to : (ℕ → Bool) → ℕ → Atom

run_up_to : (Text → Bool) → (ℕ → Bool) → ℕ → Text → Bool
run_up_to k p zero s = k s
run_up_to k p (suc n) [] = k []
run_up_to k p (suc n) (c ∷ s) =
    let more = run_up_to k p n s in elim (k (c ∷ s)) [ true ↦ true | false ↦ p c && more ]

run_star : (Text → Bool) → (ℕ → Bool) → Text → Bool
run_star k p [] = k []
run_star k p (c ∷ s) =
    let more = run_star k p s in elim (k (c ∷ s)) [ true ↦ true | false ↦ p c && more ]

-- `new RegExp(...).test(s)`
unfoldable pub match : List Atom → Text → Bool
unfolding run_up_to run_star
match [] [] = true
match [] (c ∷ s) = false
match (one p ∷ r) [] = false
match (one p ∷ r) (c ∷ s) = p c && match r s
match (star p ∷ r) s = run_star (match r) p s
match (up_to p n ∷ r) s = run_up_to (match r) p n s

-- What a pattern accepts: a cut of the text into one part for each atom.
abbrev pub Accepts : List Atom → Text → Type 0
Accepts [] s = s ≡ []
Accepts (one p ∷ r) s = (c : ℕ) × (t : Text) × (s ≡ c ∷ t) × (p c ≡ true) × Accepts r t
Accepts (star p ∷ r) s =
    (u : Text) × (t : Text) × (s ≡ u ++ t) × All (λ c. p c ≡ true) u × Accepts r t
Accepts (up_to p n ∷ r) s =
    (u : Text) × (t : Text) × (s ≡ u ++ t) × (length u ≤ n) × All (λ c. p c ≡ true) u × Accepts r t

-- `p{least,most}`
unfoldable pub repeat : (ℕ → Bool) → ℕ → ℕ → List Atom
repeat p zero most = up_to p most ∷ []
repeat p (suc least) zero = []
repeat p (suc least) (suc most) = one p ∷ repeat p least most
