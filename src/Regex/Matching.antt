-- ===== src/Regex/Matching.antt =====
-- The matcher of patterns, and the texts that they accept.
use mathlib.Core.Logic.{◌↔◌}
use multi_tenant_saa_s_platf.Base.{
  ℕ, zero, suc, ◌≤◌, ◌≡◌, refl, Bool, true, List, [], ◌∷◌, ◌++◌, arith, Text, All, length, inl, inr,
  Bool-cases,
}
use multi_tenant_saa_s_platf.Regex.{Atom, one, star, up_to, run_up_to, run_star, match, Accepts}

-- A prefix of at most `n` units of the class, and a rest that `k` accepts.
abbrev Cut : (Text → Bool) → (ℕ → Bool) → (Text → Type 0) → Text → Type 0
Cut k p Fits s =
    (u : Text) × (t : Text) × (s ≡ u ++ t) × Fits u × All (λ c. p c ≡ true) u × (k t ≡ true)

module _ (k : Text → Bool) (p : ℕ → Bool) where
  run_up_to_sound : (n : ℕ) (s : Text) → run_up_to k p n s ≡ true → Cut k p (λ u. length u ≤ n) s
  unfolding run_up_to
  run_up_to_sound zero s h = ([], s, refl, omega arith, tt, h)
  run_up_to_sound (suc n) [] h = ([], [], refl, omega arith, tt, h)
  run_up_to_sound (suc n) (c ∷ s) h = elim (Bool-cases (k (c ∷ s))) [
    | inl stop ↦ ([], c ∷ s, refl, omega arith, tt, stop)
    | inr on ↦
        let (u, t, e, bound, same, rest) = run_up_to_sound n s (ground arith) in
        (c ∷ u, t, cc, omega arith, (ground arith, same), rest)
  ]

  run_up_to_complete :
      (n : ℕ) (u t : Text)
      → length u ≤ n
      → All (λ c. p c ≡ true) u
      → k t ≡ true
      → run_up_to k p n (u ++ t) ≡ true
  unfolding run_up_to
  run_up_to_complete zero [] t b a h = h
  run_up_to_complete zero (c ∷ u) t b a h = absurd (omega arith)
  run_up_to_complete (suc n) [] [] b a h = h
  run_up_to_complete (suc n) [] (c ∷ t) b a h = rw h
  run_up_to_complete (suc n) (c ∷ u) t b a h =
      ground (arith, run_up_to_complete n u t (omega arith) a.1 h)

  run_star_sound : (s : Text) → run_star k p s ≡ true → Cut k p (λ u. Unit) s
  unfolding run_star
  run_star_sound [] h = ([], [], refl, tt, tt, h)
  run_star_sound (c ∷ s) h = elim (Bool-cases (k (c ∷ s))) [
    | inl stop ↦ ([], c ∷ s, refl, tt, tt, stop)
    | inr on ↦
        let (u, t, e, bound, same, rest) = run_star_sound s (ground arith) in
        (c ∷ u, t, cc, tt, (ground arith, same), rest)
  ]

  run_star_complete :
      (u t : Text) → All (λ c. p c ≡ true) u → k t ≡ true → run_star k p (u ++ t) ≡ true
  unfolding run_star
  run_star_complete [] [] a h = h
  run_star_complete [] (c ∷ t) a h = rw h
  run_star_complete (c ∷ u) t a h = ground (arith, run_star_complete u t a.1 h)

match_sound : (r : List Atom) (s : Text) → match r s ≡ true → Accepts r s
unfolding match
match_sound [] [] h = refl
match_sound [] (c ∷ s) h = cc
match_sound (one p ∷ r) [] h = cc
match_sound (one p ∷ r) (c ∷ s) h = (c, s, refl, ground arith, match_sound r s (ground arith))
match_sound (star p ∷ r) s h =
    let (u, t, e, fits, same, rest) = run_star_sound (match r) p s h in
    (u, t, e, same, match_sound r t rest)
match_sound (up_to p n ∷ r) s h =
    let (u, t, e, fits, same, rest) = run_up_to_sound (match r) p n s h in
    (u, t, e, fits, same, match_sound r t rest)

match_complete : (r : List Atom) (s : Text) → Accepts r s → match r s ≡ true
unfolding match
match_complete [] s h = rw h
match_complete (one p ∷ r) s (c, t, e, this, rest) = rw (e, this) (match_complete r t rest)
match_complete (star p ∷ r) s (u, t, e, same, rest) =
    rw e (run_star_complete (match r) p u t same (match_complete r t rest))
match_complete (up_to p n ∷ r) s (u, t, e, fits, same, rest) =
    rw e (run_up_to_complete (match r) p n u t fits same (match_complete r t rest))

-- The matcher returns `true` on a text exactly when the text can be cut into parts that fit the
-- atoms of the pattern in order: one unit of the class, any number of them, or at most `n`.
pub match_iff : (r : List Atom) (s : Text) → (match r s ≡ true) ↔ Accepts r s
match_iff r s = (match_sound r s, match_complete r s)
