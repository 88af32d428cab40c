-- ===== src/Kernel/Repository/Memory.antt =====
-- A table held as a list: it shows that what `Repository` promises can be met, and runs in tests.
use multi_tenant_saa_s_platf.Base.{
  ℕ, zero, suc, ◌+◌, ◌≤◌, ◌≡◌, refl, Bool, true, false, Option, none, some, List, [], ◌∷◌, ◌++◌,
  Text, String, Result, ok, fail, Exception, arith, ◌===◌, all, keep, any, take, drop, length,
  length-take, if◌then◌else◌, Bool-cases, inl, inr,
}
use multi_tenant_saa_s_platf.Kernel.Repository.{Where, SelectQuery, fits, matches, Repository}

module _ {E : Type 0} where
  unfoldable pub first : (E → Bool) → List E → Option E
  first p [] = none
  first p (e ∷ es) = if p e then some e else first p es

  first_fits : (p : E → Bool) (es : List E) (e : E) → first p es ≡ some e → p e ≡ true
  unfolding first
  first_fits p [] e h = cc
  first_fits p (x ∷ es) e h = elim (Bool-cases (p x)) [
    | inl yes_x ↦ ground arith
    | inr no_x ↦ first_fits p es e (ground arith)
  ]

  first-none : (p : E → Bool) (es : List E) → first p es ≡ none → keep p es ≡ []
  unfolding first
  first-none p [] h = refl
  first-none p (x ∷ es) h = ground (arith, first-none p es)

  first-none-any : (p : E → Bool) (es : List E) → first p es ≡ none → any p es ≡ false
  unfolding first
  first-none-any p [] h = refl
  first-none-any p (x ∷ es) h = ground (arith, first-none-any p es)

  unfoldable pub window : ℕ → Option ℕ → List E → List E
  window skip none es = drop skip es
  window skip (some n) es = take n (drop skip es)

  pub all-keep : (p : E → Bool) (es : List E) → all p (keep p es) ≡ true
  all-keep p [] = refl
  all-keep p (e ∷ es) = ground (arith, all-keep p es)

  all-drop : (p : E → Bool) (n : ℕ) (es : List E) → all p es ≡ true → all p (drop n es) ≡ true
  all-drop p zero es h = h
  all-drop p (suc n) [] h = refl
  all-drop p (suc n) (e ∷ es) h = all-drop p n es (ground arith)

  pub all-take : (p : E → Bool) (n : ℕ) (es : List E) → all p es ≡ true → all p (take n es) ≡ true
  all-take p zero es h = refl
  all-take p (suc n) [] h = refl
  all-take p (suc n) (e ∷ es) h = ground (arith, all-take p n es)

  all-window :
      (p : E → Bool) (skip : ℕ) (n : Option ℕ) (es : List E)
      → all p es ≡ true
      → all p (window skip n es) ≡ true
  unfolding window
  all-window p skip none es h = all-drop p skip es h
  all-window p skip (some n) es h = all-take p n (drop skip es) (all-drop p skip es h)

  length-keep-append :
      (p : E → Bool) (es es' : List E)
      → length (keep p (es ++ es')) ≡ length (keep p es) + length (keep p es')
  length-keep-append p [] es' = ground arith
  length-keep-append p (e ∷ es) es' = ground (arith, length-keep-append p es es')

  pub inserted :
      (es t t' : List E)
      → ◌≡◌ {A = Result (Unit {0}) × List E} (ok tt, t ++ es) (ok tt, t')
      → (p : E → Bool) → length (keep p t') ≡ length (keep p t) + length (keep p es)
  inserted es t t' h p = let e : t ++ es ≡ t' = cc in rw (← e) (length-keep-append p t es)

module _ {E : Type 0} (column : String → E → Text) where
  -- `save` writes over the row with the same id, or adds one.
  unfoldable pub upsert : E → List E → List E
  upsert e [] = e ∷ []
  upsert e (x ∷ es) = if column "id" x === column "id" e then e ∷ es else x ∷ upsert e es

  unfoldable pub run_query : SelectQuery E → List E → List E
  unfolding window
  run_query q t = window q.skip q.take (keep (fits q.filters) t)

  run_query-fits : (q : SelectQuery E) (t : List E) → all (fits q.filters) (run_query q t) ≡ true
  unfolding run_query
  run_query-fits q t = all-window (fits q.filters) q.skip q.take _ (all-keep (fits q.filters) t)

  pub find_first_fits :
      (w : Where) (t : List E) (e : E)
      → ◌≡◌ {A = Result (Option E)} (ok (first (matches column w) t)) (ok (some e))
      → matches column w e ≡ true
  find_first_fits w t e h = first_fits (matches column w) t e (cc)

  pub exists_any :
      (w : Where) (t : List E) (b : Bool)
      → ◌≡◌ {A = Result Bool} (ok (any (matches column w) t)) (ok b)
      → b ≡ any (matches column w) t
  exists_any w t b h = cc

  pub find_first-none :
      (w : Where) (t : List E)
      → ◌≡◌ {A = Result (Option E)} (ok (first (matches column w) t)) (ok none)
      → any (matches column w) t ≡ false
  find_first-none w t h = first-none-any (matches column w) t (cc)

  pub get_first-fits :
      (q : SelectQuery E) (t : List E) (e : E)
      → ◌≡◌ {A = Result (Option E)} (ok (first (fits q.filters) t)) (ok (some e))
      → fits q.filters e ≡ true
  get_first-fits q t e h = first_fits (fits q.filters) t e (cc)

  pub get_first-none :
      (q : SelectQuery E) (t : List E)
      → ◌≡◌ {A = Result (Option E)} (ok (first (fits q.filters) t)) (ok none)
      → keep (fits q.filters) t ≡ []
  get_first-none q t h = first-none (fits q.filters) t (cc)

  pub counted :
      (p : E → Bool) (t : List E) (n : ℕ)
      → ◌≡◌ {A = Result ℕ} (ok (length (keep p t))) (ok n)
      → n ≡ length (keep p t)
  counted p t n h = cc

  pub many_fits :
      (q : SelectQuery E) (t es : List E)
      → ◌≡◌ {A = Result (List E)} (ok (run_query q t)) (ok es)
      → all (fits q.filters) es ≡ true
  many_fits q t es h = let e : run_query q t ≡ es = cc in rw (← e) (run_query-fits q t)

  pub many_keep :
      (q : SelectQuery E) (t es : List E)
      → ◌≡◌ {A = Result (List E)} (ok (run_query q t)) (ok es)
      → q.skip ≡ 0
      → q.take ≡ none
      → (p : E → Bool) → length (keep p es) ≡ length (keep p (keep (fits q.filters) t))
  unfolding run_query window
  many_keep q t es h s n p =
      let e : run_query q t ≡ es = cc in
      let whole : run_query q t ≡ keep (fits q.filters) t = rw (n, s) refl in rw (← e, whole) refl

  pub query_fits :
      (q : SelectQuery E) (t es : List E) (n : ℕ)
      → ◌≡◌ {A = Result (List E × ℕ)}
          (ok (run_query q t, length (keep (fits q.filters) t)))
          (ok (es, n))
      → all (fits q.filters) es ≡ true
  query_fits q t es n h = let e : run_query q t ≡ es = cc in rw (← e) (run_query-fits q t)

  pub query_count :
      (q : SelectQuery E) (t es : List E) (n : ℕ)
      → ◌≡◌ {A = Result (List E × ℕ)}
          (ok (run_query q t, length (keep (fits q.filters) t)))
          (ok (es, n))
      → n ≡ length (keep (fits q.filters) t)
  query_count q t es n h = cc

  pub query_take :
      (q : SelectQuery E) (t es : List E) (n limit : ℕ)
      → ◌≡◌ {A = Result (List E × ℕ)}
          (ok (run_query q t, length (keep (fits q.filters) t)))
          (ok (es, n))
      → q.take ≡ some limit
      → length es ≤ limit
  unfolding run_query window
  query_take q t es n limit h k =
      let e : run_query q t ≡ es = cc in
      let cut : run_query q t ≡ take limit (drop q.skip (keep (fits q.filters) t)) = rw k refl in
      rw (← e, cut, length-take limit (drop q.skip (keep (fits q.filters) t))) (omega arith)

  pub never_rejected :
      {A : Type 0} (a : A) (t s t' : List E) (x : Exception)
      → ◌≡◌ {A = Result A × List E} (ok a, s) (fail x, t')
      → t' ≡ t
  never_rejected a t s t' x h = cc

  unfoldable pub memory : Repository column
  unfolding first upsert run_query
  memory = record {
    Table = List E;
    rows = λ t. t;
    find_one = λ w t. ok (first (matches column w) t);
    exists_by = λ w t. ok (any (matches column w) t);
    count = λ w t. ok (length (keep (matches column w) t));
    get_one = λ q t. ok (first (fits q.filters) t);
    get_count = λ q t. ok (length (keep (fits q.filters) t));
    get_many = λ q t. ok (run_query q t);
    get_many_and_count = λ q t. ok (run_query q t, length (keep (fits q.filters) t));
    save = λ e t. (ok e, upsert e t);
    insert = λ es t. (ok tt, t ++ es);
    find_one_fits = find_first_fits;
    exists_row = exists_any;
    find_one_none = find_first-none;
    count_matches = λ w t n h. counted (matches column w) t n h;
    get_one_fits = get_first-fits;
    get_one_none = get_first-none;
    count_rows = λ q t n h. counted (fits q.filters) t n h;
    get_many_keep = λ q t es h s n p. many_keep q t es h s n p;
    get_many_fit = λ q t es h. many_fits q t es h;
    many_fit = query_fits;
    many_count = query_count;
    many_take = query_take;
    save_rejected = λ e t t' x h. never_rejected e t (upsert e t) t' x h;
    insert_rejected = λ es t t' x h. never_rejected tt t (t ++ es) t' x h;
    insert_adds = inserted;
  }

  -- The table of some rows
  unfoldable pub holding : List E → memory.Table
  unfolding memory
  holding es = es
