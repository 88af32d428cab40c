-- ===== src/Dashboard/Series/Rows.antt =====
-- The map that `indexByDay` of get-event-series.handler.ts makes of the rows.
use multi_tenant_saa_s_platf.Base.{
  ℕ, ◌≡◌, refl, inl, inr, true, false, ◌||◌, none, some, List, [], ◌∷◌, Text, arith, ◌===◌, get_or,
  text_eq_iff, All, any, Bool-cases, ap, sym, ◌∙◌,
}
use multi_tenant_saa_s_platf.Kernel.Repository.{SelectQuery}
use multi_tenant_saa_s_platf.Dashboard.Series.{
  DailyCountRow, DayMap, CountsDays, rows_on, get, index_rows, index_by_day,
}

module _ (count : Text → ℕ) where
  -- What a map gives, if it gives it, is the day's count.
  abbrev IsCounting : DayMap → Type 0
  IsCounting m = All (λ entry. entry.1 ≡ count entry.0) m

  get-index_rows :
      (rows : List DailyCountRow) (m : DayMap) (day : Text)
      → IsCounting rows
      → IsCounting m
      → (any (λ (r : DailyCountRow). r.0 === day) rows
          || any (λ (r : DailyCountRow). r.0 === day) m)
        ≡ true
      → get day (index_rows rows m) ≡ some (count day)
  unfolding get index_rows
  get-index_rows [] [] day h k present = ground arith
  get-index_rows [] (entry ∷ m) day h k present = elim (Bool-cases (entry.0 === day)) [
    | inl same ↦
        let equal = (text_eq_iff entry.0 day).0 same in
        let value : entry.1 ≡ count day = k.0 ∙ ap count equal in ground arith
    | inr other ↦ let rest = get-index_rows [] m day tt k.1 (ground arith) in ground arith
  ]
  get-index_rows (row ∷ rows) m day h k present =
      get-index_rows rows (row ∷ m) day h.1 (h.0, k) (ground arith)

  get-absent :
      (rows : List DailyCountRow) (m : DayMap) (day : Text)
      → any (λ (r : DailyCountRow). r.0 === day) rows ≡ false
      → any (λ (r : DailyCountRow). r.0 === day) m ≡ false
      → get day (index_rows rows m) ≡ none
  unfolding get index_rows
  get-absent [] [] day h k = refl
  get-absent [] (entry ∷ m) day h k =
      let rest = get-absent [] m day refl (ground arith) in ground arith
  get-absent (row ∷ rows) m day h k = get-absent rows (row ∷ m) day (ground arith) (ground arith)

pub get-index_by_day :
    {E : Type 0} (day_of : E → Text) (q : SelectQuery E) (es : List E) (rows : List DailyCountRow)
    (day : Text)
    → CountsDays day_of q es rows
    → get_or (get day (index_by_day rows)) 0 ≡ rows_on day_of day q es
unfolding index_by_day
get-index_by_day day_of q es rows day h =
    elim (Bool-cases (any (λ (r : DailyCountRow). r.0 === day) rows)) [
      | inl present ↦
          ap (λ found. get_or found 0)
            (get-index_rows (λ d. rows_on day_of d q es) rows [] day h.0 tt (ground arith))
      | inr absent ↦
          ap (λ found. get_or found 0) (get-absent (λ d. 0) rows [] day absent refl)
          ∙ sym (h.1 day absent)
    ]
