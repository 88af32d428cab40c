-- ===== src/Dashboard/Series/Memory.antt =====
-- The counts by day of a table that is held as a list, an instance of `DailyCounts`.
use multi_tenant_saa_s_platf.Base.{
  ℕ, ◌≡◌, refl, ap, sym, ◌∙◌, Option, none, some, fail, error, Exception, false, List, [], ◌∷◌, map,
  Text, String, Result, ok, arith, ◌===◌, All, any, keep, length,
}
use multi_tenant_saa_s_platf.Kernel.Repository.{SelectQuery, fits}
use multi_tenant_saa_s_platf.Kernel.Repository.Memory.{memory}
use multi_tenant_saa_s_platf.Dashboard.Series.{DailyCountRow, DailyCounts, CountsDays}

module _ {E : Type 0} (day_of : E → Text) (kept : List E) where
  abbrev pub day_count : Text → ℕ
  day_count day = length (keep (λ e. day_of e === day) kept)

  -- One row for each of the elements, with its day's count.
  unfoldable pub day_rows : List E → List DailyCountRow
  day_rows es = map (λ e. (day_of e, day_count (day_of e))) es

  pub day_rows-listed : (es : List E) → All (λ r. r.1 ≡ day_count r.0) (day_rows es)
  unfolding day_rows
  day_rows-listed [] = tt
  day_rows-listed (e ∷ es) = (refl, day_rows-listed es)

  pub day_rows-unlisted :
      (es : List E) (day : Text)
      → any (λ r. r.0 === day) (day_rows es) ≡ false
      → length (keep (λ e. day_of e === day) es) ≡ 0
  unfolding day_rows
  day_rows-unlisted [] day h = refl
  day_rows-unlisted (e ∷ es) day h = ground (arith, day_rows-unlisted es day)

-- What a database says of a column that it does not know.
abbrev pub no_column : Exception
no_column = error (record { template = "column does not exist"; values = [] })

module _ {E : Type 0} (column : String → E → Text) (instant : String → Option (E → Option ℕ)) where
  abbrev pub answer : SelectQuery E → (E → Text) → List E → List DailyCountRow
  answer q day_of t = day_rows day_of (keep (fits q.filters) t) (keep (fits q.filters) t)

  abbrev pub answer_by :
      Option (E → Option ℕ)
      → SelectQuery E
      → (Option ℕ → Text)
      → List E
      → Result (List DailyCountRow)
  answer_by none q day t = fail no_column
  answer_by (some f) q day t = ok (answer q (λ e. day (f e)) t)

  pub answer_counted :
      (name : String) (f : E → Option ℕ) (q : SelectQuery E) (day : Option ℕ → Text) (t : List E)
      (rows : List DailyCountRow)
      → instant name ≡ some f
      → answer_by (instant name) q day t ≡ ok rows
      → CountsDays (λ e. day (f e)) q t rows
  answer_counted name f q day t rows known h =
      let day_of = λ (e : E). day (f e) in
      let kept = keep (fits q.filters) t in
      let made : ◌≡◌ {A = Result (List DailyCountRow)} (ok (answer q day_of t)) (ok rows) =
        ap (λ found. answer_by found q day t) (sym known) ∙ h in
      let same : answer q day_of t ≡ rows = cc in
      (
        rw (← same) (day_rows-listed day_of kept kept),
        λ d absent. day_rows-unlisted day_of kept kept d (rw (← same) at absent),
      )

  pub answer_unknown :
      (name : String) (q : SelectQuery E) (day : Option ℕ → Text) (t : List E)
      → instant name ≡ none
      → (x : Exception) × (answer_by (instant name) q day t ≡ fail x)
  answer_unknown name q day t unknown = (no_column, ap (λ found. answer_by found q day t) unknown)

  unfoldable pub memory_days : DailyCounts instant (memory column)
  unfolding memory day_rows
  memory_days = record {
    count_by_day = λ name q day t. answer_by (instant name) q day t;
    counted = λ name f q day t rows known h. answer_counted name f q day t rows known h;
    unknown_column = λ name q day t unknown. answer_unknown name q day t unknown;
  }
