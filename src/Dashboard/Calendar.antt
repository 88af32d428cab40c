-- ===== src/Dashboard/Calendar.antt =====
-- The days of dashboard/application/queries/get-event-series: `startOfUtcDay` and `formatDay`.
pub mod Days
use multi_tenant_saa_s_platf.Base.{
  ℕ, zero, suc, ◌+◌, ◌-◌, ◌*◌, ◌/◌, ◌≡◌, [], ◌∷◌, ◌++◌, Text, decimal, length,
}

-- `DAY_MS`
abbrev pub day_ms : ℕ
day_ms = 24 * 60 * 60 * 1000

-- The getters of `Date` in UTC, with months from 0, and `Date.UTC`. All instants of a day have its year,
-- month and date, and `Date.UTC` of these is the day's start; a day has 24 hours.
pub record UtcCalendar : Type 0 where
  pub year : ℕ → ℕ
  pub month : ℕ → ℕ
  pub date : ℕ → ℕ
  pub utc : ℕ → ℕ → ℕ → ℕ
  pub utc_start : (t : ℕ) → utc (year t) (month t) (date t) ≡ (t / day_ms) * day_ms
  pub same_year : (t t' : ℕ) → t / day_ms ≡ t' / day_ms → year t ≡ year t'
  pub same_month : (t t' : ℕ) → t / day_ms ≡ t' / day_ms → month t ≡ month t'
  pub same_date : (t t' : ℕ) → t / day_ms ≡ t' / day_ms → date t ≡ date t'

abbrev pub zeros : ℕ → Text → Text
zeros zero s = s
zeros (suc n) s = b'0' ∷ zeros n s

-- `s.padStart(width, '0')`
unfoldable pub pad_start : ℕ → Text → Text
pad_start width s = zeros (width - length s) s

module _ (calendar : UtcCalendar) where
  -- `startOfUtcDay`
  unfoldable pub start_of_utc_day : ℕ → ℕ
  start_of_utc_day d = calendar.utc (calendar.year d) (calendar.month d) (calendar.date d)

  unfoldable pub format_day : ℕ → Text
  unfolding pad_start decimal
  format_day d =
      pad_start 4 (decimal (calendar.year d))
      ++ (b'-' ∷ pad_start 2 (decimal (calendar.month d + 1))
          ++ (b'-' ∷ pad_start 2 (decimal (calendar.date d))))
