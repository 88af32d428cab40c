-- ===== src/Bootstrap/Slugify.antt =====
-- `slugify` of scripts/bootstrap-platform-admin.ts. Its regular expressions see UTF-16 code units.
pub mod Runs
pub mod Shape
use multi_tenant_saa_s_platf.Base.{
  ℕ, ◌≤◌, Bool, true, false, not, ◌&&◌, Option, none, some, List, [], ◌∷◌, ◌++◌, Text, codes, ◌==◌,
  leb, ltb, if◌then◌else◌, is_empty, keep, length, take, trim, CaseMapping,
}
use multi_tenant_saa_s_platf.TenantCore.Slug.{is_alnum}

-- `s.replace(/[̀-ͯ]/g, '')`
abbrev pub is_mark : ℕ → Bool
is_mark c = leb 0x300 c && leb c 0x36f

unfoldable pub strip_marks : Text → Text
strip_marks s = keep (λ c. not (is_mark c)) s

-- `s.replace(/[^a-z0-9]+/g, '-')`; the first argument tells that a run has begun.
unfoldable pub hyphenate : Bool → Text → Text
hyphenate in_run [] = []
hyphenate in_run (c ∷ s) = elim (is_alnum c) [
  | true ↦ c ∷ hyphenate false s
  | false ↦ elim in_run [ true ↦ hyphenate true s | false ↦ b'-' ∷ hyphenate true s ]
]

-- `s.replace(/^-+/, '')` and `s.replace(/-+$/, '')`
unfoldable pub strip_start : Text → Text
strip_start [] = []
strip_start (c ∷ s) = let rest = strip_start s in if c == b'-' then rest else c ∷ s

unfoldable pub strip_end : Text → Text
strip_end [] = []
strip_end (c ∷ s) = let rest = strip_end s in if is_empty rest && c == b'-' then [] else c ∷ rest

-- What the chain of calls makes of the name; `normalize('NFKD')` is the second argument.
unfoldable pub slug_base : CaseMapping → (Text → Text) → Text → Text
unfolding strip_marks hyphenate strip_start strip_end
slug_base case normalize input =
    strip_end (strip_start (hyphenate false (strip_marks (normalize (case.to_lower_case input)))))

-- `if (s.length < 3) ...; if (s.length > 63) ...`
unfoldable pub fit_length : Text → Text
unfolding strip_end codes
fit_length s =
    let long_enough = if ltb (length s) 3 then s ++ codes "-org" else s in
    if ltb 63 (length long_enough) then strip_end (take 63 long_enough) else long_enough

-- `slugify`; the last argument but one is `INITIAL_TENANT_SLUG`.
unfoldable pub slugify : CaseMapping → (Text → Text) → Option Text → Text → Text
unfolding slug_base fit_length trim
slugify case normalize none input = fit_length (slug_base case normalize input)
slugify case normalize (some explicit) input =
    let chosen = case.to_lower_case (trim explicit) in
    if leb 3 (length chosen) then chosen else fit_length (slug_base case normalize input)
