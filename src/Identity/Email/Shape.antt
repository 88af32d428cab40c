-- ===== src/Identity/Email/Shape.antt =====
-- The texts that `Email.create` of email.vo.ts makes an address of.
use mathlib.Core.List.{append-nil}
use mathlib.Core.Path.{subst, sym}
use multi_tenant_saa_s_platf.Base.{
  ◌≤◌, ◌≡◌, ◌≢◌, refl, ◌↔◌, true, [], ◌∷◌, ◌++◌, Text, ok, arith, All, length, trim, trim_idem,
  CaseMapping, ==_iff,
}
use multi_tenant_saa_s_platf.Regex.{match, Accepts}
use multi_tenant_saa_s_platf.Regex.Matching.{match_iff}
use multi_tenant_saa_s_platf.Identity.Email.{Email, is_plain, pattern_atoms, create}

-- A part that is not empty and holds no white space and no "@".
abbrev pub IsPart : Text → Type 0
IsPart u = (u ≢ []) × All (λ c. is_plain c ≡ true) u

-- Three such parts, with "@" behind the first and "." behind the second.
abbrev pub IsAddress : Text → Type 0
IsAddress s =
    (local : Text) × (domain : Text) × (suffix : Text) × (s
      ≡ local ++ b'@' ∷ (domain ++ b'.' ∷ suffix))
    × IsPart local
    × IsPart domain
    × IsPart suffix

Accepts-IsAddress : (s : Text) → Accepts pattern_atoms s → IsAddress s
unfolding pattern_atoms
Accepts-IsAddress s
      (
        a,
        s₁,
        e₁,
        pa,
        (
          u,
          s₂,
          e₂,
          pu,
          (
            at,
            s₃,
            e₃,
            pat,
            (
              b,
              s₄,
              e₄,
              pb,
              (v, s₅, e₅, pv, (dot, s₆, e₆, pdot, (c, s₇, e₇, pc, (w, s₈, e₈, pw, e₉)))),
            ),
          ),
        ),
      ) =
    let is_at : at ≡ b'@' = (==_iff at b'@').0 pat in
    let is_dot : dot ≡ b'.' = (==_iff dot b'.').0 pdot in
    let nothing : s₈ ≡ [] = e₉ in
    (
      a ∷ u,
      b ∷ v,
      c ∷ w,
      cc (append-nil w),
      ((λ h. cc), (pa, pu)),
      ((λ h. cc), (pb, pv)),
      ((λ h. cc), (pc, pw)),
    )

IsAddress-Accepts : (s : Text) → IsAddress s → Accepts pattern_atoms s
unfolding pattern_atoms
IsAddress-Accepts s ([], v, w, e, pu, pv, pw) = absurd (pu.0 refl)
IsAddress-Accepts s (a ∷ u, [], w, e, pu, pv, pw) = absurd (pv.0 refl)
IsAddress-Accepts s (a ∷ u, b ∷ v, [], e, pu, pv, pw) = absurd (pw.0 refl)
IsAddress-Accepts s (a ∷ u, b ∷ v, c ∷ w, e, pu, pv, pw) = (
  a,
  _,
  e,
  pu.1.0,
  (
    u,
    _,
    refl,
    pu.1.1,
    (
      b'@',
      _,
      refl,
      refl,
      (
        b,
        _,
        refl,
        pv.1.0,
        (
          v,
          _,
          refl,
          pv.1.1,
          (b'.', _, refl, refl, (c, w, refl, pw.1.0, (w, [], sym (append-nil w), pw.1.1, refl))),
        ),
      ),
    ),
  ),
)

pub pattern_iff : (s : Text) → (match pattern_atoms s ≡ true) ↔ IsAddress s
pattern_iff s =
    let (to, from) = match_iff pattern_atoms s in
    (λ h. Accepts-IsAddress s (to h), λ h. from (IsAddress-Accepts s h))

module _ (case : CaseMapping) where
  create_test :
      (value : Text) (email : Email)
      → (create case value ≡ ok email) ↔ (
          (email.value ≡ trim (case.to_lower_case value))
          × (match pattern_atoms (trim (case.to_lower_case value)) ≡ true)
          × (length (trim (case.to_lower_case value)) ≤ 320))
  unfolding create
  create_test value email = ground arith

  -- Creation succeeds exactly when the text, in lower case and trimmed, is an address (three parts
  -- without white space and "@", joined by "@" and ".") of at most 320 units, and the email holds
  -- that text.
  pub email-create_iff :
      (value : Text) (email : Email)
      → (create case value ≡ ok email) ↔ (
          (email.value ≡ trim (case.to_lower_case value))
          × IsAddress email.value
          × (length email.value ≤ 320))
  email-create_iff value email =
      let (to, from) = create_test value email in
      let (shape, test) = pattern_iff (trim (case.to_lower_case value)) in
      (
        λ h. let (e, fits, short) = to h in (e, subst IsAddress (sym e) (shape fits), rw e short),
        λ (e, address, short). from (e, test (subst IsAddress e address), rw e at short),
      )

  -- An email that was created is created again from its own text.
  pub email-create-value :
      (value : Text) (email : Email)
      → create case value ≡ ok email
      → create case email.value ≡ ok email
  email-create-value value email h =
      let (same, address, short) = (email-create_iff value email).0 h in
      (email-create_iff email.value email).1
        (rw (same, case.lower_trim, case.lower_idem, trim_idem) refl, address, short)
