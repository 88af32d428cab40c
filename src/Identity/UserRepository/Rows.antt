-- ===== src/Identity/UserRepository/Rows.antt =====
-- Users and their rows, and what a lookup by email finds.
use multi_tenant_saa_s_platf.Base.{
  ℕ, ◌≡◌, refl, ◌≢◌, ap, inl, inr, Bool, true, false, Option, none, some, List, [], ◌∷◌, Text, ok,
  arith, CaseMapping, Result-cases, Bool-cases, text_eq_iff, any, All, trim, get_or, ◌∙◌,
}
use multi_tenant_saa_s_platf.Kernel.Repository.{Repository, matches}
use multi_tenant_saa_s_platf.Identity.Email
use multi_tenant_saa_s_platf.Identity.Email.{Email}
use multi_tenant_saa_s_platf.Identity.Email.Shape.{email-create_iff}
use multi_tenant_saa_s_platf.Identity.User.{User}
use multi_tenant_saa_s_platf.Identity.UserRepository.{
  UserOrm, user_column, to_domain, to_orm, load, exists_by_email,
}

-- A user whose email was created comes back from its row as it was, but for the dates of creation
-- and update, which are those that the database gives or, failing that, the clock's.
pub user_to_domain-to_orm :
    (case : CaseMapping) (user : User) (created updated : Option ℕ) (now now' : ℕ)
    → Email.create case user.email.value ≡ ok user.email
    → to_domain case (record (to_orm user) { created_at = created; updated_at = updated }) now now'
      ≡ ok (record user {
        base = record {
          id = user.id;
          created_at = get_or created now;
          updated_at = get_or updated now';
        };
      })
unfolding to_domain to_orm
user_to_domain-to_orm case user created updated now now' h = ground arith

module _ (case : CaseMapping) where
  -- The email of a row is one that `Email.create` has made.
  abbrev pub HasEmail : UserOrm → Type 0
  HasEmail orm = Email.create case orm.email ≡ ok (record { value = orm.email })

  matches-email :
      (email : Text) (orm : UserOrm)
      → matches user_column (("email", email) ∷ []) orm ≡ true
      → orm.email ≡ email
  unfolding matches user_column
  matches-email email orm h = ground (arith, text_eq_iff orm.email email)

  any-false :
      (raw : Text) (email : Email) (rows : List UserOrm)
      → Email.create case raw ≡ ok email
      → email.value ≢ case.to_lower_case raw
      → All HasEmail rows
      → any (matches user_column (("email", case.to_lower_case raw) ∷ [])) rows ≡ false
  any-false raw email [] made other h = refl
  any-false raw email (o ∷ rows) made other h =
      elim (Bool-cases (matches user_column (("email", case.to_lower_case raw) ∷ []) o)) [
        | inl same ↦
            let e : o.email ≡ case.to_lower_case raw = matches-email _ o same in
            let sound : o.email ≡ trim (case.to_lower_case o.email) =
              ((email-create_iff case o.email (record { value = o.email })).0 h.0).0 in
            let kept : email.value ≡ trim (case.to_lower_case raw) =
              ((email-create_iff case raw email).0 made).0 in
            absurd (
              other (
                cc (
                  e,
                  sound,
                  kept,
                  case.lower_idem raw,
                  ap trim (case.lower_idem raw),
                  ap (λ s. trim (case.to_lower_case s)) e,
                )))
        | inr differs ↦ ground (arith, any-false raw email rows made other h.1)
      ]

  -- In a table whose emails were all created by the value object: for a text from which an email
  -- is created that differs from the text in lower case, as it does with white space at an end,
  -- the check for an email that is taken reports it as free, if it answers at all, also where the
  -- table holds that very email.
  pub exists_by_email-blind :
      (repo : Repository user_column) (raw : Text) (email : Email) (t t' : repo.Table)
      (taken : Bool)
      → All HasEmail (repo.rows t)
      → Email.create case raw ≡ ok email
      → email.value ≢ case.to_lower_case raw
      → exists_by_email case repo raw t ≡ (ok taken, t')
      → taken ≡ false
  unfolding exists_by_email
  exists_by_email-blind repo raw email t t' taken h made other e =
      repo.exists_row (("email", case.to_lower_case raw) ∷ []) t taken (ap (λ p. p.0) e)
      ∙ any-false raw email (repo.rows t) made other h

  load-some :
      (found : Option UserOrm) (user : User) (now now' : ℕ)
      → load case found now now' ≡ ok (some user)
      → (orm : UserOrm) × (found ≡ some orm) × (to_domain case orm now now' ≡ ok user)
  unfolding load
  load-some none user now now' h = cc
  load-some (some orm) user now now' h = elim (Result-cases (to_domain case orm now now')) [
    | inl (user', e) ↦ (orm, refl, ground arith)
    | inr (x, e) ↦ ground arith
  ]
