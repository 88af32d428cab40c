-- ===== src/Identity/Authenticate/Session.antt =====
-- Who authenticate.handler.ts gives a session, and for which tenant.
use multi_tenant_saa_s_platf.Base.{
  ℕ, ◌<◌, ◌+◌, ◌≡◌, refl, inl, inr, true, Option, none, some, Text, ok, fail, Exception,
  unauthorized, Message, arith, CaseMapping, Result-cases, text_eq_iff,
}
use multi_tenant_saa_s_platf.Kernel.Repository.{Repository}
use multi_tenant_saa_s_platf.Http.Credentials.{JwtPayload, validate}
use multi_tenant_saa_s_platf.TenantCore.Organization
use multi_tenant_saa_s_platf.TenantCore.Organization.{Organization}
use multi_tenant_saa_s_platf.TenantCore.Repository.{
  organization_column, find_by_slug, find_by_owner_id,
}
use multi_tenant_saa_s_platf.Identity.Email
use multi_tenant_saa_s_platf.Identity.User.{Bcrypt, User, verify_password, is_active, record_login}
use multi_tenant_saa_s_platf.Identity.UserRepository.{
  user_column, find_by_email, save, to_orm, to_domain,
}
use multi_tenant_saa_s_platf.Identity.Authenticate.{
  Jwt, AuthenticateCommand, Clock, TokenPair, resolve_organization, admit, issue_tokens, execute,
}

module _ (case : CaseMapping) (bcrypt : Bcrypt) (jwt : Jwt) (users : Repository user_column)
    (organizations : Repository organization_column) where
  resolve_organization_reads :
      (user_id : Text) (slug : Option Text) (o : organizations.Table)
      → (resolve_organization case bcrypt jwt users organizations user_id slug o).1 ≡ o
  unfolding resolve_organization find_by_slug find_by_owner_id
  resolve_organization_reads user_id none o = ground arith
  resolve_organization_reads user_id (some slug) o = ground arith

  admit_reads :
      (command : AuthenticateCommand) (clock : Clock) (u : users.Table) (o : organizations.Table)
      → (admit case bcrypt jwt users organizations command clock (u, o)).1 ≡ (u, o)
  unfolding admit find_by_email
  admit_reads command clock u o =
      elim (Result-cases
        (find_by_email case users clock.loaded clock.loaded_again command.email u).0) [
          | inl (none, f) ↦ ground arith
          | inl (some user, f) ↦
              ground (arith, resolve_organization_reads user.id command.organization_slug o)
          | inr (x, f) ↦ ground arith
        ]

  -- What `admit` has checked of the two that it returns.
  abbrev pub IsAdmitted :
      AuthenticateCommand → Clock → users.Table → organizations.Table → User → Organization → Type 0
  IsAdmitted command clock u o user organization =
      ((find_by_email case users clock.loaded clock.loaded_again command.email u).0
        ≡ ok (some user))
      × (verify_password bcrypt command.password user ≡ true)
      × (is_active user ≡ true)
      × ((resolve_organization case bcrypt jwt users organizations user.id command.organization_slug
            o).0
          ≡ ok (some organization))
      × (organization.owner_id ≡ user.id)
      × (Organization.is_active organization ≡ true)

  admit-IsAdmitted :
      (command : AuthenticateCommand) (clock : Clock) (u : users.Table) (o : organizations.Table)
      (user : User) (organization : Organization)
      → (admit case bcrypt jwt users organizations command clock (u, o)).0 ≡ ok (user, organization)
      → IsAdmitted command clock u o user organization
  unfolding admit Organization.is_active
  admit-IsAdmitted command clock u o user organization h =
      elim (Result-cases
        (find_by_email case users clock.loaded clock.loaded_again command.email u).0) [
          | inl (none, f) ↦ ground arith
          | inl (some found, f) ↦
              elim (Result-cases
                (resolve_organization case bcrypt jwt users organizations found.id
                  command.organization_slug o).0) [
                    | inl (none, r) ↦ ground arith
                    | inl (some resolved, r) ↦
                        ground (arith, text_eq_iff resolved.owner_id found.id)
                    | inr (x, r) ↦ ground arith
                  ]
          | inr (x, f) ↦ ground arith
        ]

  -- Who is given a token pair has an account of that email whose password was verified and which is
  -- active, and owns the organization that the command leads to, which is active; the pair is for
  -- that user and that organization, and the organizations are as they were.
  pub execute-IsAdmitted :
      (command : AuthenticateCommand) (clock : Clock) (u u' : users.Table)
      (o o' : organizations.Table) (pair : TokenPair jwt.Token)
      → execute case bcrypt jwt users organizations command clock (u, o) ≡ (ok pair, (u', o'))
      → (user : User) × (organization : Organization) × IsAdmitted command clock u o user
          organization
        × (pair.user_id ≡ user.id)
        × (pair.tenant_id ≡ organization.id)
        × (o' ≡ o)
  unfolding execute record_login issue_tokens
  execute-IsAdmitted command clock u u' o o' pair h =
      let reads = admit_reads command clock u o in
      elim (Result-cases (admit case bcrypt jwt users organizations command clock (u, o)).0) [
        | inl ((user, organization), e) ↦ (
          user,
          organization,
          admit-IsAdmitted command clock u o user organization e,
          ground arith,
          ground arith,
          ground arith,
        )
        | inr (x, e) ↦ ground arith
      ]

  save_failure :
      (user : User) (now now' : ℕ) (u : users.Table) (m : Message)
      → (save case users now now' user u).0 ≡ fail (unauthorized m)
      → (save case users now now' user u).1 ≡ u
  unfolding save to_domain Email.create
  save_failure user now now' u m h = elim (Result-cases (users.save (to_orm user) u).0) [
    | inl (orm, e) ↦ ground arith
    | inr (x, e) ↦
        let kept =
          users.save_rejected (to_orm user) u (users.save (to_orm user) u).1 x
            (λ i. (e i, (users.save (to_orm user) u).1)) in
        ground arith
  ]

  -- A refusal as unauthorized leaves both tables as they were.
  pub refused_unchanged :
      (command : AuthenticateCommand) (clock : Clock) (s' : users.Table × organizations.Table)
      (u : users.Table) (o : organizations.Table) (m : Message)
      → execute case bcrypt jwt users organizations command clock (u, o)
        ≡ (fail (unauthorized m), s')
      → s' ≡ (u, o)
  unfolding execute record_login
  refused_unchanged command clock s' u o m h =
      let reads = admit_reads command clock u o in
      elim (Result-cases (admit case bcrypt jwt users organizations command clock (u, o)).0) [
        | inl ((user, organization), e) ↦
            let user' = record_login clock.login clock.touched user in
            elim (Result-cases (save case users clock.saved clock.saved_again user' u).0) [
              | inl (saved, w) ↦ ground arith
              | inr (x, w) ↦ ground (arith, save_failure user' clock.saved clock.saved_again u m)
            ]
        | inr (x, e) ↦ ground arith
      ]

  -- Within their lifetimes, the access token of a pair is accepted and gives the requests that carry
  -- it the pair's user and tenant, and the refresh token is refused.
  pub issue_tokens-validate :
      (clock : Clock) (user : User) (organization : Organization) (at : ℕ)
      → at < clock.access_issued + jwt.lifetime "15m"
      → at < clock.refresh_issued + jwt.lifetime "7d"
      → ((claims : JwtPayload) × (jwt.verify
              (issue_tokens case bcrypt jwt users organizations clock user
                organization).access_token
              at
            ≡ some claims)
          × (validate claims ≡ ok claims)
          × (claims.sub ≡ user.id)
          × (claims.tenant_id ≡ organization.id))
        × ((claims : JwtPayload) × (x : Exception) × (jwt.verify
                (issue_tokens case bcrypt jwt users organizations clock user
                  organization).refresh_token
                at
              ≡ some claims)
            × (validate claims ≡ fail x))
  unfolding issue_tokens validate
  issue_tokens-validate clock user organization at soon later = (
    (_, jwt.verify-sign _ "15m" clock.access_issued at soon, refl, refl, refl),
    (_, _, jwt.verify-sign _ "7d" clock.refresh_issued at later, refl),
  )
