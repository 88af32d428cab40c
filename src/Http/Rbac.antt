-- ===== src/Http/Rbac.antt =====
-- common/guards/rbac.guard.ts. The roles that the decorator asks for, if any, and the user that the
-- token strategy attached, if any, are arguments. The guard either returns `true` or throws.
use multi_tenant_saa_s_platf.Base.{
  ℕ, ◌≤◌, ◌≡◌, refl, ◌↔◌, inl, inr, Bool, true, not, Option, none, some, List, [], ◌∷◌, Text,
  Result, ok, fail, forbidden, arith, leb, any, is_empty, ◌===◌, if◌then◌else◌, In, here, there,
  map, throw_if, ◌>>◌, Bool-cases,
}
use multi_tenant_saa_s_platf.Kernel.Tenancy.{
  MembershipRole, owner, admin, member, viewer, role_value,
}

-- `ROLE_HIERARCHY`
unfoldable pub role_rank : MembershipRole → ℕ
role_rank owner = 4
role_rank admin = 3
role_rank member = 2
role_rank viewer = 1

-- `ROLE_HIERARCHY[role] ?? 0`, for the text that the token carries
unfoldable pub claim_rank : Text → ℕ
unfolding role_rank
claim_rank role =
    if role === role_value owner
    then role_rank owner
    else if role === role_value admin
    then role_rank admin
    else if role === role_value member
    then role_rank member
    else if role === role_value viewer
    then role_rank viewer
    else 0

pub record JwtUser : Type 0 where
  pub sub : Text
  pub tenant_id : Text
  pub email : Text
  pub role : Text

-- `isEmpty` of an optional list
abbrev pub is_empty_or_missing : Option (List MembershipRole) → Bool
is_empty_or_missing none = true
is_empty_or_missing (some roles) = is_empty roles

unfoldable pub meets_any_role : List MembershipRole → Text → Bool
meets_any_role required role = any (λ r. leb (role_rank r) (claim_rank role)) required

check_user : List MembershipRole → Option JwtUser → Result Bool
check_user required none =
    fail (forbidden (record { template = "No authenticated user"; values = [] }))
check_user required (some user) =
    throw_if (not (meets_any_role required user.role)) (
      forbidden (record {
        template = "Role '{}' does not meet required roles";
        values = user.role ∷ map role_value required;
      }))
    >> ok true

-- `RbacGuard.canActivate`
unfoldable pub can_activate : Option (List MembershipRole) → Option JwtUser → Result Bool
unfolding check_user
can_activate none user = ok true
can_activate (some required) user =
    if is_empty_or_missing (some required) then ok true else check_user required user

any-In :
    (p : MembershipRole → Bool) (roles : List MembershipRole)
    → any p roles ≡ true
    → (r : MembershipRole) × In r roles × (p r ≡ true)
any-In p [] h = cc
any-In p (r ∷ roles) h = elim (Bool-cases (p r)) [
  | inl fits ↦ (r, here refl, fits)
  | inr misses ↦ let (q, at, fits) = any-In p roles (ground arith) in (q, there at, fits)
]

In-any :
    (p : MembershipRole → Bool) {r : MembershipRole} {roles : List MembershipRole}
    → In r roles
    → p r ≡ true
    → any p roles ≡ true
In-any p (here e) h = ground arith
In-any p (there at) h = ground (arith, In-any p at h)

meets_any_role_iff :
    (required : List MembershipRole) (role : Text)
    → (meets_any_role required role ≡ true)
      ↔ ((r : MembershipRole) × In r required × (role_rank r ≤ claim_rank role))
unfolding meets_any_role
meets_any_role_iff required role = (
  λ h. let (r, at, fits) = any-In _ required h in (r, at, ground arith),
  λ (r, at, enough). In-any _ at (ground arith),
)

meets_any_role_mono :
    (required : List MembershipRole) (low high : Text)
    → claim_rank low ≤ claim_rank high
    → meets_any_role required low ≡ true
    → meets_any_role required high ≡ true
meets_any_role_mono required low high h e =
    let (r, at, enough) = (meets_any_role_iff required low).0 e in
    (meets_any_role_iff required high).1 (r, at, omega arith)

check_user_test :
    (first : MembershipRole) (others : List MembershipRole) (u : JwtUser)
    → (can_activate (some (first ∷ others)) (some u) ≡ ok true)
      ↔ (meets_any_role (first ∷ others) u.role ≡ true)
unfolding can_activate
check_user_test first others u = ground arith

-- The guard lets a request to a route that asks for roles through exactly when there is a user and
-- the user's role ranks at least as high as one of the roles asked for.
pub roles-can_activate_iff :
    (first : MembershipRole) (others : List MembershipRole) (user : Option JwtUser)
    → (can_activate (some (first ∷ others)) user ≡ ok true) ↔ (
        (u : JwtUser) × (user ≡ some u)
        × (r : MembershipRole) × In r (first ∷ others)
        × (role_rank r ≤ claim_rank u.role))
unfolding can_activate
roles-can_activate_iff first others none = (λ h. cc, λ (u, e, _, _, _). cc)
roles-can_activate_iff first others (some user) =
    let (to, from) = check_user_test first others user in
    let (find, meet) = meets_any_role_iff (first ∷ others) user.role in
    (
      λ h. let (r, at, enough) = find (to h) in (user, refl, r, at, enough),
      λ (u, e, r, at, enough). let same : user ≡ u = cc in from (meet (r, at, rw same enough)),
    )

-- A role that ranks as high or higher is never refused where a lower one is let through.
pub can_activate_mono :
    (required : Option (List MembershipRole)) (u v : JwtUser)
    → claim_rank u.role ≤ claim_rank v.role
    → can_activate required (some u) ≡ ok true
    → can_activate required (some v) ≡ ok true
unfolding can_activate
can_activate_mono none u v h e = refl
can_activate_mono (some []) u v h e = refl
can_activate_mono (some (r ∷ rs)) u v h e =
    (check_user_test r rs v).1
      (meets_any_role_mono (r ∷ rs) u.role v.role h ((check_user_test r rs u).0 e))
