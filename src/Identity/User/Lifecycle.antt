-- ===== src/Identity/User/Lifecycle.antt =====
-- The life of a user.
use multi_tenant_saa_s_platf.Base.{
  ℕ, ◌≡◌, refl, ◌∙◌, ◌≤◌, inl, inr, true, Text, ok, arith, length, CaseMapping, Result-cases,
}
use multi_tenant_saa_s_platf.Identity.Email
use multi_tenant_saa_s_platf.Identity.User.{
  Bcrypt, User, CreateParams, pending_verification, suspended, create, activate, record_login,
  suspend, verify_password,
}

-- A created user waits for verification, has a password of 8 units at least, and is verified by
-- that password.
pub create_verifies :
    (case : CaseMapping) (bcrypt : Bcrypt) (params : CreateParams) (id salt : Text) (t u : ℕ)
    (user : User)
    → create case bcrypt params id salt t u ≡ ok user
    → (user.status ≡ pending_verification)
      × (user.id ≡ id)
      × (8 ≤ length params.password)
      × (Email.create case params.email ≡ ok user.email)
      × (verify_password bcrypt params.password user ≡ true)
unfolding create verify_password
create_verifies case bcrypt params id salt t u user h =
    elim (Result-cases (Email.create case params.email)) [
      | inl (email, e) ↦ ground (arith, bcrypt.compare-hash params.password salt 12)
      | inr (x, e) ↦ ground arith
    ]

pub data Step (u u' : User) : Type 0 where
  activated : (t s : ℕ) → activate t s u ≡ ok u' → Step u u'
  logged_in : (t s : ℕ) → record_login t s u ≡ u' → Step u u'
  suspension : (t : ℕ) → suspend t u ≡ u' → Step u u'

pub data Steps (u : User) : User → Type 0 where
  here : Steps u u
  later : {v w : User} → Steps u v → Step v w → Steps u w

abbrev pub SuspendedAs : User → User → Type 0
SuspendedAs u v =
    (v.status ≡ suspended) × (v.id ≡ u.id) × (v.email_verified_at ≡ u.email_verified_at)

Step-suspended :
    {v w : User}
    → Step v w
    → v.status ≡ suspended
    → (w.status ≡ suspended) × (w.id ≡ v.id) × (w.email_verified_at ≡ v.email_verified_at)
unfolding activate record_login suspend
Step-suspended (activated t s h) e = ground arith
Step-suspended (logged_in t s h) e = ground arith
Step-suspended (suspension t h) e = ground arith

-- A suspended user stays suspended, the same user, with the same date of verification, through any
-- run of methods: there is no way back.
pub suspended_forever : {u v : User} → Steps u v → u.status ≡ suspended → SuspendedAs u v
suspended_forever here e = (e, refl, refl)
suspended_forever (later r s) e =
    let (still, same, verified) = suspended_forever r e in
    let (next, same', verified') = Step-suspended s still in
    (next, same' ∙ same, verified' ∙ verified)
