-- ===== src/Bootstrap/Provision/Readiness.antt =====
-- The conditions under which `run` of scripts/bootstrap-platform-admin.ts starts its work.
use multi_tenant_saa_s_platf.Base.{
  ◌≡◌, ◌≢◌, ◌↔◌, true, Option, none, some, List, [], ◌∷◌, ◌++◌, Text, codes, Result-cases, inl, inr,
  ok, arith, trim, map_option, is_empty, text_eq_iff, CaseMapping,
}
use multi_tenant_saa_s_platf.Bootstrap.Provision.{
  Environment, BootstrapConfig, missing_if_empty, missing_variables, read_config, is_set_to,
  guard_production,
}

-- A variable that is set and not empty
abbrev pub IsFilled : Option Text → Type 0
IsFilled none = ⊥
IsFilled (some v) = v ≢ []

-- The four variables that the script needs
abbrev pub HasConfig : Environment → Type 0
HasConfig env =
    IsFilled (map_option trim env.initial_admin_email)
    × IsFilled env.initial_admin_password
    × IsFilled (map_option trim env.initial_admin_name)
    × IsFilled (map_option trim env.initial_tenant_name)

-- In production the script has to be allowed.
abbrev pub MayRun : Environment → Type 0
MayRun env =
    env.node_env ≡ some (codes "production") → env.bootstrap_allow_prod ≡ some (codes "true")

IsFilled-iff :
    (v : Option Text) (name : Text) → (is_empty (missing_if_empty v name) ≡ true) ↔ IsFilled v
IsFilled-iff none name = ground arith
IsFilled-iff (some []) name = ground arith
IsFilled-iff (some (c ∷ v)) name = ground arith

empty_append :
    (xs ys : List Text)
    → (is_empty (xs ++ ys) ≡ true) ↔ ((is_empty xs ≡ true) × (is_empty ys ≡ true))
empty_append [] ys = ground arith
empty_append (x ∷ xs) ys = ground arith

set_iff : (v : Option Text) (expected : Text) → (is_set_to v expected ≡ true) ↔ (v ≡ some expected)
set_iff none expected = ground arith
set_iff (some v) expected = ground (arith, text_eq_iff v expected)

pub guard_production_iff : (env : Environment) → (guard_production env ≡ ok tt) ↔ MayRun env
unfolding guard_production
guard_production_iff env =
    let production = set_iff env.node_env (codes "production") in
    let allowed = set_iff env.bootstrap_allow_prod (codes "true") in ground arith

nothing_missing : (env : Environment) → (is_empty (missing_variables env) ≡ true) ↔ HasConfig env
unfolding missing_variables
nothing_missing env =
    let email =
      missing_if_empty (map_option trim env.initial_admin_email) (codes "INITIAL_ADMIN_EMAIL") in
    let password = missing_if_empty env.initial_admin_password (codes "INITIAL_ADMIN_PASSWORD") in
    let name =
      missing_if_empty (map_option trim env.initial_admin_name) (codes "INITIAL_ADMIN_NAME") in
    let tenant =
      missing_if_empty (map_option trim env.initial_tenant_name) (codes "INITIAL_TENANT_NAME") in
    let all = empty_append email (password ++ (name ++ tenant)) in
    let rest = empty_append password (name ++ tenant) in
    let last = empty_append name tenant in
    let f1 = IsFilled-iff (map_option trim env.initial_admin_email) (codes "INITIAL_ADMIN_EMAIL") in
    let f2 = IsFilled-iff env.initial_admin_password (codes "INITIAL_ADMIN_PASSWORD") in
    let f3 = IsFilled-iff (map_option trim env.initial_admin_name) (codes "INITIAL_ADMIN_NAME") in
    let f4 = IsFilled-iff (map_option trim env.initial_tenant_name) (codes "INITIAL_TENANT_NAME") in
    (
      λ h.
          let a = all.0 h in
          let b = rest.0 a.1 in let c = last.0 b.1 in (f1.0 a.0, f2.0 b.0, f3.0 c.0, f4.0 c.1),
      λ (p, q, r, s). all.1 (f1.1 p, rest.1 (f2.1 q, last.1 (f3.1 r, f4.1 s))),
    )

pub read_config_iff :
    (case : CaseMapping) (normalize : Text → Text) (env : Environment)
    → ((cfg : BootstrapConfig) × (read_config case normalize env ≡ ok cfg)) ↔ HasConfig env
unfolding read_config
read_config_iff case normalize env =
    let (to, from) = nothing_missing env in
    (
      λ (cfg, h). to (ground arith),
      λ h. elim (Result-cases (read_config case normalize env)) [
        | inl (cfg, e) ↦ (cfg, e)
        | inr (x, e) ↦ let present = from h in ground arith
      ],
    )
