-- ===== src/TenantCore/Organization/Lifecycle.antt =====
-- The life of an organization, as the methods of the aggregate allow it.
use multi_tenant_saa_s_platf.Base.{
  ℕ, ◌≡◌, refl, ◌⊎◌, inl, inr, none, List, [], ◌∷◌, ◌++◌, Text, ok, arith, CaseMapping,
  Result-cases,
}
use multi_tenant_saa_s_platf.Kernel.Entity.{DomainEvent}
use multi_tenant_saa_s_platf.Kernel.Tenancy.{
  TenantPlanTier, TenantStatus, provisioning, active, suspended,
}
use multi_tenant_saa_s_platf.TenantCore.Plan.{for_tier}
use multi_tenant_saa_s_platf.TenantCore.Slug
use multi_tenant_saa_s_platf.TenantCore.Slug.Shape.{slug-create-value}
use multi_tenant_saa_s_platf.TenantCore.Organization.{
  Organization, CreateParams, SettingsPatch, create, mark_provisioned, suspend, rename, change_plan,
  reactivate, update_settings,
}

-- One call of a method that does not throw.
pub data Step (o o' : Organization) : Type 0 where
  provisioned :
      (project correlation : Text) (t u : ℕ) (event : Text) (v : ℕ)
      → mark_provisioned project correlation t u event v o ≡ ok o'
      → Step o o'
  suspension :
      (reason by correlation : Text) (t u : ℕ) (event : Text) (v : ℕ)
      → suspend reason by correlation t u event v o ≡ ok o'
      → Step o o'
  renamed : (name : Text) (t : ℕ) → rename name t o ≡ ok o' → Step o o'
  replanned : (tier : TenantPlanTier) (t : ℕ) → change_plan tier t o ≡ o' → Step o o'
  reactivated : (t : ℕ) → reactivate t o ≡ ok o' → Step o o'
  configured : (patch : SettingsPatch) (t : ℕ) → update_settings patch t o ≡ o' → Step o o'

-- Every event names the organization as its tenant.
abbrev pub OwnEvents : Text → List DomainEvent → Type 0
OwnEvents id [] = Unit
OwnEvents id (e ∷ es) = (e.tenant_id ≡ id) × OwnEvents id es

OwnEvents-snoc :
    (id : Text) (es : List DomainEvent) (e : DomainEvent)
    → OwnEvents id es
    → e.tenant_id ≡ id
    → OwnEvents id (es ++ e ∷ [])
OwnEvents-snoc id [] e h k = (k, tt)
OwnEvents-snoc id (x ∷ es) e h k = (h.0, OwnEvents-snoc id es e h.1 k)

module _ (case : CaseMapping) where
  -- The organizations that a run of methods makes out of a created one.
  pub data Reachable : Organization → Type 0 where
    created :
        {o : Organization} (params : CreateParams) (id : Text) (t u : ℕ) (event : Text) (v : ℕ)
        → create case params id t u event v ≡ ok o
        → Reachable o
    later : {o o' : Organization} → Reachable o → Step o o' → Reachable o'

  pub record IsSound (o : Organization) : Type 0 where
    pub live : (o.status ≡ provisioning) ⊎ (o.status ≡ active) ⊎ (o.status ≡ suspended)
    pub unprovisioned : o.status ≡ provisioning → o.provisioned_at ≡ none
    pub stamped : o.provisioned_at ≡ none → o.status ≡ provisioning
    pub planned : o.plan ≡ for_tier o.plan.tier
    pub slugged : Slug.create case o.slug.value ≡ ok o.slug
    pub own_events : OwnEvents o.id o.domain_events

  create-IsSound :
      (params : CreateParams) (id : Text) (t u : ℕ) (event : Text) (v : ℕ) (o : Organization)
      → create case params id t u event v ≡ ok o
      → IsSound o
  unfolding create for_tier
  create-IsSound params id t u event v o h = elim (Result-cases (Slug.create case params.slug)) [
    | inl (slug, e) ↦ ground (arith, slug-create-value case params.slug slug e)
    | inr (x, e) ↦ ground arith
  ]

  Step-IsSound : {o o' : Organization} → Step o o' → IsSound o → IsSound o'
  unfolding mark_provisioned suspend rename change_plan reactivate update_settings for_tier
  Step-IsSound {o} {o'} (provisioned p c t u e v h) s = grind (arith, OwnEvents-snoc)
  Step-IsSound {o} {o'} (suspension r b c t u e v h) s = grind (arith, OwnEvents-snoc)
  Step-IsSound {o} {o'} (renamed n t h) s = ground arith
  Step-IsSound {o} {o'} (replanned n t h) s = ground arith
  Step-IsSound {o} {o'} (reactivated t h) s = ground arith
  Step-IsSound {o} {o'} (configured p t h) s = ground arith

  -- However an organization came about, from its creation through any methods: its status is
  -- provisioning, active or suspended; it has the date of its provisioning exactly when its status
  -- is no longer provisioning; its limits are those of its tier; its slug is created again from its
  -- own text; and all the events that it holds name it as their tenant.
  pub organization-IsSound : {o : Organization} → Reachable o → IsSound o
  organization-IsSound (created {o} params id t u event v h) =
      create-IsSound params id t u event v o h
  organization-IsSound (later r s) = Step-IsSound s (organization-IsSound r)

-- The status diagram.
infix 40 ◌⟶◌
pub data ◌⟶◌ : TenantStatus → TenantStatus → Type 0 where
  stay : {s : TenantStatus} → s ⟶ s
  go_live : provisioning ⟶ active
  go_dark : active ⟶ suspended
  come_back : suspended ⟶ active

⟶-eq : {s t s' t' : TenantStatus} → s ≡ s' → t ≡ t' → s' ⟶ t' → s ⟶ t
⟶-eq p q st = rw (p, q) st

-- A method moves the status along an edge of the diagram, or leaves it, and never changes who the
-- organization is: its id, its owner, its slug and its date of creation.
pub Step-⟶ :
    {o o' : Organization}
    → Step o o'
    → (o.status ⟶ o'.status)
      × (o'.id ≡ o.id)
      × (o'.owner_id ≡ o.owner_id)
      × (o'.slug ≡ o.slug)
      × (o'.created_at ≡ o.created_at)
unfolding mark_provisioned suspend rename change_plan reactivate update_settings
Step-⟶ (provisioned p c t u e v h) = (
  ⟶-eq (ground arith) (ground arith) go_live,
  ground arith,
  ground arith,
  ground arith,
  ground arith,
)
Step-⟶ (suspension r b c t u e v h) = (
  ⟶-eq (ground arith) (ground arith) go_dark,
  ground arith,
  ground arith,
  ground arith,
  ground arith,
)
Step-⟶ {o} {o'} (renamed n t h) = (
  ⟶-eq (let e : o.status ≡ o'.status = ground arith in e) refl stay,
  ground arith,
  ground arith,
  ground arith,
  ground arith,
)
Step-⟶ {o} {o'} (replanned n t h) = (
  ⟶-eq (let e : o.status ≡ o'.status = ground arith in e) refl stay,
  ground arith,
  ground arith,
  ground arith,
  ground arith,
)
Step-⟶ (reactivated t h) = (
  ⟶-eq (ground arith) (ground arith) come_back,
  ground arith,
  ground arith,
  ground arith,
  ground arith,
)
Step-⟶ {o} {o'} (configured p t h) = (
  ⟶-eq (let e : o.status ≡ o'.status = ground arith in e) refl stay,
  ground arith,
  ground arith,
  ground arith,
  ground arith,
)
