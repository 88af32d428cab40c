-- ===== src/Api/Access.antt =====
-- The callers that the endpoints of the controllers serve.
use mathlib.Core.Path.{subst}
use multi_tenant_saa_s_platf.Base.{
  ◌≡◌, ◌↔◌, ◌≤◌, inl, inr, Option, none, some, [], ◌∷◌, Text, ok, fail, Exception, arith,
  Result-cases, CaseMapping, Option-cases, ap, ◌∙◌, get_or, codes,
}
use multi_tenant_saa_s_platf.Kernel.Tenancy.{MembershipRole, admin, owner}
use multi_tenant_saa_s_platf.Kernel.Context.{TenantContext, resolve_context, tenant_id_of}
use multi_tenant_saa_s_platf.Kernel.Repository.{Repository}
use multi_tenant_saa_s_platf.Kernel.Repository.Isolation.{ActsFor}
use multi_tenant_saa_s_platf.Events.Envelope.{EventBus}
use multi_tenant_saa_s_platf.TenantCore.Repository.{organization_column}
use multi_tenant_saa_s_platf.TenantCore.Commands.{Supply}
use multi_tenant_saa_s_platf.TenantCore.Commands.Outcomes.{foreign_command_refused}
use multi_tenant_saa_s_platf.Workflow.Repositories.{execution_column}
use multi_tenant_saa_s_platf.Workflow.Commands
use multi_tenant_saa_s_platf.Http.Rbac
use multi_tenant_saa_s_platf.Http.Rbac.{JwtUser, role_rank, claim_rank}
use multi_tenant_saa_s_platf.Http.Credentials.{handle_request}
use multi_tenant_saa_s_platf.Api.Calls.{Call, context_of, enter, tenant_param}
use multi_tenant_saa_s_platf.Api.Organizations.{
  UpdateOrganizationBody, update_organization, suspend_organization,
}
use multi_tenant_saa_s_platf.Api.Executions.{cancel_execution}

-- A call with a token whose role ranks at least as high as the one that is asked for.
abbrev pub HasRole : MembershipRole → Option JwtUser → Type 0
HasRole role none = ⊥
HasRole role (some user) = role_rank role ≤ claim_rank user.role

enter_iff :
    (role : MembershipRole) (found : Option JwtUser) (user : JwtUser)
    → (enter (some (role ∷ [])) found ≡ ok user) ↔ ((found ≡ some user) × HasRole role found)
unfolding enter handle_request Rbac.can_activate Rbac.meets_any_role
enter_iff role none user = ground arith
enter_iff role (some u) user = ground arith

enter_refused :
    (role : MembershipRole) (found : Option JwtUser)
    → ¬ HasRole role found
    → (x : Exception) × (enter (some (role ∷ [])) found ≡ fail x)
enter_refused role found lacks = elim (Result-cases (enter (some (role ∷ [])) found)) [
  | inl (user, e) ↦ absurd (lacks ((enter_iff role found user).0 e).1)
  | inr (x, e) ↦ (x, e)
]

-- The context of a call with this tenant header
abbrev with_header : Call → Option Text → Option TenantContext
with_header call header =
    resolve_context (record call.request { tenant_header = header }) call.request_id
      call.fresh_correlation call.arrived

-- Where a context acts for an organization, the call's header names it.
acting_header :
    (call : Call) (id : Text) → ActsFor (context_of call) id → call.request.tenant_header ≡ some id
unfolding context_of resolve_context
acting_header call id acts = elim (Option-cases call.request.tenant_header) [
  | inl absent ↦ absurd (subst (λ h. ActsFor (with_header call h) id) absent acts)
  | inr (header, present) ↦
      let named = subst (λ h. ActsFor (with_header call h) id) present acts in
      present ∙ ap some named.0
]

module _ (case : CaseMapping) (repo : Repository organization_column) (bus : EventBus) (call : Call)
    (id : Text) (supply : Supply) (t : repo.Table) (b : bus.State) where
  -- An update needs a token whose role is at least admin's, a suspension one whose role is at least
  -- owner's, and both need the tenant header set to the organization's id: a call that lacks one of them
  -- throws, and the table and the bus stay as they were.
  pub organization_endpoints-HasRole :
      (body : UpdateOrganizationBody) (reason : Option Text)
      → (¬ (HasRole admin call.user × (call.request.tenant_header ≡ some id))
          → (x : Exception) × (update_organization case repo bus call id body supply (t, b)
              ≡ (fail x, (t, b))))
        × (¬ (HasRole owner call.user × (call.request.tenant_header ≡ some id))
            → (x : Exception) × (suspend_organization case repo bus call id reason supply (t, b)
                ≡ (fail x, (t, b))))
  unfolding update_organization suspend_organization
  organization_endpoints-HasRole body reason = (
    λ lacks. elim (Result-cases (enter (some (admin ∷ [])) call.user)) [
      | inl (user, e) ↦ elim (Result-cases (tenant_param call)) [
        | inl (tenant, p) ↦
            let role = ((enter_iff admin call.user user).0 e).1 in
            let (x, refused) =
              (foreign_command_refused case repo bus (context_of call) supply t b
                  (record {
                    organization_id = id;
                    reason = [];
                    correlation_id = [];
                    actor_id = none;
                  })
                  (record { organization_id = id; name = body.name; plan_tier = body.plan_tier })).1
                (λ acts. lacks (role, acting_header call id acts)) in
            (x, ground arith)
        | inr (x, p) ↦ (x, ground arith)
      ]
      | inr (x, e) ↦ (x, ground arith)
    ],
    λ lacks. elim (Result-cases (enter (some (owner ∷ [])) call.user)) [
      | inl (user, e) ↦ elim (Result-cases (tenant_param call)) [
        | inl (tenant, p) ↦
            let role = ((enter_iff owner call.user user).0 e).1 in
            let (x, refused) =
              (foreign_command_refused case repo bus (context_of call) supply t b
                  (record {
                    organization_id = id;
                    reason = get_or reason (codes "No reason provided");
                    correlation_id = call.command_correlation;
                    actor_id = some user.sub;
                  })
                  (record { organization_id = id; name = body.name; plan_tier = body.plan_tier })).0
                (λ acts. lacks (role, acting_header call id acts)) in
            (x, ground arith)
        | inr (x, p) ↦ (x, ground arith)
      ]
      | inr (x, e) ↦ (x, ground arith)
    ],
  )

-- The call with the token of another tenant's user
abbrev pub of_tenant : Call → JwtUser → Text → Call
of_tenant call user tenant = record call { user = some (record user { tenant_id = tenant }) }

-- Where a call has a tenant header, the tenant that its token was issued for decides nothing: with a token
-- of any other tenant and the same subject and role, the update and the suspension of an
-- organization and the cancelling of an execution end in the same way.
pub token_tenant_ignored :
    (case : CaseMapping) (repo : Repository organization_column) (bus : EventBus)
    (executions : Repository execution_column) (call : Call) (user : JwtUser)
    (own other header id : Text) (body : UpdateOrganizationBody) (reason : Option Text)
    (supply : Supply) (execution_supply : Commands.Supply) (s : repo.Table × bus.State)
    (e : executions.Table)
    → call.request.tenant_header ≡ some header
    → (update_organization case repo bus (of_tenant call user own) id body supply s
        ≡ update_organization case repo bus (of_tenant call user other) id body supply s)
      × (suspend_organization case repo bus (of_tenant call user own) id reason supply s
          ≡ suspend_organization case repo bus (of_tenant call user other) id reason supply s)
      × (cancel_execution executions (of_tenant call user own) id reason execution_supply e
          ≡ cancel_execution executions (of_tenant call user other) id reason execution_supply e)
unfolding update_organization suspend_organization cancel_execution tenant_param tenant_id_of
token_tenant_ignored case repo bus executions call user own other header id body reason supply
      execution_supply s e h =
    (ground arith, ground arith, ground arith)
