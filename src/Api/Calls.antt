-- ===== src/Api/Calls.antt =====
-- A call of an endpoint: the middleware, then the guards `JwtAuthGuard` and `RbacGuard`, then the
-- parameter decorators and the controller's method.
use multi_tenant_saa_s_platf.Base.{
  [], true, false, fail, forbidden, ℕ, Option, none, some, List, Text, Result, ok, ◌>>=◌,
}
use multi_tenant_saa_s_platf.Kernel.Tenancy.{MembershipRole}
use multi_tenant_saa_s_platf.Kernel.Context.{TenantContext, Request, resolve_context, tenant_id_of}
use multi_tenant_saa_s_platf.Http.Rbac
use multi_tenant_saa_s_platf.Http.Rbac.{JwtUser}
use multi_tenant_saa_s_platf.Http.Credentials.{handle_request}

-- The headers, the user of a token that passport accepts, the ids that the middleware draws and its
-- reading of the clock, and the correlation id that a command draws: no token carries one.
pub record Call : Type 0 where
  pub request : Request
  pub user : Option JwtUser
  pub request_id : Text
  pub fresh_correlation : Text
  pub command_correlation : Text
  pub arrived : ℕ

abbrev pub claimed_tenant : Option JwtUser → Option Text
claimed_tenant none = none
claimed_tenant (some user) = some user.tenant_id

-- The context that the middleware opens, before the token is read.
unfoldable pub context_of : Call → Option TenantContext
unfolding resolve_context
context_of call = resolve_context call.request call.request_id call.fresh_correlation call.arrived

-- Both guards, one after the other, with the roles that the method asks for, on the user
-- of the token.
unfoldable pub enter : Option (List MembershipRole) → Option JwtUser → Result JwtUser
unfolding handle_request Rbac.can_activate
enter roles found = do
  user ← handle_request none found
  passed ← Rbac.can_activate roles (some user)
  elim passed [
    | true ↦ ok user
    | false ↦ fail (forbidden (record { template = "Forbidden resource"; values = [] }))
  ]

-- `@TenantId()`, after the guards
unfoldable pub tenant_param : Call → Result Text
unfolding tenant_id_of
tenant_param call = tenant_id_of (record call.request { user_tenant_id = claimed_tenant call.user })
