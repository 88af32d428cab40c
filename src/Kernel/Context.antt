-- ===== src/Kernel/Context.antt =====
-- apps/api/src/common/tenant-context: the tenant context of a request, held in AsyncLocalStorage.
-- The storage is the value that a piece of code runs under: `none` outside a request.
use multi_tenant_saa_s_platf.Base.{
  ℕ, Bool, Option, none, some, [], Text, Result, ok, fail, error, get_or, is_some,
}

pub record TenantContext : Type 0 where
  pub tenant_id : Text
  pub correlation_id : Text
  pub request_id : Text
  pub actor_id : Option Text
  pub timestamp : ℕ
  pub ip_address : Option Text
  pub user_agent : Option Text

-- `TenantContextService.getContext`
unfoldable pub get_context : Option TenantContext → Result TenantContext
get_context none = fail (error (record { template = "TenantContext not initialized"; values = [] }))
get_context (some ctx) = ok ctx

-- `TenantContextService.tryGetTenantId`
unfoldable pub try_get_tenant_id : Option TenantContext → Option Text
try_get_tenant_id none = none
try_get_tenant_id (some ctx) = some ctx.tenant_id

unfoldable pub is_initialized : Option TenantContext → Bool
is_initialized store = is_some store

-- The parts of a request that the middleware and the parameter decorator read.
pub record Request : Type 0 where
  pub tenant_header : Option Text
  pub correlation_header : Option Text
  pub user_agent_header : Option Text
  pub remote_address : Option Text
  -- `request.user?.tenantId`, the claim of a verified token
  pub user_tenant_id : Option Text

-- `TenantContextMiddleware.use`: the context that the rest of the request runs under. The other
-- arguments are the two fresh ids and the reading of the clock.
unfoldable pub resolve_context : Request → Text → Text → ℕ → Option TenantContext
resolve_context req request_id fresh now = elim req.tenant_header [
  | none ↦ none
  | some tenant_id ↦ some (record {
    tenant_id = tenant_id;
    correlation_id = get_or req.correlation_header fresh;
    request_id = request_id;
    actor_id = none;
    timestamp = now;
    ip_address = req.remote_address;
    user_agent = req.user_agent_header;
  })
]

-- The decorator `@TenantId()`: the header first, then the claim.
unfoldable pub tenant_id_of : Request → Result Text
tenant_id_of req = elim req.tenant_header [
  | some tenant_id ↦ ok tenant_id
  | none ↦ elim req.user_tenant_id [
    | some tenant_id ↦ ok tenant_id
    | none ↦
        fail (error (record { template = "TenantId not found in request context"; values = [] }))
  ]
]
