-- ===== src/Http/TenantSource.antt =====
-- Where the tenant and the correlation id of a request come from: the middleware, the decorator
-- and common/interceptors/correlation-id.interceptor.ts, which all read the request's headers.
use multi_tenant_saa_s_platf.Base.{ℕ, ◌≡◌, ◌↔◌, ◌≢◌, none, some, [], Text, ok, fail, arith, get_or}
use multi_tenant_saa_s_platf.Kernel.Context.{TenantContext, Request, resolve_context, tenant_id_of}
use multi_tenant_saa_s_platf.Kernel.Repository.{
  guard_tenant_root, require_tenant_id, no_active_context,
}
use multi_tenant_saa_s_platf.Kernel.Repository.Isolation.{ActsFor, guard_tenant_root_iff}

pub record Correlation : Type 0 where
  pub correlation_id : Text
  pub request_id : Text

-- `CorrelationIdInterceptor.intercept`: what it puts on the request and on the response's headers.
-- The other arguments are the two fresh ids.
unfoldable pub intercept : Request → Text → Text → Correlation
intercept req fresh request_id = record {
  correlation_id = get_or req.correlation_header fresh;
  request_id = request_id;
}

module _ (req : Request) (request_id fresh : Text) (now : ℕ) where
  -- A request that carries a tenant header acts for that tenant, whatever tenant its token was
  -- issued for: the guard on the tenant's root lets it through to that organization, and the
  -- handlers are given that tenant's id.
  pub header_decides :
      (victim : Text)
      → victim ≢ []
      → req.tenant_header ≡ some victim
      → ActsFor (resolve_context req request_id fresh now) victim
        × (guard_tenant_root (resolve_context req request_id fresh now) victim ≡ ok tt)
        × (tenant_id_of req ≡ ok victim)
  unfolding resolve_context tenant_id_of
  header_decides victim real header =
      let acts : ActsFor (resolve_context req request_id fresh now) victim = ground arith in
      (acts, (guard_tenant_root_iff _ victim).1 acts, ground arith)

  -- A request without the header has no tenant context, though its token names a tenant and the
  -- handlers are given that tenant's id: every operation that requires the context throws.
  pub claim_ignored :
      (own : Text)
      → req.tenant_header ≡ none
      → req.user_tenant_id ≡ some own
      → (tenant_id_of req ≡ ok own)
        × (require_tenant_id (resolve_context req request_id fresh now) ≡ fail no_active_context)
  unfolding resolve_context tenant_id_of require_tenant_id
  claim_ignored own header claim = ground arith

  -- For a request with a tenant header, the correlation id of the tenant context is that of the
  -- response exactly when the request carries one or the two fresh ids happen to be equal.
  pub correlation_agrees_iff :
      (ctx : TenantContext) (fresh' request_id' : Text)
      → resolve_context req request_id fresh now ≡ some ctx
      → (ctx.correlation_id ≡ (intercept req fresh' request_id').correlation_id)
        ↔ (req.correlation_header ≡ none → fresh ≡ fresh')
  unfolding resolve_context intercept
  correlation_agrees_iff ctx fresh' request_id' h = ground arith
