-- ===== src/Audit/Repository/Listing.antt =====
-- `query` of audit/infrastructure/persistence/audit-event.repository.ts.
use multi_tenant_saa_s_platf.Base.{
  keep_agree, ℕ, ◌≡◌, ◌↔◌, ◌≤◌, inl, inr, Bool, true, Option, map, Text, ok, arith, Result-cases,
  All, keep, length,
}
use multi_tenant_saa_s_platf.Kernel.Context.{TenantContext}
use multi_tenant_saa_s_platf.Kernel.Pagination.{PaginationOptions, PaginatedResult}
use multi_tenant_saa_s_platf.Kernel.Repository.{Repository, fits, scoped_qb, require_tenant_id}
use multi_tenant_saa_s_platf.Kernel.Repository.Isolation.{ActsFor, require_tenant_id_iff}
use multi_tenant_saa_s_platf.Audit.Event.{AuditEvent, AuditEventOrm, audit_column, to_domain}
use multi_tenant_saa_s_platf.Audit.Repository.{AuditEventFilter, narrowed, query}
use multi_tenant_saa_s_platf.Audit.Repository.Conditions.{
  IsListed, tenant_query, IsListed-iff, all-IsListed,
}

module _ (repo : Repository audit_column) (store : Option TenantContext) (now now' : ℕ) where
  -- A query that gives a page was made for a tenant. Every event on the page is that tenant's and is
  -- what the filter wants: one date alone asks for nothing, and neither does an empty text. The page has
  -- a limit of at most 200, its total is the number of the rows that any test of these conditions
  -- accepts, and nothing is written.
  pub query-IsListed :
      (filter : AuditEventFilter) (options : PaginationOptions) (t t' : repo.Table)
      (page : PaginatedResult AuditEvent)
      → query repo store now now' filter options t ≡ (ok page, t')
      → (tenant : Text) × ActsFor store tenant
        × All (IsListed tenant filter) page.items
        × (page.meta.limit ≤ 200)
        × ((p : AuditEventOrm → Bool)
            → ((e : AuditEventOrm) → (p e ≡ true) ↔ IsListed tenant filter (to_domain now now' e))
            → page.meta.total ≡ length (keep p (repo.rows t)))
        × (t' ≡ t)
  unfolding query scoped_qb
  query-IsListed filter options t t' page h = elim (Result-cases (require_tenant_id store)) [
    | inl (tenant, r) ↦
        let asked = narrowed filter (tenant_query tenant options) in
        elim (Result-cases (repo.get_many_and_count asked t)) [
          | inl ((orms, total), e) ↦
              let items : map (to_domain now now') orms ≡ page.items = ground arith in
              let same_total : total ≡ page.meta.total = ground arith in
              (
                tenant,
                (require_tenant_id_iff store tenant).0 r,
                rw (← items) (
                    all-IsListed now now' tenant filter options orms
                      (repo.many_fit asked t orms total e)),
                ground arith,
                λ p h'.
                    rw
                      (
                        ← same_total,
                        keep_agree p (fits asked.filters) (repo.rows t) (λ r'. (
                          λ x. (IsListed-iff now now' tenant filter options r').1 ((h' r').0 x),
                          λ x. (h' r').1 ((IsListed-iff now now' tenant filter options r').0 x),
                        )),
                      )
                      (repo.many_count asked t orms total e),
                ground arith,
              )
          | inr (x, e) ↦ ground arith
        ]
    | inr (x, r) ↦ ground arith
  ]
