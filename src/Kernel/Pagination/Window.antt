-- ===== src/Kernel/Pagination/Window.antt =====
-- The page numbers of `buildPaginationMeta` of pagination.types.ts.
use multi_tenant_saa_s_platf.Base.{ℕ, ◌*◌, ◌<◌, ◌≡◌, ◌↔◌, true, arith}
use multi_tenant_saa_s_platf.Kernel.Pagination.{build_pagination_meta, ceil_div}

-- `page < ceil(total / limit)` compares the first row after the page with the total.
lt-ceil_div :
    (page limit total : ℕ) → 0 < limit → (page < ceil_div total limit) ↔ (page * limit < total)
lt-ceil_div page limit total h = (λ p. grind arith, λ p. grind arith)

-- For a positive limit, `hasNextPage` is true exactly when a row is left behind the end of the page.
pub next_page_iff :
    (page limit total : ℕ)
    → 0 < limit
    → ((build_pagination_meta page limit total).has_next_page ≡ true) ↔ (page * limit < total)
unfolding build_pagination_meta
next_page_iff page limit total h =
    let (to, from) = lt-ceil_div page limit total h in
    (λ e. to (ground arith), λ p. ground (arith, from p))
