-- ===== src/Kernel/Pagination.antt =====
-- libs/shared-kernel/src/types/pagination.types.ts. The numbers are natural and the limit is
-- positive where a theorem needs it.
pub mod Window
use multi_tenant_saa_s_platf.Base.{ℕ, ◌+◌, ◌-◌, ◌*◌, ◌/◌, min, Bool, Option, List, get_or, ltb}

pub record PaginationOptions : Type 0 where
  pub page : Option ℕ
  pub limit : Option ℕ

pub record PaginationMeta : Type 0 where
  pub page : ℕ
  pub limit : ℕ
  pub total : ℕ
  pub total_pages : ℕ
  pub has_next_page : Bool
  pub has_previous_page : Bool

pub record PaginatedResult {ℓ} (T : Type ℓ) : Type ℓ where
  pub items : List T
  pub meta : PaginationMeta

-- `Math.ceil(a / b)`, for a positive `b`
abbrev pub ceil_div : ℕ → ℕ → ℕ
ceil_div a b = (a + b - 1) / b

unfoldable pub build_pagination_meta : ℕ → ℕ → ℕ → PaginationMeta
build_pagination_meta page limit total =
    let total_pages = ceil_div total limit in
    record {
      page = page;
      limit = limit;
      total = total;
      total_pages = total_pages;
      has_next_page = ltb page total_pages;
      has_previous_page = ltb 1 page;
    }
