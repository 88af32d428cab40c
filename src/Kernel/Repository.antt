-- ===== src/Kernel/Repository.antt =====
-- libs/shared-kernel/src/infrastructure/tenant-aware.repository.ts: the tenant guards that the
-- repositories extend, and TypeORM's `Repository` as the parameter that they use.
pub mod Memory
pub mod Isolation
use text.Mathlib.Text.{◌==◌ as str_eq}
use multi_tenant_saa_s_platf.Base.{
  ℕ, ◌≤◌, ◌+◌, ◌≡◌, Bool, true, false, Option, none, some, List, [], ◌∷◌, ◌++◌, Text, String,
  Result, ok, fail, Exception, forbidden, error, ◌===◌, not, throw_if, ◌>>=◌, ◌>>◌, is_truthy, all,
  keep, length, any,
}
use multi_tenant_saa_s_platf.Kernel.Context.{TenantContext, try_get_tenant_id}

-- A `FindOptionsWhere`: column names and the values that they must have.
abbrev pub Where : Type 0
Where = List (String × Text)

abbrev pub has_key : String → Where → Bool
has_key k [] = false
has_key k (c ∷ w) = elim (str_eq k c.0) [ true ↦ true | false ↦ has_key k w ]

-- `{ ...a, ...b }`: what `b` sets replaces what `a` sets.
unfoldable pub spread : Where → Where → Where
spread a b = keep (λ c. not (has_key c.0 b)) a ++ b

-- A query as the chain of calls on a `SelectQueryBuilder` describes it.
pub record SelectQuery (E : Type 0) : Type 0 where
  pub filters : List (E → Bool)
  pub order_desc : Option String
  pub skip : ℕ
  pub take : Option ℕ

unfoldable pub fits : {E : Type 0} → List (E → Bool) → E → Bool
fits filters e = all (λ f. f e) filters

-- A row has all the values of a `where`.
unfoldable pub matches : {E : Type 0} → (String → E → Text) → Where → E → Bool
matches column w e = all (λ c. column c.0 e === c.1) w

-- What the code asks of TypeORM for one entity class: the statements that it sends, which the
-- database may reject, and what they promise. A rejected statement changes nothing.
pub record Repository {E : Type 0} (column : String → E → Text) : Type 1 where
  pub Table : Type 0
  pub rows : Table → List E
  pub find_one : Where → Table → Result (Option E)
  pub exists_by : Where → Table → Result Bool
  pub count : Where → Table → Result ℕ
  pub get_one : SelectQuery E → Table → Result (Option E)
  pub get_count : SelectQuery E → Table → Result ℕ
  pub get_many : SelectQuery E → Table → Result (List E)
  pub get_many_and_count : SelectQuery E → Table → Result (List E × ℕ)
  pub save : E → Table → Result E × Table
  pub insert : List E → Table → Result (Unit {0}) × Table
  pub find_one_fits :
      (w : Where) (t : Table) (e : E) → find_one w t ≡ ok (some e) → matches column w e ≡ true
  pub exists_row :
      (w : Where) (t : Table) (b : Bool)
      → exists_by w t ≡ ok b
      → b ≡ any (matches column w) (rows t)
  pub find_one_none :
      (w : Where) (t : Table) → find_one w t ≡ ok none → any (matches column w) (rows t) ≡ false
  pub count_matches :
      (w : Where) (t : Table) (n : ℕ)
      → count w t ≡ ok n
      → n ≡ length (keep (matches column w) (rows t))
  pub get_one_fits :
      (q : SelectQuery E) (t : Table) (e : E) → get_one q t ≡ ok (some e) → fits q.filters e ≡ true
  pub get_one_none :
      (q : SelectQuery E) (t : Table) → get_one q t ≡ ok none → keep (fits q.filters) (rows t) ≡ []
  pub count_rows :
      (q : SelectQuery E) (t : Table) (n : ℕ)
      → get_count q t ≡ ok n
      → n ≡ length (keep (fits q.filters) (rows t))
  pub get_many_keep :
      (q : SelectQuery E) (t : Table) (es : List E)
      → get_many q t ≡ ok es
      → q.skip ≡ 0
      → q.take ≡ none
      → (p : E → Bool) → length (keep p es) ≡ length (keep p (keep (fits q.filters) (rows t)))
  pub get_many_fit :
      (q : SelectQuery E) (t : Table) (es : List E)
      → get_many q t ≡ ok es
      → all (fits q.filters) es ≡ true
  pub many_fit :
      (q : SelectQuery E) (t : Table) (es : List E) (n : ℕ)
      → get_many_and_count q t ≡ ok (es, n)
      → all (fits q.filters) es ≡ true
  pub many_count :
      (q : SelectQuery E) (t : Table) (es : List E) (n : ℕ)
      → get_many_and_count q t ≡ ok (es, n)
      → n ≡ length (keep (fits q.filters) (rows t))
  pub many_take :
      (q : SelectQuery E) (t : Table) (es : List E) (n limit : ℕ)
      → get_many_and_count q t ≡ ok (es, n)
      → q.take ≡ some limit
      → length es ≤ limit
  pub save_rejected : (e : E) (t t' : Table) (x : Exception) → save e t ≡ (fail x, t') → t' ≡ t
  pub insert_rejected :
      (es : List E) (t t' : Table) (x : Exception) → insert es t ≡ (fail x, t') → t' ≡ t
  pub insert_adds :
      (es : List E) (t t' : Table)
      → insert es t ≡ (ok tt, t')
      → (p : E → Bool) → length (keep p (rows t')) ≡ length (keep p (rows t)) + length (keep p es)

-- `createQueryBuilder(alias)`
unfoldable pub create_query_builder : {E : Type 0} → SelectQuery E
create_query_builder = record { filters = []; order_desc = none; skip = 0; take = none }

-- `.where(f)`, which drops the conditions set so far, and `.andWhere(f)`
unfoldable pub where_only : {E : Type 0} → (E → Bool) → SelectQuery E → SelectQuery E
where_only f q = record q { filters = f ∷ [] }

unfoldable pub and_where : {E : Type 0} → (E → Bool) → SelectQuery E → SelectQuery E
and_where f q = record q { filters = q.filters ++ f ∷ [] }

-- The constructor's name, which the source puts in front of these messages, is left out.
abbrev pub no_active_context : Exception
no_active_context =
    error (record { template = "operation requires an active tenant context"; values = [] })

module _ (store : Option TenantContext) where
  -- `TenantRepositoryBase.requireTenantId`; the empty string is refused too.
  unfoldable pub require_tenant_id : Result Text
  unfolding try_get_tenant_id
  require_tenant_id = elim (try_get_tenant_id store) [
    | none ↦ fail no_active_context
    | some tenant_id ↦ elim (is_truthy tenant_id) [
      | true ↦ ok tenant_id
      | false ↦ fail no_active_context
    ]
  ]

  -- `TenantScopedRepository.scopedWhere`
  unfoldable pub scoped_where : Where → Result Where
  unfolding spread
  scoped_where extra = do
    tenant_id ← require_tenant_id
    ok (spread (("tenantId", tenant_id) ∷ []) extra)

  -- `TenantScopedRepository.scopedQb`
  unfoldable pub scoped_qb : {E : Type 0} → (String → E → Text) → Result (SelectQuery E)
  unfolding where_only create_query_builder
  scoped_qb column = do
    tenant_id ← require_tenant_id
    ok (where_only (λ e. column "tenantId" e === tenant_id) create_query_builder)

  -- `TenantScopedRepository.guardTenantOwnership`
  unfoldable pub guard_tenant_ownership : Text → Result (Unit {0})
  guard_tenant_ownership entity_tenant_id = do
    tenant_id ← require_tenant_id
    throw_if (not (entity_tenant_id === tenant_id)) (
        forbidden (record {
          template = "Tenant isolation violation: entity.tenantId={} but context.tenantId={}";
          values = entity_tenant_id ∷ tenant_id ∷ [];
        }))

  -- `TenantRootRepository.guardTenantRoot`
  unfoldable pub guard_tenant_root : Text → Result (Unit {0})
  guard_tenant_root aggregate_id = do
    tenant_id ← require_tenant_id
    throw_if (not (aggregate_id === tenant_id)) (
        forbidden (record {
          template = "cannot access organization {} from tenant context {}";
          values = aggregate_id ∷ tenant_id ∷ [];
        }))
