-- ===== src/Audit/Repository/Conditions.antt =====
-- The conditions that `query` of audit/infrastructure/persistence/audit-event.repository.ts makes of a
-- filter.
use multi_tenant_saa_s_platf.Base.{
  ℕ, ◌≡◌, ◌≢◌, ◌↔◌, ◌≤◌, refl, Bool, true, ◌&&◌, Option, none, some, List, [], ◌∷◌, ◌++◌, map, Text,
  arith, text_eq_iff, All, all, ◌===◌, get_or, min, ◌-◌, ◌*◌, map_option, leb,
}
use multi_tenant_saa_s_platf.Kernel.Pagination.{PaginationOptions}
use multi_tenant_saa_s_platf.Kernel.Repository.{SelectQuery, fits, and_where}
use multi_tenant_saa_s_platf.Audit.Event.{
  AuditEvent, AuditOutcome, success, failure, AuditEventOrm, audit_column, to_domain, reconstitute,
  outcome_value,
}
use multi_tenant_saa_s_platf.Audit.Repository.{
  AuditEventFilter, and_equal, and_between, narrowed, equals,
}

-- A value that a filter asks for: the empty text asks for nothing.
abbrev pub Asked : Option Text → Option Text → Type 0
Asked none x = Unit
Asked (some v) x = v ≢ [] → x ≡ some v

-- A period that a filter asks for: one date alone asks for nothing.
abbrev pub Within : Option ℕ → Option ℕ → ℕ → Type 0
Within (some from) (some to) t = (from ≤ t) × (t ≤ to)
Within (some from) none t = Unit
Within none to t = Unit

abbrev pub AskedOutcome : Option AuditOutcome → AuditOutcome → Type 0
AskedOutcome none o = Unit
AskedOutcome (some asked) o = o ≡ asked

-- What a filter says of an event.
abbrev pub Wanted : AuditEventFilter → AuditEvent → Type 0
Wanted filter e =
    Asked filter.actor_id e.actor_id
    × Asked filter.action (some e.action)
    × Asked filter.resource_type (some e.resource_type)
    × Asked filter.resource_id (some e.resource_id)
    × AskedOutcome filter.outcome e.outcome
    × Within filter.from_date filter.to_date e.occurred_at

outcome_iff :
    (asked : Option AuditOutcome) (o : AuditOutcome)
    → Asked (map_option outcome_value asked) (some (outcome_value o)) ↔ AskedOutcome asked o
unfolding outcome_value
outcome_iff none o = (λ h. tt, λ h. tt)
outcome_iff (some success) success = (λ h. refl, λ h n. refl)
outcome_iff (some success) failure = ground arith
outcome_iff (some failure) success = ground arith
outcome_iff (some failure) failure = (λ h. refl, λ h n. refl)

module _ (e : AuditEventOrm) where
  fits-append :
      (fs : List (AuditEventOrm → Bool)) (f : AuditEventOrm → Bool)
      → (fits (fs ++ f ∷ []) e ≡ true) ↔ ((fits fs e ≡ true) × (f e ≡ true))
  unfolding fits
  fits-append [] f = ground arith
  fits-append (g ∷ fs) f = ground (arith, fits-append fs f)

  equals_iff : (x : Option Text) (v : Text) → (equals x v ≡ true) ↔ (x ≡ some v)
  equals_iff none v = ground arith
  equals_iff (some x) v = ground (arith, text_eq_iff x v)

  and_equal_iff :
      (column : AuditEventOrm → Option Text) (asked : Option Text) (qb : SelectQuery AuditEventOrm)
      → (fits (and_equal column asked qb).filters e ≡ true)
        ↔ ((fits qb.filters e ≡ true) × Asked asked (column e))
  unfolding and_equal and_where
  and_equal_iff column none qb = (λ h. (h, tt), λ h. h.0)
  and_equal_iff column (some []) qb = (λ h. (h, λ n. absurd (n refl)), λ h. h.0)
  and_equal_iff column (some (c ∷ v)) qb =
      let add = fits-append qb.filters (λ r. equals (column r) (c ∷ v)) in
      let eq = equals_iff (column e) (c ∷ v) in
      (λ h. ((add.0 h).0, λ n. eq.0 (add.0 h).1), λ h. add.1 (h.0, eq.1 (h.1 (λ z. cc))))

  and_between_iff :
      (from to : Option ℕ) (qb : SelectQuery AuditEventOrm)
      → (fits (and_between from to qb).filters e ≡ true)
        ↔ ((fits qb.filters e ≡ true) × Within from to e.occurred_at)
  unfolding and_between and_where
  and_between_iff none to qb = (λ h. (h, tt), λ h. h.0)
  and_between_iff (some from) none qb = (λ h. (h, tt), λ h. h.0)
  and_between_iff (some from) (some to) qb =
      let add = fits-append qb.filters (λ r. leb from r.occurred_at && leb r.occurred_at to) in
      (
        λ h. let last = (add.0 h).1 in ((add.0 h).0, (ground arith, ground arith)),
        λ h. add.1 (h.0, ground arith),
      )

  narrowed_iff :
      (filter : AuditEventFilter) (qb : SelectQuery AuditEventOrm) (now now' : ℕ)
      → (fits (narrowed filter qb).filters e ≡ true)
        ↔ ((fits qb.filters e ≡ true) × Wanted filter (to_domain now now' e))
  unfolding narrowed to_domain reconstitute
  narrowed_iff filter qb now now' =
      let q1 = and_equal (λ r. r.actor_id) filter.actor_id qb in
      let q2 = and_equal (λ r. some r.action) filter.action q1 in
      let q3 = and_equal (λ r. some r.resource_type) filter.resource_type q2 in
      let q4 = and_equal (λ r. some r.resource_id) filter.resource_id q3 in
      let q5 =
        and_equal (λ r. some (outcome_value r.outcome)) (map_option outcome_value filter.outcome)
          q4 in
      let actor = and_equal_iff (λ r. r.actor_id) filter.actor_id qb in
      let action = and_equal_iff (λ r. some r.action) filter.action q1 in
      let kind = and_equal_iff (λ r. some r.resource_type) filter.resource_type q2 in
      let resource = and_equal_iff (λ r. some r.resource_id) filter.resource_id q3 in
      let outcome =
        and_equal_iff (λ r. some (outcome_value r.outcome))
          (map_option outcome_value filter.outcome) q4 in
      let same = outcome_iff filter.outcome e.outcome in
      let period = and_between_iff filter.from_date filter.to_date q5 in
      (
        λ h.
            let f5 = (period.0 h).0 in
            let f4 = (outcome.0 f5).0 in
            let f3 = (resource.0 f4).0 in
            let f2 = (kind.0 f3).0 in
            let f1 = (action.0 f2).0 in
            (
              (actor.0 f1).0,
              (
                (actor.0 f1).1,
                (action.0 f2).1,
                (kind.0 f3).1,
                (resource.0 f4).1,
                same.0 (outcome.0 f5).1,
                (period.0 h).1,
              ),
            ),
        λ (f, (a, b, c, d, o, w)).
            period.1
              (outcome.1 (resource.1 (kind.1 (action.1 (actor.1 (f, a), b), c), d), same.1 o), w),
      )

-- The query that `scopedQb` begins for a tenant, with its last calls.
abbrev pub tenant_query : Text → PaginationOptions → SelectQuery AuditEventOrm
tenant_query tenant options =
    let limit = min (get_or options.limit 50) 200 in
    record {
      filters = (λ e. audit_column "tenantId" e === tenant) ∷ [];
      order_desc = some "occurredAt";
      skip = (get_or options.page 1 - 1) * limit;
      take = some limit;
    }

-- The rows that are a tenant's and that a filter wants.
abbrev pub IsListed : Text → AuditEventFilter → AuditEvent → Type 0
IsListed tenant filter e = (e.tenant_id ≡ tenant) × Wanted filter e

module _ (now now' : ℕ) (tenant : Text) (filter : AuditEventFilter)
    (options : PaginationOptions) where
  pub IsListed-iff :
      (e : AuditEventOrm)
      → (fits (narrowed filter (tenant_query tenant options)).filters e ≡ true)
        ↔ IsListed tenant filter (to_domain now now' e)
  unfolding to_domain reconstitute audit_column fits
  IsListed-iff e =
      let both = narrowed_iff e filter (tenant_query tenant options) now now' in
      let own = text_eq_iff e.tenant_id tenant in
      (
        λ h. (ground (arith, (both.0 h).0, own), (both.0 h).1),
        λ h. both.1 (ground (arith, h.0, own), h.1),
      )

  pub all-IsListed :
      (orms : List AuditEventOrm)
      → all (fits (narrowed filter (tenant_query tenant options)).filters) orms ≡ true
      → All (IsListed tenant filter) (map (to_domain now now') orms)
  all-IsListed [] h = tt
  all-IsListed (e ∷ orms) h = ((IsListed-iff e).0 (ground arith), all-IsListed orms (ground arith))
