-- ===== src/Tests/TenantCore.antt =====
-- The organizations' theorems at concrete inputs.
use multi_tenant_saa_s_platf.Base.{
  arith, ◌≡◌, ◌↔◌, refl, false, none, some, [], ◌∷◌, Text, codes, ok, ascii, ◌===◌, trim,
}
use multi_tenant_saa_s_platf.Kernel.Entity.{new_entity, touch, new_domain_event}
use multi_tenant_saa_s_platf.Kernel.Repository.{fits, where_only, create_query_builder}
use multi_tenant_saa_s_platf.Kernel.Repository.Memory.{memory, holding}
use multi_tenant_saa_s_platf.Kernel.Tenancy.{free, provisioning, active, suspended, tier_value}
use multi_tenant_saa_s_platf.Regex.{match}
use multi_tenant_saa_s_platf.TenantCore.Commands.{
  Supply, SuspendOrganizationCommand, execute_create,
}
use multi_tenant_saa_s_platf.TenantCore.Commands.Outcomes.{exists_by_slug-blind}
use multi_tenant_saa_s_platf.TenantCore.Commands.Publication.{execute_create-silent}
use multi_tenant_saa_s_platf.TenantCore.Organization.{
  Organization, CreateParams, create, suspend, reconstitute, initial_settings, event_of,
  created_payload, suspended_payload, add_domain_event, clear_domain_events,
}
use multi_tenant_saa_s_platf.TenantCore.Organization.Lifecycle.{
  IsSound, created, organization-IsSound, suspension, Step-⟶, ◌⟶◌,
}
use multi_tenant_saa_s_platf.TenantCore.Organization.Mapper.{
  to_domain, to_orm, organization_to_domain-to_orm,
}
use multi_tenant_saa_s_platf.TenantCore.Plan.{for_tier}
use multi_tenant_saa_s_platf.TenantCore.Repository.{
  provision, organization_column, save, exists_by_slug,
}
use multi_tenant_saa_s_platf.TenantCore.Repository.Isolation.{save_guarded}
use multi_tenant_saa_s_platf.TenantCore.Slug
use multi_tenant_saa_s_platf.TenantCore.Slug.{pattern_atoms}
use multi_tenant_saa_s_platf.TenantCore.Slug.Shape.{IsSlug, create-IsSlug}
use multi_tenant_saa_s_platf.Tests.Fixtures.{acme, zoo, ann, ctx_of, row_of, log}

abbrev organization_of : Text → Organization
organization_of id = record {
  base = record { id = id; created_at = 1; updated_at = 2 };
  name = id;
  slug = record { value = id };
  plan = record {
    tier = free;
    max_projects = 1;
    max_members = 3;
    max_api_keys = 2;
    audit_retention_days = 30;
  };
  status = active;
  owner_id = ann;
  provisioned_at = some 3;
  settings = initial_settings;
  domain_events = [];
}

save_guarded_example :
    save ascii
      (memory organization_column)
      (some (ctx_of acme))
      (organization_of acme)
      (holding organization_column [])
    ≡ provision ascii
        (memory organization_column)
        (organization_of acme)
        (holding organization_column [])
save_guarded_example =
    (save_guarded ascii (memory organization_column) (some (ctx_of acme)) (organization_of acme)
        (holding organization_column [])).0
      (ground arith)

abbrev params : CreateParams
params = record { name = acme; slug = acme; plan_tier = free; owner_id = ann; correlation_id = [] }

-- The organization that these parameters make
abbrev created_acme : Organization
created_acme = record {
  base = record { id = acme; created_at = 1; updated_at = 2 };
  name = acme;
  slug = record { value = acme };
  plan = record {
    tier = free;
    max_projects = 1;
    max_members = 3;
    max_api_keys = 2;
    audit_retention_days = 30;
  };
  status = provisioning;
  owner_id = ann;
  provisioned_at = none;
  settings = initial_settings;
  domain_events =
      new_domain_event "TenantCreatedDomainEvent" (event_of acme [] (some ann))
        (created_payload acme acme acme (tier_value free) ann) zoo 5
      ∷ [];
}

acme_created : create ascii params acme 1 2 zoo 5 ≡ ok created_acme
unfolding create Slug.create pattern_atoms match trim ascii for_tier reconstitute new_entity
    add_domain_event new_domain_event created_payload tier_value codes
acme_created = refl

organization-IsSound_example : IsSound ascii created_acme
organization-IsSound_example =
    organization-IsSound ascii (created params acme 1 2 zoo 5 acme_created)

acme_suspended :
    suspend zoo ann [] 7 8 zoo 9 (organization_of acme)
    ≡ ok (record (organization_of acme) {
      base = record { id = acme; created_at = 1; updated_at = 8 };
      status = suspended;
      domain_events =
          new_domain_event "TenantSuspendedDomainEvent"
            (event_of acme [] (some ann))
            (suspended_payload acme zoo ann 7)
            zoo
            9
          ∷ [];
    })
unfolding suspend new_domain_event add_domain_event suspended_payload touch
acme_suspended = refl

Step-⟶_example :
    (active ⟶ suspended)
    × (acme ≡ acme)
    × (ann ≡ ann)
    × ((organization_of acme).slug ≡ (organization_of acme).slug)
    × ((organization_of acme).created_at ≡ (organization_of acme).created_at)
Step-⟶_example = Step-⟶ (suspension zoo ann [] 7 8 zoo 9 acme_suspended)

organization_to_domain-to_orm_example :
    to_domain ascii (to_orm created_acme) ≡ ok (clear_domain_events created_acme)
organization_to_domain-to_orm_example =
    organization_to_domain-to_orm ascii created_acme
      (organization-IsSound ascii (created params acme 1 2 zoo 5 acme_created))

create-IsSlug_example :
    (Slug.create ascii acme ≡ ok (record { value = acme }))
    ↔ ((acme ≡ trim (ascii.to_lower_case acme)) × IsSlug acme)
create-IsSlug_example = create-IsSlug ascii acme (record { value = acme })

-- "Acme"
abbrev capital : Text
capital = b'A' ∷ b'c' ∷ b'm' ∷ b'e' ∷ []

exists_by_slug-blind_example : false ≡ false
unfolding holding memory exists_by_slug where_only create_query_builder fits ◌===◌ Slug.create
    pattern_atoms match trim ascii
exists_by_slug-blind_example =
    exists_by_slug-blind ascii (memory organization_column) capital (record { value = acme })
      (holding organization_column (row_of acme ∷ []))
      (holding organization_column (row_of acme ∷ [])) false (refl, tt) refl (λ e. cc) refl

abbrev supply : Supply
supply = record {
  owner_id = ann;
  organization_id = acme;
  event_id = zoo;
  now = 1;
  touched = 2;
  touched_again = 3;
  event_time = 5;
}

abbrev suspension_of : Text → SuspendOrganizationCommand
suspension_of id = record {
  organization_id = id;
  reason = zoo;
  correlation_id = [];
  actor_id = some ann;
}

execute_create-silent_example :
    (execute_create ascii
      (memory organization_column)
      log
      (record {
        name = acme;
        slug = acme;
        plan_tier = free;
        correlation_id = [];
        actor_id = some ann;
      })
      supply
      (holding organization_column [], [])).1.1
    ≡ []
execute_create-silent_example =
    execute_create-silent ascii (memory organization_column) log
      (record {
        name = acme;
        slug = acme;
        plan_tier = free;
        correlation_id = [];
        actor_id = some ann;
      })
      supply (holding organization_column []) []
