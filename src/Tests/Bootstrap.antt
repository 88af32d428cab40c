-- ===== src/Tests/Bootstrap.antt =====
-- The bootstrap script at concrete inputs.
use multi_tenant_saa_s_platf.Base.{
  ◌≡◌, ◌≢◌, ◌↔◌, refl, none, some, [], Text, codes, fail, Exception, arith, ascii, ◌===◌,
  text_eq_refl,
}
use multi_tenant_saa_s_platf.Kernel.Repository.Memory.{memory, holding}
use multi_tenant_saa_s_platf.TenantCore.Slug.Shape.{IsSlug}
use multi_tenant_saa_s_platf.TenantCore.Repository.{organization_column}
use multi_tenant_saa_s_platf.Identity.User.{Bcrypt}
use multi_tenant_saa_s_platf.Identity.UserRepository.{user_column}
use multi_tenant_saa_s_platf.Bootstrap.Slugify.{
  slugify, slug_base, fit_length, strip_marks, hyphenate, strip_start, strip_end,
}
use multi_tenant_saa_s_platf.Bootstrap.Slugify.Shape.{slugify-IsSlug}
use multi_tenant_saa_s_platf.Bootstrap.Provision.{Environment, UserSupply, OrganizationSupply, run}
use multi_tenant_saa_s_platf.Bootstrap.Provision.Outcomes.{run-IsReady}
use multi_tenant_saa_s_platf.Tests.Fixtures.{acme, zoo, ann}

-- Text that is in normal form already
abbrev as_it_is : Text → Text
as_it_is s = s

slug_of_name : slugify ascii as_it_is none (codes " Acme & Co.") ≡ codes "acme-co"
unfolding slugify slug_base fit_length strip_marks hyphenate strip_start strip_end codes ascii
slug_of_name = refl

slug_of_no_letter : slugify ascii as_it_is none (codes "&!") ≡ codes "-org"
unfolding slugify slug_base fit_length strip_marks hyphenate strip_start strip_end codes ascii
slug_of_no_letter = refl

slugify-IsSlug_example :
    IsSlug (slugify ascii as_it_is none (codes "Acme"))
    ↔ (slug_base ascii as_it_is (codes "Acme") ≢ [])
slugify-IsSlug_example = slugify-IsSlug ascii as_it_is (codes "Acme")

-- All variables are set, and the environment is production.
abbrev production : Environment
production = record {
  initial_admin_email = some ann;
  initial_admin_password = some zoo;
  initial_admin_name = some ann;
  initial_tenant_name = some acme;
  initial_tenant_slug = none;
  initial_tenant_plan = none;
  node_env = some (codes "production");
  bootstrap_allow_prod = none;
}

abbrev user_supply : UserSupply
user_supply = record {
  user_id = ann;
  salt = [];
  created = 1;
  updated = 2;
  activated = 3;
  touched = 4;
  loaded = 5;
  loaded_again = 6;
}

abbrev organization_supply : OrganizationSupply
organization_supply = record {
  organization_id = acme;
  correlation_id = [];
  default_project_id = zoo;
  provision_correlation_id = [];
  created = 1;
  updated = 2;
  created_event_id = ann;
  created_event_time = 3;
  provisioned = 4;
  touched = 5;
  provisioned_event_id = zoo;
  provisioned_event_time = 6;
}

-- A hash that keeps the text
abbrev plain : Bcrypt
plain = record {
  hash = λ plaintext rounds salt. plaintext;
  compare = λ plaintext hash. plaintext === hash;
  compare-hash = λ plaintext salt rounds. text_eq_refl plaintext;
}

run-IsReady_example :
    (x : Exception) × (run ascii as_it_is plain
        (memory user_column)
        (memory organization_column)
        production
        user_supply
        organization_supply
        (holding user_column [], holding organization_column [])
      ≡ (fail x, (holding user_column [], holding organization_column [])))
run-IsReady_example =
    (run-IsReady ascii as_it_is plain (memory user_column) (memory organization_column) production
        user_supply organization_supply (holding user_column []) (holding organization_column [])).0
      (λ ready. let allowed = ready.1 refl in ground arith)
