-- ===== src/Api/Accounts.antt =====
-- identity/api/identity.controller.ts. Both methods are public: `JwtAuthGuard` lets every call through.
use multi_tenant_saa_s_platf.Base.{Option, Text, CaseMapping}
use multi_tenant_saa_s_platf.Base.Actions.{Action}
use multi_tenant_saa_s_platf.Kernel.Repository.{Repository}
use multi_tenant_saa_s_platf.Events.Envelope.{EventBus}
use multi_tenant_saa_s_platf.TenantCore.Repository.{organization_column}
use multi_tenant_saa_s_platf.Identity.User.{Bcrypt}
use multi_tenant_saa_s_platf.Identity.UserRepository.{user_column}
use multi_tenant_saa_s_platf.Identity.Register
use multi_tenant_saa_s_platf.Identity.Authenticate
use multi_tenant_saa_s_platf.Api.Calls.{Call}

pub record RegisterBody : Type 0 where
  pub email : Text
  pub password : Text
  pub display_name : Text

pub record LoginBody : Type 0 where
  pub email : Text
  pub password : Text
  pub organization_slug : Option Text

module _ (case : CaseMapping) (bcrypt : Bcrypt) (users : Repository user_column)
    (bus : EventBus) where
  unfoldable pub register :
      Call
      → RegisterBody
      → Register.Supply
      → Action (users.Table × bus.State) Register.RegisterUserResult
  unfolding Register.execute
  register call body supply =
      Register.execute case bcrypt users bus
        (record {
          email = body.email;
          password = body.password;
          display_name = body.display_name;
          correlation_id = call.command_correlation;
        })
        supply

module _ (case : CaseMapping) (bcrypt : Bcrypt) (jwt : Authenticate.Jwt)
    (users : Repository user_column) (organizations : Repository organization_column) where
  unfoldable pub login :
      LoginBody
      → Authenticate.Clock
      → Action (users.Table × organizations.Table) (Authenticate.TokenPair jwt.Token)
  unfolding Authenticate.execute
  login body clock =
      Authenticate.execute case bcrypt jwt users organizations
        (record {
          email = body.email;
          password = body.password;
          organization_slug = body.organization_slug;
        })
        clock
