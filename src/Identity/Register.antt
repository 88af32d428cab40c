-- ===== src/Identity/Register.antt =====
-- identity/application/commands/register-user. The state is the table of users and the event bus.
pub mod Outcomes
use multi_tenant_saa_s_platf.Base.{
  ℕ, Bool, true, false, Option, none, some, List, [], ◌∷◌, Text, codes, Result, ok, fail, conflict,
  CaseMapping,
}
use multi_tenant_saa_s_platf.Base.Actions.{Action, lift, pure, ◌>>=◌, ◌>>◌, on_first, on_second}
use multi_tenant_saa_s_platf.Kernel.Json.{str, date, field, end}
use multi_tenant_saa_s_platf.Kernel.Repository.{Repository}
use multi_tenant_saa_s_platf.Events.Envelope.{EventBus, TenantAwareEvent}
use multi_tenant_saa_s_platf.Identity.User
use multi_tenant_saa_s_platf.Identity.User.{Bcrypt}
use multi_tenant_saa_s_platf.Identity.UserRepository.{user_column, save, exists_by_email}

pub record RegisterUserCommand : Type 0 where
  pub email : Text
  pub password : Text
  pub display_name : Text
  pub correlation_id : Text

pub record RegisterUserResult : Type 0 where
  pub user_id : Text
  pub email : Text
  pub display_name : Text

pub record Supply : Type 0 where
  pub user_id : Text
  pub salt : Text
  pub created : ℕ
  pub updated : ℕ
  pub loaded : ℕ
  pub loaded_again : ℕ
  pub occurred : ℕ
  pub registered : ℕ

-- The `UserRegisteredEvent`
unfoldable pub registered_event : RegisterUserCommand → Supply → User.User → TenantAwareEvent
unfolding codes
registered_event command supply saved = record {
  event_id = saved.id;
  event_type = codes "identity.user.registered";
  event_version = 1;
  tenant_id = codes "global";
  correlation_id = command.correlation_id;
  actor_id = none;
  causation_id = none;
  trace_id = none;
  source_service = codes "atlas-saas-platform";
  source_version = none;
  occurred_at = supply.occurred;
  payload = field "userId" (str saved.id) (
      field "email" (str saved.email.value) (
        field "displayName" (str saved.display_name)
          (field "registeredAt" (date supply.registered) end)));
}

module _ (case : CaseMapping) (bcrypt : Bcrypt) (repo : Repository user_column)
    (bus : EventBus) where
  -- `RegisterUserHandler.execute`
  unfoldable pub execute :
      RegisterUserCommand → Supply → Action (repo.Table × bus.State) RegisterUserResult
  unfolding registered_event
  execute command supply = do
    exists ← on_first (exists_by_email case repo command.email)
    lift (elim exists [
      | true ↦ fail (
          conflict (record {
            template = "User with email '{}' already exists";
            values = command.email ∷ [];
          }))
      | false ↦ ok tt
    ])
    user ← lift (
        User.create case bcrypt
          (record {
            email = command.email;
            password = command.password;
            display_name = command.display_name;
          })
          supply.user_id supply.salt supply.created supply.updated)
    saved ← on_first (save case repo supply.loaded supply.loaded_again user)
    on_second (bus.publish (registered_event command supply saved))
    pure (record {
      user_id = saved.id;
      email = saved.email.value;
      display_name = saved.display_name;
    })
