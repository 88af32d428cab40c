-- ===== src/Identity/Register/Outcomes.antt =====
-- What register-user.handler.ts leaves behind, on every way that it can end.
use multi_tenant_saa_s_platf.Base.{
  ◌≡◌, inl, inr, ◌⊎◌, true, false, Result, ok, fail, Exception, arith, CaseMapping, Result-cases,
}
use multi_tenant_saa_s_platf.Kernel.Repository.{Repository}
use multi_tenant_saa_s_platf.Events.Envelope.{EventBus}
use multi_tenant_saa_s_platf.Identity.User
use multi_tenant_saa_s_platf.Identity.User.{Bcrypt}
use multi_tenant_saa_s_platf.Identity.UserRepository.{user_column, save, exists_by_email}
use multi_tenant_saa_s_platf.Identity.Register.{
  RegisterUserCommand, RegisterUserResult, Supply, registered_event, execute,
}

module _ (case : CaseMapping) (bcrypt : Bcrypt) (repo : Repository user_column) (bus : EventBus)
    (command : RegisterUserCommand) (supply : Supply) (t : repo.Table) (b : bus.State) where
  -- The user that the command asks for, as `execute` makes it.
  abbrev pub new_user : Result User.User
  new_user =
      User.create case bcrypt
        (record {
          email = command.email;
          password = command.password;
          display_name = command.display_name;
        })
        supply.user_id supply.salt supply.created supply.updated

  -- `saved` is what the table holds and gives back for the user that was made.
  abbrev pub IsSaved : User.User → repo.Table → Type 0
  IsSaved saved t' =
      (user : User.User) × (new_user ≡ ok user)
      × (save case repo supply.loaded supply.loaded_again user
            (exists_by_email case repo command.email t).1
          ≡ (ok saved, t'))

  -- A registration that succeeds found the email free and stored a new user, and the bus is what
  -- publishing that user's one event makes of it, without a failure.
  pub execute-IsSaved :
      (result : RegisterUserResult) (t' : repo.Table) (b' : bus.State)
      → execute case bcrypt repo bus command supply (t, b) ≡ (ok result, (t', b'))
      → (saved : User.User) × ((exists_by_email case repo command.email t).0 ≡ ok false)
        × IsSaved saved t'
        × (result.user_id ≡ saved.id)
        × (bus.publish (registered_event command supply saved) b ≡ (ok tt, b'))
  unfolding execute
  execute-IsSaved result t' b' h =
      elim (Result-cases (exists_by_email case repo command.email t).0) [
        | inl (true, e) ↦ ground arith
        | inl (false, e) ↦ elim (Result-cases new_user) [
          | inl (user, made) ↦
              let t1 = (exists_by_email case repo command.email t).1 in
              elim (Result-cases (save case repo supply.loaded supply.loaded_again user t1).0) [
                | inl (saved, stored) ↦
                    elim (Result-cases (bus.publish (registered_event command supply saved) b).0) [
                      | inl (tt, sent) ↦
                          (saved, e, (user, made, ground arith), ground arith, ground arith)
                      | inr (x, sent) ↦ ground arith
                    ]
                | inr (x, stored) ↦ ground arith
              ]
          | inr (x, made) ↦ ground arith
        ]
        | inr (x, e) ↦ ground arith
      ]

  -- A registration that fails either leaves the bus as it was, or has stored the user, and publishing
  -- that user's event failed: the user stays stored, and the bus is what the failed publication left.
  pub execute_failure :
      (x : Exception) (t' : repo.Table) (b' : bus.State)
      → execute case bcrypt repo bus command supply (t, b) ≡ (fail x, (t', b'))
      → (b' ≡ b)
        ⊎ ((saved : User.User) × IsSaved saved t'
            × (bus.publish (registered_event command supply saved) b ≡ (fail x, b')))
  unfolding execute
  execute_failure x t' b' h = elim (Result-cases (exists_by_email case repo command.email t).0) [
    | inl (true, e) ↦ inl (ground arith)
    | inl (false, e) ↦ elim (Result-cases new_user) [
      | inl (user, made) ↦
          let t1 = (exists_by_email case repo command.email t).1 in
          elim (Result-cases (save case repo supply.loaded supply.loaded_again user t1).0) [
            | inl (saved, stored) ↦
                elim (Result-cases (bus.publish (registered_event command supply saved) b).0) [
                  | inl (tt, sent) ↦ ground arith
                  | inr (y, sent) ↦ inr (saved, (user, made, ground arith), ground arith)
                ]
            | inr (y, stored) ↦ inl (ground arith)
          ]
      | inr (y, made) ↦ inl (ground arith)
    ]
    | inr (y, e) ↦ inl (ground arith)
  ]
