-- ===== src/Workflow/Definition.antt =====
-- workflow/domain/entities/workflow-definition.entity.ts
use multi_tenant_saa_s_platf.Base.{
  ℕ, Bool, true, false, Option, some, List, [], ◌∷◌, Text, Result, ok, validation, throw_if, ◌>>◌,
  is_empty,
}
use multi_tenant_saa_s_platf.Kernel.Entity.{Entity, new_entity, touch}
use multi_tenant_saa_s_platf.Kernel.Json.{Fields}

pub data WorkflowTriggerType : Type 0 where
  manual event schedule webhook : WorkflowTriggerType

pub data WorkflowDefinitionStatus : Type 0 where
  draft active archived : WorkflowDefinitionStatus

pub record WorkflowStep : Type 0 where
  pub step_id : Text
  pub name : Text
  pub type : Text
  pub config : Fields
  pub on_success : Option Text
  pub on_failure : Option Text

pub record WorkflowTrigger : Type 0 where
  pub type : WorkflowTriggerType
  pub event_type : Option Text
  pub schedule : Option Text
  pub webhook_path : Option Text

pub record WorkflowDefinitionProps : Type 0 where
  pub definition_id : Text
  pub tenant_id : Text
  pub name : Text
  pub description : Option Text
  pub trigger : WorkflowTrigger
  pub steps : List WorkflowStep
  pub version : ℕ
  pub status : WorkflowDefinitionStatus
  pub created_by : Text
  pub created_at : Option ℕ
  pub updated_at : Option ℕ

pub record WorkflowDefinition : Type 0 where
  pub base : Entity
  pub open base use *
  pub tenant_id : Text
  pub name : Text
  pub description : Option Text
  pub trigger : WorkflowTrigger
  pub steps : List WorkflowStep
  pub version : ℕ
  pub status : WorkflowDefinitionStatus
  pub created_by : Text

-- The constructor, which `reconstitute` is too.
unfoldable pub reconstitute : WorkflowDefinitionProps → ℕ → ℕ → WorkflowDefinition
unfolding new_entity
reconstitute props now now' = record {
  base =
      new_entity
        (record {
          id = some props.definition_id;
          created_at = props.created_at;
          updated_at = props.updated_at;
        })
        props.definition_id now now';
  tenant_id = props.tenant_id;
  name = props.name;
  description = props.description;
  trigger = props.trigger;
  steps = props.steps;
  version = props.version;
  status = props.status;
  created_by = props.created_by;
}

pub record CreateParams : Type 0 where
  pub tenant_id : Text
  pub name : Text
  pub description : Option Text
  pub trigger : WorkflowTrigger
  pub steps : List WorkflowStep
  pub created_by : Text
  pub created_at : Option ℕ
  pub updated_at : Option ℕ

unfoldable pub create : CreateParams → Text → ℕ → ℕ → Result WorkflowDefinition
unfolding reconstitute
create params definition_id now now' =
    throw_if (is_empty params.steps)
      (validation (("steps", "Workflow must have at least one step" ∷ []) ∷ []))
    >> ok (
        reconstitute
          (record {
            definition_id = definition_id;
            version = 1;
            status = draft;
            tenant_id = params.tenant_id;
            name = params.name;
            description = params.description;
            trigger = params.trigger;
            steps = params.steps;
            created_by = params.created_by;
            created_at = params.created_at;
            updated_at = params.updated_at;
          })
          now now')

unfoldable pub activate : ℕ → WorkflowDefinition → WorkflowDefinition
unfolding touch
activate now definition = record definition { base = touch now definition.base; status = active }

unfoldable pub archive : ℕ → WorkflowDefinition → WorkflowDefinition
unfolding touch
archive now definition = record definition { base = touch now definition.base; status = archived }

-- The getter `isActive`
unfoldable pub is_active : WorkflowDefinition → Bool
is_active definition = elim definition.status [ draft ↦ false | active ↦ true | archived ↦ false ]
