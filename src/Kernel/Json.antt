-- ===== src/Kernel/Json.antt =====
-- JavaScript values that the code carries along without looking inside: payloads, settings,
-- metadata and step results. `date t` is the ISO-8601 text of the instant `t`.
use multi_tenant_saa_s_platf.Base.{ℕ, Bool, String, Text, Option, none, some}

mutual
  pub data Json : Type 0 where
    null undefined : Json
    bool : Bool → Json
    num date : ℕ → Json
    str : Text → Json
    arr : Items → Json
    obj : Fields → Json

  pub data Items : Type 0 where
    nil : Items
    cons : Json → Items → Items

  pub data Fields : Type 0 where
    end : Fields
    field : String → Json → Fields → Fields

-- `x` where it may be absent
abbrev pub str? : Option Text → Json
str? none = undefined
str? (some s) = str s
