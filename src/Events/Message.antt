-- ===== src/Events/Message.antt =====
-- platform-events/adapters/redis-streams.event-bus.ts: the entry of a stream that an event becomes, and
-- the event that is read out of it. A text that stands for an instant is the instant.
pub mod Decimals
pub mod RoundTrip
use multi_tenant_saa_s_platf.Base.{
  ℕ, ◌+◌, ◌-◌, ◌*◌, Bool, true, false, ◌&&◌, Option, none, some, List, [], ◌∷◌, ◌++◌, Text, codes,
  Result, ok, ◌>>=◌, ◌===◌, if◌then◌else◌, get_or, is_truthy, leb, trim_start, decimal,
}
use multi_tenant_saa_s_platf.Kernel.Json.{Fields}
use multi_tenant_saa_s_platf.Events.Envelope.{TenantAwareEvent}

-- A field's name or value.
pub data Value : Type 0 where
  text : Text → Value
  iso : ℕ → Value

-- `JSON.stringify` and `JSON.parse`, on the payloads of events
pub record JsonCodec : Type 0 where
  pub stringify : Fields → Text
  pub parse : Text → Result Fields

-- What stands for `undefined` where the type of an event has a text or an instant, and for what
-- `parseInt` gives of a text that does not begin with a natural number.
pub record Undefined : Type 0 where
  pub text_value : Text
  pub instant_value : ℕ
  pub number_value : ℕ

abbrev pub is_digit : ℕ → Bool
is_digit c = leb 48 c && leb c 57

-- The number that the digits at the start of a text continue.
unfoldable pub scan_digits : Text → Option ℕ → Option ℕ
scan_digits [] n = n
scan_digits (c ∷ s) n =
    let rest = scan_digits s (some (10 * get_or n 0 + (c - 48))) in if is_digit c then rest else n

-- `parseInt(s, 10)`, where it is a natural number
unfoldable pub parse_int : Text → Option ℕ
unfolding trim_start scan_digits
parse_int s = elim (trim_start s) [
  | [] ↦ none
  | c ∷ rest ↦ if leb c 43 && leb 43 c then scan_digits rest none else scan_digits (c ∷ rest) none
]

module _ (json : JsonCodec) where
  -- The fields that `publish` adds.
  unfoldable pub fields_of : TenantAwareEvent → List Value
  unfolding codes decimal
  fields_of event =
      text (codes "eventId")
      ∷ text event.event_id
      ∷ text (codes "eventType")
      ∷ text event.event_type
      ∷ text (codes "tenantId")
      ∷ text event.tenant_id
      ∷ text (codes "correlationId")
      ∷ text event.correlation_id
      ∷ text (codes "actorId")
      ∷ text (get_or event.actor_id [])
      ∷ text (codes "occurredAt")
      ∷ iso event.occurred_at
      ∷ text (codes "eventVersion")
      ∷ text (decimal event.event_version)
      ∷ text (codes "sourceService")
      ∷ text event.source_service
      ∷ text (codes "payload")
      ∷ text (json.stringify event.payload)
      ∷ []

  -- The fields that `publishBatch` adds.
  unfoldable pub batch_fields_of : TenantAwareEvent → List Value
  unfolding codes
  batch_fields_of event =
      text (codes "eventId")
      ∷ text event.event_id
      ∷ text (codes "eventType")
      ∷ text event.event_type
      ∷ text (codes "tenantId")
      ∷ text event.tenant_id
      ∷ text (codes "correlationId")
      ∷ text event.correlation_id
      ∷ text (codes "occurredAt")
      ∷ iso event.occurred_at
      ∷ text (codes "payload")
      ∷ text (json.stringify event.payload)
      ∷ []

-- The object that the loop over the fields fills; a later assignment stands before an earlier one.
abbrev pub Assigned : Type 0
Assigned = List (Value × Option Value)

unfoldable pub assigned : List Value → Assigned → Assigned
assigned [] obj = obj
assigned (k ∷ []) obj = (k, none) ∷ obj
assigned (k ∷ v ∷ fields) obj = assigned fields ((k, some v) ∷ obj)

abbrev pub is_named : Text → Value → Bool
is_named name (text k) = k === name
is_named name (iso t) = false

-- `obj[name]`
unfoldable pub read : Text → Assigned → Option Value
read name [] = none
read name (entry ∷ obj) =
    let rest = read name obj in if is_named name entry.0 then entry.1 else rest

abbrev pub as_text : Option Value → Option Text
as_text none = none
as_text (some (text s)) = some s
as_text (some (iso t)) = none

abbrev pub as_instant : Option Value → Option ℕ
as_instant none = none
as_instant (some (text s)) = none
as_instant (some (iso t)) = some t

-- `s || undefined`
abbrev pub or_undefined : Option Text → Option Text
or_undefined none = none
or_undefined (some s) = if is_truthy s then some s else none

-- `deserializeEvent`
unfoldable pub deserialize_event : JsonCodec → Undefined → List Value → Result TenantAwareEvent
unfolding codes assigned read parse_int
deserialize_event json undefined fields =
    let obj = assigned fields [] in
    do
      payload ← json.parse (get_or (as_text (read (codes "payload") obj)) (codes "{}"))
      ok (record {
        event_id = get_or (as_text (read (codes "eventId") obj)) undefined.text_value;
        event_type = get_or (as_text (read (codes "eventType") obj)) undefined.text_value;
        event_version =
            get_or (parse_int (get_or (as_text (read (codes "eventVersion") obj)) (codes "1")))
              undefined.number_value;
        tenant_id = get_or (as_text (read (codes "tenantId") obj)) undefined.text_value;
        correlation_id = get_or (as_text (read (codes "correlationId") obj)) undefined.text_value;
        actor_id = or_undefined (as_text (read (codes "actorId") obj));
        causation_id = none;
        trace_id = none;
        source_service = get_or (as_text (read (codes "sourceService") obj)) [];
        source_version = none;
        occurred_at = get_or (as_instant (read (codes "occurredAt") obj)) undefined.instant_value;
        payload = payload;
      })
