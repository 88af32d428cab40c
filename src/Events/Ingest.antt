-- ===== src/Events/Ingest.antt =====
-- platform-events/adapters/event-streaming-http.client.ts. Sending a request is a parameter.
pub mod Acceptance
use multi_tenant_saa_s_platf.Base.{
  ℕ, ◌+◌, ◌/◌, ◌%◌, zero, suc, Bool, true, false, ◌&&◌, Option, none, some, List, [], ◌∷◌, ◌++◌,
  Text, String, codes, Result, ok, fail, Exception, error, Message, throw_if, not, get_or,
  is_truthy, ltb, leb, decimal,
}
use multi_tenant_saa_s_platf.Base.Actions.{Action}
use multi_tenant_saa_s_platf.Kernel.Json.{Fields}
use multi_tenant_saa_s_platf.Kernel.Repository.{Where, spread}

-- An optional field may be absent.
pub record IngestCommand : Type 0 where
  pub stream_id : Text
  pub type : Text
  pub source : Text
  pub payload : Fields
  pub metadata : Option (List (String × Text))
  pub correlation_id : Text
  pub actor_id : Option Text
  pub causation_id : Option Text
  pub trace_id : Option Text
  pub source_version : Option Text
  pub event_version : Option ℕ

pub record ClientConfig : Type 0 where
  pub base_url : Text
  pub api_token : Text
  pub timeout_ms : ℕ

-- The request that `fetch` is given; the body is the object that is put into JSON.
pub record Request : Type 0 where
  pub url : Text
  pub headers : List (String × Text)
  pub stream_id : Text
  pub type : Text
  pub source : Text
  pub payload : Fields
  pub metadata : List (String × Text)

-- How `fetch` ends: with a response, by the timer's abort, or with another error.
pub data Outcome : Type 0 where
  response : ℕ → Text → Outcome
  aborted : Outcome
  rejected : Exception → Outcome

-- `if (value) object[key] = value;`
unfoldable pub set_if : String → Option Text → List (String × Text) → List (String × Text)
unfolding spread
set_if k none m = m
set_if k (some v) m = elim (is_truthy v) [ true ↦ spread m ((k, v) ∷ []) | false ↦ m ]

unfoldable pub headers_of : ClientConfig → IngestCommand → List (String × Text)
unfolding set_if codes
headers_of config command = set_if "X-Trace-ID" command.trace_id (
    set_if "X-Causation-ID" command.causation_id (
      ("Content-Type", codes "application/json")
      ∷ ("Authorization", codes "Bearer " ++ config.api_token)
      ∷ ("X-Correlation-ID", command.correlation_id)
      ∷ []))

unfoldable pub metadata_of : IngestCommand → List (String × Text)
unfolding set_if spread decimal
metadata_of command = set_if "source_version" command.source_version (
    set_if "trace_id" command.trace_id (
      set_if "causation_id" command.causation_id (
        set_if "actor_id" command.actor_id (
          spread (get_or command.metadata []) (
            ("event_version", decimal (get_or command.event_version 1))
            ∷ ("source_service", command.source)
            ∷ [])))))

unfoldable pub request_of : ClientConfig → IngestCommand → Request
unfolding headers_of metadata_of codes
request_of config command = record {
  url = config.base_url ++ codes "/events";
  headers = headers_of config command;
  stream_id = command.stream_id;
  type = command.type;
  source = command.source;
  payload = command.payload;
  metadata = metadata_of command;
}

-- `response.ok`
unfoldable pub is_success : ℕ → Bool
is_success status = leb 200 status && leb status 299

unfoldable pub result_of : ClientConfig → Outcome → Result (Unit {0})
unfolding is_success decimal
result_of config (response status body) = throw_if (not (is_success status)) (
    error (record {
      template = "Event Streaming ingest returned {}: {}";
      values = decimal status ∷ body ∷ [];
    }))
result_of config aborted = fail (
    error (record {
      template = "Event Streaming ingest timed out after {}ms";
      values = decimal config.timeout_ms ∷ [];
    }))
result_of config (rejected e) = fail e

-- `EventStreamingHttpClient.ingest`
unfoldable pub ingest :
    {S : Type 0} → (Request → S → Outcome × S) → ClientConfig → IngestCommand → Action S (Unit {0})
unfolding request_of result_of
ingest fetch config command s = elim (is_truthy config.base_url) [
  | false ↦ (
    fail (error (record { template = "EVENT_STREAMING_BASE_URL is not configured"; values = [] })),
    s,
  )
  | true ↦ let (outcome, s') = fetch (request_of config command) s in (result_of config outcome, s')
]
