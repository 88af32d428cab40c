-- ===== src/Http/Errors.antt =====
-- common/filters/domain-exception.filter.ts, and the exceptions that are no `DomainException`, which
-- the filter does not catch.
use multi_tenant_saa_s_platf.Base.{
  ℕ, ◌≤◌, ◌<◌, ◌≡◌, ◌↔◌, Bool, true, false, Option, none, some, List, [], ◌∷◌, Text, codes, String,
  Exception, not_found, conflict, unauthorized, forbidden, validation, error, Message, arith,
}

pub record ErrorResponse : Type 0 where
  pub status_code : ℕ
  pub code : String
  pub message : Message
  pub correlation_id : Option Text
  pub violations : Option (List (String × List String))

-- Whether the class extends `DomainException`, which is what the filter is registered for.
abbrev pub is_domain_exception : Exception → Bool
is_domain_exception (error _) = false
is_domain_exception _ = true

-- The `code` of each class; a plain error has none.
abbrev pub code_of : Exception → String
code_of (not_found _ _) = "NOT_FOUND"
code_of (conflict _) = "CONFLICT"
code_of (unauthorized _) = "UNAUTHORIZED"
code_of (forbidden _) = "FORBIDDEN"
code_of (validation _) = "VALIDATION_ERROR"
code_of (error _) = ""

-- The message that each constructor hands to `Error`.
abbrev pub message_of : Exception → Message
message_of (not_found entity id) = record {
  template = "{} with id '{}' was not found";
  values = codes entity ∷ id ∷ [];
}
message_of (conflict m) = m
message_of (unauthorized m) = m
message_of (forbidden m) = m
message_of (validation _) = record { template = "Validation failed"; values = [] }
message_of (error m) = m

-- `resolveHttpStatus`
unfoldable pub resolve_http_status : Exception → ℕ
resolve_http_status (not_found _ _) = 404
resolve_http_status (conflict _) = 409
resolve_http_status (unauthorized _) = 401
resolve_http_status (forbidden _) = 403
resolve_http_status (validation _) = 422
resolve_http_status _ = 500

abbrev pub violations_of : Exception → Option (List (String × List String))
violations_of (validation v) = some v
violations_of _ = none

-- `DomainExceptionFilter.catch`: the body that is sent
unfoldable pub respond : Exception → Option Text → ErrorResponse
unfolding resolve_http_status
respond e correlation_id = record {
  status_code = resolve_http_status e;
  code = code_of e;
  message = message_of e;
  correlation_id = correlation_id;
  violations = violations_of e;
}

-- The answer to a caught exception is a client error, never 500, carries the request's correlation
-- id, and carries violations exactly with the status 422. Two exceptions of one status have one code.
pub respond_client_error :
    (e f : Exception) (correlation_id : Option Text)
    → is_domain_exception e ≡ true
    → is_domain_exception f ≡ true
    → (400 ≤ (respond e correlation_id).status_code)
      × ((respond e correlation_id).status_code < 500)
      × ((respond e correlation_id).correlation_id ≡ correlation_id)
      × (((respond e correlation_id).violations ≡ none)
          ↔ ¬ ((respond e correlation_id).status_code ≡ 422))
      × ((respond e correlation_id).status_code ≡ (respond f correlation_id).status_code
          → (respond e correlation_id).code ≡ (respond f correlation_id).code)
unfolding respond
respond_client_error e f correlation_id h k = ground arith
