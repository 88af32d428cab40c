-- ===== src/Events/Ingest/Acceptance.antt =====
-- When event-streaming-http.client.ts counts an event as ingested.
use multi_tenant_saa_s_platf.Base.{
  ℕ, ◌≡◌, refl, ◌↔◌, inl, inr, true, Text, ok, arith, is_truthy, Bool-cases,
}
use multi_tenant_saa_s_platf.Events.Ingest.{
  IngestCommand, ClientConfig, Outcome, response, aborted, rejected, Request, request_of,
  is_success, result_of, ingest,
}

result_of_iff :
    (config : ClientConfig) (outcome : Outcome)
    → (result_of config outcome ≡ ok tt) ↔ (
        (status : ℕ) × (body : Text) × (outcome ≡ response status body)
        × (is_success status ≡ true))
unfolding result_of
result_of_iff config (response status body) =
    (λ h. (status, body, refl, ground arith), λ (s, b, e, good). ground arith)
result_of_iff config aborted = (λ h. ground arith, λ (s, b, e, good). ground arith)
result_of_iff config (rejected x) = (λ h. ground arith, λ (s, b, e, good). ground arith)

-- `ingest` succeeds exactly when a base URL is configured and the one request that it sends is
-- answered with a status from 200 to 299; without a base URL it sends none.
pub ingest_iff :
    {S : Type 0} (fetch : Request → S → Outcome × S) (config : ClientConfig)
    (command : IngestCommand) (s s' : S)
    → (ingest fetch config command s ≡ (ok tt, s')) ↔ (
        (is_truthy config.base_url ≡ true)
        × (status : ℕ) × (body : Text) × (fetch (request_of config command) s
            ≡ (response status body, s'))
        × (is_success status ≡ true))
unfolding ingest
ingest_iff fetch config command s s' =
    let (out, back) = result_of_iff config (fetch (request_of config command) s).0 in
    elim (Bool-cases (is_truthy config.base_url)) [
      | inl set ↦ (
        λ h.
            let (status, body, e, good) = out (ground arith) in
            (set, status, body, ground arith, good),
        λ (_, status, body, e, good). ground (arith, back (status, body, ground arith, good)),
      )
      | inr unset ↦ ground arith
    ]
