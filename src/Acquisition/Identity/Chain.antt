-- ===== src/Acquisition/Identity/Chain.antt =====
-- adapters/market-acquisition/journal.ts: the chain of admitted pages.
use peas_engine.Prelude.{
  ◌+◌, String, Option, none, some, Result, ok, ◌>>=◌, ◌>>◌, guard, ◌==◌, str_eq, if◌then◌else◌,
}
use peas_engine.Json.{Fields, str, obj, nat, end, field}
use peas_engine.Digest.{Platform, framed_hash}
use peas_engine.Acquisition.Limits
use peas_engine.Acquisition.Identity.{
  no_token_hash, terminal_token_hash, genesis_hash, assert_safe_count, assert_hash,
  assert_prefixed_id, PageChainInput, PageAdmission, derive_private_token_hash,
  derive_continuation_binding_hash,
}

-- `if (value !== sentinel) assertHash(value, …)`
abbrev assert_hash_unless : String → String → String → Result (Unit {0})
assert_hash_unless sentinel value message =
    if str_eq value sentinel then ok tt else assert_hash value message

-- The assertions of derivePageChainHash.
unfoldable pub check_page_chain : PageChainInput → String → Result (Unit {0})
unfolding assert_prefixed_id
check_page_chain i next_token = do
  assert_hash_unless genesis_hash i.prior_page_chain_hash "prior-page-chain-hash-invalid"
  assert_prefixed_id i.market_acquisition_id "maq1_" "market-acquisition-id-invalid"
  assert_hash i.request_identity_hash "request-identity-invalid"
  assert_hash i.logical_page_identity_hash "logical-page-identity-invalid"
  assert_safe_count i.page_ordinal 15 "page-ordinal-invalid"
  assert_hash i.artifact_observation_id "artifact-observation-id-invalid"
  assert_hash i.artifact_digest "artifact-digest-invalid"
  assert_safe_count i.artifact_size_bytes Limits.raw_artifact_bytes "artifact-size-invalid"
  assert_hash i.artifact_observation_hash "artifact-observation-hash-invalid"
  assert_prefixed_id i.artifact_content_id "mac1_" "artifact-content-id-invalid"
  assert_prefixed_id i.raw_artifact_id "mar1_" "raw-artifact-id-invalid"
  assert_hash_unless no_token_hash i.current_token_hash "current-token-invalid"
  assert_hash_unless terminal_token_hash next_token "next-token-invalid"
  assert_safe_count i.page_record_count Limits.records_per_page "page-record-count-invalid"
  assert_safe_count i.cumulative_successful_pages Limits.successful_pages "cumulative-pages-invalid"
  assert_safe_count i.cumulative_verified_bytes Limits.aggregate_verified_bytes
      "cumulative-bytes-invalid"
  assert_safe_count i.cumulative_records 160000 "cumulative-records-invalid"
  guard (i.cumulative_normalized_facts == 0) "page-chain-normalized-facts-invalid"
  assert_safe_count i.cumulative_attempts Limits.attempts_per_acquisition
      "cumulative-attempts-invalid"

-- The preimage of derivePageChainHash.
unfoldable pub page_chain_fields : PageChainInput → String → Fields
page_chain_fields i next_token = field "priorPageChainHash" (str i.prior_page_chain_hash) (
    field "marketAcquisitionId" (str i.market_acquisition_id) (
      field "requestIdentityHash" (str i.request_identity_hash) (
        field "logicalPageIdentityHash" (str i.logical_page_identity_hash) (
          field "pageOrdinal" (nat i.page_ordinal) (
            field "artifactObservationId" (str i.artifact_observation_id) (
              field "artifactDigest" (str i.artifact_digest) (
                field "artifactSizeBytes" (nat i.artifact_size_bytes) (
                  field "artifactObservationHash" (str i.artifact_observation_hash) (
                    field "artifactContentId" (str i.artifact_content_id)
                      (rest_fields i next_token))))))))))
  where
    rest_fields : PageChainInput → String → Fields
    rest_fields j token = field "rawArtifactId" (str j.raw_artifact_id) (
        field "currentTokenHash" (str j.current_token_hash) (
          field "nextTokenHash" (str token) (
            field "pageRecordCount" (nat j.page_record_count) (
              field "cumulativeSuccessfulPages" (nat j.cumulative_successful_pages) (
                field "cumulativeVerifiedBytes" (nat j.cumulative_verified_bytes) (
                  field "cumulativeRecords" (nat j.cumulative_records) (
                    field "cumulativeNormalizedFacts" (nat j.cumulative_normalized_facts)
                      (field "cumulativeAttempts" (nat j.cumulative_attempts) end))))))))

module _ (p : Platform) where
  -- derivePageChainHash
  unfoldable pub derive_page_chain_hash : PageChainInput → String → Result String
  derive_page_chain_hash i next_token = do
    check_page_chain i next_token
    framed_hash p "peas/market-acquisition-page-chain/v1" (obj (page_chain_fields i next_token))

  -- The binding of the next page, once the page's chain hash is known.
  unfoldable pub binding_of : PageChainInput → String → String → Result String
  binding_of i chain token = derive_continuation_binding_hash p (record {
    preceding_market_acquisition_id = i.market_acquisition_id;
    request_identity_hash = i.request_identity_hash;
    preceding_logical_page_identity_hash = i.logical_page_identity_hash;
    preceding_page_ordinal = i.page_ordinal;
    preceding_artifact_observation_id = i.artifact_observation_id;
    preceding_artifact_digest = i.artifact_digest;
    preceding_page_chain_hash = chain;
    next_page_ordinal = i.page_ordinal + 1;
    next_token_hash = token;
  })

  -- planPageAdmission
  unfoldable pub plan_page_admission : PageChainInput → Option String → Result PageAdmission
  plan_page_admission i none = do
    chain ← derive_page_chain_hash i terminal_token_hash
    ok (record {
      page_chain_hash = chain;
      next_token_hash = terminal_token_hash;
      next_continuation_binding_hash = none;
    })
  plan_page_admission i (some material) = do
    token ← derive_private_token_hash p material
    chain ← derive_page_chain_hash i token
    binding ← binding_of i chain token
    ok (record {
      page_chain_hash = chain;
      next_token_hash = token;
      next_continuation_binding_hash = some binding;
    })
