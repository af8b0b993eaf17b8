-- ===== src/Acquisition/Identity.antt =====
-- adapters/market-acquisition/journal.ts: the identities of pages, attempts, tokens and chains.
-- A digest is that of the platform's SHA-256; a throw is an `err` with the code's message.
pub mod Chain
use Prim.Native.String.{String}
use peas_engine.Prelude.{
  ℕ, ◌+◌, Bool, true, false, not, ◌&&◌, ◌||◌, List, [], ◌∷◌, Option, none, some, Result, ok, err,
  ◌>>=◌, ◌>>◌, guard, fail_if, ltb, leb, ◌==◌, str_eq, str_append, str_starts_with, codes, is_hash,
  is_hash_codes, is_empty, length, if◌then◌else◌,
}
use peas_engine.Json.{Json, str, obj, nat, end, field, max_safe}
use peas_engine.Digest.{Platform, framed_hash}
use peas_engine.Acquisition.Limits

abbrev pub no_token_hash : String
no_token_hash = "no-token"

abbrev pub terminal_token_hash : String
terminal_token_hash = "terminal"

abbrev pub genesis_hash : String
genesis_hash = "genesis"

-- assertSafeCount; every maximum is a safe integer.
abbrev pub assert_safe_count : ℕ → ℕ → String → Result (Unit {0})
assert_safe_count value maximum message = guard (leb value maximum) message

-- assertHash
abbrev pub assert_hash : String → String → Result (Unit {0})
assert_hash value message = guard (is_hash value) message

-- `left === right` on two tests.
abbrev pub iff : Bool → Bool → Bool
iff true b = b
iff false b = not b

abbrev is_lower : ℕ → Bool
is_lower c = leb b'a' c && leb c b'z'

-- The rest of `/^[a-z][a-z0-9]*1_[0-9a-f]{64}$/u` after its first letter; `one` says whether the
-- character before was `1`.
unfoldable pub id_tail : Bool → List ℕ → Bool
id_tail one [] = false
id_tail one (c ∷ cs) =
    let rest = id_tail (c == b'1') cs in
    if c == b'_'
    then one && is_hash_codes cs
    else (is_lower c || (leb b'0' c && leb c b'9')) && rest

-- PREFIXED_ID
unfoldable pub is_prefixed_id : List ℕ → Bool
unfolding id_tail
is_prefixed_id [] = false
is_prefixed_id (c ∷ cs) = is_lower c && id_tail false cs

-- assertPrefixedId
unfoldable pub assert_prefixed_id : String → String → String → Result (Unit {0})
unfolding is_prefixed_id
assert_prefixed_id value prefix message =
    guard (str_starts_with value prefix && is_prefixed_id (codes value)) message

pub record AttemptIds : Type 0 where
  pub attempt_id : String
  pub retrieval_attempt_id : String

pub record ContinuationBindingInput : Type 0 where
  pub preceding_market_acquisition_id : String
  pub request_identity_hash : String
  pub preceding_logical_page_identity_hash : String
  pub preceding_page_ordinal : ℕ
  pub preceding_artifact_observation_id : String
  pub preceding_artifact_digest : String
  pub preceding_page_chain_hash : String
  pub next_page_ordinal : ℕ
  pub next_token_hash : String

-- Omit<PageChainInput, "nextTokenHash">
pub record PageChainInput : Type 0 where
  pub prior_page_chain_hash : String
  pub market_acquisition_id : String
  pub request_identity_hash : String
  pub logical_page_identity_hash : String
  pub page_ordinal : ℕ
  pub artifact_observation_id : String
  pub artifact_digest : String
  pub artifact_size_bytes : ℕ
  pub artifact_observation_hash : String
  pub artifact_content_id : String
  pub raw_artifact_id : String
  pub current_token_hash : String
  pub page_record_count : ℕ
  pub cumulative_successful_pages : ℕ
  pub cumulative_verified_bytes : ℕ
  pub cumulative_records : ℕ
  pub cumulative_normalized_facts : ℕ
  pub cumulative_attempts : ℕ

pub record PageAdmission : Type 0 where
  pub page_chain_hash : String
  pub next_token_hash : String
  pub next_continuation_binding_hash : Option String

module _ (p : Platform) where
  -- derivePrivateTokenHash
  unfoldable pub derive_private_token_hash : String → Result String
  derive_private_token_hash material = do
    fail_if (is_empty material || ltb Limits.opaque_page_token_bytes (length (p.utf8 material)))
        "private-token-invalid"
    framed_hash p "peas/market-acquisition-private-token/v1"
        (obj (field "opaqueTokenMaterial" (str material) end))

  -- deriveLogicalPageIdentityHash
  unfoldable pub derive_logical_page_identity_hash : String → ℕ → String → Result String
  derive_logical_page_identity_hash request page_ordinal token = do
    assert_hash request "request-identity-invalid"
    assert_safe_count page_ordinal max_safe "page-ordinal-invalid"
    fail_if (not (str_eq token no_token_hash) && not (is_hash token)) "current-token-hash-invalid"
    fail_if (not (iff (page_ordinal == 0) (str_eq token no_token_hash))) "first-page-token-invalid"
    framed_hash p "peas/market-acquisition-logical-page/v1" (
        obj (
          field "requestIdentityHash" (str request)
            (field "pageOrdinal" (nat page_ordinal) (field "currentTokenHash" (str token) end))))

  -- deriveAttemptControlIdentities
  unfoldable pub derive_attempt_control_identities : String → ℕ → String → Result AttemptIds
  derive_attempt_control_identities page attempt_ordinal nonce = do
    assert_hash page "logical-page-identity-invalid"
    assert_safe_count attempt_ordinal 2 "attempt-ordinal-invalid"
    fail_if (is_empty nonce || ltb 256 (length (p.utf8 nonce))) "run-session-nonce-invalid"
    digest ← framed_hash p "peas/market-acquisition-attempt-control/v1" (
        obj (
          field "logicalPageIdentityHash" (str page) (
            field "attemptOrdinal" (nat attempt_ordinal)
              (field "runSessionNonce" (str nonce) end))))
    ok (record {
      attempt_id = str_append "mat1_" digest;
      retrieval_attempt_id = str_append "rat1_" digest;
    })

  -- deriveContinuationBindingHash
  unfoldable pub derive_continuation_binding_hash : ContinuationBindingInput → Result String
  unfolding assert_prefixed_id
  derive_continuation_binding_hash i = do
    assert_prefixed_id i.preceding_market_acquisition_id "maq1_" "market-acquisition-id-invalid"
    assert_hash i.request_identity_hash "request-identity-invalid"
    assert_hash i.preceding_logical_page_identity_hash "logical-page-identity-invalid"
    assert_safe_count i.preceding_page_ordinal max_safe "preceding-page-ordinal-invalid"
    assert_hash i.preceding_artifact_observation_id "artifact-observation-id-invalid"
    assert_hash i.preceding_artifact_digest "artifact-digest-invalid"
    assert_hash i.preceding_page_chain_hash "page-chain-hash-invalid"
    guard (i.next_page_ordinal == i.preceding_page_ordinal + 1) "continuation-page-gap"
    assert_hash i.next_token_hash "next-token-hash-invalid"
    framed_hash p "peas/market-acquisition-continuation-binding/v1" (
        obj (
          field "precedingMarketAcquisitionId" (str i.preceding_market_acquisition_id) (
            field "requestIdentityHash" (str i.request_identity_hash) (
              field "precedingLogicalPageIdentityHash" (str i.preceding_logical_page_identity_hash)
                (field "precedingPageOrdinal" (nat i.preceding_page_ordinal) (
                  field "precedingArtifactObservationId" (str i.preceding_artifact_observation_id) (
                    field "precedingArtifactDigest" (str i.preceding_artifact_digest) (
                      field "precedingPageChainHash" (str i.preceding_page_chain_hash) (
                        field "nextPageOrdinal" (nat i.next_page_ordinal)
                          (field "nextTokenHash" (str i.next_token_hash) end))))))))))
