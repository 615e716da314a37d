-- ===== src/Results/Observed.antt =====
-- What a provider's observation has: `verifiedEvidence` and `causalKey` of src/external-results.mjs. The
-- digest of an identity comes from Node, and is an argument.
use Prim.Native.String.{◌++◌ as join}
use ai_sdlc_framework.Prelude.{
  Bool, false, ◌&&◌, ◌||◌, Option, none, some, if◌then◌else◌, same_opt, truthy, leb, String,
}
use ai_sdlc_framework.Evidence.Texts.{is_sha256, units}
use ai_sdlc_framework.Operations.Records.{OperationStatus}

pub record ResultEvidence : Type 0 where
  pub ref : Option String
  pub is_verified : Bool
  pub sha256 : Option String
  pub immutable_version : Option String
  pub retrieval_context : Option String

-- `nonempty(value) && value.length <= 512`
abbrev pub is_reference : Option String → Bool
is_reference none = false
is_reference (some s) = truthy (some s) && leb (units s) 512

-- `verifiedEvidence`
unfoldable pub verified_evidence : Option ResultEvidence → Bool
verified_evidence none = false
verified_evidence (some e) =
    is_reference e.ref
    && e.is_verified
    && (is_sha256 e.sha256
        || (is_reference e.immutable_version && is_reference e.retrieval_context))

pub data CausalKind : Type 0 where
  host_call provider_request provider_idempotency : CausalKind

pub record CausalProof : Type 0 where
  pub kind : CausalKind
  pub dispatch_id : Option String
  pub result_id : Option String
  pub is_supported : Bool
  pub host_call_id : Option String
  pub provider_request_id : Option String
  pub provider_idempotency_token : Option String
  pub is_accepted : Bool

pub record Dispatch : Type 0 where
  pub id : String
  pub status : OperationStatus
  pub host_call_id : Option String
  pub host_call_supported : Bool
  pub provider_request_supported : Bool
  pub provider_request_id : Option String
  pub provider_idempotency_token : Option String

-- A key of an identity that is there, is not empty, and is the one of the dispatch.
abbrev pub keyed : (String → String) → String → Bool → Option String → Option String → Option String
keyed digest name allowed none expected = none
keyed digest name allowed (some i) expected =
    if allowed && truthy expected && same_opt (some i) expected
    then some (join name (digest i))
    else none

abbrev pub proof_key : (String → String) → Dispatch → CausalProof → CausalKind → Option String
proof_key digest d p host_call =
    keyed digest "host:" d.host_call_supported p.host_call_id d.host_call_id
proof_key digest d p provider_request =
    keyed digest "request:" (d.provider_request_supported && p.is_accepted) p.provider_request_id
      d.provider_request_id
proof_key digest d p provider_idempotency =
    keyed digest "token:" (d.provider_request_supported && p.is_accepted)
      p.provider_idempotency_token d.provider_idempotency_token

-- `causalKey`, with the result's identity at the provider
unfoldable pub find_causal_key :
    (String → String) → Dispatch → Option String → Option CausalProof → Option String
find_causal_key digest d result none = none
find_causal_key digest d result (some p) =
    if same_opt p.dispatch_id (some d.id)
      && same_opt p.result_id result
      && truthy result
      && p.is_supported
    then proof_key digest d p p.kind
    else none
