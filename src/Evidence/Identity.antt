-- ===== src/Evidence/Identity.antt =====
-- The identity of an execution: `validateExecutionIdentity`, `validateCurrentExecutionIdentity`,
-- `validateExecutionResultIdentity` and `sameExecutionIdentity` of src/provider-adapters.mjs. The first
-- three return a copy of their input.
use Prim.Native.String.{◌++◌ as join}
use ai_sdlc_framework.Prelude.{
  Bool, true, false, not, ◌&&◌, ◌||◌, Option, none, some, if◌then◌else◌, same, same_opt, is_defined,
  String,
}
use ai_sdlc_framework.Result.{Result, ok, input, evidence, require_that, ◌>>=◌, ◌>>◌}
use ai_sdlc_framework.Evidence.Texts.{is_text, is_trimmed}

pub data AttemptKind : Type 0 where
  known not_applicable unknown : AttemptKind

abbrev pub is_known : Option AttemptKind → Bool
is_known none = false
is_known (some known) = true
is_known (some not_applicable) = false
is_known (some unknown) = false

abbrev pub is_not_applicable : Option AttemptKind → Bool
is_not_applicable none = false
is_not_applicable (some known) = false
is_not_applicable (some not_applicable) = true
is_not_applicable (some unknown) = false

abbrev pub is_unknown : Option AttemptKind → Bool
is_unknown none = false
is_unknown (some known) = false
is_unknown (some not_applicable) = false
is_unknown (some unknown) = true

pub record ExecutionIdentity : Type 0 where
  pub provider : String
  pub connection : String
  pub scope_ref : String
  pub definition_ref : Option String
  pub execution_ref : String
  pub attempt_ref : Option String
  pub attempt_kind : Option AttemptKind

abbrev pub opt_text : Option String → Bool
opt_text none = true
opt_text (some s) = is_text s

abbrev pub opt_trimmed : Option String → Bool
opt_trimmed none = true
opt_trimmed (some s) = is_trimmed s

-- `validateExecutionIdentity`
unfoldable pub validate_identity : ExecutionIdentity → Result ExecutionIdentity
validate_identity i = do
  require_that
      (is_text i.provider && is_text i.connection && is_text i.scope_ref && is_text i.execution_ref)
      input
  require_that (opt_text i.definition_ref && opt_text i.attempt_ref) input
  require_that
      (not (is_defined i.attempt_kind)
        || (if is_known i.attempt_kind
            then is_defined i.attempt_ref
            else not (is_defined i.attempt_ref)))
      input
  ok i

-- `Object.values(identity).every(value => value === value.trim())`
abbrev pub is_normalized : ExecutionIdentity → Bool
is_normalized i =
    is_trimmed i.provider
    && is_trimmed i.connection
    && is_trimmed i.scope_ref
    && opt_trimmed i.definition_ref
    && is_trimmed i.execution_ref
    && opt_trimmed i.attempt_ref

-- The attempt kinds of each capability of an adapter.
abbrev pub fits_capability : Option String → Option AttemptKind → Bool
fits_capability capability kind =
    (same_opt capability (some "none") && is_not_applicable kind)
    || (same_opt capability (some "distinct") && (is_known kind || is_unknown kind))
    || (same_opt capability (some "unknown") && is_unknown kind)

abbrev pub is_capability : Option String → Bool
is_capability c =
    same_opt c (some "distinct") || same_opt c (some "none") || same_opt c (some "unknown")

-- `validateCurrentExecutionIdentity`
unfoldable pub validate_current_identity :
    ExecutionIdentity → Option String → Result ExecutionIdentity
unfolding validate_identity
validate_current_identity i capability = do
  checked ← validate_identity i
  require_that (is_normalized checked) evidence
  require_that
      (not (is_known checked.attempt_kind)
        || not (
            same_opt checked.attempt_ref (some "unknown")
            || same_opt checked.attempt_ref (some "not-applicable")))
      evidence
  require_that (is_capability capability) input
  require_that (is_defined checked.attempt_kind) evidence
  require_that (fits_capability capability checked.attempt_kind) evidence
  ok checked

-- The fields of a result proof that name its execution.
pub record ExecutionProof : Type 0 where
  pub execution_identity : Option ExecutionIdentity
  pub attempt_capability : Option String
  pub attempt_ref : Option String
  pub execution_ref : Option String
  pub provider : Option String
  pub pipeline : Option String
  pub provider_result_id : Option String

-- What the caller expects.
pub record ExpectedExecution : Type 0 where
  pub provider : Option String
  pub connection : Option String
  pub scope_ref : Option String
  pub definition_ref : Option String
  pub attempt_capability : Option String

abbrev pub no_expectation : ExpectedExecution
no_expectation = record {
  provider = none;
  connection = none;
  scope_ref = none;
  definition_ref = none;
  attempt_capability = none;
}

-- `expected === undefined || actual === expected`
abbrev pub unset_or : Option String → Option String → Bool
unset_or none actual = true
unset_or (some e) actual = same_opt actual (some e)

-- `${executionRef}:${attemptRef}` of strings that are defined
abbrev pub run_id : Option String → Option String → Option String
run_id none a = none
run_id (some e) none = none
run_id (some e) (some a) = some (join e (join ":" a))

abbrev pub attempt_proven : ExecutionIdentity → ExecutionProof → Bool
attempt_proven i p =
    if is_known i.attempt_kind
    then same_opt i.attempt_ref p.attempt_ref && same_opt p.attempt_capability (some "distinct")
    else (is_not_applicable i.attempt_kind
        && same_opt p.attempt_capability (some "none")
        && same_opt p.attempt_ref (some "not-applicable"))

-- The agreement of an identity with the proof that it comes from.
unfoldable pub agrees_with_proof : ExecutionIdentity → ExecutionProof → ExpectedExecution → Bool
agrees_with_proof i p e =
    unset_or e.attempt_capability p.attempt_capability
    && unset_or p.provider (some i.provider)
    && unset_or p.pipeline i.definition_ref
    && same_opt (some i.execution_ref) p.execution_ref
    && attempt_proven i p
    && unset_or p.provider_result_id (run_id p.execution_ref p.attempt_ref)

-- One field of the loop over the expected fields.
unfoldable pub expect_field : Option String → Option String → Result (Unit {0})
expect_field expected actual = do
  require_that (opt_text expected) input
  require_that (unset_or expected actual) evidence

-- `validateExecutionResultIdentity`, for a proof that has an identity
unfoldable pub validate_result_identity :
    ExecutionIdentity → ExecutionProof → ExpectedExecution → Result ExecutionIdentity
unfolding validate_current_identity
validate_result_identity i p e = do
  checked ← validate_current_identity i p.attempt_capability
  expect_field e.provider (some checked.provider)
  expect_field e.connection (some checked.connection)
  expect_field e.scope_ref (some checked.scope_ref)
  expect_field e.definition_ref checked.definition_ref
  require_that (agrees_with_proof checked p e) evidence
  ok checked

abbrev pub same_kind : Option AttemptKind → Option AttemptKind → Bool
same_kind a b =
    (is_known a && is_known b)
    || (is_not_applicable a && is_not_applicable b)
    || (is_unknown a && is_unknown b)
    || (not (is_defined a) && not (is_defined b))

-- `sameExecutionIdentity` of identities that are valid: the digests of their fields agree.
unfoldable pub same_identity : ExecutionIdentity → ExecutionIdentity → Bool
same_identity a b =
    same a.provider b.provider
    && same a.connection b.connection
    && same a.scope_ref b.scope_ref
    && same_opt a.definition_ref b.definition_ref
    && same a.execution_ref b.execution_ref
    && same_opt a.attempt_ref b.attempt_ref
    && same_kind a.attempt_kind b.attempt_kind
