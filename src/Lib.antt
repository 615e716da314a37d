-- ===== src/Lib.antt =====
-- The program is a governance framework for software work that agents do: every decision of the
-- user is an immutable record, every action is checked against the decisions in force, commands
-- are executed only when they read as one literal argument vector, and validation runs in a
-- bounded pool of workers.
--
-- Prelude, Result. Shared names, Boolean tests, lists and strings; `SdlcError` and `requireThat` of
-- src/core.mjs as the result type `Result`. A field that may be undefined is an `Option`.
--
-- Shell (src/platform.mjs, src/core.mjs). `shell_words`, `power_shell_words`, `cmd_words` and
-- `command_words` are the splitters `shellWords`, `powerShellWords`, `cmdWords` and `commandWords`.
-- The loop that the three share is `scan` of Shell/Scan, and a function `..._step` is the body of one
-- of them, with the next character where the code looks ahead. A text is a list of UTF-16 code units.
-- `shell_argument` and `detail_command` of Shell/Quote print commands; the platform is an argument.
-- Shell/Lines has the induction over a printed line, which each splitter's reading lemmas fill
-- (Shell/BashLines, Shell/PowerShellLines).
--
-- Scheduling (scripts/test-scheduling.mjs). Scheduling/Workers is the worker budget. Scheduling/Pool
-- is `runValidationReadyPool`: `Pool` has its variables, `admission` is one pass of the outer loop up
-- to the wait, `settle` is what the callbacks of one execution do together, `drain` is the outer loop.
-- What the event loop decides (the abort signal, which execution ends first, and how) is an argument,
-- and Scheduling/PoolRuns has the relation of all runs. `drain` runs on fuel: one turn more than there
-- are groups is enough, and that is proved. The two callbacks of one execution that JavaScript runs in
-- separate microtasks are one step here.
--
-- Authority (src/authority.mjs, src/current-evidence.mjs). Authority/Records has the records and
-- their fields; Authority/Active is `activeEvents`; Authority/Scope is `matchesScope`,
-- `findAuthority`, `applicableOverride` and `publicationDestination`; Authority/Permission is
-- `permissionMatches`, `phaseAuthority`, `currentCycle`, `boundToCycle` and `assurancePending`. The
-- digest of a URL comes from Node's crypto module and is a parameter; the clock is a number in the
-- context.
--
-- Policy (src/policy.mjs). Policy/Environment is `resolveActionEnvironment`; a JavaScript set is a
-- list in the order of insertion. Policy/Request has what `evaluatePolicy` reads, Policy/Rules and
-- Policy/Delivery its rules in their order, each a `Check` with the name and the condition that the
-- code passes to `rule`, and Policy/Evaluate the decision. What `stagePassed`, `reviewPassed`,
-- `hasStageCompletion`, `publicationAuthority`, `evaluateReadiness`, `checkTestStart`,
-- `currentArtifact` and `currentDeployment` answer is the record `Answers`, an argument. The action
-- has passed `validateAction`. The environment is always resolved from the action: the option
-- `environmentResolution`, with which `prepareOperation` passes on a resolution that it has made before,
-- is left out. Policy/Staging is `effectiveStagingExecution` of src/staging.mjs, and
-- Policy/StagingOverride has what an override of it must be.
--
-- Gate (src/gate.mjs). Gate/Git reads git command lines: `gitInvocation`, `requireIndexOnlyCommit`,
-- `symbolicRefReadOnly`, `unboundReadOnlyShell`. Gate/Push is `classifyPush` up to its calls of git,
-- with the branch of the bound worktree as an argument.
--
-- Summary (src/core.mjs). Summary/Page is `summaryPage`; whether a page fits in the working set is a
-- parameter, since its size is that of the text that Node's JSON prints. `shrink` is the loop that
-- halves the number of items; one round more than the limit is fuel enough, and that is proved.
--
-- Operations (src/operations.mjs, src/validation-evidence.mjs). Operations/Records has the operation,
-- the fields of a cycle that operations change, and the input of a report. Operations/Recording is
-- `recordOperation` on the operation; the adapter of the store that verifies an observation is outside
-- the repository, and the checked result is an argument, which Results fills. Operations/Dispatch is `nextDeploymentSequence`,
-- the environment effects and `resetCycleResults`; Operations/Boundary is the claim and the boundary of
-- `dispatchOperationInTransaction`, with the verdicts of its checks as an argument, and
-- `repairDeploymentProjection`; Operations/Reservations is `reserveOnceAuthorities`, with the events that
-- authorize as an argument. `dispatchOperationInTransaction` also compares the stamp of the candidate with
-- the one of the atomic claim, fails where `reserveOnceAuthorities` does, and resets the result of a test
-- operation; these three are left out of the claim. Operations/Lifecycle is the abstract lifecycle of an operation, which
-- Operations/Ledger shows that reports follow and Operations/Runs that all runs follow.
--
-- Evidence (src/current-evidence.mjs, src/provider-adapters.mjs). Evidence/Identity has the execution
-- identities and their validation, Evidence/Records the fields that the currency of evidence reads,
-- Evidence/Current and Evidence/Deployment the functions from `currentSource` to `currentDeployment`.
-- The identities that are bound to the records of a transaction are a field of `Records`.
--
-- PullRequests (src/pr.mjs). PullRequests/Observations is `currentObservation`, PullRequests/Readiness
-- is `evaluateReadiness`: each `gaps.push` under its condition is a piece of the list of gaps. The key
-- of a pull request and that of a monitor's association are digests, and arguments. The currency of the
-- artifact is that of Evidence.
--
-- History (src/validation-evidence.mjs). History/Reduce is `reduceTestHistory`, with the source time and
-- the eligibility of an observation, its digest and the canonical text that breaks ties as fields.
-- Times are natural numbers here and in PullRequests: a date before 1970 and one that cannot be read where
-- the code has checked it before are left out. History/Newest compares its first loop with a filter, History/Worst has what it selects.
--
-- Results (src/external-results.mjs). Results/Observed is `verifiedEvidence` and `causalKey`;
-- Results/Records has what `validateOperationResult` reads and returns, and Results/Validate is that
-- function, the replay of an earlier terminal result included; what the checks of the result's shape, fields and of its target find is the record `Findings`, an
-- argument. Results/Unused says which earlier results stand in the way of a new one, Results/Founded what a new
-- result is worth, and Results/Sound joins the function to the ledger.
--
-- Not modelled: the messages of errors, the file system, git and the network, the rest of the command
-- gate, the preparation and pruning of operations and the effects of a test's result on its cycle, the
-- record store (src/store.mjs), the retained objects of validation evidence, monitors, recovery,
-- coverage, the installer, packaging and release scripts, and the launcher in Go.
pub mod Prelude
pub mod Result
pub mod Shell
pub mod Scheduling
pub mod Authority
pub mod Policy
pub mod Evidence
pub mod Gate
pub mod Summary
pub mod Operations
pub mod PullRequests
pub mod History
pub mod Results
