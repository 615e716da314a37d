-- ===== src/PullRequests/Observations.antt =====
-- `currentPrObservation` and `currentObservation` of src/pr.mjs. The identity key of a pull request is a
-- digest, and an argument; the times of observations are texts of one format, which compare as numbers.
use ai_sdlc_framework.Prelude.{
  Bool, false, not, ◌&&◌, ◌||◌, List, [], ◌∷◌, Option, none, some, if◌then◌else◌, same, same_opt,
  any, leb, String,
}
use ai_sdlc_framework.PullRequests.Records.{PullRequest}

-- The last of the greatest sequence, as a stable sort puts it.
abbrev pub later_of : PullRequest → Option PullRequest → PullRequest
later_of p none = p
later_of p (some q) = if leb p.sequence q.sequence then q else p

-- `currentPrObservation`
unfoldable pub current_pr_observation :
    (PullRequest → String) → List PullRequest → PullRequest → Option PullRequest
current_pr_observation key [] p = none
current_pr_observation key (q ∷ qs) p =
    let rest = current_pr_observation key qs p in
    if q.is_observation && same (key q) (key p) then some (later_of q rest) else rest

abbrev pub is_named : Option PullRequest → String → Bool
is_named none i = false
is_named (some p) i = same p.id i

-- A later observation of the same pull request from another checkout.
abbrev pub moves_checkout : PullRequest → PullRequest → Bool
moves_checkout p q =
    q.is_observation
    && not (same q.id p.id)
    && same_opt q.repository_id p.repository_id
    && same_opt q.provider p.provider
    && same_opt q.connection p.connection
    && same_opt q.repository_ref p.repository_ref
    && same_opt q.pull_request_ref p.pull_request_ref
    && leb p.observed_at q.observed_at
    && (not (same_opt q.local_repository_path p.local_repository_path)
        || not (same_opt q.remote_repository_url p.remote_repository_url))

-- `currentObservation`
unfoldable pub current_observation : (PullRequest → String) → List PullRequest → PullRequest → Bool
unfolding current_pr_observation
current_observation key ps p =
    p.is_observation
    && is_named (current_pr_observation key ps p) p.id
    && not (any (moves_checkout p) ps)
