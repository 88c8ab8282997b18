-- ===== src/PrunePolicy/PullRequest.antt =====
-- internal/pullrequest/types.go: repositories, pull requests and provenance, with the fields that
-- are compared or reported, and the comparison of repository identities.
use kwt.Common.{
  ℕ, Bool, Option, List, ◌++◌, Text, codes, if◌then◌else◌, ◌=?◌, trim_space, to_lower, has_prefix,
  itoa,
}

pub data ErrorCode : Type 0 where
  authentication_failed repository_mismatch pull_request_not_found inaccessible_head : ErrorCode
  naming_conflict network_failure workspace_creation_failed : ErrorCode
  malformed_provider_response import_conflict invalid_pull_request_selector : ErrorCode
  unsupported_provider unsupported_git_version : ErrorCode

abbrev pub code_text : ErrorCode → Text
code_text authentication_failed = codes "authentication_failed"
code_text repository_mismatch = codes "repository_mismatch"
code_text pull_request_not_found = codes "pull_request_not_found"
code_text inaccessible_head = codes "inaccessible_head"
code_text naming_conflict = codes "naming_conflict"
code_text network_failure = codes "network_failure"
code_text workspace_creation_failed = codes "workspace_creation_failed"
code_text malformed_provider_response = codes "malformed_provider_response"
code_text import_conflict = codes "import_conflict"
code_text invalid_pull_request_selector = codes "invalid_pull_request_selector"
code_text unsupported_provider = codes "unsupported_provider"
code_text unsupported_git_version = codes "unsupported_git_version"

-- What `errors.As` finds in an error of the provider: a typed error, or none.
pub data ProviderError : Type 0 where
  typed : ErrorCode → Bool → ProviderError
  untyped : ProviderError

pub record Repository : Type 0 where
  pub provider : Text
  pub identity : Text
  pub host : Text
  pub owner : Text
  pub name : Text

pub record Project : Type 0 where
  pub identity : Text
  pub name : Text
  pub path : Text

pub record Branch : Type 0 where
  pub name : Text
  pub repository : Repository

-- A number that is not positive is 0.
pub record PullRequest : Type 0 where
  pub provider : Text
  pub repository : Repository
  pub number : ℕ
  pub url : Text
  pub source : Branch
  pub pr_head_sha : Text
  pub merged_at : Option ℕ

pub record Workspace : Type 0 where
  pub repository : Text
  pub branch : Text
  pub path : Text
  pub generation : Text

pub record Provenance : Type 0 where
  pub pull_request_id : Text
  pub provider : Text
  pub repository : Text
  pub repository_aliases : List Text
  pub number : ℕ
  pub head_sha : Text
  pub source_repo : Text
  pub source_branch : Text
  pub project : Project
  pub workspace : Workspace

unfoldable pub normalize_repository_identity : Text → Text
normalize_repository_identity identity =
    let trimmed = trim_space identity in
    if has_prefix (to_lower trimmed) (codes "github.com/") then to_lower trimmed else trimmed

unfoldable pub equal_repository_identity : Text → Text → Bool
unfolding normalize_repository_identity
equal_repository_identity left right =
    normalize_repository_identity left =? normalize_repository_identity right

unfoldable pub opaque_id : Text → ℕ → Text
unfolding normalize_repository_identity
opaque_id repository number =
    codes "github:" ++ (normalize_repository_identity repository ++ (codes "#" ++ itoa number))
