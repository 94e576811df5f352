-- ===== src/GitHub.antt =====
-- server/github_client.py: what the engine asks of GitHub, and what it gets back.
pub mod Retry
pub mod Client
use terramate_api_wrapper.Base.{ℕ, String, List}
use terramate_api_wrapper.Framework.{FileEdit}

-- The arguments of `GitHubClient.open_pull_request`.
pub record PullRequest : Type 0 where
  pub branch_name : String
  pub base_branch : String
  pub title : String
  pub body : String
  pub edits : List FileEdit

pub record PullRequestRef : Type 0 where
  pub number : ℕ
  pub url : String
