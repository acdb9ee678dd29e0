-- ===== src/Api/Intake/Tests.antt =====
-- A manual trigger and two webhooks, with a channel that has room for one build.
use build_system.Prelude.{
  ℕ, ◌≡◌, refl, true, false, List, [], ◌∷◌, String, Option, none, some, arith,
}
use build_system.Prelude.Text.{codes}
use build_system.Models.Project.{Project}
use build_system.Db.Samples.{remote_project}
use build_system.Db.Queue.{find_project}
use build_system.Poller.{short}
use build_system.Api.Intake.{
  Desk, no_permission, match_projects, is_pushed, is_trusted, valid_signature, Payload, Hook,
  make_build, dispatch, offer, repo_url_match, handle_github_webhook,
}
use build_system.Api.Intake.Signed.{handle_github_webhook-kept}
use build_system.Api.Intake.Stranded.{IsSteady, triggers, hooks, serve_all, serve_all-IsSteady}

abbrev local_project : Project
local_project = record remote_project {
  executor = "local";
  repo_url = "https://github.com/a/b";
  webhook_secret = "s";
}

abbrev empty_desk : Desk
empty_desk = record {
  db = record { builds = []; projects = local_project ∷ [] };
  build_ch = [];
  capacity = 1;
}

abbrev push : Payload
push = record {
  ref = "refs/heads/main";
  clone_url = "http://github.com/a/b.git";
  head_commit = some "0123456789abcdef";
}

-- A digest that is the key, and a body that is one byte.
abbrev key_digest : List ℕ → List ℕ → List ℕ
key_digest secret body = secret

abbrev parse_push : List ℕ → Option Payload
parse_push [] = none
parse_push (b ∷ body) = some push

abbrev idle : ℕ → Desk → Desk
idle n s = s

abbrev signed_hook : Hook
signed_hook = record { event = "push"; body = 1 ∷ []; signature = codes "sha256=s" }

same_repo_test : repo_url_match "https://github.com/a/b" "http://github.com/a/b.git" ≡ true
unfolding repo_url_match
same_repo_test = refl

serve_all-IsSteady_example :
    IsSteady
      (λ id. false)
      (local_project ∷ [])
      (serve_all key_digest parse_push idle
        ((1, triggers 1) ∷ (2, hooks signed_hook) ∷ [])
        empty_desk)
serve_all-IsSteady_example =
    serve_all-IsSteady key_digest parse_push idle (λ id. false) (local_project ∷ [])
      ((1, triggers 1) ∷ (2, hooks signed_hook) ∷ []) empty_desk (λ n x h. h) (tt, refl)

-- The capacity stays.
abbrev Kept : Desk → Type 0
Kept s = s.capacity ≡ 1

make-Kept :
    (now : ℕ) (p : Project) (sha : String) (s : Desk) → Kept s → Kept (make_build now p sha s).0
unfolding make_build dispatch offer
make-Kept now p sha s h = ground (arith, h)

handle_github_webhook-kept_example :
    Kept (handle_github_webhook key_digest parse_push idle 5 signed_hook empty_desk).0
handle_github_webhook-kept_example =
    handle_github_webhook-kept key_digest parse_push idle Kept 5 signed_hook empty_desk (λ n x h. h)
      (λ sha p x a h. make-Kept 5 p (short sha) x h) refl

-- A wrong signature is refused.
forged_test :
    (handle_github_webhook key_digest parse_push idle 5
      (record signed_hook { signature = codes "sha256=x" })
      empty_desk).1
    ≡ no_permission
unfolding handle_github_webhook match_projects is_pushed is_trusted valid_signature repo_url_match
    find_project
forged_test = refl
