-- ===== src/Api/Intake/Stranded.antt =====
-- The three ways in, and builds that wait for the local runner.
use build_system.Prelude.{
  ℕ, ◌≡◌, ◌∙◌, ap, sym, refl, String, Bool, List, [], ◌∷◌, Option, none, some, length, ltb, if_rule,
}
use build_system.Models.Agent.{remote}
use build_system.Db.Builds.{Build}
use build_system.Models.Project.{Project}
use build_system.Db.Queue.{find_project, find_build}
use build_system.Poller.{short}
use build_system.Api.Intake.{
  Desk, made, rerun_of, make_build, dispatch, offer, Payload, Hook, handle_trigger_build,
  handle_rerun_build, handle_github_webhook,
}
use build_system.Api.Intake.Queued.{
  IsQueued, make_build-IsQueued, found_again, answered-desk, trigger-IsQueued, rerun_build-IsQueued,
}
use build_system.Api.Intake.Signed.{IsAllowed, handle_github_webhook-kept}

-- The desk while no project is edited.
abbrev pub IsSteady : (ℕ → Bool) → List Project → Desk → Type 0
IsSteady taken ps s = IsQueued taken s × (s.db.projects ≡ ps)

make_build-projects :
    (now : ℕ) (p : Project) (sha : String) (s : Desk)
    → (make_build now p sha s).0.db.projects ≡ s.db.projects
unfolding make_build dispatch offer
make_build-projects now p sha s =
    let Q = λ (x : Desk × Bool). x.0.db.projects ≡ s.db.projects in
    if_rule Q (remote p.executor) _ _ (λ e. refl)
      λ e. if_rule Q (ltb (length s.build_ch) s.capacity) _ _ (λ k. refl) λ k. refl

made-projects :
    (now : ℕ) (o : Option Project) (sha : String) (s : Desk)
    → (made now o sha s).0.db.projects ≡ s.db.projects
made-projects now none sha s = refl
made-projects now (some p) sha s =
    ap (λ (x : Desk). x.db.projects) (answered-desk _ (make_build now p sha s))
    ∙ make_build-projects now p sha s

rerun-projects :
    (now : ℕ) (o : Option Build) (s : Desk) → (rerun_of now o s).0.db.projects ≡ s.db.projects
rerun-projects now none s = refl
rerun-projects now (some b) s =
    made-projects now (find_project b.project s.db.projects) b.commit_sha s

-- The requests that make builds.
pub data Request : Type 0 where
  triggers reruns : ℕ → Request
  hooks : Hook → Request

module _ (digest : List ℕ → List ℕ → List ℕ) (parse : List ℕ → Option Payload)
    (between : ℕ → Desk → Desk) where
  abbrev pub serve : ℕ → Request → Desk → Desk
  serve now (triggers id) s = (handle_trigger_build now id s).0
  serve now (reruns id) s = (handle_rerun_build now id s).0
  serve now (hooks hook) s = (handle_github_webhook digest parse between now hook s).0

  unfoldable pub serve_all : List (ℕ × Request) → Desk → Desk
  serve_all [] s = s
  serve_all ((now, r) ∷ rs) s = serve_all rs (serve now r (between now s))

  make-IsSteady :
      (taken : ℕ → Bool) (ps all : List Project) (now : ℕ) (hook : Hook) (sha : String)
      (p : Project) (s : Desk)
      → IsAllowed digest parse between (IsSteady taken ps) all hook sha p
      → IsSteady taken ps s
      → IsSteady taken ps (make_build now p (short sha) s).0
  make-IsSteady taken ps all now hook sha p s a h =
      let found : find_project a.listed.id s.db.projects ≡ some p =
        ap (find_project a.listed.id) (h.1 ∙ sym a.held.1) ∙ a.found in
      (
        make_build-IsQueued taken now p (short sha) s
            (found_again a.listed.id s.db.projects p found) h.0,
        make_build-projects now p (short sha) s ∙ h.1,
      )

  serve-IsSteady :
      (taken : ℕ → Bool) (ps : List Project) (now : ℕ) (r : Request) (s : Desk)
      → ((n : ℕ) (x : Desk) → IsSteady taken ps x → IsSteady taken ps (between n x))
      → IsSteady taken ps s
      → IsSteady taken ps (serve now r s)
  unfolding handle_trigger_build handle_rerun_build
  serve-IsSteady taken ps now (triggers id) s keeps h = (
    trigger-IsQueued taken now id s h.0,
    made-projects now (find_project id s.db.projects) "manual" s ∙ h.1,
  )
  serve-IsSteady taken ps now (reruns id) s keeps h = (
    rerun_build-IsQueued taken now id s h.0,
    rerun-projects now (find_build id s.db.builds) s ∙ h.1,
  )
  serve-IsSteady taken ps now (hooks hook) s keeps h =
      handle_github_webhook-kept digest parse between (IsSteady taken ps) now hook s keeps
        (λ sha p x a k. make-IsSteady taken ps s.db.projects now hook sha p x a k) h

  -- If every pending build of a project for the local runner is in the runner's channel, or one that the
  -- worker takes out of it meanwhile, this still holds after any triggers, reruns and webhooks, whether
  -- the channel has room or is full, if it holds through what others do and no project is edited: no
  -- build is left pending where nobody takes it.
  pub serve_all-IsSteady :
      (taken : ℕ → Bool) (ps : List Project) (rs : List (ℕ × Request)) (s : Desk)
      → ((n : ℕ) (x : Desk) → IsSteady taken ps x → IsSteady taken ps (between n x))
      → IsSteady taken ps s
      → IsSteady taken ps (serve_all rs s)
  unfolding serve_all
  serve_all-IsSteady taken ps [] s keeps h = h
  serve_all-IsSteady taken ps ((now, r) ∷ rs) s keeps h =
      serve_all-IsSteady taken ps rs (serve now r (between now s)) keeps
        (serve-IsSteady taken ps now r (between now s) keeps (keeps now s h))
