-- ===== src/Api/Intake/Signed.antt =====
-- What GitHub's webhook does to the store and the channel.
use build_system.Prelude.{
  ℕ, ◌≡◌, ◌⊎◌, refl, inl, inr, String, true, false, List, [], ◌∷◌, Option, none, some, All, if_rule,
}
use build_system.Prelude.Text.{str_eq}
use build_system.Models.Project.{Project}
use build_system.Db.Queue.{find_project}
use build_system.Poller.{short}
use build_system.Api.Intake.{
  Desk, make_build, IntakeReply, Payload, Hook, is_pushed, is_trusted, Matches, read_full,
  match_projects, make_builds, reply_matched, pushed, parsed, handle_github_webhook,
}

abbrev pub IsListed : List Project → Project → Type 0
IsListed [] p = ⊥
IsListed (q ∷ ps) p = (q ≡ p) ⊎ IsListed ps p

module _ (digest : List ℕ → List ℕ → List ℕ) (parse : List ℕ → Option Payload)
    (between : ℕ → Desk → Desk) (P : Desk → Type 0) where
  -- A build of the project may be made for the hook: its body is a push with a head commit to the
  -- repository and the branch of one of the listed projects, and that project's full row, read where `P`
  -- held, has no secret or the one that signed the body.
  pub record IsAllowed (ps : List Project) (hook : Hook) (sha : String) (p : Project) : Type 0 where
    pub event : Payload
    pub is_parsed : parse hook.body ≡ some event
    pub head : event.head_commit ≡ some sha
    pub named : str_eq sha "" ≡ false
    pub listed : Project
    pub is_listed : IsListed ps listed
    pub is_push : is_pushed event listed ≡ true
    pub read : Desk
    pub held : P read
    pub found : find_project listed.id read.db.projects ≡ some p
    pub trusted : is_trusted digest hook p ≡ true

  abbrev IsRead : List Project → Hook → String → Matches → Type 0
  IsRead all hook sha m = P m.desk × All (IsAllowed all hook sha) m.matched

  read_full-IsRead :
      (all : List Project) (hook : Hook) (sha : String) (event : Payload) (q : Project) (s : Desk)
      (o : Option Project) (m : Matches)
      → parse hook.body ≡ some event
      → event.head_commit ≡ some sha
      → str_eq sha "" ≡ false
      → IsListed all q
      → is_pushed event q ≡ true
      → P s
      → find_project q.id s.db.projects ≡ o
      → IsRead all hook sha m
      → IsRead all hook sha (read_full digest parse between hook o m)
  read_full-IsRead all hook sha event q s none m e k n member push held found h = h
  read_full-IsRead all hook sha event q s (some p) m e k n member push held found h =
      if_rule (IsRead all hook sha) (is_trusted digest hook p) _ _
        (λ t. (
          h.0,
          (
            record {
              event = event;
              is_parsed = e;
              head = k;
              named = n;
              listed = q;
              is_listed = member;
              is_push = push;
              read = s;
              held = held;
              found = found;
              trusted = t;
            },
            h.1,
          ),
        ))
        λ t. h

  match_projects-IsRead :
      (all : List Project) (hook : Hook) (sha : String) (event : Payload) (ps : List Project)
      (s : Desk)
      → ((q : Project) → IsListed ps q → IsListed all q)
      → parse hook.body ≡ some event
      → event.head_commit ≡ some sha
      → str_eq sha "" ≡ false
      → ((n : ℕ) (x : Desk) → P x → P (between n x))
      → P s
      → IsRead all hook sha (match_projects digest parse between hook event ps s)
  unfolding match_projects
  match_projects-IsRead all hook sha event [] s sub e k n keeps h = (h, tt)
  match_projects-IsRead all hook sha event (q ∷ ps) s sub e k n keeps h =
      let s' = between q.id s in
      if_rule (IsRead all hook sha) (is_pushed event q) _ _
        (λ push.
          read_full-IsRead all hook sha event q s' (find_project q.id s'.db.projects)
            (match_projects digest parse between hook event ps s') e k n (sub q (inl refl)) push
            (keeps q.id s h) refl
            (match_projects-IsRead all hook sha event ps s' (λ p m. sub p (inr m)) e k n keeps
              (keeps q.id s h)))
        λ other. match_projects-IsRead all hook sha event ps s (λ p m. sub p (inr m)) e k n keeps h

  make_builds-kept :
      (all : List Project) (now : ℕ) (hook : Hook) (sha : String) (ps : List Project) (s : Desk)
      → ((n : ℕ) (x : Desk) → P x → P (between n x))
      → ((p : Project) (x : Desk)
          → IsAllowed all hook sha p
          → P x
          → P (make_build now p (short sha) x).0)
      → All (IsAllowed all hook sha) ps
      → P s
      → P (make_builds digest parse between now (short sha) ps s).0
  unfolding make_builds
  make_builds-kept all now hook sha [] s keeps makes h k = k
  make_builds-kept all now hook sha (p ∷ ps) s keeps makes h k =
      make_builds-kept all now hook sha ps (make_build now p (short sha) (between p.id s)).0 keeps
        makes h.1 (makes p (between p.id s) h.0 (keeps p.id s k))

  matched-kept :
      (all : List Project) (now : ℕ) (hook : Hook) (sha : String) (ps : List Project) (rejected : ℕ)
      (s : Desk)
      → ((n : ℕ) (x : Desk) → P x → P (between n x))
      → ((p : Project) (x : Desk)
          → IsAllowed all hook sha p
          → P x
          → P (make_build now p (short sha) x).0)
      → All (IsAllowed all hook sha) ps
      → P s
      → P (reply_matched digest parse between now sha ps rejected s).0
  matched-kept all now hook sha [] rejected s keeps makes h k = k
  matched-kept all now hook sha (p ∷ ps) rejected s keeps makes h k =
      make_builds-kept all now hook sha (p ∷ ps) s keeps makes h k

  pushed-kept :
      (now : ℕ) (hook : Hook) (event : Payload) (o : Option String) (s : Desk)
      → parse hook.body ≡ some event
      → event.head_commit ≡ o
      → ((n : ℕ) (x : Desk) → P x → P (between n x))
      → ((sha : String) (p : Project) (x : Desk)
          → IsAllowed s.db.projects hook sha p
          → P x
          → P (make_build now p (short sha) x).0)
      → P s
      → P (pushed digest parse between now hook event o s).0
  pushed-kept now hook event none s e k keeps makes h = h
  pushed-kept now hook event (some sha) s e k keeps makes h =
      if_rule (λ (x : Desk × IntakeReply). P x.0) (str_eq sha "") _ _ (λ n. h)
        λ n.
          let m = match_projects digest parse between hook event s.db.projects s in
          let read =
            match_projects-IsRead s.db.projects hook sha event s.db.projects s (λ q k. k) e k n
              keeps h in
          matched-kept s.db.projects now hook sha m.matched m.rejected m.desk keeps (makes sha)
            read.1 read.0

  parsed-kept :
      (now : ℕ) (hook : Hook) (o : Option Payload) (s : Desk)
      → parse hook.body ≡ o
      → ((n : ℕ) (x : Desk) → P x → P (between n x))
      → ((sha : String) (p : Project) (x : Desk)
          → IsAllowed s.db.projects hook sha p
          → P x
          → P (make_build now p (short sha) x).0)
      → P s
      → P (parsed digest parse between now hook o s).0
  parsed-kept now hook none s e keeps makes h = h
  parsed-kept now hook (some event) s e keeps makes h =
      pushed-kept now hook event event.head_commit s e refl keeps makes h

  -- Whatever others do between its statements: what they keep, and what the making of a build keeps that
  -- is allowed (of the commit that was pushed, for one of the projects that are stored when the request
  -- comes, whose repository and branch were pushed, and whose row, read again, has no secret or the one
  -- that signed the body), the webhook keeps: it does nothing else.
  pub handle_github_webhook-kept :
      (now : ℕ) (hook : Hook) (s : Desk)
      → ((n : ℕ) (x : Desk) → P x → P (between n x))
      → ((sha : String) (p : Project) (x : Desk)
          → IsAllowed s.db.projects hook sha p
          → P x
          → P (make_build now p (short sha) x).0)
      → P s
      → P (handle_github_webhook digest parse between now hook s).0
  unfolding handle_github_webhook
  handle_github_webhook-kept now hook s keeps makes h =
      if_rule (λ (x : Desk × IntakeReply). P x.0) (str_eq hook.event "push") _ _
        (λ e. parsed-kept now hook (parse hook.body) s refl keeps makes h) λ e. h
