-- ===== src/Api/Claim/Handed.antt =====
-- What an agent is handed, and what a refused build is left as.
use build_system.Prelude.{
  ℕ, ◌≡◌, ◌⊎◌, ap, subst, refl, inl, inr, String, true, false, not, List, [], ◌∷◌, ◌+◌, Option,
  none, some, All, ltb, ◌==◌, if_rule, arith,
}
use build_system.Models.Status.{failed}
use build_system.Models.Agent.{remote, agent_paused}
use build_system.Models.Project.{Profile, Project, profile_for}
use build_system.Db.BuildLog.{build_log_len}
use build_system.Db.Builds.{Build, finish_build}
use build_system.Db.Queue.{Db, at_row, find_build, find_project, claim_build_for_agent}
use build_system.Db.Queue.Claims.{Claimed, claim-Claimed}
use build_system.Db.AgentStore.Table.{Statement, agent_paused_until}
use build_system.Api.Claim.{
  Refusal, closed, Server, ClaimRequest, handed, conflict, Answer, Round, agent_is_paused,
  with_profile, prepare_claim_project, waits, told, prepared, hand_over, taken, poll_round,
  poll_rounds, check_claim, claim_open, unless_refused, handle_agent_claim,
}

abbrev pub In : Round → List Round → Type 0
In r [] = ⊥
In r (x ∷ xs) = (r ≡ x) ⊎ In r xs

-- The claim of one round, which was not made for a paused agent.
pub record IsClaim (agent : String) (executors : List String) (r : Round) (b : Build) : Type 0 where
  -- The server at the look at the pause, at the claim and after it.
  pub looked : Server
  pub asked : Server
  pub left : Server
  pub order : asked ≡ r.checked looked
  pub unpaused :
      r.unreadable ≡ false → agent_paused (agent_paused_until agent looked.agents) r.now ≡ false
  pub claim : Claimed r.now agent executors asked.db left.db b

-- The project as it was stored, and the profile of one of the agent's executors in it.
pub record IsPrepared (executors : List String) (b : Build) (s : Server) (p : Project)
    : Type 0 where
  pub stored : Project
  pub profile : Profile
  pub row : find_project b.project s.db.projects ≡ some stored
  pub eligible : remote stored.executor ≡ true
  pub served : profile_for stored executors ≡ some profile
  pub command : p.build_command ≡ profile.build_command
  pub path : p.build_path ≡ profile.build_path
  pub upload : p.upload_script ≡ profile.upload_script
  pub others : p.executor_profiles ≡ []

pub record IsHanded (agent : String) (executors : List String) (rounds : List Round) (b : Build)
    (p : Project) (offset : ℕ) : Type 0 where
  pub round : Round
  pub listed : In round rounds
  pub claim : IsClaim agent executors round b
  pub project : IsPrepared executors b (round.claimed claim.left) p
  pub row : Build
  pub found : find_build b.id (round.read (round.claimed claim.left)).db.builds ≡ some row
  pub at : offset ≡ build_log_len row.log

-- A build that was claimed and whose rows then all failed.
pub record IsRefused (agent : String) (executors : List String) (rounds : List Round) (s : Server)
    : Type 0 where
  pub round : Round
  pub listed : In round rounds
  pub build : Build
  pub claim : IsClaim agent executors round build
  pub ended : All (λ (x : Build). x.id ≡ build.id → x.status ≡ failed) s.db.builds

abbrev pub IsRight : String → List String → List Round → Answer → Type 0
IsRight agent executors rounds (s, handed b p offset) = IsHanded agent executors rounds b p offset
IsRight agent executors rounds (s, conflict) = IsRefused agent executors rounds s
IsRight agent executors rounds (s, _) = Unit

later_round :
    (agent : String) (executors : List String) (r : Round) (rounds : List Round) (a : Answer)
    → IsRight agent executors rounds a
    → IsRight agent executors (r ∷ rounds) a
later_round agent executors r rounds (s, handed b p offset) h = record {
  round = h.round;
  listed = inr h.listed;
  claim = h.claim;
  project = h.project;
  row = h.row;
  found = h.found;
  at = h.at;
}
later_round agent executors r rounds (s, conflict) h = record {
  round = h.round;
  listed = inr h.listed;
  build = h.build;
  claim = h.claim;
  ended = h.ended;
}
later_round agent executors r rounds _ h = tt

module _ (agent : String) (executors : List String) (deadline : ℕ) (r : Round)
    (rounds : List Round) where
  abbrev Right : Answer → Type 0
  Right a = IsRight agent executors (r ∷ rounds) a

  waits-IsRight :
      (s : Server) (later : Server → Answer)
      → ((s : Server) → Right (later s))
      → Right (waits deadline r s later)
  waits-IsRight s later h =
      if_rule Right (ltb deadline r.now) _ _ (λ e. tt)
        λ e. if_rule Right r.gone _ _ (λ e'. tt) λ e'. h s

  told-IsRight :
      (b : Build) (p : Project)
      → (c : IsClaim agent executors r b) → IsPrepared executors b (r.claimed c.left) p
      → (o : Option Build) → find_build b.id (r.read (r.claimed c.left)).db.builds ≡ o
      → Right (told b p (r.read (r.claimed c.left)) o)
  told-IsRight b p c x none e = tt
  told-IsRight b p c x (some row) e = record {
    round = r;
    listed = inl refl;
    claim = c;
    project = x;
    row = row;
    found = e;
    at = refl;
  }

  finished_rows :
      (id now : ℕ) (bs : List Build)
      → All (λ (x : Build). x.id ≡ id → x.status ≡ failed) (at_row id (finish_build now failed) bs)
  unfolding at_row finish_build
  finished_rows id now [] = tt
  finished_rows id now (b ∷ bs) = (
    if_rule (λ (x : Build). x.id ≡ id → x.status ≡ failed) (b.id == id) _ _ (λ e k. refl)
        (λ e k. absurd (ground (arith, e, k))),
    finished_rows id now bs,
  )

  prepared-IsRight :
      (b : Build) (p : Project) (c : IsClaim agent executors r b)
      → find_project b.project (r.claimed c.left).db.projects ≡ some p
      → Right (prepared r b (r.claimed c.left) (prepare_claim_project p executors))
  unfolding prepare_claim_project
  prepared-IsRight b p c e =
      if_rule (λ o. Right (prepared r b (r.claimed c.left) o)) (not (remote p.executor)) _ _
        (λ k. fails) λ k. go (profile_for p executors) refl (ground (arith, k))
    where
      fails : Right (prepared r b (r.claimed c.left) none)
      fails = record {
        round = r;
        listed = inl refl;
        build = b;
        claim = c;
        ended = finished_rows b.id r.now (r.claimed c.left).db.builds;
      }

      go :
          (o : Option Profile)
          → profile_for p executors ≡ o
          → remote p.executor ≡ true
          → Right (prepared r b (r.claimed c.left) (with_profile p o))
      go none k m = fails
      go (some f) k m =
          told-IsRight b _ c
            (record {
              stored = p;
              profile = f;
              row = e;
              eligible = m;
              served = k;
              command = refl;
              path = refl;
              upload = refl;
              others = refl;
            })
            _ refl

  hand_over-IsRight :
      (b : Build) (c : IsClaim agent executors r b) (o : Option Project)
      → find_project b.project (r.claimed c.left).db.projects ≡ o
      → Right (hand_over r executors b (r.claimed c.left) o)
  hand_over-IsRight b c none e = tt
  hand_over-IsRight b c (some p) e = prepared-IsRight b p c e

  poll_round-IsRight :
      (s : Server) (later : Server → Answer)
      → ((s : Server) → Right (later s))
      → Right (poll_round agent executors deadline r later s)
  unfolding poll_round
  poll_round-IsRight s later h =
      let s0 = r.before s in
      let s1 = r.checked s0 in
      if_rule Right (agent_is_paused r.unreadable r.now agent s0.agents) _ _
        (λ e. waits-IsRight s0 later h)
        λ e. go e (claim_build_for_agent r.now agent executors s1.db) refl
    where
      go :
          agent_is_paused r.unreadable r.now agent (r.before s).agents ≡ false
          → (c : Db × Option Build)
          → claim_build_for_agent r.now agent executors (r.checked (r.before s)).db ≡ c
          → Right (taken deadline r executors later (r.checked (r.before s)) c)
      go e (db, none) k = waits-IsRight _ later h
      go e (db, some b) k =
          hand_over-IsRight b
            (record {
              looked = r.before s;
              asked = r.checked (r.before s);
              left = record (r.checked (r.before s)) { db = db };
              order = refl;
              unpaused = λ u. ground (arith, e, u);
              claim =
                  subst (λ (x : Db). Claimed r.now agent executors (r.checked (r.before s)).db x b)
                    (ap (λ (x : Db × Option Build). x.0) k)
                    (claim-Claimed r.now agent executors (r.checked (r.before s)).db b
                      (ap (λ (x : Db × Option Build). x.1) k));
            })
            _ refl

poll_rounds-IsRight :
    (agent : String) (executors : List String) (deadline : ℕ) (rounds : List Round) (s : Server)
    → IsRight agent executors rounds (poll_rounds agent executors deadline rounds s)
unfolding poll_rounds
poll_rounds-IsRight agent executors deadline [] s = tt
poll_rounds-IsRight agent executors deadline (r ∷ rounds) s =
    poll_round-IsRight agent executors deadline r rounds s
      (poll_rounds agent executors deadline rounds)
      λ s'.
        later_round agent executors r rounds _
          (poll_rounds-IsRight agent executors deadline rounds s')

closed-IsRight :
    (agent : String) (executors : List String) (rounds : List Round) (ended k : ℕ) (a : Answer)
    → IsRight agent executors rounds a
    → IsRight agent executors rounds (closed ended k a)
closed-IsRight agent executors rounds ended k (s, handed b p offset) h = h
closed-IsRight agent executors rounds ended k (s, conflict) h = record {
  round = h.round;
  listed = h.listed;
  build = h.build;
  claim = h.claim;
  ended = h.ended;
}
closed-IsRight agent executors rounds ended k _ h = tt

-- Whatever the rest of the server does between its statements: a build that an agent is handed was
-- claimed in a round in which the agent was not paused, if the pause could be read, as the oldest pending
-- build that its executors may serve; the project's command and paths are those of the profile that one of
-- its executors has in the stored project, which is not local, and no other profile is sent; and the
-- offset is the length of the stored log. If the answer is a conflict, all rows of the claimed build then
-- have failed.
pub handle_agent_claim-IsRight :
    (now hold ended : ℕ) (between : List Statement) (rounds : List Round) (r : ClaimRequest)
    (s : Server)
    → IsRight r.agent r.executors rounds (handle_agent_claim now hold ended between rounds r s)
unfolding handle_agent_claim claim_open
handle_agent_claim-IsRight now hold ended between rounds r s = go (check_claim r)
  where
    go :
        (o : Option Refusal)
        → IsRight r.agent r.executors rounds
            (unless_refused o s (claim_open now hold ended between rounds r s))
    go (some e) = tt
    go none =
        closed-IsRight r.agent r.executors rounds ended s.registry.next_poll _
          (poll_rounds-IsRight r.agent r.executors (now + hold) rounds _)
