-- ===== src/Api/Claim/Waits.antt =====
-- The wait for work ends.
use build_system.Prelude.{
  ℕ, ◌+◌, ◌<◌, ◌≡◌, ◌≢◌, ◌⊎◌, inl, inr, String, true, List, [], ◌∷◌, Option, none, some, ltb,
  if_rule, arith,
}
use build_system.Models.Project.{Project}
use build_system.Db.Builds.{Build}
use build_system.Db.Queue.{Db, find_build}
use build_system.Db.AgentStore.Table.{Statement}
use build_system.Api.Claim.{
  Server, ClaimRequest, Refusal, still_polling, Answer, Round, agent_is_paused,
  prepare_claim_project, waits, told, prepared, hand_over, taken, poll_round, poll_rounds, closed,
  check_claim, claim_open, unless_refused, handle_agent_claim, remember_agent,
}
use build_system.Agents.Registry.{poll_started, note_clock}

-- Some round is past the deadline, or the agent hangs up in it.
abbrev pub StopsWaiting : ℕ → List Round → Type 0
StopsWaiting deadline [] = ⊥
StopsWaiting deadline (r ∷ rs) = (deadline < r.now) ⊎ ((r.gone ≡ true) ⊎ StopsWaiting deadline rs)

abbrev pub IsAnswered : Answer → Type 0
IsAnswered a = a.1 ≢ still_polling

told-IsAnswered :
    (b : Build) (p : Project) (s : Server) (o : Option Build) → IsAnswered (told b p s o)
told-IsAnswered b p s none = λ e. cc e
told-IsAnswered b p s (some row) = λ e. cc e

prepared-IsAnswered :
    (r : Round) (b : Build) (s : Server) (o : Option Project) → IsAnswered (prepared r b s o)
prepared-IsAnswered r b s none = λ e. cc e
prepared-IsAnswered r b s (some p) =
    told-IsAnswered b p (r.read s) (find_build b.id (r.read s).db.builds)

hand_over-IsAnswered :
    (r : Round) (executors : List String) (b : Build) (s : Server) (o : Option Project)
    → IsAnswered (hand_over r executors b s o)
hand_over-IsAnswered r executors b s none = λ e. cc e
hand_over-IsAnswered r executors b s (some p) =
    prepared-IsAnswered r b s (prepare_claim_project p executors)

-- The round ends the request, or hands on to one that does.
abbrev Goes : ℕ → Round → (Server → Answer) → Type 0
Goes deadline r later =
    (deadline < r.now) ⊎ ((r.gone ≡ true) ⊎ ((s : Server) → IsAnswered (later s)))

waits-IsAnswered :
    (deadline : ℕ) (r : Round) (s : Server) (later : Server → Answer)
    → Goes deadline r later
    → IsAnswered (waits deadline r s later)
waits-IsAnswered deadline r s later h =
    if_rule IsAnswered (ltb deadline r.now) _ _ (λ e k. cc k)
      λ e.
        if_rule IsAnswered r.gone _ _ (λ e' k. cc k)
          λ e'. elim h [
            | inl past ↦ absurd (ground (arith, past, e))
            | inr (inl gone) ↦ absurd (cc (gone, e'))
            | inr (inr more) ↦ more s
          ]

taken-IsAnswered :
    (deadline : ℕ) (r : Round) (executors : List String) (later : Server → Answer) (s : Server)
    (c : Db × Option Build)
    → Goes deadline r later
    → IsAnswered (taken deadline r executors later s c)
taken-IsAnswered deadline r executors later s (db, none) h = waits-IsAnswered deadline r _ later h
taken-IsAnswered deadline r executors later s (db, some b) h =
    hand_over-IsAnswered r executors b _ _

poll_round-IsAnswered :
    (agent : String) (executors : List String) (deadline : ℕ) (r : Round) (later : Server → Answer)
    (s : Server)
    → Goes deadline r later
    → IsAnswered (poll_round agent executors deadline r later s)
unfolding poll_round
poll_round-IsAnswered agent executors deadline r later s h =
    if_rule IsAnswered (agent_is_paused r.unreadable r.now agent (r.before s).agents) _ _
      (λ e. waits-IsAnswered deadline r (r.before s) later h)
      λ e. taken-IsAnswered deadline r executors later (r.checked (r.before s)) _ h

poll_rounds-IsAnswered :
    (agent : String) (executors : List String) (deadline : ℕ) (rounds : List Round) (s : Server)
    → StopsWaiting deadline rounds
    → IsAnswered (poll_rounds agent executors deadline rounds s)
unfolding poll_rounds
poll_rounds-IsAnswered agent executors deadline [] s h = absurd h
poll_rounds-IsAnswered agent executors deadline (r ∷ rounds) s h =
    poll_round-IsAnswered agent executors deadline r _ s (elim h [
      | inl past ↦ inl past
      | inr (inl gone) ↦ inr (inl gone)
      | inr (inr more) ↦
          inr (inr (λ s'. poll_rounds-IsAnswered agent executors deadline rounds s' more))
    ])

closed-IsAnswered : (ended k : ℕ) (a : Answer) → IsAnswered a → IsAnswered (closed ended k a)
closed-IsAnswered ended k (s, reply) h = h

-- A request for work is answered as soon as a round is past its deadline or the agent hangs up, paused or
-- not, and whatever the rest of the server does.
pub claim-IsAnswered :
    (now hold ended : ℕ) (between : List Statement) (rounds : List Round) (r : ClaimRequest)
    (s : Server)
    → StopsWaiting (now + hold) rounds
    → IsAnswered (handle_agent_claim now hold ended between rounds r s)
unfolding handle_agent_claim claim_open
claim-IsAnswered now hold ended between rounds r s h = go (check_claim r)
  where
    go :
        (o : Option Refusal)
        → IsAnswered (unless_refused o s (claim_open now hold ended between rounds r s))
    go (some e) = λ k. cc k
    go none =
        let started = poll_started now r.agent r.executors r.scheme s.registry in
        let s1 = record s { registry = note_clock now r.agent r.clock started } in
        let s2 = remember_agent now between r s1 in
        closed-IsAnswered ended s.registry.next_poll
          (poll_rounds r.agent r.executors (now + hold) rounds s2)
          (poll_rounds-IsAnswered r.agent r.executors (now + hold) rounds s2 h)
