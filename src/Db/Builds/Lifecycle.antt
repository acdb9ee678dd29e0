-- ===== src/Db/Builds/Lifecycle.antt =====
-- The life of a build row under the guarded operations, in any order: local and agent claims,
-- heartbeats, log uploads, cancels, requeues and the stale sweep.
use build_system.Prelude.{
  ℕ, ◌≤◌, ◌≡◌, ◌∙◌, ap, sym, subst, refl, String, true, not, ◌&&◌, List, [], ◌++◌, Option, none,
  some, ltb, ◌==◌, if_rule, arith,
}
use build_system.Prelude.Text.{str_eq}
use build_system.Models.Status.{
  BuildStatus, pending, running, success, failed, canceled, same_status, terminal,
}
use build_system.Db.BuildLog.{BuildLog, state_of, append_build_log}
use build_system.Db.BuildLog.Append.{IsStored, contents, AppendsTo, append_build_log-AppendsTo}
use build_system.Db.Builds.{
  Build, Change, skip, rollback, write, is, is_local, logged, with_note, claim_build,
  claim_for_agent, heartbeat_build, request_agent_cancel, cancel_pending_build, finish_agent_build,
  fail_pending_build, requeue_build_with_note, append_agent_build_log, fail_stale, canceled_note,
  requeue_note, max_build_requeues, gives_up,
}
use mathlib.Core.List.{append-nil}

pub data Op : Type 0 where
  claims : ℕ → Op
  claims_for beats : ℕ → String → Op
  asks_cancel : Op
  cancels : ℕ → Op
  finishes : ℕ → String → (s : BuildStatus) → terminal s ≡ true → Op
  fails_pending : ℕ → List ℕ → Op
  requeues : Op
  uploads : ℕ → String → ℕ → List ℕ → Op
  sweeps : ℕ → ℕ → List ℕ → Op

unfoldable pub run_op : Op → Build → Change
run_op (claims now) b = claim_build now b
run_op (claims_for now agent) b = claim_for_agent now agent b
run_op (beats now agent) b = heartbeat_build now agent b
run_op asks_cancel b = request_agent_cancel b
run_op (cancels now) b = cancel_pending_build now b
run_op (finishes now agent s final) b = finish_agent_build now agent s b
run_op (fails_pending now note) b = fail_pending_build now note b
run_op requeues b = requeue_build_with_note max_build_requeues b
run_op (uploads now agent expected bytes) b = append_agent_build_log now agent expected bytes b
run_op (sweeps floor now note) b = fail_stale floor now note b

-- The status graph, with the loop of what leaves the status alone.
pub data Edge : BuildStatus → BuildStatus → Type 0 where
  stays : {s : BuildStatus} → Edge s s
  starts : Edge pending running
  drops : {s : BuildStatus} → terminal s ≡ true → Edge pending s
  ends : {s : BuildStatus} → terminal s ≡ true → Edge running s
  retries : Edge running pending

-- What holds of a row between two operations.
pub record IsSound (b : Build) : Type 0 where
  pub stored : IsStored b.log
  pub bounded : b.requeues ≤ max_build_requeues
  pub waiting : b.status ≡ pending → (b.started_at ≡ none) × (b.finished_at ≡ none)
  pub working : b.status ≡ running → b.finished_at ≡ none

-- A written row is sound, its id, number and project are the old ones, its status follows an edge, and
-- its log is the old log with bytes added at the end.
pub record Follows (b b' : Build) : Type 0 where
  pub sound : IsSound b'
  pub same_key : (b'.id ≡ b.id) × (b'.number ≡ b.number) × (b'.project ≡ b.project)
  pub edge : Edge b.status b'.status
  pub grown : (extra : List ℕ) × (contents b'.log ≡ contents b.log ++ extra)

abbrev pub Ensures : (Build → Type 0) → Change → Type 0
Ensures P skip = Unit
Ensures P rollback = ⊥
Ensures P (write b) = P b

-- A final state that keeps the log.
abbrev IsSoundRow : Build → Type 0
IsSoundRow b =
    (b.requeues ≤ max_build_requeues)
    × (b.status ≡ pending → (b.started_at ≡ none) × (b.finished_at ≡ none))
    × (b.status ≡ running → b.finished_at ≡ none)

pub kept-Follows :
    (b b' : Build)
    → IsSound b
    → IsSoundRow b'
    → (b'.id ≡ b.id) × (b'.number ≡ b.number) × (b'.project ≡ b.project)
    → Edge b.status b'.status
    → b'.log ≡ b.log
    → Follows b b'
kept-Follows b b' h row key edge same = record {
  sound = record {
    stored = subst IsStored (sym same) h.stored;
    bounded = row.0;
    waiting = row.1;
    working = row.2;
  };
  same_key = key;
  edge = edge;
  grown = ([], ap contents same ∙ sym (append-nil (contents b.log)));
}

logged-Ensures :
    (b b' : Build) (note : List ℕ) (o : Option (BuildLog × ℕ))
    → IsSoundRow b'
    → (b'.id ≡ b.id) × (b'.number ≡ b.number) × (b'.project ≡ b.project)
    → Edge b.status b'.status
    → AppendsTo b.log note o
    → Ensures (Follows b) (logged o b')
unfolding logged
logged-Ensures b b' note none row key edge a = a
logged-Ensures b b' note (some (l, start)) row key edge a = record {
  sound = record { stored = a.0; bounded = row.0; waiting = row.1; working = row.2 };
  same_key = key;
  edge = edge;
  grown = (note, a.1);
}

pub noted-Ensures :
    (b b' : Build) (note : List ℕ)
    → IsSound b
    → IsSoundRow b'
    → (b'.id ≡ b.id) × (b'.number ≡ b.number) × (b'.project ≡ b.project)
    → Edge b.status b'.status
    → b'.log ≡ b.log
    → Ensures (Follows b) (with_note note b')
unfolding with_note
noted-Ensures b b' note h row key edge same =
    subst (λ l. Ensures (Follows b) (logged (append_build_log l note) b')) (sym same)
      (logged-Ensures b b' note (append_build_log b.log note) row key edge
        (append_build_log-AppendsTo b.log note h.stored))

-- A test of the status, and of more, gives the status.
is-eq : (s t : BuildStatus) → same_status s t ≡ true → s ≡ t
is-eq pending pending h = refl
is-eq running running h = refl
is-eq success success h = refl
is-eq failed failed h = refl
is-eq canceled canceled h = refl
is-eq _ _ h = ground (arith, h)

Edge-from : {s t u : BuildStatus} → s ≡ t → Edge t u → Edge s u
Edge-from {u} e h = subst (λ k. Edge k u) (sym e) h

-- No guarded operation fails on a sound row, and what it writes follows the old row: the same key, an
-- edge of the status graph, the old log with bytes added, and the row's invariant.
pub run_op-Follows : (o : Op) (b : Build) → IsSound b → Ensures (Follows b) (run_op o b)
unfolding run_op claim_build claim_for_agent heartbeat_build request_agent_cancel
    cancel_pending_build finish_agent_build fail_pending_build requeue_build_with_note
    append_agent_build_log fail_stale
run_op-Follows (claims now) b h =
    if_rule (Ensures (Follows b)) (is pending b) _ _
      (λ e.
        kept-Follows b _ h
          (h.bounded, (λ k. absurd (cc k)), λ k. (h.waiting (is-eq b.status pending e)).1)
          (refl, refl, refl) (Edge-from (is-eq b.status pending e) starts) refl)
      λ e. tt
run_op-Follows (claims_for now agent) b h =
    if_rule (Ensures (Follows b)) (is pending b) _ _
      (λ e.
        kept-Follows b _ h
          (h.bounded, (λ k. absurd (cc k)), λ k. (h.waiting (is-eq b.status pending e)).1)
          (refl, refl, refl) (Edge-from (is-eq b.status pending e) starts) refl)
      λ e. tt
run_op-Follows (beats now agent) b h =
    if_rule (Ensures (Follows b)) (not (str_eq agent "") && is running b && str_eq b.agent agent) _
      _ (λ e. kept-Follows b _ h (h.bounded, h.waiting, h.working) (refl, refl, refl) stays refl)
      λ e. tt
run_op-Follows asks_cancel b h =
    if_rule (Ensures (Follows b)) (is running b && not (is_local b)) _ _
      (λ e. kept-Follows b _ h (h.bounded, h.waiting, h.working) (refl, refl, refl) stays refl)
      λ e. tt
run_op-Follows (cancels now) b h =
    if_rule (Ensures (Follows b)) (is pending b) _ _
      (λ e.
        noted-Ensures b _ canceled_note h (h.bounded, (λ k. absurd (cc k)), λ k. absurd (cc k))
          (refl, refl, refl) (Edge-from (is-eq b.status pending e) (drops refl)) refl)
      λ e. tt
run_op-Follows (finishes now agent s final) b h =
    if_rule (Ensures (Follows b)) (is running b && str_eq b.agent agent) _ _
      (λ e.
        kept-Follows b _ h
          (
            h.bounded,
            (λ k. absurd (cc (ap terminal k, final))),
            λ k. absurd (cc (ap terminal k, final)),
          )
          (refl, refl, refl) (Edge-from (is-eq b.status running (ground (arith, e))) (ends final))
          refl)
      λ e. tt
run_op-Follows (fails_pending now note) b h =
    if_rule (Ensures (Follows b)) (is pending b) _ _
      (λ e.
        noted-Ensures b _ note h (h.bounded, (λ k. absurd (cc k)), λ k. absurd (cc k))
          (refl, refl, refl) (Edge-from (is-eq b.status pending e) (drops refl)) refl)
      λ e. tt
run_op-Follows requeues b h =
    if_rule (Ensures (Follows b)) (is running b && ltb b.requeues max_build_requeues && is_local b)
      _ _
      (λ e.
        noted-Ensures b _ requeue_note h (ground (arith, e), (λ k. (refl, refl)), λ k. refl)
          (refl, refl, refl) (Edge-from (is-eq b.status running (ground (arith, e))) retries) refl)
      λ e. tt
run_op-Follows (uploads now agent expected bytes) b h =
    if_rule (Ensures (Follows b))
      (is running b && str_eq b.agent agent && (state_of b.log).total_bytes == expected) _ _
      (λ e.
        noted-Ensures b _ bytes h (h.bounded, h.waiting, h.working) (refl, refl, refl) stays refl)
      λ e. tt
run_op-Follows (sweeps floor now note) b h =
    if_rule (Ensures (Follows b)) (is running b && gives_up floor now b) _ _
      (λ e.
        noted-Ensures b _ note h (h.bounded, (λ k. absurd (cc k)), λ k. absurd (cc k))
          (refl, refl, refl) (Edge-from (is-eq b.status running (ground (arith, e))) (ends refl))
          refl)
      λ e. tt
