-- ===== src/Runner/Worker/Owned.antt =====
-- The build that the worker holds, and what the statements on its row rest on.
use build_system.Prelude.{
  ℕ, ◌≡◌, ap, refl, String, Bool, true, false, not, ◌&&◌, List, Option, none, some, ltb, ◌==◌,
  if_rule, arith,
}
use build_system.Prelude.Text.{str_eq, eq_iff}
use build_system.Models.Status.{pending, running, success, failed, canceled, terminal}
use build_system.Db.BuildLog.{BuildLog, append_build_log, state_of}
use build_system.Db.Builds.{
  Build, Change, skip, rollback, write, is, is_local, logged, with_note, claim_build, fail_stale,
  requeue_build_with_note, max_build_requeues, claim_for_agent, heartbeat_build,
  request_agent_cancel, cancel_pending_build, finish_agent_build, fail_pending_build,
  append_agent_build_log, gives_up,
}
use build_system.Db.Builds.Lifecycle.{
  Op, claims, claims_for, beats, asks_cancel, cancels, finishes, fails_pending, requeues, uploads,
  sweeps, run_op, IsSound, Follows, Ensures, run_op-Follows,
}
use build_system.Db.Builds.Runs.{after, after-Follows, terminal_absorbs}
use build_system.Db.Builds.Extends.{Extends, Extends-refl}
use build_system.Runner.Registry.{Cause, by_user}
use build_system.Runner.Worker.{
  Phase, idle, registered, leaving, ending, World, is_current, is_foreign,
}

-- The phases with a claimed build.
abbrev pub holds : Phase → Bool
holds idle = false
holds registered = false
holds leaving = false
holds _ = true

-- A final status that the cause allows.
abbrev pub is_due : Phase → Option Cause → Bool
is_due (ending success) cause = true
is_due (ending failed) cause = true
is_due (ending canceled) (some by_user) = true
is_due (ending s) cause = false
is_due _ cause = true

abbrev pub Waits : Build → Type 0
Waits b = is pending b ≡ true → is_local b ≡ true

abbrev pub IsHeld : Build → Type 0
IsHeld b = (is running b && is_local b) ≡ true

pub record IsOwned (w : World) : Type 0 where
  pub sound : IsSound w.build
  pub waiting : Waits w.build
  pub held : is_current w ≡ true → holds w.phase ≡ true → IsHeld w.build
  pub due : is_due w.phase w.runner.cause ≡ true
  pub remote : w.unfit ≡ true → is_local w.build ≡ false

-- What any move may do to a row.
pub record Rests (b b' : Build) : Type 0 where
  pub extends : Extends b b'
  pub waiting : Waits b'
  pub same_id : b'.id ≡ b.id
  pub away : is_local b ≡ false → is_local b' ≡ false
  pub frozen : terminal b.status ≡ true → b' ≡ b

pub Rests-refl : (b : Build) → IsSound b → Waits b → Rests b b
Rests-refl b h k = record {
  extends = Extends-refl b h;
  waiting = k;
  same_id = refl;
  away = λ e. e;
  frozen = λ e. refl;
}

-- What holds of a row whatever its log, holds after an append.
pub with_note-after :
    (P : Build → Type 0) (b b' : Build) (note : List ℕ)
    → P b
    → ((l : BuildLog) → P (record b' { log = l }))
    → P (after b (with_note note b'))
unfolding with_note logged
with_note-after P b b' note h k = go (append_build_log b'.log note)
  where
    go : (o : Option (BuildLog × ℕ)) → P (after b (logged o b'))
    go none = h
    go (some (l, start)) = k l

pub after-same_id : (b : Build) (c : Change) → Ensures (Follows b) c → (after b c).id ≡ b.id
after-same_id b skip f = refl
after-same_id b rollback f = refl
after-same_id b (write b') f = f.same_key.0

pub after-Extends :
    (b : Build) (c : Change) → IsSound b → Ensures (Follows b) c → Extends b (after b c)
after-Extends b c h f =
    let (sound, grown) = after-Follows b c h f in record { sound = sound; grown = grown }

run_op-Waits : (o : Op) (b : Build) → Waits b → Waits (after b (run_op o b))
unfolding run_op claim_build claim_for_agent heartbeat_build request_agent_cancel
    cancel_pending_build finish_agent_build fail_pending_build requeue_build_with_note
    append_agent_build_log fail_stale
run_op-Waits (claims now) b h = ground (arith, h)
run_op-Waits (claims_for now agent) b h = ground (arith, h)
run_op-Waits (beats now agent) b h = ground (arith, h)
run_op-Waits asks_cancel b h = ground (arith, h)
run_op-Waits (cancels now) b h =
    if_rule (λ c. Waits (after b c)) (is pending b) _ _
      (λ e. with_note-after Waits b _ _ h (λ l k. absurd (cc k))) λ e. h
run_op-Waits (finishes now agent s final) b h = ground (arith, h, final)
run_op-Waits (fails_pending now note) b h =
    if_rule (λ c. Waits (after b c)) (is pending b) _ _
      (λ e. with_note-after Waits b _ _ h (λ l k. absurd (cc k))) λ e. h
run_op-Waits requeues b h =
    if_rule (λ c. Waits (after b c))
      (is running b && ltb b.requeues max_build_requeues && is_local b) _ _
      (λ e. with_note-after Waits b _ _ h (λ l k. ground (arith, e))) λ e. h
run_op-Waits (uploads now agent expected bytes) b h =
    if_rule (λ c. Waits (after b c))
      (is running b && str_eq b.agent agent && (state_of b.log).total_bytes == expected) _ _
      (λ e. with_note-after Waits b _ _ h (λ l. h)) λ e. h
run_op-Waits (sweeps floor now note) b h =
    if_rule (λ c. Waits (after b c)) (is running b && gives_up floor now b) _ _
      (λ e. with_note-after Waits b _ _ h (λ l k. absurd (cc k))) λ e. h

-- An agent's row stays an agent's.
run_op-away :
    (o : Op) (b : Build) → Waits b → is_local b ≡ false → is_local (after b (run_op o b)) ≡ false
unfolding run_op claim_build claim_for_agent heartbeat_build request_agent_cancel
    cancel_pending_build finish_agent_build fail_pending_build requeue_build_with_note
    append_agent_build_log fail_stale
run_op-away (claims now) b h k = ground (arith, h, k)
run_op-away (claims_for now agent) b h k = ground (arith, h, k)
run_op-away (beats now agent) b h k = ground (arith, h, k)
run_op-away asks_cancel b h k = ground (arith, h, k)
run_op-away (cancels now) b h k =
    if_rule (λ c. is_local (after b c) ≡ false) (is pending b) _ _
      (λ e. with_note-after (λ c. is_local c ≡ false) b _ _ k (λ l. k)) λ e. k
run_op-away (finishes now agent s final) b h k = ground (arith, h, k)
run_op-away (fails_pending now note) b h k =
    if_rule (λ c. is_local (after b c) ≡ false) (is pending b) _ _
      (λ e. with_note-after (λ c. is_local c ≡ false) b _ _ k (λ l. k)) λ e. k
run_op-away requeues b h k =
    if_rule (λ c. is_local (after b c) ≡ false)
      (is running b && ltb b.requeues max_build_requeues && is_local b) _ _
      (λ e. absurd (ground (arith, e, k))) λ e. k
run_op-away (uploads now agent expected bytes) b h k =
    if_rule (λ c. is_local (after b c) ≡ false)
      (is running b && str_eq b.agent agent && (state_of b.log).total_bytes == expected) _ _
      (λ e. with_note-after (λ c. is_local c ≡ false) b _ _ k (λ l. k)) λ e. k
run_op-away (sweeps floor now note) b h k =
    if_rule (λ c. is_local (after b c) ≡ false) (is running b && gives_up floor now b) _ _
      (λ e. with_note-after (λ c. is_local c ≡ false) b _ _ k (λ l. k)) λ e. k

pub run_op-Rests : (o : Op) (b : Build) → IsSound b → Waits b → Rests b (after b (run_op o b))
run_op-Rests o b h k = record {
  extends = after-Extends b (run_op o b) h (run_op-Follows o b h);
  waiting = run_op-Waits o b k;
  same_id = after-same_id b (run_op o b) (run_op-Follows o b h);
  away = run_op-away o b k;
  frozen = λ e. ap (after b) (terminal_absorbs o b e);
}

-- A local row is no named agent's.
not_agents :
    (agent : String) (b : Build)
    → not (str_eq agent "") ≡ true
    → IsHeld b
    → str_eq b.agent agent ≡ false
not_agents agent b f h =
    ground (arith, f, h, eq_iff b.agent agent, eq_iff b.agent "", eq_iff agent "")

-- Nobody else touches a local running row.
pub foreign_skips : (o : Op) (b : Build) → is_foreign o ≡ true → IsHeld b → run_op o b ≡ skip
unfolding run_op claim_build claim_for_agent heartbeat_build request_agent_cancel
    cancel_pending_build finish_agent_build fail_pending_build requeue_build_with_note
    append_agent_build_log fail_stale
foreign_skips (claims now) b f h = absurd (cc f)
foreign_skips (claims_for now agent) b f h = ground (arith, f, h)
foreign_skips (beats now agent) b f h =
    ground (arith, f, h, not_agents agent b, eq_iff b.agent agent, eq_iff b.agent "")
foreign_skips asks_cancel b f h = ground (arith, f, h)
foreign_skips (cancels now) b f h = ground (arith, f, h)
foreign_skips (finishes now agent s final) b f h = ground (arith, f, h, not_agents agent b f h)
foreign_skips (fails_pending now note) b f h = ground (arith, f, h)
foreign_skips requeues b f h = absurd (cc f)
foreign_skips (uploads now agent expected bytes) b f h =
    ground (arith, f, h, not_agents agent b f h)
foreign_skips (sweeps floor now note) b f h = absurd (cc f)
