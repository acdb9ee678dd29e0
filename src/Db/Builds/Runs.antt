-- ===== src/Db/Builds/Runs.antt =====
-- Sequences of guarded operations on one row: what is final, and what only grows.
use build_system.Prelude.{ℕ, ◌≡◌, ◌∙◌, ap, sym, refl, true, List, [], ◌∷◌, ◌++◌, arith}
use build_system.Models.Status.{terminal}
use build_system.Db.BuildLog.Append.{contents}
use build_system.Db.Builds.{
  Build, Change, skip, rollback, write, claim_build, claim_for_agent, heartbeat_build,
  request_agent_cancel, cancel_pending_build, finish_agent_build, fail_pending_build,
  requeue_build_with_note, append_agent_build_log, fail_stale,
}
use mathlib.Core.List.{append-nil, append_assoc}
use build_system.Db.Builds.Lifecycle.{
  Op, claims, claims_for, beats, asks_cancel, cancels, finishes, fails_pending, requeues, uploads,
  sweeps, run_op, IsSound, Follows, Ensures, run_op-Follows,
}

-- A finished build is never written again by any guarded operation: of two terminal decisions, the
-- first one wins.
pub terminal_absorbs : (o : Op) (b : Build) → terminal b.status ≡ true → run_op o b ≡ skip
unfolding run_op claim_build claim_for_agent heartbeat_build request_agent_cancel
    cancel_pending_build finish_agent_build fail_pending_build requeue_build_with_note
    append_agent_build_log fail_stale
terminal_absorbs (claims now) b h = ground (arith, h)
terminal_absorbs (claims_for now agent) b h = ground (arith, h)
terminal_absorbs (beats now agent) b h = ground (arith, h)
terminal_absorbs asks_cancel b h = ground (arith, h)
terminal_absorbs (cancels now) b h = ground (arith, h)
terminal_absorbs (finishes now agent s final) b h = ground (arith, h)
terminal_absorbs (fails_pending now note) b h = ground (arith, h)
terminal_absorbs requeues b h = ground (arith, h)
terminal_absorbs (uploads now agent expected bytes) b h = ground (arith, h)
terminal_absorbs (sweeps floor now note) b h = ground (arith, h)

-- The row after an operation, and after a sequence of them.
abbrev pub after : Build → Change → Build
after b skip = b
after b rollback = b
after b (write b') = b'

unfoldable pub run_ops : List Op → Build → Build
run_ops [] b = b
run_ops (o ∷ os) b = run_ops os (after b (run_op o b))

pub after-Follows :
    (b : Build) (c : Change)
    → IsSound b
    → Ensures (Follows b) c
    → IsSound (after b c)
      × ((extra : List ℕ) × (contents (after b c).log ≡ contents b.log ++ extra))
after-Follows b skip h e = (h, ([], sym (append-nil (contents b.log))))
after-Follows b rollback h e = absurd e
after-Follows b (write b') h e = (e.sound, e.grown)

-- Under any sequence of guarded operations, with any clocks, agents and bytes, a row stays sound and
-- its log only grows at the end; and a finished row does not change at all.
pub run_ops_lem :
    (os : List Op) (b : Build)
    → IsSound b
    → IsSound (run_ops os b)
      × ((extra : List ℕ) × (contents (run_ops os b).log ≡ contents b.log ++ extra))
      × (terminal b.status ≡ true → run_ops os b ≡ b)
unfolding run_ops
run_ops_lem [] b h = (h, ([], sym (append-nil (contents b.log))), λ k. refl)
run_ops_lem (o ∷ os) b h =
    let b' = after b (run_op o b) in
    let (sound, (extra, grown)) = after-Follows b (run_op o b) h (run_op-Follows o b h) in
    let (sound', (extra', grown'), frozen) = run_ops_lem os b' sound in
    (
      sound',
      (
        extra ++ extra',
        grown' ∙ ap (λ l. l ++ extra') grown ∙ append_assoc (contents b.log) extra extra',
      ),
      λ k.
          let same : b' ≡ b = ap (after b) (terminal_absorbs o b k) in
          frozen (ap (λ (x : Build). terminal x.status) same ∙ k) ∙ same,
    )
