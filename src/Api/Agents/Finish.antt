-- ===== src/Api/Agents/Finish.antt =====
-- Reporting a build's end: the answer, and what the row records.
use build_system.Prelude.{
  ℕ, ◌≡◌, refl, String, true, false, not, ◌&&◌, List, Option, if_rule, arith,
}
use build_system.Prelude.Text.{str_eq}
use build_system.Models.Status.{BuildStatus, running, terminal}
use build_system.Logbus.{Bus}
use build_system.Db.Builds.{Build, Change, skip, rollback, write, is, finish_agent_build}
use build_system.Db.Builds.Lifecycle.{
  Op, finishes, run_op, IsSound, Follows, Ensures, run_op-Follows,
}
use build_system.Db.Builds.Runs.{run_ops}
use build_system.Api.Agents.{
  Reply, decided, already, Outcome, answer, unless, agent_owns, not_won, finished,
  handle_agent_finish,
}
use build_system.Db.Builds.Extends.{Extends, Extends-refl, Extends-trans, run_ops-Extends}

abbrev pub IsRecorded : BuildStatus → Reply → Build → Type 0
IsRecorded s (decided t) b = (t ≡ s) × (b.status ≡ t) × (terminal t ≡ true)
IsRecorded s (already t) b = (b.status ≡ t) × (terminal t ≡ true)
IsRecorded s _ b = Unit

pub record IsFinished (b : Build) (s : BuildStatus) (o : Outcome) : Type 0 where
  pub extends : Extends b o.build
  pub recorded : IsRecorded s o.reply o.build
  pub kept : terminal b.status ≡ true → o.build ≡ b

refused :
    (b : Build) (s : BuildStatus) (bus : Bus) (r : Reply)
    → IsSound b
    → IsRecorded s r b
    → IsFinished b s (answer r b bus)
refused b s bus r h k = record { extends = Extends-refl b h; recorded = k; kept = λ e. refl }

not_won-IsFinished :
    (b b' : Build) (s : BuildStatus) (bus : Bus)
    → Extends b b'
    → terminal b.status ≡ false
    → IsFinished b s (not_won b' bus)
unfolding not_won
not_won-IsFinished b b' s bus x open_build =
    if_rule (IsFinished b s) (terminal b'.status) _ _
      (λ e. record { extends = x; recorded = (refl, e); kept = λ k. cc (k, open_build) })
      λ e. record { extends = x; recorded = tt; kept = λ k. cc (k, open_build) }

finished-IsFinished :
    (now : ℕ) (later : List Op) (s : BuildStatus) (started : Option ℕ) (b b' : Build) (bus : Bus)
    (c : Change)
    → Extends b b'
    → terminal b.status ≡ false
    → terminal s ≡ true
    → Ensures (Follows b') c
    → Ensures (λ (x : Build). x.status ≡ s) c
    → IsFinished b s (finished now later s started b' bus c)
finished-IsFinished now later s started b b' bus skip x open_build final f e =
    not_won-IsFinished b (run_ops later b') s bus
      (Extends-trans b b' (run_ops later b') x (run_ops-Extends later b' x.sound)) open_build
finished-IsFinished now later s started b b' bus rollback x open_build final f e = absurd f
finished-IsFinished now later s started b b' bus (write b'') x open_build final f e = record {
  extends = Extends-trans b b' b'' x (record { sound = f.sound; grown = f.grown });
  recorded = (refl, e, final);
  kept = λ k. cc (k, open_build);
}

finish_agent-status :
    (now : ℕ) (agent : String) (s : BuildStatus) (b : Build)
    → Ensures (λ (x : Build). x.status ≡ s) (finish_agent_build now agent s b)
unfolding finish_agent_build
finish_agent-status now agent s b =
    if_rule (Ensures (λ (x : Build). x.status ≡ s)) (is running b && str_eq b.agent agent) _ _
      (λ e. refl) λ e. tt

-- Whatever guarded operations other requests do to the row meanwhile: an answer that the build is decided
-- names the reported status, an answer that it already was names a status that may be the reported one
-- too, and each names the final status that the row then records; a build that was final before the
-- request is left as it is; and the row stays sound with its log growing at the end only.
pub handle_agent_finish-IsFinished :
    (now : ℕ) (between later : List Op) (agent : String) (s : BuildStatus) (b : Build) (bus : Bus)
    → IsSound b
    → IsFinished b s (handle_agent_finish now between later agent s b bus)
unfolding handle_agent_finish agent_owns run_op
handle_agent_finish-IsFinished now between later agent s b bus h =
    let b' = run_ops between b in
    let x = run_ops-Extends between b h in
    if_rule (IsFinished b s) (not (terminal s)) _ _ (λ e. refused b s bus _ h tt)
      λ final.
        if_rule (IsFinished b s) (terminal b.status) _ _ (λ e. refused b s bus _ h (refl, e))
          λ open_build.
            let P = λ (r : Option Reply). IsFinished b s (
              unless r b bus
                (finished now later s b.started_at b' bus (finish_agent_build now agent s b'))) in
            let over : terminal s ≡ true = ground (arith, final) in
            if_rule P (str_eq agent "") _ _ (λ e. refused b s bus _ h tt)
              λ e.
                if_rule P (not (is running b)) _ _ (λ e'. refused b s bus _ h tt)
                  λ e'.
                    if_rule P (str_eq b.agent agent) _ _
                      (λ mine.
                        finished-IsFinished now later s b.started_at b b' bus
                          (finish_agent_build now agent s b') x open_build over
                          (run_op-Follows (finishes now agent s over) b' x.sound)
                          (finish_agent-status now agent s b'))
                      λ other. refused b s bus _ h tt
