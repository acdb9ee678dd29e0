-- ===== src/Api/Agents/Upload.antt =====
-- What an upload that is acknowledged has done, whatever other requests do to the row meanwhile.
use build_system.Prelude.{
  ℕ, ◌+◌, ◌-◌, ◌≤◌, ◌<◌, min, ◌≡◌, ◌∙◌, ap, sym, subst, refl, inl, inr, Bool-cases, String, false,
  not, ◌&&◌, List, [], ◌∷◌, ◌++◌, Option, none, some, length, take, drop, slice, length-append,
  length-drop, take-append-drop, take_all, slice_append_all, ltb, ◌==◌, if_rule, arith,
}
use mathlib.Core.List.{append-nil}
use build_system.Prelude.Int.{pos}
use build_system.Prelude.Text.{str_eq, same_bytes, same_bytes-eq}
use build_system.Models.Status.{running}
use build_system.Logbus.{Bus, publish_at}
use build_system.Db.BuildLog.{BuildLog, state_of, build_log_slice, append_build_log}
use build_system.Db.BuildLog.Append.{
  IsStored, contents, AppendsTo, append_build_log-AppendsTo, total-contents,
}
use build_system.Db.BuildLog.Slice.{build_log_slice_lem}
use build_system.Db.Builds.{
  Build, Change, skip, rollback, write, is, with_note, logged, heartbeat_build,
  append_agent_build_log,
}
use build_system.Db.Builds.Lifecycle.{
  Op, beats, uploads, run_op, IsSound, Follows, Ensures, run_op-Follows,
}
use build_system.Db.Builds.Runs.{run_ops}
use build_system.Api.Agents.{Reply, stored, Outcome, beaten, beat, appended, append_tail}
use build_system.Db.Builds.Extends.{
  Follows-Extends, Extends, Extends-length, Extends-trans, run_ops-Extends,
}
use build_system.Api.Agents.Extends.{HasBytes, HasBytes-Extends}

-- An acknowledgement is true: the bytes are stored at their offset, and the length that it tells has
-- been reached.
abbrev pub IsTrueReply : ℕ → List ℕ → Reply → Build → Type 0
IsTrueReply at bytes (stored n cancel) b =
    HasBytes (contents b.log) at bytes × (at + length bytes ≤ n) × (n ≤ length (contents b.log))
IsTrueReply at bytes _ b = Unit

pub record IsRight (b : Build) (at : ℕ) (bytes : List ℕ) (o : Outcome) : Type 0 where
  pub extends : Extends b o.build
  pub told : IsTrueReply at bytes o.reply o.build

beaten-IsRight :
    (b0 b : Build) (at n : ℕ) (bytes : List ℕ) (bus : Bus) (c : Change)
    → Extends b0 b
    → Ensures (Follows b) c
    → HasBytes (contents b.log) at bytes
    → at + length bytes ≤ n
    → n ≤ length (contents b.log)
    → IsRight b0 at bytes (beaten n b bus c)
beaten-IsRight b0 b at n bytes bus skip e f h k m = record { extends = e; told = tt }
beaten-IsRight b0 b at n bytes bus rollback e f h k m = absurd f
beaten-IsRight b0 b at n bytes bus (write b') e f h k m =
    let step = Follows-Extends b b' f in
    record {
      extends = Extends-trans b0 b b' e step;
      told = (HasBytes-Extends b b' at bytes step h, k, omega (arith, m, Extends-length b b' step));
    }

pub beat-IsRight :
    (now : ℕ) (agent : String) (b0 b : Build) (at n : ℕ) (bytes : List ℕ) (bus : Bus)
    → Extends b0 b
    → HasBytes (contents b.log) at bytes
    → at + length bytes ≤ n
    → n ≤ length (contents b.log)
    → IsRight b0 at bytes (beat now agent n b bus)
unfolding run_op
beat-IsRight now agent b0 b at n bytes bus e h k m =
    beaten-IsRight b0 b at n bytes bus (heartbeat_build now agent b) e
      (run_op-Follows (beats now agent) b e.sound) h k m

-- An append by the agent adds exactly its bytes, and only where the log has the expected length.
abbrev Adds : ℕ → List ℕ → Build → Build → Type 0
Adds expected bytes b b' =
    (contents b'.log ≡ contents b.log ++ bytes) × (length (contents b.log) ≡ expected)

append_agent-Adds :
    (now expected : ℕ) (agent : String) (bytes : List ℕ) (b : Build)
    → IsSound b
    → Ensures (Adds expected bytes b) (append_agent_build_log now agent expected bytes b)
unfolding append_agent_build_log with_note logged
append_agent-Adds now expected agent bytes b h =
    if_rule (Ensures (Adds expected bytes b))
      (is running b && str_eq b.agent agent && (state_of b.log).total_bytes == expected) _ _
      (λ e.
        go (append_build_log b.log bytes) (append_build_log-AppendsTo b.log bytes h.stored)
          (ground (arith, e, total-contents b.log h.stored)))
      λ e. tt
  where
    go :
        (o : Option (BuildLog × ℕ))
        → AppendsTo b.log bytes o
        → length (contents b.log) ≡ expected
        → Ensures (Adds expected bytes b) (logged o (record b { last_heartbeat_at = some now }))
    go none a k = a
    go (some (l, start)) a k = (a.1, k)

-- The bytes that overlap what is stored agree with it.
abbrev pub Overlaps : List ℕ → ℕ → List ℕ → Type 0
Overlaps l at bytes = let n = min (length l - at) (length bytes) in slice l at n ≡ take n bytes

pub overlap_checked :
    (b : Build) (at : ℕ) (bytes : List ℕ)
    → IsStored b.log
    → let n = min (length (contents b.log) - at) (length bytes) in
      (ltb 0 n && not (same_bytes (build_log_slice b.log at n) (take n bytes))) ≡ false
      → Overlaps (contents b.log) at bytes
overlap_checked b at bytes h e =
    let n = min (length (contents b.log) - at) (length bytes) in
    elim (Bool-cases (ltb 0 n)) [
      | inr none_left ↦
          let zero_bytes : 0 ≡ n = ground (arith, none_left) in
          subst (λ k. slice (contents b.log) at k ≡ take k bytes) zero_bytes refl
      | inl some_left ↦
          sym (build_log_slice_lem b.log at n h)
          ∙ same_bytes-eq (build_log_slice b.log at n) (take n bytes) (ground (arith, e, some_left))
    ]

pub covered :
    (l : List ℕ) (at : ℕ) (bytes : List ℕ)
    → at + length bytes ≤ length l
    → Overlaps l at bytes
    → HasBytes l at bytes
covered l at bytes h o =
    let all : min (length l - at) (length bytes) ≡ length bytes = omega (arith, h) in
    record {
      within = h;
      same =
          subst (λ k. slice l at k ≡ take k bytes) all o
          ∙ take_all (length bytes) bytes (omega arith);
    }

joined :
    (l : List ℕ) (at : ℕ) (bytes : List ℕ)
    → at ≤ length l
    → length l < at + length bytes
    → Overlaps l at bytes
    → HasBytes (l ++ drop (length l - at) bytes) at bytes
joined l at bytes h k o =
    let n = length bytes in
    let old = length l - at in
    let tail = drop old bytes in
    let part : min old n ≡ old = omega (arith, h, k) in
    let start : at - length l ≡ 0 = omega (arith, h) in
    record {
      within = omega (arith, length-append l tail, length-drop old bytes, h, k);
      same =
          slice_append_all l tail at n
          ∙ ap (λ x. x ++ slice tail (at - length l) (n - old))
              (take_all n (drop at l) (omega (arith, length-drop at l, k))
                ∙ sym (take_all old (drop at l) (omega (arith, length-drop at l)))
                ∙ subst (λ j. slice l at j ≡ take j bytes) part o)
          ∙ ap (λ j. take old bytes ++ slice tail j (n - old)) start
          ∙ ap (λ x. take old bytes ++ x)
              (take_all (n - old) tail (omega (arith, length-drop old bytes)))
          ∙ take-append-drop old bytes;
    }

length_nil : (l : List ℕ) → length l ≡ 0 → l ≡ []
length_nil [] h = refl
length_nil (x ∷ l) h = absurd (omega (arith, h))

-- What other requests did between the read and the append left the log alone, if its length is the same.
same_log :
    (b b' : Build)
    → Extends b b'
    → length (contents b'.log) ≡ length (contents b.log)
    → contents b'.log ≡ contents b.log
same_log b b' e h =
    let (more, same) = e.grown in
    same
    ∙ (let nothing =
          length_nil more (omega (arith, ap length same, length-append (contents b.log) more, h)) in
        ap (λ x. contents b.log ++ x) nothing ∙ append-nil (contents b.log))

appended-IsRight :
    (now : ℕ) (later : List Op) (agent : String) (at : ℕ) (bytes : List ℕ) (b0 b : Build)
    (bus : Bus) (c : Change)
    → let total = length (contents b0.log) in
      let tail = drop (total - at) bytes in
      Extends b0 b
      → at ≤ total
      → total < at + length bytes
      → Overlaps (contents b0.log) at bytes
      → Ensures (Follows b) c
      → Ensures (Adds total tail b) c
      → IsRight b0 at bytes (appended now later agent total tail b bus c)
appended-IsRight now later agent at bytes b0 b bus skip x le lt o f a = record {
  extends = x;
  told = tt;
}
appended-IsRight now later agent at bytes b0 b bus rollback x le lt o f a = absurd f
appended-IsRight now later agent at bytes b0 b bus (write b') x le lt o f a =
    let total = length (contents b0.log) in
    let tail = drop (total - at) bytes in
    let step = Follows-Extends b b' f in
    let rest = run_ops-Extends later b' f.sound in
    let old : contents b.log ≡ contents b0.log = same_log b0 b x a.1 in
    let now_has : HasBytes (contents b'.log) at bytes =
      subst (λ l. HasBytes l at bytes) (sym (a.0 ∙ ap (λ l. l ++ tail) old))
        (joined (contents b0.log) at bytes le lt o) in
    beat-IsRight now agent b0 (run_ops later b') at (total + length tail) bytes
      (publish_at bus b.id (pos total) tail)
      (Extends-trans b0 b (run_ops later b') x (Extends-trans b b' (run_ops later b') step rest))
      (HasBytes-Extends b' (run_ops later b') at bytes rest now_has)
      (omega (arith, length-drop (total - at) bytes, lt))
      (omega (
        arith,
        Extends-length b' (run_ops later b') rest,
        ap length a.0,
        length-append (contents b.log) tail,
        a.1,
      ))

pub append_tail-IsRight :
    (now : ℕ) (between later : List Op) (agent : String) (at : ℕ) (bytes : List ℕ) (b : Build)
    (bus : Bus)
    → let total = length (contents b.log) in
      IsSound b
      → at ≤ total
      → total < at + length bytes
      → Overlaps (contents b.log) at bytes
      → IsRight b at bytes
          (append_tail now later agent total (drop (total - at) bytes) (run_ops between b) bus)
unfolding append_tail run_op
append_tail-IsRight now between later agent at bytes b bus h le lt o =
    let total = length (contents b.log) in
    let tail = drop (total - at) bytes in
    let b' = run_ops between b in
    let x = run_ops-Extends between b h in
    appended-IsRight now later agent at bytes b b' bus
      (append_agent_build_log now agent total tail b') x le lt o
      (run_op-Follows (uploads now agent total tail) b' x.sound)
      (append_agent-Adds now total agent tail b' x.sound)
