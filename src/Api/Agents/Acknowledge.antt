-- ===== src/Api/Agents/Acknowledge.antt =====
-- The whole upload: each answer, and a repeated request.
use build_system.Prelude.{
  ℕ, ◌+◌, ◌-◌, ◌≤◌, ◌<◌, min, ◌≡◌, sym, subst, refl, String, true, false, not, ◌&&◌, List, [], ◌∷◌,
  Option, length, take, drop, length-drop, ltb, if_rule, arith,
}
use build_system.Prelude.Int.{pos}
use build_system.Prelude.Text.{str_eq, same_bytes}
use build_system.Logbus.{Bus}
use build_system.Db.BuildLog.{build_log_slice}
use build_system.Db.BuildLog.Append.{contents, build_log_len_lem}
use build_system.Models.Status.{running}
use build_system.Db.Builds.{Build, is}
use build_system.Db.Builds.Lifecycle.{Op, IsSound}
use build_system.Db.Builds.Runs.{run_ops}
use build_system.Api.Agents.{
  Reply, stored, Outcome, append_tail, new_tail, is_empty, upload_from, unless, agent_owns,
  handle_agent_log, seed_bus,
}
use build_system.Db.Builds.Extends.{Extends-refl, Extends-length, run_ops-Extends}
use build_system.Api.Agents.Extends.{HasBytes-Extends}
use build_system.Api.Agents.Upload.{
  IsRight, beat-IsRight, overlap_checked, covered, append_tail-IsRight,
}

empty-length : (l : List ℕ) → is_empty l ≡ true → length l ≡ 0
empty-length [] e = refl
empty-length (x ∷ l) e = absurd (cc e)

full-length : (l : List ℕ) → is_empty l ≡ false → 0 < length l
full-length [] e = absurd (cc e)
full-length (x ∷ l) e = omega arith

no_tail_left :
    (total at : ℕ) (bytes : List ℕ)
    → at ≤ total
    → is_empty (new_tail total at bytes) ≡ true
    → at + length bytes ≤ total
unfolding new_tail
no_tail_left total at bytes h =
    if_rule (λ l. is_empty l ≡ true → at + length bytes ≤ total) (ltb total (at + length bytes)) _ _
      (λ k e.
        ground
          (arith, k, h, empty-length (drop (total - at) bytes) e, length-drop (total - at) bytes))
      λ k e. ground (arith, k)

tail_left :
    (total at : ℕ) (bytes : List ℕ)
    → is_empty (new_tail total at bytes) ≡ false
    → (total < at + length bytes) × (new_tail total at bytes ≡ drop (total - at) bytes)
unfolding new_tail
tail_left total at bytes =
    if_rule (λ l. is_empty l ≡ false → (total < at + length bytes) × (l ≡ drop (total - at) bytes))
      (ltb total (at + length bytes)) _ _ (λ k e. (ground (arith, k), refl)) λ k e. absurd (cc e)

upload_from-IsRight :
    (now : ℕ) (between later : List Op) (agent : String) (at : ℕ) (bytes : List ℕ) (b : Build)
    (bus : Bus)
    → IsSound b
    → IsRight b at bytes
        (upload_from now between later agent at bytes (length (contents b.log)) b bus)
unfolding upload_from
upload_from-IsRight now between later agent at bytes b bus h =
    let total = length (contents b.log) in
    let overlap = min (total - at) (length bytes) in
    if_rule (IsRight b at bytes) (ltb total at) _ _
      (λ e. record { extends = Extends-refl b h; told = tt })
      λ le.
        if_rule (IsRight b at bytes)
          (ltb 0 overlap
            && not (same_bytes (build_log_slice b.log at overlap) (take overlap bytes)))
          _ _ (λ e. record { extends = Extends-refl b h; told = tt })
          λ agrees.
            let same = overlap_checked b at bytes h.stored agrees in
            if_rule (IsRight b at bytes) (is_empty (new_tail total at bytes)) _ _
              (λ e.
                let x = run_ops-Extends later b h in
                let all = no_tail_left total at bytes (ground (arith, le)) e in
                beat-IsRight now agent b (run_ops later b) at total bytes bus x
                  (HasBytes-Extends b (run_ops later b) at bytes x
                    (covered (contents b.log) at bytes all same))
                  all (Extends-length b (run_ops later b) x))
              λ e.
                let new = tail_left total at bytes e in
                subst
                  (λ t. IsRight b at bytes (
                    append_tail now later agent total t (run_ops between b)
                      (seed_bus b.id b.log total bus)))
                  (sym new.1)
                  (append_tail-IsRight now between later agent at bytes b
                    (seed_bus b.id b.log total bus) h (ground (arith, le)) new.0 same)

owned-IsRight :
    (agent : String) (b : Build) (at : ℕ) (bytes : List ℕ) (bus : Bus) (o : Outcome)
    → IsSound b
    → IsRight b at bytes o
    → IsRight b at bytes (unless (agent_owns agent b) b bus o)
unfolding agent_owns
owned-IsRight agent b at bytes bus o h x =
    let P = λ (r : Option Reply). IsRight b at bytes (unless r b bus o) in
    if_rule P (str_eq agent "") _ _ (λ e. record { extends = Extends-refl b h; told = tt })
      λ e.
        if_rule P (not (is running b)) _ _ (λ e'. record { extends = Extends-refl b h; told = tt })
          λ e'.
            if_rule P (str_eq b.agent agent) _ _ (λ mine. x)
              λ other. record { extends = Extends-refl b h; told = tt }

-- Whatever an agent uploads, at any offset, and whatever guarded operations other requests do to the row
-- between the handler's statements: the row stays sound, its log only grows at its end, and where the
-- answer acknowledges a length, the uploaded bytes stand in the log at their offset, and the length lies
-- between their end and the end of the log.
pub handle_agent_log-IsRight :
    (now : ℕ) (between later : List Op) (agent : String) (at : ℕ) (bytes : List ℕ) (b : Build)
    (bus : Bus)
    → IsSound b
    → IsRight b at bytes (handle_agent_log now between later agent (pos at) bytes b bus)
unfolding handle_agent_log
handle_agent_log-IsRight now between later agent at bytes b bus h =
    owned-IsRight agent b at bytes bus _ h (
      subst (λ n. IsRight b at bytes (upload_from now between later agent at bytes n b bus))
        (sym (build_log_len_lem b.log h.stored))
        (upload_from-IsRight now between later agent at bytes b bus h))
