-- ===== src/Agents/Polls.antt =====
-- The count of open claims of each agent, under any sequence of calls of the registry.
use build_system.Prelude.{
  ℕ, suc, ◌-◌, ◌≤◌, ◌≡◌, ◌∙◌, ap, sym, subst, refl, inl, inr, String, Bool, true, false, ◌&&◌, List,
  [], ◌∷◌, Option, none, some, ltb, ◌==◌, if_rule, Bool-cases, if◌then◌else◌, arith, some-injective,
}
use build_system.Prelude.Int.{ℤ}
use build_system.Prelude.Text.{str_eq, eq_iff}
use build_system.Agents.Registry.{
  Sighting, Registry, new_registry, put, sighting_or, doubled, polled, poll_started, find_poll,
  drop_poll, ended, end_poll, poll_ended, is_recent, persist_at, should_persist, with_skew, minus,
  note_clock, forget,
}

abbrev pub polling_of : Option Sighting → ℕ
polling_of none = 0
polling_of (some s) = s.polling

-- How many polls of a name have not ended.
abbrev pub open_polls : String → List (ℕ × String) → ℕ
open_polls n [] = 0
open_polls n ((k, name) ∷ ps) =
    let rest = open_polls n ps in if str_eq n name then suc rest else rest

pub data Call : Type 0 where
  starts : ℕ → String → List String → String → Call
  ends_poll : ℕ → ℕ → Call
  persists : ℕ → ℕ → String → Call
  notes : ℕ → String → Option ℕ → Call
  forgets : String → Call

unfoldable pub perform : Call → Registry → Registry
perform (starts now name executors scheme) r = poll_started now name executors scheme r
perform (ends_poll now k) r = poll_ended now k r
perform (persists now interval name) r = (should_persist now interval name r).0
perform (notes now name clock) r = note_clock now name clock r
perform (forgets name) r = forget name r

unfoldable pub run : List Call → Registry → Registry
run [] r = r
run (c ∷ cs) r = run cs (perform c r)

-- One name's counts before and after: one more poll, one less, or the same.
data Moves (p q p' q' : ℕ) : Type 0 where
  opens : p' ≡ suc p → q' ≡ suc q → Moves p q p' q'
  closes : p' ≡ p - 1 → q ≡ suc q' → Moves p q p' q'
  rests : p' ≡ p → q' ≡ q → Moves p q p' q'

abbrev MovesAt : String → Registry → Registry → Type 0
MovesAt n r r' =
    Moves (polling_of (r.seen n)) (open_polls n r.polls) (polling_of (r'.seen n))
      (open_polls n r'.polls)

sighting-polling : (now : ℕ) (o : Option Sighting) → (sighting_or now o).polling ≡ polling_of o
sighting-polling now none = refl
sighting-polling now (some s) = refl

doubled-polling :
    (now : ℕ) (s : Sighting) (b : Bool) → (if b then doubled now s else s).polling ≡ s.polling
unfolding doubled
doubled-polling now s b =
    if_rule (λ (x : Sighting). x.polling ≡ s.polling) b _ _ (λ e. refl) λ e. refl

poll_started-Moves :
    (now : ℕ) (name : String) (executors : List String) (scheme n : String) (r : Registry)
    → MovesAt n r (poll_started now name executors scheme r)
unfolding poll_started
poll_started-Moves now name executors scheme n r =
    let s = polled now executors scheme (sighting_or now (r.seen name)) in
    if_rule (λ (x : Registry). MovesAt n r x) (str_eq name "") _ _ (λ e. rests refl refl)
      λ e. elim (Bool-cases (str_eq n name)) [
        | inl same ↦
            opens
              (ap
                  (λ b.
                    polling_of
                      (if b then some (if ltb 1 s.polling then doubled now s else s) else r.seen n))
                  same
                ∙ doubled-polling now s (ltb 1 s.polling)
                ∙ ap suc (sighting-polling now (r.seen name))
                ∙ ap (λ m. suc (polling_of (r.seen m))) (sym ((eq_iff n name).0 same)))
              (ap (λ b. if b then suc (open_polls n r.polls) else open_polls n r.polls) same)
        | inr other ↦
            rests
              (ap
                (λ b.
                  polling_of
                    (if b then some (if ltb 1 s.polling then doubled now s else s) else r.seen n))
                other)
              (ap (λ b. if b then suc (open_polls n r.polls) else open_polls n r.polls) other)
      ]

ended-polling : (now : ℕ) (o : Option Sighting) → polling_of (ended now o) ≡ polling_of o - 1
ended-polling now none = omega arith
ended-polling now (some s) = refl

drop_poll-open :
    (n name : String) (k : ℕ) (ps : List (ℕ × String))
    → find_poll k ps ≡ some name
    → open_polls n ps ≡ (
        if str_eq n name
        then suc (open_polls n (drop_poll k ps))
        else open_polls n (drop_poll k ps))
unfolding find_poll drop_poll
drop_poll-open n name k [] e = absurd (cc)
drop_poll-open n name k ((j, m) ∷ ps) e =
    let whole = open_polls n ((j, m) ∷ ps) in
    let P = λ (b : Bool).
      (if b then some m else find_poll k ps) ≡ some name
      → whole ≡ (
          if str_eq n name
          then suc (open_polls n (if b then ps else (j, m) ∷ drop_poll k ps))
          else open_polls n (if b then ps else (j, m) ∷ drop_poll k ps)) in
    let hit : P true = λ h.
      ap (λ x. if str_eq n x then suc (open_polls n ps) else open_polls n ps)
        (some-injective _ _ h) in
    let miss : P false = λ h. ground (arith, drop_poll-open n name k ps h) in
    elim (Bool-cases (j == k)) [
      | inl found ↦ subst P (sym found) hit e
      | inr other ↦ subst P (sym other) miss e
    ]

end_poll-Moves :
    (now k : ℕ) (o : Option String) (n : String) (r : Registry)
    → find_poll k r.polls ≡ o
    → MovesAt n r (end_poll now k o r)
end_poll-Moves now k none n r e = rests refl refl
end_poll-Moves now k (some name) n r e =
    let count = drop_poll-open n name k r.polls e in
    elim (Bool-cases (str_eq n name)) [
      | inl same ↦
          closes
            (ap (λ b. polling_of (if b then ended now (r.seen name) else r.seen n)) same
              ∙ ended-polling now (r.seen name)
              ∙ ap (λ m. polling_of (r.seen m) - 1) (sym ((eq_iff n name).0 same)))
            (ground (arith, count, same))
      | inr other ↦
          rests (ap (λ b. polling_of (if b then ended now (r.seen name) else r.seen n)) other)
            (ground (arith, count, other))
    ]

-- A change of a sighting that leaves its count alone.
put-Moves :
    (name : String) (o : Option Sighting) (n : String) (r : Registry)
    → polling_of o ≡ polling_of (r.seen name)
    → MovesAt n r (put name o r)
put-Moves name o n r e =
    rests
      (if_rule (λ x. polling_of x ≡ polling_of (r.seen n)) (str_eq n name) _ _
        (λ same. e ∙ ap (λ m. polling_of (r.seen m)) (sym ((eq_iff n name).0 same))) λ other. refl)
      refl

with_skew-polling : (d : ℤ) (o : Option Sighting) → polling_of (with_skew d o) ≡ polling_of o
with_skew-polling d none = refl
with_skew-polling d (some s) = refl

persist_at-Moves :
    (now interval : ℕ) (name : String) (o : Option Sighting) (n : String) (r : Registry)
    → r.seen name ≡ o
    → MovesAt n r (persist_at now interval name o r).0
persist_at-Moves now interval name none n r e = rests refl refl
persist_at-Moves now interval name (some s) n r e =
    if_rule (λ (x : Registry × Bool). MovesAt n r x.0) (is_recent now interval s.last_persist) _ _
      (λ k. rests refl refl) λ k. put-Moves name _ n r (ap polling_of (sym e))

abbrev pub keeps_names : Call → Bool
keeps_names (forgets name) = false
keeps_names _ = true

perform-Moves :
    (c : Call) (n : String) (r : Registry) → keeps_names c ≡ true → MovesAt n r (perform c r)
unfolding perform poll_ended should_persist note_clock
perform-Moves (starts now name executors scheme) n r h =
    poll_started-Moves now name executors scheme n r
perform-Moves (ends_poll now k) n r h = end_poll-Moves now k (find_poll k r.polls) n r refl
perform-Moves (persists now interval name) n r h =
    if_rule (λ (x : Registry × Bool). MovesAt n r x.0) (str_eq name "") _ _ (λ e. rests refl refl)
      λ e. persist_at-Moves now interval name (r.seen name) n r refl
perform-Moves (notes now name none) n r h = rests refl refl
perform-Moves (notes now name (some clock)) n r h =
    if_rule (λ (x : Registry). MovesAt n r x) (str_eq name "") _ _ (λ e. rests refl refl)
      λ e. put-Moves name _ n r (with_skew-polling (minus clock now) (r.seen name))
perform-Moves (forgets name) n r h = absurd (cc h)

abbrev pub all_keep : List Call → Bool
all_keep [] = true
all_keep (c ∷ cs) = keeps_names c && all_keep cs

moved_exact : {p q p' q' : ℕ} → Moves p q p' q' → p ≡ q → p' ≡ q'
moved_exact (opens a b) h = omega (arith, a, b, h)
moved_exact (closes a b) h = omega (arith, a, b, h)
moved_exact (rests a b) h = omega (arith, a, b, h)

moved_bounded : {p q p' q' : ℕ} → Moves p q p' q' → p ≤ q → p' ≤ q'
moved_bounded (opens a b) h = omega (arith, a, b, h)
moved_bounded (closes a b) h = omega (arith, a, b, h)
moved_bounded (rests a b) h = omega (arith, a, b, h)

run_exact :
    (cs : List Call) (n : String) (r : Registry)
    → all_keep cs ≡ true
    → polling_of (r.seen n) ≡ open_polls n r.polls
    → polling_of ((run cs r).seen n) ≡ open_polls n (run cs r).polls
unfolding run
run_exact [] n r k h = h
run_exact (c ∷ cs) n r k h =
    run_exact cs n (perform c r) (ground (arith, k))
      (moved_exact (perform-Moves c n r (ground (arith, k))) h)

-- From a new registry, under any sequence of calls but Forget, with any clocks and in any order of the
-- ends of polls, repeated ends included, the count of a sighting is the number of its open polls.
pub polling_exact :
    (now : ℕ) (cs : List Call) (n : String)
    → all_keep cs ≡ true
    → let r = run cs (new_registry now) in polling_of (r.seen n) ≡ open_polls n r.polls
polling_exact now cs n k = run_exact cs n (new_registry now) k refl

forget-bounded :
    (name n : String) (r : Registry)
    → polling_of (r.seen n) ≤ open_polls n r.polls
    → polling_of ((forget name r).seen n) ≤ open_polls n (forget name r).polls
unfolding forget
forget-bounded name n r h =
    if_rule (λ o. polling_of o ≤ open_polls n r.polls) (str_eq n name) _ _ (λ e. omega arith) λ e. h

perform-bounded :
    (c : Call) (n : String) (r : Registry)
    → polling_of (r.seen n) ≤ open_polls n r.polls
    → polling_of ((perform c r).seen n) ≤ open_polls n (perform c r).polls
unfolding perform
perform-bounded (forgets name) n r h = forget-bounded name n r h
perform-bounded (starts now name executors scheme) n r h =
    moved_bounded (perform-Moves (starts now name executors scheme) n r refl) h
perform-bounded (ends_poll now k) n r h = moved_bounded (perform-Moves (ends_poll now k) n r refl) h
perform-bounded (persists now interval name) n r h =
    moved_bounded (perform-Moves (persists now interval name) n r refl) h
perform-bounded (notes now name clock) n r h =
    moved_bounded (perform-Moves (notes now name clock) n r refl) h

run_bounded :
    (cs : List Call) (n : String) (r : Registry)
    → polling_of (r.seen n) ≤ open_polls n r.polls
    → polling_of ((run cs r).seen n) ≤ open_polls n (run cs r).polls
unfolding run
run_bounded [] n r h = h
run_bounded (c ∷ cs) n r h = run_bounded cs n (perform c r) (perform-bounded c n r h)

-- From a new registry, under any sequence of calls, Forget included, no sighting counts more polls than
-- are open under its name.
pub polling_bounded :
    (now : ℕ) (cs : List Call) (n : String)
    → let r = run cs (new_registry now) in polling_of (r.seen n) ≤ open_polls n r.polls
polling_bounded now cs n = run_bounded cs n (new_registry now) (omega arith)
