-- ===== src/Auth/Guesses.antt =====
-- How many passwords may be tried.
use Prim.Native.Nat.{◌*◌}
use build_system.Prelude.{
  ℕ, ◌+◌, ◌-◌, ◌≤◌, ◌≡◌, ◌≢◌, ap, sym, subst, refl, Bool, true, false, List, [], ◌∷◌, ltb, if_rule,
  if◌then◌else◌, arith,
}
use build_system.Auth.{
  Bucket, allow_attempt, Login, garbled, wrong, right, LoginReply, too_many, checked, handle_login,
  refill_interval, full,
}

-- The logins that come one after the other, each with its time.
abbrev pub Later : ℕ → List (ℕ × Login) → Type 0
Later now [] = Unit
Later now ((t, l) ∷ ls) = (now ≤ t) × Later t ls

abbrev pub AllFail : List (ℕ × Login) → Type 0
AllFail [] = Unit
AllFail ((t, l) ∷ ls) = (l ≢ right) × AllFail ls

abbrev pub end_of : ℕ → List (ℕ × Login) → ℕ
end_of now [] = now
end_of now ((t, l) ∷ ls) = end_of t ls

abbrev pub tried : LoginReply → ℕ
tried too_many = 0
tried _ = 1

-- How many of them get past the limit.
unfoldable pub count_tried : List (ℕ × Login) → Bucket → ℕ
count_tried [] b = 0
count_tried ((t, l) ∷ ls) b =
    let (b', reply) = handle_login t l b in tried reply + count_tried ls b'

-- One attempt pays for what it passes.
record Paid (t : ℕ) (b : Bucket) (r : Bucket × Bool) : Type 0 where
  at : r.0.last_ref ≡ t
  cost : (if r.1 then refill_interval else 0) + r.0.attempts ≤ b.attempts + (t - b.last_ref)

allow_attempt-Paid : (t : ℕ) (b : Bucket) → Paid t b (allow_attempt t b)
unfolding allow_attempt
allow_attempt-Paid t b =
    let refilled = b.attempts + (t - b.last_ref) in
    let capped = if ltb full refilled then full else refilled in
    let few : capped ≤ refilled = ground arith in
    if_rule (Paid t b) (ltb capped refill_interval) _ _
      (λ e. record { at = refl; cost = omega (arith, few) })
      λ e. record { at = refl; cost = ground (arith, e, few) }

checked-Paid :
    (t : ℕ) (l : Login) (b : Bucket) (r : Bucket × Bool)
    → l ≢ right
    → Paid t b r
    → ((checked l r).0.last_ref ≡ t)
      × (tried (checked l r).1 * refill_interval + (checked l r).0.attempts
          ≤ b.attempts + (t - b.last_ref))
checked-Paid t garbled b (x, true) h p = (p.at, omega (arith, p.cost))
checked-Paid t wrong b (x, true) h p = (p.at, omega (arith, p.cost))
checked-Paid t right b (x, true) h p = absurd (h refl)
checked-Paid t garbled b (x, false) h p = (p.at, omega (arith, p.cost))
checked-Paid t wrong b (x, false) h p = (p.at, omega (arith, p.cost))
checked-Paid t right b (x, false) h p = absurd (h refl)

Later-bound : (now : ℕ) (ls : List (ℕ × Login)) → Later now ls → now ≤ end_of now ls
Later-bound now [] h = omega arith
Later-bound now ((t, l) ∷ ls) h = omega (arith, h.0, Later-bound t ls h.1)

-- Of logins that all fail, at any times, no more get past the limit than the bucket holds attempts and one
-- for every 15 seconds that pass.
pub guesses_bounded :
    (ls : List (ℕ × Login)) (b : Bucket)
    → Later b.last_ref ls
    → AllFail ls
    → count_tried ls b * refill_interval ≤ b.attempts + (end_of b.last_ref ls - b.last_ref)
unfolding count_tried handle_login
guesses_bounded [] b h k = omega arith
guesses_bounded ((t, l) ∷ ls) b h k =
    let r = handle_login t l b in
    let paid = checked-Paid t l b (allow_attempt t b) k.0 (allow_attempt-Paid t b) in
    let rest = guesses_bounded ls r.0 (subst (λ n. Later n ls) (sym paid.0) h.1) k.1 in
    let end = ap (λ n. end_of n ls) paid.0 in
    omega (arith, paid.1, rest, end, paid.0, h.0, Later-bound t ls h.1)
