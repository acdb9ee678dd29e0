-- ===== src/Notifications/Backoff.antt =====
-- The waits between attempts.
use Prim.Native.Nat.{◌*◌}
use build_system.Prelude.{
  ℕ, zero, suc, ◌+◌, ◌-◌, ◌≤◌, ◌≡◌, ◌∙◌, ap, sym, min, max, ltb, if_rule, if◌then◌else◌, arith,
}
use build_system.Notifications.Relay.{half_hour, whole_day, doubles, backoff}

-- Five seconds, doubled k times.
abbrev pub doubled : ℕ → ℕ
doubled zero = 5_000_000_000
doubled (suc k) = 2 * doubled k

-- The wait as it is documented, in nanoseconds: half an hour bounds the doubling, and a day all.
abbrev pub documented : ℕ → ℕ → ℕ
documented attempts retry =
    min (max (min (doubled (attempts - 1)) 1_800_000_000_000) retry) 86_400_000_000_000

doubled_grows : (j k n : ℕ) → n ≡ k + j → doubled j ≤ doubled n
doubled_grows j zero n e = let same : n ≡ j = omega (arith, e) in omega (arith, ap doubled same)
doubled_grows j (suc k) zero e = absurd (omega (arith, e))
doubled_grows j (suc k) (suc n) e = omega (arith, doubled_grows j k n (omega (arith, e)))

doubles_lem :
    (k j n : ℕ)
    → n ≡ k + j
    → min (doubles k (doubled j)) 1_800_000_000_000 ≡ min (doubled n) 1_800_000_000_000
unfolding doubles
doubles_lem zero j n e =
    let same : n ≡ j = omega (arith, e) in ap (λ i. min (doubled i) 1_800_000_000_000) (sym same)
doubles_lem (suc k) j n e =
    let next : doubled j * 2 ≡ doubled (suc j) = omega arith in
    let rest = doubles_lem k (suc j) n (omega (arith, e)) in
    if_rule (λ d. min d 1_800_000_000_000 ≡ min (doubled n) 1_800_000_000_000)
      (ltb (doubled j) half_hour) _ _
      (λ c. ap (λ d. min (doubles k d) 1_800_000_000_000) next ∙ rest)
      λ c. ground (arith, c, doubled_grows j (suc k) n e)

-- For any number of attempts and any wait that the relay asks for, the wait is five seconds doubled with
-- each attempt and at most half an hour, or longer if the relay asks, and at most a day.
pub backoff_lem : (attempts retry : ℕ) → backoff attempts retry ≡ documented attempts retry
unfolding backoff
backoff_lem attempts retry =
    let k = attempts - 1 in
    let looped = doubles_lem k 0 k (omega arith) in
    let d = doubles k 5_000_000_000 in
    let bounded = if ltb half_hour d then half_hour else d in
    let asked = if ltb bounded retry then retry else bounded in
    let at_most : bounded ≡ min (doubled k) 1_800_000_000_000 = ground (arith, looped) in
    let or_asked : asked ≡ max bounded retry = ground arith in
    let a_day : (if ltb whole_day asked then whole_day else asked) ≡ min asked 86_400_000_000_000 =
      ground arith in
    omega (arith, at_most, or_asked, a_day)
