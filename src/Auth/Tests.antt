-- ===== src/Auth/Tests.antt =====
-- Seven guesses within 20 seconds: six pass the limit.
use Prim.Native.Nat.{◌*◌}
use build_system.Prelude.{ℕ, ◌+◌, ◌-◌, ◌≤◌, ◌≡◌, refl, List, [], ◌∷◌, arith}
use build_system.Auth.{
  Bucket, Login, wrong, garbled, full, refill_interval, allow_attempt, handle_login,
}
use build_system.Auth.Guesses.{count_tried, end_of, guesses_bounded}

abbrev idle : Bucket
idle = record { attempts = full; last_ref = 0 }

abbrev guesses : List (ℕ × Login)
guesses =
    (1, wrong)
    ∷ (2, wrong)
    ∷ (3, garbled)
    ∷ (4, wrong)
    ∷ (5, wrong)
    ∷ (6, wrong)
    ∷ (20_000_000_000, wrong)
    ∷ []

six_pass : count_tried guesses idle ≡ 6
unfolding count_tried handle_login allow_attempt
six_pass = refl

guesses_bounded_example :
    count_tried guesses idle * refill_interval ≤ idle.attempts + (end_of 0 guesses - 0)
guesses_bounded_example =
    guesses_bounded guesses idle
      (
        omega arith,
        (
          omega arith,
          (omega arith, (omega arith, (omega arith, (omega arith, (omega arith, tt))))),
        ),
      )
      (λ e. cc e, (λ e. cc e, (λ e. cc e, (λ e. cc e, (λ e. cc e, (λ e. cc e, (λ e. cc e, tt)))))))
