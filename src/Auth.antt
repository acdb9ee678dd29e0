-- ===== src/Auth.antt =====
-- internal/auth/auth.go: the rate limit of logins, and which requests pass. A time is a number of
-- nanoseconds of a clock that does not go back. The bucket's fraction of attempts is counted exactly, in
-- nanoseconds of refill: an attempt is 15 seconds, so the rounding of float64 is not modelled. The checks of
-- passwords and session tokens, which are cryptography, are arguments.
pub mod Guesses
mod Tests
use Prim.Native.Nat.{◌*◌}
use build_system.Prelude.{
  ℕ, ◌+◌, ◌-◌, String, Bool, true, false, not, ◌&&◌, ◌||◌, List, [], ◌∷◌, Option, none, some, ltb,
  if◌then◌else◌,
}
use build_system.Prelude.Text.{str_eq}

-- `refillInterval`, and the `maxAttempts` of the bucket.
abbrev pub refill_interval : ℕ
refill_interval = 15_000_000_000

abbrev pub full : ℕ
full = 5 * refill_interval

-- The bucket under its mutex.
pub record Bucket : Type 0 where
  pub attempts : ℕ
  pub last_ref : ℕ

-- `allowAttempt`.
unfoldable pub allow_attempt : ℕ → Bucket → Bucket × Bool
allow_attempt now b =
    let refilled = b.attempts + (now - b.last_ref) in
    let capped = if ltb full refilled then full else refilled in
    if ltb capped refill_interval
    then (record { attempts = capped; last_ref = now }, false)
    else (record { attempts = capped - refill_interval; last_ref = now }, true)

-- `resetAttempts`.
abbrev pub reset_attempts : Bucket → Bucket
reset_attempts b = record b { attempts = full }

-- A login's body: not JSON, or a password that is right or not.
pub data Login : Type 0 where
  garbled wrong right : Login

pub data LoginReply : Type 0 where
  too_many bad_request refused signed_in : LoginReply

abbrev pub checked : Login → Bucket × Bool → Bucket × LoginReply
checked l (b, false) = (b, too_many)
checked garbled (b, true) = (b, bad_request)
checked wrong (b, true) = (b, refused)
checked right (b, true) = (reset_attempts b, signed_in)

-- `handleLogin`.
unfoldable pub handle_login : ℕ → Login → Bucket → Bucket × LoginReply
handle_login now l b = checked l (allow_attempt now b)

-- What a request shows: a session token that is valid, and a bearer's text.
pub record Credentials : Type 0 where
  pub session : Bool
  pub bearer : Option String

-- `requestAuthed`: authenticated, and as an agent. A constant-time comparison is an equality.
abbrev pub bearer_authed : (String → Bool) → String → Option String → Bool × Bool
bearer_authed verify token none = (false, false)
bearer_authed verify token (some text) =
    if verify text
    then (true, false)
    else if not (str_eq token "") && str_eq token text
    then (true, true)
    else (false, false)

unfoldable pub request_authed : (String → Bool) → String → Credentials → Bool × Bool
request_authed verify token c =
    if c.session then (true, false) else bearer_authed verify token c.bearer
