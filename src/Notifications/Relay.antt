-- ===== src/Notifications/Relay.antt =====
-- internal/notifications/worker.go: requests to the relay, their backoff, and the look at the route.
use Prim.Native.Nat.{◌/◌, ◌*◌}
use build_system.Prelude.{
  ℕ, zero, suc, ◌+◌, ◌-◌, Bool, true, false, not, ◌&&◌, ◌||◌, Option, none, some, ltb, leb, ◌==◌,
  if◌then◌else◌,
}
use build_system.Db.Outbox.{Store, set_telegram_capture}

abbrev pub second : ℕ
second = 1_000_000_000

abbrev pub half_hour : ℕ
half_hour = 1800 * second

abbrev pub whole_day : ℕ
whole_day = 86400 * second

-- `t.Unix()`.
abbrev pub unix : ℕ → ℕ
unix t = t / second

-- The loop of `backoff`.
unfoldable pub doubles : ℕ → ℕ → ℕ
doubles zero delay = delay
doubles (suc k) delay =
    let twice = doubles k (delay * 2) in if ltb delay half_hour then twice else delay

-- `backoff`.
unfoldable pub backoff : ℕ → ℕ → ℕ
backoff attempts retry =
    let looped = doubles (attempts - 1) (5 * second) in
    let bounded = if ltb half_hour looped then half_hour else looped in
    let asked = if ltb bounded retry then retry else bounded in
    if ltb whole_day asked then whole_day else asked

-- What the relay sends back; the wait that its header asks for is parsed.
pub data Body (A : Type 0) : Type 0 where
  too_long garbled : Body A
  decoded : A → Body A

pub data Response (A : Type 0) : Type 0 where
  unreachable : Response A
  answered : ℕ → Option ℕ → Body A → Response A

-- The result of `request`: an error, no body that is read, or a body.
pub data Fetched (A : Type 0) : Type 0 where
  broken nothing : Fetched A
  got : A → Fetched A

pub record Reply (A : Type 0) : Type 0 where
  pub status : ℕ
  pub retry : ℕ
  pub result : Fetched A

pub record Worker : Type 0 where
  pub keyed : Bool
  pub relay_next : ℕ
  pub route_attempts : ℕ
  pub route_next : ℕ
  pub configured : Bool
  pub verified_at : ℕ

abbrev pub asked_wait : Option ℕ → ℕ
asked_wait none = 0
asked_wait (some d) = d

-- The wait after an answer.
abbrev pub wait_of : ℕ → Option ℕ → ℕ
wait_of status after =
    let given = asked_wait after in
    if status == 429
    then (if ltb given (5 * second)
        then 5 * second
        else if ltb whole_day given
        then whole_day
        else given)
    else if status == 503
    then given
    else 0

abbrev pub fetched : {A : Type 0} → ℕ → Body A → Fetched A
fetched status too_long = broken
fetched status garbled = if ltb status 200 || leb 300 status then nothing else broken
fetched status (decoded a) = if ltb status 200 || leb 300 status then nothing else got a

abbrev pub heard : {A : Type 0} → ℕ → Response A → Worker → Worker × Reply A
heard now unreachable w = (w, record { status = 0; retry = 0; result = broken })
heard now (answered status after body) w =
    let retry = wait_of status after in
    (
      if status == 429 then record w { relay_next = unix (now + retry) } else w,
      record { status = status; retry = retry; result = fetched status body },
    )

-- `request`: behind the gate of the relay nothing is sent.
unfoldable pub request : {A : Type 0} → ℕ → Response A → Worker → Worker × Reply A
request now response w =
    if ltb (unix now) w.relay_next
    then (w, record { status = 429; retry = (w.relay_next - unix now) * second; result = nothing })
    else heard now response w

pub record Route : Type 0 where
  pub configured : Option Bool
  pub group : Option Bool
  pub preserve_title : Option Bool

abbrev pub is_set : Bool → Option Bool → Bool
is_set b none = false
is_set b (some c) = if b then c else not c

-- The metadata of a group route that adds a title.
abbrev pub is_good : Fetched Route → Bool
is_good broken = false
is_good nothing = false
is_good (got r) = is_set true r.configured && is_set true r.group && is_set false r.preserve_title

abbrev pub is_broken : {A : Type 0} → Fetched A → Bool
is_broken broken = true
is_broken nothing = false
is_broken (got a) = false

pub record Verified : Type 0 where
  pub worker : Worker
  pub store : Store
  pub okay : Bool
  pub retry : ℕ

-- What `verifyRoute` does with an answer; an error is never okay.
abbrev pub judged : ℕ → Store → Worker × Reply Route → Verified
judged now s (w, r) =
    let okay = r.status == 200 && is_good r.result in
    let attempts = w.route_attempts + 1 in
    let delay = backoff attempts r.retry in
    if okay
    then record {
      worker = record w {
        configured = true;
        verified_at = unix now;
        route_attempts = 0;
        route_next = if ltb 0 w.route_attempts then 0 else w.route_next;
      };
      store = set_telegram_capture true s;
      okay = true;
      retry = r.retry;
    }
    else record {
      worker = record w {
        configured = false;
        route_attempts = attempts;
        route_next = unix (now + delay);
      };
      store =
          if r.status == 200 && not (is_broken r.result) then set_telegram_capture false s else s;
      okay = false;
      retry = delay;
    }

-- `verifyRoute`.
unfoldable pub verify_route : ℕ → Response Route → Worker → Store → Verified
verify_route now response w s =
    if ltb (unix now) w.route_next
    then record {
      worker = record w { configured = false };
      store = s;
      okay = false;
      retry = (w.route_next - unix now) * second;
    }
    else judged now s (request now response w)
