-- ===== src/Api/Events/Resume.antt =====
-- Opening a stream, and reconnecting after the last id that was received.
use build_system.Prelude.{
  ℕ, ◌+◌, ◌-◌, ◌≤◌, min, ◌≡◌, ◌∙◌, ap, sym, subst, refl, List, [], ◌∷◌, ◌++◌, Option, none, some,
  length, slice, if_rule, arith, length-slice, slice-append, some-injective,
}
use build_system.Models.Status.{terminal}
use build_system.Api.Events.{
  Summary, LogRead, unread, counted, read, View, Input, Frame, ping, log_frame, status_frame,
  Stream, run, replayed, begin, begin_read, begin_or, fresh_row, open_stream,
}
use build_system.Api.Events.Delivery.{
  Framed, Delivered, IsHonest, Framed-push, prefix-slice, backfill-Delivered,
}
use build_system.Api.Events.Loop.{AllTrue, report-Delivered, run-Delivered}

abbrev pub total_of : LogRead → ℕ
total_of unread = 0
total_of (counted n) = n
total_of (read n l) = n

replayed-Framed :
    (L : List ℕ) (start : ℕ) (bytes : List ℕ) (total : ℕ) (s : Stream)
    → Framed L start s.frames start
    → total ≡ start + length bytes
    → bytes ≡ slice L start (length bytes)
    → total ≤ length L
    → s.sent ≡ total
    → Delivered L start (replayed bytes total s)
replayed-Framed L start [] total s h e k b same =
    (subst (Framed L start s.frames) (omega (arith, e, same)) h, omega (arith, b, same))
replayed-Framed L start (x ∷ bytes) total s h e k b same = (
  subst (Framed L start (s.frames ++ log_frame (x ∷ bytes) total ∷ [])) (sym same)
      (Framed-push L start s.frames start (x ∷ bytes) total h e k),
  omega (arith, b, same),
)

begin-Delivered :
    (L : List ℕ) (last : View) (b : Summary) (from n : ℕ) (l : List ℕ)
    → IsHonest L (read n l)
    → IsHonest L last.stored
    → Delivered L (min from n) (begin last b from n l)
unfolding begin
begin-Delivered L last b from n l h k =
    let start = min from n in
    let replay = slice l start (n - start) in
    let size : length replay ≡ n - start = length-slice l start (n - start) (omega (arith, h.0)) in
    let end : n ≡ start + length replay = omega (arith, size) in
    let known : replay ≡ slice L start (length replay) =
      prefix-slice L l start (n - start) h.2 (omega (arith, h.0)) ∙ ap (slice L start) (sym size) in
    let bound : n ≤ length L = omega (arith, h.0, h.1) in
    if_rule (Delivered L start) (terminal b.state) _ _
      (λ e. report-Delivered L start b _ (
        backfill-Delivered L start last _
          (replayed-Framed L start replay n _ refl end known bound refl) k))
      λ e. replayed-Framed L start replay n _ refl end known bound refl

begin_read-Delivered :
    (L : List ℕ) (last : View) (b : Summary) (from : ℕ) (r : LogRead) (s : Stream)
    → IsHonest L r
    → IsHonest L last.stored
    → begin_read last b from r ≡ some s
    → Delivered L (min from (total_of r)) s
begin_read-Delivered L last b from unread s h k e = absurd (cc)
begin_read-Delivered L last b from (counted n) s h k e = absurd (cc)
begin_read-Delivered L last b from (read n l) s h k e =
    subst (Delivered L (min from n)) (some-injective _ _ e) (begin-Delivered L last b from n l h k)

begin_or-Delivered :
    (L : List ℕ) (last : View) (o : Option Summary) (from : ℕ) (r : LogRead) (s : Stream)
    → IsHonest L r
    → IsHonest L last.stored
    → begin_or last o from r ≡ some s
    → Delivered L (min from (total_of r)) s
begin_or-Delivered L last none from r s h k e = absurd (cc)
begin_or-Delivered L last (some b) from r s h k e = begin_read-Delivered L last b from r s h k e

-- A subscriber that asks for an offset gets, from that offset or the stored length if that is less,
-- log frames that join without a gap or an overlap, each with the log's bytes that end at its id,
-- whatever log events the bus sends, in any order, as long as each holds true bytes and each read gives
-- a prefix of the log.
pub stream_lem :
    (L : List ℕ) (from : ℕ) (first : Option Summary) (view last : View) (s : Stream)
    (is : List (View × Input))
    → open_stream from first view last ≡ some s
    → IsHonest L view.stored
    → IsHonest L last.stored
    → AllTrue L is
    → Delivered L (min from (total_of view.stored)) (run is s)
unfolding open_stream
stream_lem L from first view last s is e h k t =
    run-Delivered L (min from (total_of view.stored)) is s t
      (begin_or-Delivered L last (fresh_row first view.row) from view.stored s h k e)

abbrev pub log_bytes : List Frame → List ℕ
log_bytes [] = []
log_bytes (ping ∷ fs) = log_bytes fs
log_bytes (status_frame _ _ _ _ _ ∷ fs) = log_bytes fs
log_bytes (log_frame bytes id ∷ fs) = bytes ++ log_bytes fs

-- The id that a client which received these frames sends when it reconnects.
abbrev pub last_id : ℕ → List Frame → ℕ
last_id at [] = at
last_id at (ping ∷ fs) = last_id at fs
last_id at (status_frame _ _ _ _ _ ∷ fs) = last_id at fs
last_id at (log_frame bytes id ∷ fs) = last_id id fs

Framed-prefix :
    (L : List ℕ) (at : ℕ) (fs rest : List Frame) (end : ℕ)
    → Framed L at (fs ++ rest) end
    → Framed L at fs (last_id at fs)
Framed-prefix L at [] rest end h = refl
Framed-prefix L at (ping ∷ fs) rest end h = Framed-prefix L at fs rest end h
Framed-prefix L at (status_frame _ _ _ _ _ ∷ fs) rest end h = Framed-prefix L at fs rest end h
Framed-prefix L at (log_frame bytes id ∷ fs) rest end h =
    (h.0, h.1, Framed-prefix L id fs rest end h.2)

pub Framed-bytes :
    (L : List ℕ) (at : ℕ) (fs : List Frame) (end : ℕ)
    → Framed L at fs end
    → (at ≤ end) × (log_bytes fs ≡ slice L at (end - at))
Framed-bytes L at [] end h =
    let none_left : 0 ≡ end - at = omega (arith, h) in (omega (arith, h), ap (slice L at) none_left)
Framed-bytes L at (ping ∷ fs) end h = Framed-bytes L at fs end h
Framed-bytes L at (status_frame _ _ _ _ _ ∷ fs) end h = Framed-bytes L at fs end h
Framed-bytes L at (log_frame bytes id ∷ fs) end h =
    let rest = Framed-bytes L id fs end h.2 in
    let n = length bytes in
    let sum : n + (end - id) ≡ end - at = omega (arith, h.0, rest.0) in
    (
      omega (arith, h.0, rest.0),
      ap (λ x. x ++ log_bytes fs) h.1
          ∙ ap (λ x. slice L at n ++ x) (rest.1 ∙ ap (λ k. slice L k (end - id)) h.0)
          ∙ slice-append L at n (end - id)
          ∙ ap (slice L at) sum,
    )

-- A client that loses its connection after any of its frames and reconnects with the last id it
-- received, while the stored log has not shrunk below it, has received over both connections exactly
-- the log's bytes from its first offset to where the second stream stands.
pub resumed :
    (L : List ℕ) (at : ℕ) (s : Stream) (fs rest : List Frame) (first : Option Summary)
    (view last : View) (s' : Stream) (is : List (View × Input))
    → Delivered L at s
    → s.frames ≡ fs ++ rest
    → last_id at fs ≤ total_of view.stored
    → open_stream (last_id at fs) first view last ≡ some s'
    → IsHonest L view.stored
    → IsHonest L last.stored
    → AllTrue L is
    → log_bytes fs ++ log_bytes (run is s').frames ≡ slice L at ((run is s').sent - at)
resumed L at s fs rest first view last s' is h split kept e k k' t =
    let mid = last_id at fs in
    let one =
      Framed-bytes L at fs mid
        (Framed-prefix L at fs rest s.sent (subst (λ x. Framed L at x s.sent) split h.0)) in
    let same : min mid (total_of view.stored) ≡ mid = omega (arith, kept) in
    let two = Framed-bytes L mid (run is s').frames (run is s').sent (
      subst (λ a. Framed L a (run is s').frames (run is s').sent) same
        (stream_lem L mid first view last s' is e k k' t).0) in
    let end = (run is s').sent in
    let sum : mid - at + (end - mid) ≡ end - at = omega (arith, one.0, two.0) in
    let joined : at + (mid - at) ≡ mid = omega (arith, one.0) in
    ap (λ x. x ++ log_bytes (run is s').frames) one.1
    ∙ ap (λ x. slice L at (mid - at) ++ x) (two.1 ∙ ap (λ k. slice L k (end - mid)) (sym joined))
    ∙ slice-append L at (mid - at) (end - mid)
    ∙ ap (slice L at) sum
