-- ===== src/Api/Events/Complete.antt =====
-- The terminal status of a stream, and the bytes that go before it.
use build_system.Prelude.{
  ℕ, ◌+◌, ◌-◌, ◌≤◌, ◌≡◌, refl, Bool, true, false, ◌&&◌, ◌||◌, List, [], ◌∷◌, ◌++◌, Option, none,
  some, length, slice, ltb, leb, if_rule, arith, length-slice,
}
use build_system.Models.Status.{BuildStatus, terminal}
use build_system.Logbus.Channel.{log, status}
use build_system.Api.Events.{
  Summary, LogRead, unread, counted, read, View, Input, done, tick, closes, receives, Frame, ping,
  log_frame, status_frame, Stream, finish, stored_tail, fill, deliver, after_gap, receive_log,
  owner_or, after_fill, receive_status, report, on_close, on_input, run,
}
use build_system.Api.Events.Delivery.{Delivered, IsHonest}
use build_system.Api.Events.Loop.{AllTrue, on_input-Delivered}

abbrev pub tells_end : Frame → Bool
tells_end ping = false
tells_end (log_frame bytes id) = false
tells_end (status_frame st a b c d) = terminal st

abbrev pub ends : List Frame → Bool
ends [] = false
ends (f ∷ fs) = tells_end f || ends fs

-- The read counts the whole log.
abbrev pub IsWhole : List ℕ → LogRead → Type 0
IsWhole L unread = Unit
IsWhole L (counted n) = n ≡ length L
IsWhole L (read n l) = n ≡ length L

-- Durable first: where a terminal status is seen, the store has the whole log.
abbrev pub IsFinal : List ℕ → View → Input → Type 0
IsFinal L v (receives (status st a b)) = terminal st ≡ true → IsWhole L v.stored
IsFinal L v closes = (b : Summary) → v.row ≡ some b → terminal b.state ≡ true → IsWhole L v.stored
IsFinal L v _ = Unit

abbrev pub AllFinal : List ℕ → List (View × Input) → Type 0
AllFinal L [] = Unit
AllFinal L ((v, i) ∷ is) = IsFinal L v i × AllFinal L is

abbrev pub IsComplete : List ℕ → Stream → Type 0
IsComplete L s = ends s.frames ≡ true → length L ≤ s.sent

ends-push : (fs : List Frame) (f : Frame) → ends (fs ++ f ∷ []) ≡ (ends fs || tells_end f)
ends-push [] f = ground arith
ends-push (g ∷ fs) f = ground (arith, ends-push fs f)

silent :
    (fs : List Frame) (f : Frame)
    → tells_end f ≡ false
    → ends (fs ++ f ∷ []) ≡ true
    → ends fs ≡ true
silent fs f e h = ground (arith, e, h, ends-push fs f)

fill-IsComplete :
    (L : List ℕ) (o : Option (List ℕ)) (s : Stream) → IsComplete L s → IsComplete L (fill o s).0
unfolding fill
fill-IsComplete L none s h = h
fill-IsComplete L (some []) s h = h
fill-IsComplete L (some (b ∷ tail)) s h = λ e.
    omega (arith, h (silent s.frames (log_frame (b ∷ tail) (s.sent + length (b ∷ tail))) refl e))

fill-sent : (tail : List ℕ) (s : Stream) → (fill (some tail) s).0.sent ≡ s.sent + length tail
unfolding fill
fill-sent [] s = omega arith
fill-sent (b ∷ tail) s = refl

-- After a successful backfill of a whole log nothing is left to send.
whole_sent :
    (L : List ℕ) (r : LogRead) (s : Stream)
    → IsHonest L r
    → IsWhole L r
    → (fill (stored_tail r s.sent) s).1 ≡ true
    → length L ≤ (fill (stored_tail r s.sent) s).0.sent
unfolding stored_tail fill
whole_sent L unread s h k = λ e. absurd (cc e)
whole_sent L (counted n) s h k =
    if_rule (λ o. (fill o s).1 ≡ true → length L ≤ (fill o s).0.sent) (leb n s.sent) _ _
      (λ le e. ground (arith, le, k)) λ gt e. absurd (cc e)
whole_sent L (read n l) s h k =
    if_rule (λ o. (fill o s).1 ≡ true → length L ≤ (fill o s).0.sent) (leb n s.sent) _ _
      (λ le e. ground (arith, le, k))
      λ gt e. ground (
        arith,
        gt,
        k,
        fill-sent (slice l s.sent (n - s.sent)) s,
        length-slice l s.sent (n - s.sent) (ground (arith, gt, h.0)),
      )

after_gap-IsComplete :
    (L chunk : List ℕ) (offset : ℕ) (r : Stream × Bool)
    → IsComplete L r.0
    → IsComplete L (after_gap chunk offset r)
unfolding deliver
after_gap-IsComplete L chunk offset (s, ok) h =
    if_rule (IsComplete L) ok _ _
      (λ e.
        if_rule (IsComplete L) (leb offset (s.sent + length chunk) && ltb s.sent offset) _ _
          (λ e' k. ground (arith, e', h (silent s.frames (log_frame _ offset) refl k))) λ e'. h)
      λ e. h

receive_log-IsComplete :
    (L : List ℕ) (v : View) (chunk : List ℕ) (offset : ℕ) (s : Stream)
    → IsComplete L s
    → IsComplete L (receive_log v chunk offset s)
unfolding receive_log
receive_log-IsComplete L v chunk offset s h =
    if_rule (IsComplete L) (leb offset s.sent) _ _ (λ e. h)
      λ e. after_gap-IsComplete L chunk offset _ (
        if_rule (λ (r : Stream × Bool). IsComplete L r.0) (ltb (s.sent + length chunk) offset) _ _
          (λ gap. fill-IsComplete L (stored_tail v.stored s.sent) s h) λ joined. h)

after_fill-IsComplete :
    (L : List ℕ) (v : View) (st : BuildStatus) (a b : Option ℕ) (r : Stream × Bool)
    → IsComplete L r.0
    → (terminal st ≡ true → r.1 ≡ true → length L ≤ r.0.sent)
    → IsComplete L (after_fill v st a b r)
after_fill-IsComplete L v st a b (s, ok) h k =
    let owner = owner_or v.row s.owner in
    if_rule (IsComplete L) ok _ _
      (λ e.
        if_rule (IsComplete L) (terminal st) _ _ (λ e' k'. k e' e)
          λ e' k'. h (silent s.frames (status_frame st a b owner.agent owner.executor) e' k'))
      λ e. h

receive_status-IsComplete :
    (L : List ℕ) (v : View) (st : BuildStatus) (a b : Option ℕ) (s : Stream)
    → IsHonest L v.stored
    → (terminal st ≡ true → IsWhole L v.stored)
    → IsComplete L s
    → IsComplete L (receive_status v st a b s)
unfolding receive_status
receive_status-IsComplete L v st a b s honest whole h =
    after_fill-IsComplete L v st a b _
      (if_rule (λ (r : Stream × Bool). IsComplete L r.0) (terminal st) _ _
        (λ e. fill-IsComplete L (stored_tail v.stored s.sent) s h) λ e. h)
      λ e.
        if_rule (λ (r : Stream × Bool). r.1 ≡ true → length L ≤ r.0.sent) (terminal st) _ _
          (λ e'. whole_sent L v.stored s honest (whole e)) λ e'. absurd (cc (e, e'))

report-IsComplete :
    (L : List ℕ) (b : Summary) (r : Stream × Bool)
    → IsComplete L r.0
    → (r.1 ≡ true → length L ≤ r.0.sent)
    → IsComplete L (report b r)
report-IsComplete L b (s, ok) h k = if_rule (IsComplete L) ok _ _ (λ e k'. k e) λ e. h

on_close-IsComplete :
    (L : List ℕ) (v : View) (o : Option Summary) (s : Stream)
    → IsHonest L v.stored
    → ((b : Summary) → o ≡ some b → terminal b.state ≡ true → IsWhole L v.stored)
    → IsComplete L s
    → IsComplete L (on_close v o s)
unfolding on_close
on_close-IsComplete L v none s honest whole h = h
on_close-IsComplete L v (some b) s honest whole h =
    if_rule (λ x. IsComplete L (finish x)) (terminal b.state) _ _
      (λ e.
        report-IsComplete L b _ (fill-IsComplete L (stored_tail v.stored s.sent) s h)
          (whole_sent L v.stored s honest (whole b refl e)))
      λ e. h

on_input-IsComplete :
    (L : List ℕ) (v : View) (i : Input) (s : Stream)
    → IsHonest L v.stored
    → IsFinal L v i
    → IsComplete L s
    → IsComplete L (on_input v i s)
unfolding on_input
on_input-IsComplete L v done s honest final h = h
on_input-IsComplete L v tick s honest final h = λ e. h (silent s.frames ping refl e)
on_input-IsComplete L v closes s honest final h = on_close-IsComplete L v v.row s honest final h
on_input-IsComplete L v (receives (log chunk offset)) s honest final h =
    receive_log-IsComplete L v chunk offset s h
on_input-IsComplete L v (receives (status st a b)) s honest final h =
    receive_status-IsComplete L v st a b s honest final h

-- A stream that has reported a terminal status stands at the end of the log.
pub terminal_sent :
    (L : List ℕ) (from : ℕ) (is : List (View × Input)) (s : Stream)
    → Delivered L from s
    → IsComplete L s
    → AllTrue L is
    → AllFinal L is
    → ends (run is s).frames ≡ true
    → (run is s).sent ≡ length L
unfolding run
terminal_sent L from [] s d c t f e = omega (arith, c e, d.1)
terminal_sent L from ((v, i) ∷ is) s d c t f e =
    if_rule (λ (x : Stream). ends x.frames ≡ true → x.sent ≡ length L) s.ended _ _
      (λ over e'. omega (arith, c e', d.1))
      (λ goes e'.
        terminal_sent L from is (on_input v i s) (on_input-Delivered L from v i s t.0 t.1 d)
          (on_input-IsComplete L v i s t.0 f.0 c) t.2 f.1 e')
      e
