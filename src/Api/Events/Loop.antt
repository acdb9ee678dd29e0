-- ===== src/Api/Events/Loop.antt =====
-- The loop of the stream: each case keeps what was delivered.
use build_system.Prelude.{
  ℕ, ◌+◌, Bool, List, [], ◌∷◌, Option, none, some, length, ltb, leb, if_rule,
}
use build_system.Models.Status.{BuildStatus, terminal}
use build_system.Logbus.Channel.{log, status}
use build_system.Api.Events.{
  Summary, View, Input, done, tick, closes, receives, Stream, finish, after_gap, receive_log,
  owner_or, write_status, after_fill, receive_status, report, on_close, on_input, run,
}
use build_system.Api.Events.Delivery.{
  Delivered, IsHonest, IsTrue, Framed-tell, Framed-ping, backfill-Delivered, deliver-Delivered,
}

after_gap-Delivered :
    (L : List ℕ) (from : ℕ) (chunk : List ℕ) (offset : ℕ) (r : Stream × Bool)
    → IsTrue L (receives (log chunk offset))
    → Delivered L from r.0
    → Delivered L from (after_gap chunk offset r)
after_gap-Delivered L from chunk offset (s, ok) t h =
    if_rule (Delivered L from) ok _ _ (λ e. deliver-Delivered L from chunk offset s t h) λ e. h

receive_log-Delivered :
    (L : List ℕ) (from : ℕ) (v : View) (chunk : List ℕ) (offset : ℕ) (s : Stream)
    → IsHonest L v.stored
    → IsTrue L (receives (log chunk offset))
    → Delivered L from s
    → Delivered L from (receive_log v chunk offset s)
unfolding receive_log
receive_log-Delivered L from v chunk offset s k t h =
    if_rule (Delivered L from) (leb offset s.sent) _ _ (λ e. h)
      λ e. after_gap-Delivered L from chunk offset _ t (
        if_rule (λ (r : Stream × Bool). Delivered L from r.0) (ltb (s.sent + length chunk) offset) _
          _ (λ gap. backfill-Delivered L from v s h k) λ joined. h)

after_fill-Delivered :
    (L : List ℕ) (from : ℕ) (v : View) (st : BuildStatus) (a b : Option ℕ) (r : Stream × Bool)
    → Delivered L from r.0
    → Delivered L from (after_fill v st a b r)
after_fill-Delivered L from v st a b (s, ok) h =
    let b' = owner_or v.row s.owner in
    let told : Delivered L from (write_status st a b (record s { owner = b' })) =
      (Framed-tell L from s.frames s.sent st a b b'.agent b'.executor h.0, h.1) in
    if_rule (Delivered L from) ok _ _
      (λ e. if_rule (Delivered L from) (terminal st) _ _ (λ e'. told) λ e'. told) λ e. h

receive_status-Delivered :
    (L : List ℕ) (from : ℕ) (v : View) (st : BuildStatus) (a b : Option ℕ) (s : Stream)
    → IsHonest L v.stored
    → Delivered L from s
    → Delivered L from (receive_status v st a b s)
unfolding receive_status
receive_status-Delivered L from v st a b s k h = after_fill-Delivered L from v st a b _ (
    if_rule (λ (r : Stream × Bool). Delivered L from r.0) (terminal st) _ _
      (λ e. backfill-Delivered L from v s h k) λ e. h)

pub report-Delivered :
    (L : List ℕ) (from : ℕ) (b : Summary) (r : Stream × Bool)
    → Delivered L from r.0
    → Delivered L from (report b r)
report-Delivered L from b (s, ok) h =
    if_rule (Delivered L from) ok _ _
      (λ e. (
        Framed-tell L from s.frames s.sent b.state b.started_at b.finished_at b.agent b.executor
            h.0,
        h.1,
      ))
      λ e. h

on_close-Delivered :
    (L : List ℕ) (from : ℕ) (v : View) (o : Option Summary) (s : Stream)
    → IsHonest L v.stored
    → Delivered L from s
    → Delivered L from (on_close v o s)
unfolding on_close
on_close-Delivered L from v none s k h = h
on_close-Delivered L from v (some b) s k h =
    if_rule (λ x. Delivered L from (finish x)) (terminal b.state) _ _
      (λ e. report-Delivered L from b _ (backfill-Delivered L from v s h k)) λ e. h

-- One round of the loop keeps what was delivered.
pub on_input-Delivered :
    (L : List ℕ) (from : ℕ) (v : View) (i : Input) (s : Stream)
    → IsHonest L v.stored
    → IsTrue L i
    → Delivered L from s
    → Delivered L from (on_input v i s)
unfolding on_input
on_input-Delivered L from v done s k t h = h
on_input-Delivered L from v tick s k t h = (Framed-ping L from s.frames s.sent h.0, h.1)
on_input-Delivered L from v closes s k t h = on_close-Delivered L from v v.row s k h
on_input-Delivered L from v (receives (log chunk offset)) s k t h =
    receive_log-Delivered L from v chunk offset s k t h
on_input-Delivered L from v (receives (status st a b)) s k t h =
    receive_status-Delivered L from v st a b s k h

abbrev pub AllTrue : List ℕ → List (View × Input) → Type 0
AllTrue L [] = Unit
AllTrue L ((v, i) ∷ is) = IsHonest L v.stored × IsTrue L i × AllTrue L is

pub run-Delivered :
    (L : List ℕ) (from : ℕ) (is : List (View × Input)) (s : Stream)
    → AllTrue L is
    → Delivered L from s
    → Delivered L from (run is s)
unfolding run
run-Delivered L from [] s t h = h
run-Delivered L from ((v, i) ∷ is) s t h =
    if_rule (Delivered L from) s.ended _ _ (λ e. h)
      λ e. run-Delivered L from is (on_input v i s) t.2 (on_input-Delivered L from v i s t.0 t.1 h)
