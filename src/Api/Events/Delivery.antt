-- ===== src/Api/Events/Delivery.antt =====
-- What a subscriber's stream delivers: the durable log from its offset, each byte once and in order,
-- whatever events the bus sends, repeats, reorders or drops.
use build_system.Prelude.{
  ℕ, ◌+◌, ◌-◌, ◌≤◌, ◌≡◌, ◌∙◌, ap, sym, refl, String, ◌&&◌, List, [], ◌∷◌, ◌++◌, Option, none, some,
  length, take, drop, slice, ltb, leb, if_rule, arith, length-slice, drop-slice, take-slice,
}
use build_system.Models.Status.{BuildStatus}
use build_system.Logbus.Channel.{log}
use build_system.Api.Events.{
  LogRead, unread, counted, read, View, Input, receives, Frame, ping, log_frame, status_frame,
  Stream, stored_tail, fill, backfill, deliver,
}

-- Log frames that follow each other from one offset to another, each with the bytes of the log that end
-- at its id.
abbrev pub Framed : List ℕ → ℕ → List Frame → ℕ → Type 0
Framed L at [] end = at ≡ end
Framed L at (ping ∷ fs) end = Framed L at fs end
Framed L at (status_frame st a b c d ∷ fs) end = Framed L at fs end
Framed L at (log_frame bytes id ∷ fs) end =
    (id ≡ at + length bytes) × (bytes ≡ slice L at (length bytes)) × Framed L id fs end

abbrev pub Delivered : List ℕ → ℕ → Stream → Type 0
Delivered L from s = Framed L from s.frames s.sent × (s.sent ≤ length L)

-- What was stored at some instant is a prefix of the build's log.
abbrev pub IsHonest : List ℕ → LogRead → Type 0
IsHonest L unread = Unit
IsHonest L (counted n) = Unit
IsHonest L (read n l) = (n ≤ length l) × (length l ≤ length L) × (l ≡ slice L 0 (length l))

-- A log event holds the log's bytes that end at its offset.
abbrev pub IsTrue : List ℕ → Input → Type 0
IsTrue L (receives (log chunk offset)) =
    (length chunk ≤ offset)
    × (offset ≤ length L)
    × (chunk ≡ slice L (offset - length chunk) (length chunk))
IsTrue L _ = Unit

pub Framed-push :
    (L : List ℕ) (at : ℕ) (fs : List Frame) (mid : ℕ) (bytes : List ℕ) (end : ℕ)
    → Framed L at fs mid
    → end ≡ mid + length bytes
    → bytes ≡ slice L mid (length bytes)
    → Framed L at (fs ++ log_frame bytes end ∷ []) end
Framed-push L at [] mid bytes end h e k =
    (e ∙ ap (λ m. m + length bytes) (sym h), k ∙ ap (λ m. slice L m (length bytes)) (sym h), refl)
Framed-push L at (ping ∷ fs) mid bytes end h e k = Framed-push L at fs mid bytes end h e k
Framed-push L at (status_frame st a b c d ∷ fs) mid bytes end h e k =
    Framed-push L at fs mid bytes end h e k
Framed-push L at (log_frame x id ∷ fs) mid bytes end h e k =
    (h.0, h.1, Framed-push L id fs mid bytes end h.2 e k)

pub Framed-tell :
    (L : List ℕ) (at : ℕ) (fs : List Frame) (end : ℕ) (st : BuildStatus) (a b : Option ℕ)
    (c d : String)
    → Framed L at fs end
    → Framed L at (fs ++ status_frame st a b c d ∷ []) end
Framed-tell L at [] end st a b c d h = h
Framed-tell L at (ping ∷ fs) end st a b c d h = Framed-tell L at fs end st a b c d h
Framed-tell L at (status_frame _ _ _ _ _ ∷ fs) end st a b c d h =
    Framed-tell L at fs end st a b c d h
Framed-tell L at (log_frame x id ∷ fs) end st a b c d h =
    (h.0, h.1, Framed-tell L id fs end st a b c d h.2)

pub Framed-ping :
    (L : List ℕ) (at : ℕ) (fs : List Frame) (end : ℕ)
    → Framed L at fs end
    → Framed L at (fs ++ ping ∷ []) end
Framed-ping L at [] end h = h
Framed-ping L at (ping ∷ fs) end h = Framed-ping L at fs end h
Framed-ping L at (status_frame _ _ _ _ _ ∷ fs) end h = Framed-ping L at fs end h
Framed-ping L at (log_frame x id ∷ fs) end h = (h.0, h.1, Framed-ping L id fs end h.2)

-- A range of a stored prefix is that range of the log.
pub prefix-slice :
    (L l : List ℕ) (start n : ℕ)
    → l ≡ slice L 0 (length l)
    → start + n ≤ length l
    → slice l start n ≡ slice L start n
prefix-slice L l start n e h =
    ap (λ x. slice x start n) e
    ∙ ap (take n) (drop-slice start L 0 (length l))
    ∙ take-slice n L (0 + start) (length l - start) (omega (arith, h))
    ∙ (let same : 0 + start ≡ start = omega arith in ap (λ k. slice L k n) same)

-- The tail that a read gives, or nothing.
abbrev IsTail : List ℕ → ℕ → Option (List ℕ) → Type 0
IsTail L sent none = Unit
IsTail L sent (some tail) = (tail ≡ slice L sent (length tail)) × (sent + length tail ≤ length L)

read-IsTail :
    (L l : List ℕ) (n sent : ℕ)
    → IsHonest L (read n l)
    → sent ≤ n
    → IsTail L sent (some (slice l sent (n - sent)))
read-IsTail L l n sent h lt =
    let size : length (slice l sent (n - sent)) ≡ n - sent =
      length-slice l sent (n - sent) (omega (arith, h.0, lt)) in
    (
      prefix-slice L l sent (n - sent) h.2 (omega (arith, h.0, lt)) ∙ ap (slice L sent) (sym size),
      omega (arith, size, h.0, h.1, lt),
    )

no-IsTail : (L : List ℕ) (sent : ℕ) → sent ≤ length L → IsTail L sent (some [])
no-IsTail L sent h = (refl, omega (arith, h))

stored_tail-IsTail :
    (L : List ℕ) (r : LogRead) (sent : ℕ)
    → IsHonest L r
    → sent ≤ length L
    → IsTail L sent (stored_tail r sent)
unfolding stored_tail
stored_tail-IsTail L unread sent h k = tt
stored_tail-IsTail L (counted n) sent h k =
    if_rule (IsTail L sent) (leb n sent) _ _ (λ e. no-IsTail L sent k) λ e. tt
stored_tail-IsTail L (read n l) sent h k =
    if_rule (IsTail L sent) (leb n sent) _ _ (λ e. no-IsTail L sent k)
      λ e. read-IsTail L l n sent h (ground (arith, e))

fill-Delivered :
    (L : List ℕ) (from : ℕ) (o : Option (List ℕ)) (s : Stream)
    → Delivered L from s
    → IsTail L s.sent o
    → Delivered L from (fill o s).0
unfolding fill
fill-Delivered L from none s h k = h
fill-Delivered L from (some []) s h k = h
fill-Delivered L from (some (b ∷ tail)) s h k =
    (Framed-push L from s.frames s.sent (b ∷ tail) _ h.0 refl k.0, k.1)

pub backfill-Delivered :
    (L : List ℕ) (from : ℕ) (v : View) (s : Stream)
    → Delivered L from s
    → IsHonest L v.stored
    → Delivered L from (backfill v s).0
backfill-Delivered L from v s h k =
    fill-Delivered L from _ s h (stored_tail-IsTail L v.stored s.sent k h.1)

pub deliver-Delivered :
    (L : List ℕ) (from : ℕ) (chunk : List ℕ) (offset : ℕ) (s : Stream)
    → IsTrue L (receives (log chunk offset))
    → Delivered L from s
    → Delivered L from (deliver chunk offset s)
unfolding deliver
deliver-Delivered L from chunk offset s t h =
    if_rule (Delivered L from) (leb offset (s.sent + length chunk) && ltb s.sent offset) _ _
      (λ e.
        let skipped = s.sent + length chunk - offset in
        let new : drop skipped chunk ≡ slice L s.sent (offset - s.sent) =
          ap (drop skipped) t.2
          ∙ drop-slice skipped L (offset - length chunk) (length chunk)
          ∙ (let at : offset - length chunk + skipped ≡ s.sent = ground (arith, e, t.0) in
              let size : length chunk - skipped ≡ offset - s.sent = ground (arith, e, t.0) in
              ap (λ a. slice L a (length chunk - skipped)) at ∙ ap (slice L s.sent) size) in
        let count : length (drop skipped chunk) ≡ offset - s.sent =
          ap length new ∙ length-slice L s.sent (offset - s.sent) (ground (arith, e, t.1)) in
        (
          Framed-push L from s.frames s.sent (drop skipped chunk) offset h.0
              (ground (arith, e, count)) (new ∙ ap (slice L s.sent) (sym count)),
          t.1,
        ))
      λ e. h
