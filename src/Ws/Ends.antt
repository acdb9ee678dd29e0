-- ===== src/Ws/Ends.antt =====
-- The end of the reading of a client's bytes, and the size of the frames that it takes.
use Prim.Native.Nat.{◌/◌, ◌%◌, ◌<◌}
use build_system.Prelude.{
  ℕ, zero, suc, ◌+◌, ◌-◌, ◌≤◌, ◌≡◌, ◌≢◌, ◌∙◌, ap, refl, Bool, true, false, not, ◌&&◌, ◌||◌, List,
  [], ◌∷◌, length, get_or, ltb, leb, ◌==◌, if_rule, arith, length-take, length-drop,
}
use build_system.Ws.Frames.{
  Refusal, reserved, unmasked, too_large, bad_control, Result, ok, err, ◌>>=◌, refuse, read_full,
  big_endian, read_length, unmask, Frame, read_payload, read_body, read_frame, op_close, op_ping,
}
use build_system.Ws.Loop.{starved, unreadable, Answer, ignored, on_frame, read_loop}

-- What holds of a result, if there is one.
abbrev pub Gives : {A : Type 0} → (A → Type 0) → Result A → Type 0
Gives P (ok a) = P a
Gives P (err e) = Unit

Gives->>= :
    {A B : Type 0} (P : A → Type 0) (Q : B → Type 0) (m : Result A) (f : A → Result B)
    → Gives P m
    → ((a : A) → P a → Gives Q (f a))
    → Gives Q (m >>= f)
Gives->>= P Q (ok a) f h k = k a h
Gives->>= P Q (err e) f h k = tt

Gives-weaken :
    {A : Type 0} (P Q : A → Type 0) (m : Result A) → Gives P m → ((a : A) → P a → Q a) → Gives Q m
Gives-weaken P Q (ok a) h k = k a h
Gives-weaken P Q (err e) h k = tt

refuse-Gives : (b : Bool) (e : Refusal) → Gives (λ u. b ≡ false) (refuse b e)
refuse-Gives true e = tt
refuse-Gives false e = refl

read_full-Gives :
    (n : ℕ) (bytes : List ℕ)
    → Gives (λ r. (length r.0 ≡ n) × (length r.1 + n ≡ length bytes)) (read_full n bytes)
unfolding read_full
read_full-Gives n bytes =
    if_rule (Gives (λ r. (length r.0 ≡ n) × (length r.1 + n ≡ length bytes))) (leb n (length bytes))
      _ _ (λ e. (ground (arith, e, length-take n bytes), ground (arith, e, length-drop n bytes)))
      λ e. tt

read_length-Gives :
    (code : ℕ) (bytes : List ℕ) → Gives (λ r. length r.1 ≤ length bytes) (read_length code bytes)
unfolding read_length
read_length-Gives code bytes =
    if_rule (Gives (λ r. length r.1 ≤ length bytes)) (code == 126) _ _
      (λ e.
        Gives->>= _ _ (read_full 2 bytes) _ (read_full-Gives 2 bytes) (λ r h. omega (arith, h.1)))
      λ e.
        if_rule (Gives (λ r. length r.1 ≤ length bytes)) (code == 127) _ _
          (λ e'. Gives->>= _ _ (read_full 8 bytes) _ (read_full-Gives 8 bytes) (λ r h.
            Gives->>= _ _ (refuse (ltb 4096 (big_endian 0 r.0)) too_large) _
              (refuse-Gives _ too_large) (λ u k. omega (arith, h.1))))
          λ e'. omega arith

length-unmask : (i : ℕ) (mask bs : List ℕ) → length (unmask i mask bs) ≡ length bs
unfolding unmask
length-unmask i mask [] = refl
length-unmask i mask (b ∷ bs) = ap suc (length-unmask (suc i) mask bs)

-- What is behind a frame is shorter than what was there, and the payload is no longer than 4 KiB, nor
-- than 125 bytes in a control frame.
pub record IsBounded (bytes : List ℕ) (f : Frame) : Type 0 where
  pub shorter : length f.rest < length bytes
  pub small : length f.payload ≤ 4096
  pub control : leb op_close f.opcode ≡ true → length f.payload ≤ 125

read_payload-Gives :
    (op n : ℕ) (bytes : List ℕ)
    → Gives
        (λ f. (length f.rest ≤ length bytes) × (length f.payload ≡ n) × (f.opcode ≡ op))
        (read_payload op n bytes)
unfolding read_payload
read_payload-Gives op n bytes =
    Gives->>= _ _ (read_full 4 bytes) _ (read_full-Gives 4 bytes) (λ m h.
      Gives->>= _ _ (read_full n m.1) _ (read_full-Gives n m.1)
        (λ p k. (omega (arith, h.1, k.1), length-unmask 0 m.0 p.0 ∙ k.0, refl)))

read_body-Gives :
    (b0 b1 : ℕ) (bytes : List ℕ)
    → Gives
        (λ f.
          (length f.rest ≤ length bytes)
          × (length f.payload ≤ 4096)
          × (leb op_close f.opcode ≡ true → length f.payload ≤ 125))
        (read_body b0 b1 bytes)
unfolding read_body
read_body-Gives b0 b1 bytes =
    Gives->>= _ _ (refuse (not ((b0 / 16) % 8 == 0)) reserved) _ (refuse-Gives _ reserved) (λ u0 h0.
      Gives->>= _ _ (refuse (ltb b1 128) unmasked) _ (refuse-Gives _ unmasked) (λ u1 h1.
        Gives->>= _ _ (read_length (b1 % 128) bytes) _ (read_length-Gives (b1 % 128) bytes) (λ l h2.
          Gives->>= _ _ (refuse (leb op_close (b0 % 16) && (ltb b0 128 || ltb 125 l.0)) bad_control)
            _ (refuse-Gives _ bad_control)
            (λ u3 h3.
              Gives->>= _ _ (refuse (ltb 4096 l.0) too_large) _ (refuse-Gives _ too_large) (λ u4 h4.
                Gives-weaken _ _ (read_payload (b0 % 16) l.0 l.1)
                  (read_payload-Gives (b0 % 16) l.0 l.1)
                  (λ f k. (
                    omega (arith, k.0, h2),
                    ground (arith, k.1, h4),
                    λ c. ground (arith, k.1, k.2, c, h3),
                  )))))))

-- For any bytes, a frame that is read takes at least one byte away, and its payload is within the bounds.
pub read_frame-Gives : (bytes : List ℕ) → Gives (IsBounded bytes) (read_frame bytes)
unfolding read_frame
read_frame-Gives bytes = Gives->>= _ _ (read_full 2 bytes) _ (read_full-Gives 2 bytes) (λ h k.
    Gives-weaken _ _ (read_body (get_or h.0 0 0) (get_or h.0 1 0) h.1) (read_body-Gives _ _ h.1)
      (λ f b. record { shorter = omega (arith, k.1, b.0); small = b.1; control = b.2 }))

on_frame-starved :
    (writes : ℕ) (f : Frame) (later : ℕ → Answer)
    → ((left : ℕ) → (later left).1 ≢ starved)
    → (on_frame writes f later).1 ≢ starved
unfolding on_frame
on_frame-starved writes f later h =
    if_rule (λ (a : Answer). a.1 ≢ starved) (f.opcode == op_close) _ _ (λ e k. cc k)
      λ e.
        if_rule (λ (a : Answer). a.1 ≢ starved) (f.opcode == op_ping) _ _
          (λ e'.
            if_rule (λ (a : Answer). a.1 ≢ starved) (writes == 0) _ _ (λ e'' k. cc k)
              λ e''. h (writes - 1))
          λ e'.
            if_rule (λ (a : Answer). a.1 ≢ starved) (ignored f.opcode) _ _ (λ e''. h writes)
              λ e'' k. cc k

-- For any bytes and any number of writes, the loop ends by itself within one round more than there are
-- bytes.
pub read_loop_ends :
    (fuel writes : ℕ) (bytes : List ℕ)
    → length bytes < fuel
    → (read_loop fuel writes bytes).1 ≢ starved
unfolding read_loop
read_loop_ends zero writes bytes h = absurd (omega (arith, h))
read_loop_ends (suc fuel) writes bytes h =
    go (read_frame bytes) (read_frame-Gives bytes)
      (λ f lt left. read_loop_ends fuel left f.rest (omega (arith, lt, h)))
  where
    go :
        (r : Result Frame)
        → Gives (IsBounded bytes) r
        → ((f : Frame)
            → length f.rest < length bytes
            → (left : ℕ) → (read_loop fuel left f.rest).1 ≢ starved)
        → (elim r as (λ x. Answer) [
          | err e ↦ ([], unreadable e)
          | ok f ↦ on_frame writes f (λ left. read_loop fuel left f.rest)
        ]).1
          ≢ starved
    go (err e) b k = λ c. cc c
    go (ok f) b k = on_frame-starved writes f _ (k f b.shorter)
