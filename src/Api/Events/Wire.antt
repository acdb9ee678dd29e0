-- ===== src/Api/Events/Wire.antt =====
-- What the client of a stream reads: `writeLog` passes a chunk through json.Marshal, which writes U+FFFD
-- for the bytes that are not UTF-8. `as_text` is what a client makes of the JSON text of some bytes.
use build_system.Prelude.{
  ℕ, ◌-◌, ◌≤◌, min, ◌≡◌, ◌∙◌, ap, ap₂, refl, List, [], ◌∷◌, ◌++◌, map, Option, some, length, slice,
  arith,
}
use build_system.Api.Events.{
  Summary, View, Input, Frame, ping, log_frame, status_frame, Stream, run, open_stream,
}
use build_system.Api.Events.Delivery.{Framed, Delivered, IsHonest}
use build_system.Api.Events.Loop.{AllTrue}
use build_system.Api.Events.Resume.{total_of, log_bytes, last_id, Framed-bytes, stream_lem, resumed}

module _ (as_text : List ℕ → List ℕ) where
  -- `writeLog` and `writeStatus`, as the client reads them.
  unfoldable pub write_log : Frame → Frame
  write_log ping = ping
  write_log (log_frame bytes id) = log_frame (as_text bytes) id
  write_log (status_frame st a b c d) = status_frame st a b c d

  abbrev pub wire : List Frame → List Frame
  wire fs = map write_log fs

  -- The texts of the log frames, in their order, are those of adjoining stretches of the log: each is the
  -- text of the bytes from the id before it up to its own.
  abbrev pub Wired : List ℕ → ℕ → List Frame → ℕ → Type 0
  Wired L at [] end = at ≡ end
  Wired L at (ping ∷ fs) end = Wired L at fs end
  Wired L at (status_frame st a b c d ∷ fs) end = Wired L at fs end
  Wired L at (log_frame text id ∷ fs) end =
      (at ≤ id) × (id ≤ length L) × (text ≡ as_text (slice L at (id - at))) × Wired L id fs end

  Framed-Wired :
      (L : List ℕ) (at : ℕ) (fs : List Frame) (end : ℕ)
      → end ≤ length L
      → Framed L at fs end
      → Wired L at (wire fs) end
  unfolding write_log
  Framed-Wired L at [] end b h = h
  Framed-Wired L at (ping ∷ fs) end b h = Framed-Wired L at fs end b h
  Framed-Wired L at (status_frame st x y c d ∷ fs) end b h = Framed-Wired L at fs end b h
  Framed-Wired L at (log_frame bytes id ∷ fs) end b h =
      let size : length bytes ≡ id - at = omega (arith, h.0) in
      (
        omega (arith, h.0),
        omega (arith, (Framed-bytes L id fs end h.2).0, b),
        ap as_text (h.1 ∙ ap (slice L at) size),
        Framed-Wired L id fs end b h.2,
      )

  -- A subscriber that asks for an offset gets, from that offset or the stored length if that is less, log
  -- frames that join without a gap or an overlap: each one's text is the JSON text of the log's bytes
  -- from the id before it up to its own, whatever log events the bus sends, in any order, as long as each
  -- holds true bytes and each read gives a prefix of the log. Where the JSON text of some bytes differs
  -- from them, the frame has that text.
  pub stream-Wired :
      (L : List ℕ) (from : ℕ) (first : Option Summary) (view last : View) (s : Stream)
      (is : List (View × Input))
      → open_stream from first view last ≡ some s
      → IsHonest L view.stored
      → IsHonest L last.stored
      → AllTrue L is
      → Wired L (min from (total_of view.stored)) (wire (run is s).frames) (run is s).sent
  stream-Wired L from first view last s is e h k t =
      let d = stream_lem L from first view last s is e h k t in
      Framed-Wired L (min from (total_of view.stored)) (run is s).frames (run is s).sent d.1 d.0

  -- The text of each frame is its bytes.
  abbrev pub IsPlain : List Frame → Type 0
  IsPlain [] = Unit
  IsPlain (ping ∷ fs) = IsPlain fs
  IsPlain (status_frame st a b c d ∷ fs) = IsPlain fs
  IsPlain (log_frame bytes id ∷ fs) = (as_text bytes ≡ bytes) × IsPlain fs

  plain_bytes : (fs : List Frame) → IsPlain fs → log_bytes (wire fs) ≡ log_bytes fs
  unfolding write_log
  plain_bytes [] h = refl
  plain_bytes (ping ∷ fs) h = plain_bytes fs h
  plain_bytes (status_frame st a b c d ∷ fs) h = plain_bytes fs h
  plain_bytes (log_frame bytes id ∷ fs) h = ap₂ (λ x y. x ++ y) h.0 (plain_bytes fs h.1)

  -- A client that loses its connection after any of its frames and reconnects with the last id it
  -- received, while the stored log has not shrunk below it, has received over both connections exactly
  -- the log's bytes from its first offset to where the second stream stands, if the JSON text of each
  -- frame's bytes is those bytes, as it is of ASCII.
  pub resumed_wired :
      (L : List ℕ) (at : ℕ) (s : Stream) (fs rest : List Frame) (first : Option Summary)
      (view last : View) (s' : Stream) (is : List (View × Input))
      → Delivered L at s
      → s.frames ≡ fs ++ rest
      → last_id at fs ≤ total_of view.stored
      → open_stream (last_id at fs) first view last ≡ some s'
      → IsHonest L view.stored
      → IsHonest L last.stored
      → AllTrue L is
      → IsPlain fs
      → IsPlain (run is s').frames
      → log_bytes (wire fs) ++ log_bytes (wire (run is s').frames)
        ≡ slice L at ((run is s').sent - at)
  resumed_wired L at s fs rest first view last s' is h split kept e k k' t p p' =
      ap₂ (λ x y. x ++ y) (plain_bytes fs p) (plain_bytes (run is s').frames p')
      ∙ resumed L at s fs rest first view last s' is h split kept e k k' t
