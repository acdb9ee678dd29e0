-- ===== src/Runner/Sink/Durable.antt =====
-- Whole runs of a sink without a secret: writes, ticks and closes with any failures of the store.
use build_system.Prelude.{
  ℕ, ◌-◌, ◌≡◌, ◌∙◌, ap, sym, subst, refl, Bool, true, ◌||◌, List, [], ◌∷◌, ◌++◌, Option, none, some,
  length, leb, if_rule, if◌then◌else◌, inl, inr, Bool-cases,
}
use mathlib.Core.List.{append-nil, append_assoc}
use build_system.Db.BuildLog.{BuildLog, append_build_log}
use build_system.Db.BuildLog.Append.{IsStored, contents}
use build_system.Runner.Sink.{
  Sink, Weather, is_empty, committed, flush_db, flush_bytes, flush_interval, emit, take_in, write,
  close, Act, writes, ticks, closes, act, run,
}
use build_system.Runner.Sink.Keep.{
  kept, is_empty-nil, Keeps, IsPlain, Keeps-same, Keeps-refl, plain, then_Keeps, flush_db-Keeps,
  take_in-Keeps, emit-IsEmitted,
}

-- What the writes before the first close give.
abbrev pub accepted : Bool → List (Weather × Act) → List ℕ
accepted closed [] = []
accepted closed ((w, writes p) ∷ rest) = (if closed then [] else p) ++ accepted closed rest
accepted closed ((w, ticks) ∷ rest) = accepted closed rest
accepted closed ((w, closes) ∷ rest) = accepted true rest

-- A sink that holds what was there and what was added.
pub record Holds (s s' : Sink) (added : List ℕ) : Type 0 where
  pub stored : IsStored s'.log
  pub open_text : s'.secret ≡ []
  pub all : kept s' ≡ kept s ++ added

module _ (replace_all : List ℕ → List ℕ → List ℕ → List ℕ) (user_info : List ℕ → List ℕ)
    (full_rune : List ℕ → Bool) where
  write-Keeps :
      (w : Weather) (p : List ℕ) (s : Sink)
      → IsPlain s
      → Keeps s (write replace_all user_info full_rune w p s).0 (if s.closed then [] else p)
  unfolding write
  write-Keeps w p s h =
      let s' = take_in replace_all user_info full_rune p s in
      let taken = take_in-Keeps replace_all user_info full_rune p s h in
      elim (Bool-cases s.closed) [
        | inl e ↦
            subst
              (λ c.
                Keeps s
                  (if c
                    then (s, true)
                    else (if leb flush_bytes (length s'.db_buf)
                          || leb flush_interval (w.now - s'.last_flush)
                        then flush_db w s'
                        else (s', true))).0
                  (if c then [] else p))
              (sym e) (Keeps-refl replace_all user_info full_rune s h)
        | inr e ↦
            subst
              (λ c.
                Keeps s
                  (if c
                    then (s, true)
                    else (if leb flush_bytes (length s'.db_buf)
                          || leb flush_interval (w.now - s'.last_flush)
                        then flush_db w s'
                        else (s', true))).0
                  (if c then [] else p))
              (sym e)
              (if_rule (λ (r : Sink × Bool). Keeps s r.0 p)
                (leb flush_bytes (length s'.db_buf) || leb flush_interval (w.now - s'.last_flush)) _
                _
                (λ due. subst (Keeps s (flush_db w s').0) (append-nil p) (
                  then_Keeps replace_all user_info full_rune s s' (flush_db w s').0 p [] taken
                    (flush_db-Keeps w s' (plain replace_all user_info full_rune taken))))
                λ later. taken)
      ]

  abbrev drained : Sink → Sink
  drained s =
      let closing = record s { closed = true } in
      if is_empty s.line_buf
      then closing
      else record (emit replace_all user_info full_rune s.line_buf closing) { line_buf = [] }

  drained-Keeps : (s : Sink) → IsPlain s → Keeps (record s { closed = true }) (drained s) []
  drained-Keeps s h =
      let closing = record s { closed = true } in
      let ready : IsPlain closing = record { stored = h.stored; open_text = h.open_text } in
      let done = emit-IsEmitted replace_all user_info full_rune s.line_buf closing h.open_text in
      if_rule (λ x. Keeps closing x []) (is_empty s.line_buf) _ _
        (λ e. Keeps-refl replace_all user_info full_rune closing ready)
        λ e.
          Keeps-same closing _ ready done.same_log done.same_secret
            (ap (λ x. x ++ []) done.added ∙ append-nil (s.db_buf ++ s.line_buf)) done.kept_closed

  -- After a close the sink is closed and holds the same bytes.
  close-Keeps :
      (w : Weather) (s : Sink)
      → IsPlain s
      → Keeps (record s { closed = true }) (close replace_all user_info full_rune w s).0 []
  unfolding close
  close-Keeps w s h =
      let first = drained-Keeps s h in
      then_Keeps replace_all user_info full_rune (record s { closed = true }) (drained s) _ [] []
        first (flush_db-Keeps w (drained s) (plain replace_all user_info full_rune first))

  chain :
      (s s' : Sink) (a : List ℕ) (rest : List (Weather × Act))
      → Keeps s s' a
      → Holds s' (run replace_all user_info full_rune rest s') (accepted s'.closed rest)
      → Holds s (run replace_all user_info full_rune rest s') (a ++ accepted s.closed rest)
  chain s s' a rest h k = record {
    stored = k.stored;
    open_text = k.open_text;
    all =
        k.all
        ∙ ap (λ x. x ++ accepted s'.closed rest) h.all
        ∙ append_assoc (kept s) a (accepted s'.closed rest)
        ∙ ap (λ c. kept s ++ (a ++ accepted c rest)) h.same_closed;
  }

  -- Through any writes, ticks and closes, with any failures of the store, what is stored, what waits and
  -- the unfinished line of a sink without a secret are what they were, followed by all that was written
  -- before a close; and the stored log stays well-formed.
  pub output_kept :
      (acts : List (Weather × Act)) (s : Sink)
      → IsPlain s
      → Holds s (run replace_all user_info full_rune acts s) (accepted s.closed acts)
  unfolding act run
  output_kept [] s h = record {
    stored = h.stored;
    open_text = h.open_text;
    all = sym (append-nil (kept s));
  }
  output_kept ((w, writes p) ∷ rest) s h =
      let step = write-Keeps w p s h in
      chain s _ _ rest step (output_kept rest _ (plain replace_all user_info full_rune step))
  output_kept ((w, ticks) ∷ rest) s h =
      let step = flush_db-Keeps w s h in
      chain s _ [] rest step (output_kept rest _ (plain replace_all user_info full_rune step))
  output_kept ((w, closes) ∷ rest) s h =
      let step = close-Keeps w s h in
      let done =
        chain (record s { closed = true }) _ [] rest step
          (output_kept rest _ (plain replace_all user_info full_rune step)) in
      record { stored = done.stored; open_text = done.open_text; all = done.all }

  flush_db-line : (w : Weather) (s : Sink) → (flush_db w s).0.line_buf ≡ s.line_buf
  unfolding flush_db committed
  flush_db-line w s =
      if_rule (λ (r : Sink × Bool). r.0.line_buf ≡ s.line_buf) (is_empty s.db_buf) _ _ (λ e. refl)
        λ e. go (if w.busy then none else append_build_log s.log s.db_buf)
    where
      go : (o : Option (BuildLog × ℕ)) → (committed w s o).0.line_buf ≡ s.line_buf
      go none = refl
      go (some (l, start)) = refl

  drained-line : (s : Sink) → (drained s).line_buf ≡ []
  drained-line s =
      if_rule (λ (x : Sink). x.line_buf ≡ []) (is_empty s.line_buf) _ _
        (λ e. is_empty-nil s.line_buf e) λ e. refl

  -- If the close at the end of a run of a sink without a secret reports no error, the stored log is exactly what the sink held
  -- at the start followed by all that was written before a close: nothing waits in memory.
  pub close_durable :
      (acts : List (Weather × Act)) (w : Weather) (s : Sink)
      → IsPlain s
      → (close replace_all user_info full_rune w (run replace_all user_info full_rune acts s)).1
        ≡ true
      → contents
          (close replace_all user_info full_rune w
            (run replace_all user_info full_rune acts s)).0.log
        ≡ kept s ++ accepted s.closed acts
  unfolding close
  close_durable acts w s h e =
      let r = run replace_all user_info full_rune acts s in
      let before = output_kept acts s h in
      let ready : IsPlain r = record { stored = before.stored; open_text = before.open_text } in
      let step = close-Keeps w r ready in
      let last = (flush_db w (drained r)).0 in
      let line : last.line_buf ≡ [] = flush_db-line w (drained r) ∙ drained-line r in
      sym (append-nil (contents last.log))
      ∙ ap (λ x. contents last.log ++ x)
          (sym (ap (λ x. x ++ last.line_buf) (is_empty-nil last.db_buf e) ∙ line))
      ∙ step.all
      ∙ append-nil (kept r)
      ∙ before.all
