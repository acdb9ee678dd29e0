-- ===== src/Runner/Sink/Keep.antt =====
-- The bytes of the output: what is stored, what waits for the store and the unfinished line. Stated for a
-- build without a secret, whose output is not changed.
use build_system.Prelude.{
  ℕ, ◌≡◌, ◌∙◌, ap, sym, subst, refl, Bool, true, List, [], ◌∷◌, ◌++◌, Option, none, some, length,
  take, drop, ltb, if_rule, if◌then◌else◌, take-append-drop,
}
use mathlib.Core.List.{append-nil, append_assoc}
use build_system.Db.BuildLog.{BuildLog, append_build_log}
use build_system.Db.BuildLog.Append.{IsStored, contents, AppendsTo, append_build_log-AppendsTo}
use build_system.Runner.Sink.{
  Sink, Weather, is_empty, last_terminator, committed, flush_db, max_hold, scrub_secret, cut_of,
  emit, emit_first, drain, take_in,
}

-- Everything the sink has been given and keeps.
abbrev pub kept : Sink → List ℕ
kept s = contents s.log ++ (s.db_buf ++ s.line_buf)

-- A step from `s` to `s'` that adds bytes at the end.
pub record Keeps (s s' : Sink) (added : List ℕ) : Type 0 where
  pub stored : IsStored s'.log
  pub open_text : s'.secret ≡ []
  pub all : kept s' ≡ kept s ++ added
  pub same_closed : s'.closed ≡ s.closed

pub record IsPlain (s : Sink) : Type 0 where
  pub stored : IsStored s.log
  pub open_text : s.secret ≡ []

pub Keeps-same :
    (s s' : Sink)
    → IsPlain s
    → s'.log ≡ s.log
    → s'.secret ≡ s.secret
    → s'.db_buf ++ s'.line_buf ≡ s.db_buf ++ s.line_buf
    → s'.closed ≡ s.closed
    → Keeps s s' []
Keeps-same s s' h l e k c = record {
  same_closed = c;
  stored = subst IsStored (sym l) h.stored;
  open_text = e ∙ h.open_text;
  all =
      ap (λ x. contents x ++ (s'.db_buf ++ s'.line_buf)) l
      ∙ ap (λ x. contents s.log ++ x) k
      ∙ sym (append-nil (kept s));
}

committed-Keeps :
    (w : Weather) (s : Sink) (o : Option (BuildLog × ℕ))
    → IsPlain s
    → AppendsTo s.log s.db_buf o
    → Keeps s (committed w s o).0 []
unfolding committed
committed-Keeps w s none h a = absurd a
committed-Keeps w s (some (l, start)) h a = record {
  same_closed = refl;
  stored = a.0;
  open_text = h.open_text;
  all =
      ap (λ x. x ++ s.line_buf) a.1
      ∙ append_assoc (contents s.log) s.db_buf s.line_buf
      ∙ sym (append-nil (kept s));
}

pub flush_db-Keeps : (w : Weather) (s : Sink) → IsPlain s → Keeps s (flush_db w s).0 []
unfolding flush_db committed
flush_db-Keeps w s h =
    if_rule (λ (r : Sink × Bool). Keeps s r.0 []) (is_empty s.db_buf) _ _
      (λ e. Keeps-same s _ h refl refl refl refl)
      λ e.
        if_rule (λ o. Keeps s (committed w s o).0 []) w.busy _ _
          (λ busy. Keeps-same s _ h refl refl refl refl)
          λ idle.
            committed-Keeps w s (append_build_log s.log s.db_buf) h
              (append_build_log-AppendsTo s.log s.db_buf h.stored)

pub is_empty-nil : (l : List ℕ) → is_empty l ≡ true → l ≡ []
is_empty-nil [] e = refl
is_empty-nil (b ∷ l) e = absurd (cc e)

-- What an emission does to the parts of the sink.
pub record IsEmitted (s s' : Sink) (chunk : List ℕ) : Type 0 where
  pub same_log : s'.log ≡ s.log
  pub same_secret : s'.secret ≡ s.secret
  pub kept_closed : s'.closed ≡ s.closed
  pub added : s'.db_buf ≡ s.db_buf ++ chunk

module _ (replace_all : List ℕ → List ℕ → List ℕ → List ℕ) (user_info : List ℕ → List ℕ)
    (full_rune : List ℕ → Bool) where
  scrub_plain :
      (text secret : List ℕ)
      → secret ≡ []
      → scrub_secret replace_all user_info full_rune text secret ≡ text
  unfolding scrub_secret
  scrub_plain text secret e = ap (scrub_secret replace_all user_info full_rune text) e

  pub emit-IsEmitted :
      (chunk : List ℕ) (s : Sink)
      → s.secret ≡ []
      → IsEmitted s (emit replace_all user_info full_rune chunk s) chunk
  unfolding emit
  emit-IsEmitted chunk s e =
      if_rule (λ x. IsEmitted s x chunk) (is_empty chunk) _ _
        (λ k. record {
          same_log = refl;
          same_secret = refl;
          kept_closed = refl;
          added = sym (append-nil s.db_buf) ∙ ap (λ x. s.db_buf ++ x) (sym (is_empty-nil chunk k));
        })
        λ k. record {
          same_log = refl;
          same_secret = refl;
          kept_closed = refl;
          added = ap (λ x. s.db_buf ++ x) (scrub_plain chunk s.secret e);
        }

  emit_first-Keeps :
      (n : ℕ) (s : Sink) → IsPlain s → Keeps s (emit_first replace_all user_info full_rune n s) []
  unfolding emit_first
  emit_first-Keeps n s h =
      let done = emit-IsEmitted (take n s.line_buf) s h.open_text in
      Keeps-same s _ h done.same_log done.same_secret
        (ap (λ x. x ++ drop n s.line_buf) done.added
          ∙ append_assoc s.db_buf (take n s.line_buf) (drop n s.line_buf)
          ∙ ap (λ x. s.db_buf ++ x) (take-append-drop n s.line_buf))
        done.kept_closed

  pub Keeps-refl : (s : Sink) → IsPlain s → Keeps s s []
  Keeps-refl s h = Keeps-same s s h refl refl refl refl

  pub plain : {s s' : Sink} {added : List ℕ} → Keeps s s' added → IsPlain s'
  plain k = record { stored = k.stored; open_text = k.open_text }

  pub then_Keeps :
      (s s' s'' : Sink) (a b : List ℕ) → Keeps s s' a → Keeps s' s'' b → Keeps s s'' (a ++ b)
  then_Keeps s s' s'' a b h k = record {
    stored = k.stored;
    open_text = k.open_text;
    same_closed = k.same_closed ∙ h.same_closed;
    all = k.all ∙ ap (λ x. x ++ b) h.all ∙ append_assoc (kept s) a b;
  }

  -- Without a secret the drain starts from the line as it is.
  drain-Keeps : (s : Sink) → IsPlain s → Keeps s (drain replace_all user_info full_rune s) []
  unfolding drain
  drain-Keeps s h =
      let scrubbed = if is_empty s.secret then s else record s {
        line_buf = scrub_secret replace_all user_info full_rune s.line_buf s.secret;
      } in
      let same : scrubbed ≡ s =
        if_rule (λ x. x ≡ s) (is_empty s.secret) _ _ (λ e. refl)
          λ e. absurd (cc (e, ap is_empty h.open_text)) in
      if_rule (λ x. Keeps s x []) (ltb max_hold (length s.line_buf)) _ _
        (λ e.
          if_rule (λ x. Keeps s x []) (ltb 0 (cut_of replace_all user_info full_rune scrubbed)) _ _
            (λ e'.
              subst
                (λ x.
                  Keeps s
                    (emit_first replace_all user_info full_rune
                      (cut_of replace_all user_info full_rune scrubbed) x)
                    [])
                (sym same) (emit_first-Keeps (cut_of replace_all user_info full_rune scrubbed) s h))
            λ e'. subst (λ x. Keeps s x []) (sym same) (Keeps-refl s h))
        λ e. Keeps-refl s h

  pub take_in-Keeps :
      (p : List ℕ) (s : Sink) → IsPlain s → Keeps s (take_in replace_all user_info full_rune p s) p
  unfolding take_in
  take_in-Keeps p s h =
      let joined = record s { line_buf = s.line_buf ++ p } in
      let plain_joined : IsPlain joined = record { stored = h.stored; open_text = h.open_text } in
      let n = last_terminator joined.line_buf in
      let lines = if ltb 0 n then emit_first replace_all user_info full_rune n joined else joined in
      let added : Keeps s joined p = record {
        stored = h.stored;
        open_text = h.open_text;
        same_closed = refl;
        all =
            ap (λ x. contents s.log ++ x) (sym (append_assoc s.db_buf s.line_buf p))
            ∙ sym (append_assoc (contents s.log) (s.db_buf ++ s.line_buf) p);
      } in
      let emitted : Keeps joined lines [] =
        if_rule (λ x. Keeps joined x []) (ltb 0 n) _ _ (λ e. emit_first-Keeps n joined plain_joined)
          λ e. Keeps-refl joined plain_joined in
      let drained = drain-Keeps lines (plain emitted) in
      subst (Keeps s (drain replace_all user_info full_rune lines))
        (append-nil (p ++ []) ∙ append-nil p)
        (then_Keeps s lines _ (p ++ []) [] (then_Keeps s joined lines p [] added emitted) drained)
