-- ===== src/Runner/Paths/Inside.antt =====
-- Which paths of a checkout are accepted.
use build_system.Prelude.{
  ℕ, ◌≡◌, ap, ap₂, sym, subst, refl, true, false, ◌||◌, List, [], ◌∷◌, ◌++◌, Option, none, some,
  All, if_rule, arith, if◌then◌else◌,
}
use build_system.Prelude.Text.{same_bytes, same_bytes-eq}
use build_system.Runner.Paths.{
  Segment, split_path, parent, is_dot, is_dots, clean_onto, backwards, join_path, rel_path, escapes,
  resolve_dockerfile, ComposePath, escaping, as_given, joined, is_abs, resolve_compose_path,
}

-- A segment that names something: not empty, not `.` and not `..`.
abbrev pub IsName : Segment → Type 0
IsName s = (is_dot s || is_dots s) ≡ false

-- A path that is the directory's, followed by names.
pub record IsInside (work target : List Segment) : Type 0 where
  pub rest : List Segment
  pub extends : target ≡ work ++ rest
  pub names : All IsName rest

parent-All : (kept : List Segment) → All IsName kept → All IsName (parent kept)
parent-All [] h = h
parent-All (s ∷ ss) h = h.1

clean_onto-All : (kept ss : List Segment) → All IsName kept → All IsName (clean_onto kept ss)
unfolding clean_onto
clean_onto-All kept [] h = h
clean_onto-All kept (s ∷ ss) h =
    clean_onto-All (if is_dot s then kept else if is_dots s then parent kept else s ∷ kept) ss (
      if_rule (All IsName) (is_dot s) _ _ (λ e. h)
        λ e.
          if_rule (All IsName) (is_dots s) _ _ (λ k. parent-All kept h)
            λ k. (ground (arith, e, k), h))

backwards-All :
    (ss over : List Segment) → All IsName ss → All IsName over → All IsName (backwards ss over)
unfolding backwards
backwards-All [] over h k = k
backwards-All (s ∷ ss) over h k = backwards-All ss (s ∷ over) h.1 (h.0, k)

join_path-All :
    (work : List Segment) (path : List ℕ) → All IsName work → All IsName (join_path work path)
unfolding join_path
join_path-All work path h =
    backwards-All (clean_onto (backwards work []) (split_path path)) []
      (clean_onto-All (backwards work []) (split_path path) (backwards-All work [] h tt)) tt

-- What stays inside begins with the directory.
rel_path-prefix :
    (bs ts : List Segment)
    → escapes (rel_path bs ts) ≡ false
    → (rest : List Segment) × (ts ≡ bs ++ rest)
unfolding rel_path
rel_path-prefix [] ts h = (ts, refl)
rel_path-prefix (b ∷ bs) [] h = absurd (cc h)
rel_path-prefix (b ∷ bs) (t ∷ ts) h =
    if_rule (λ r. escapes r ≡ false → (rest : List Segment) × (t ∷ ts ≡ (b ∷ bs) ++ rest))
      (same_bytes b t) _ _
      (λ e k.
        let (rest, same) = rel_path-prefix bs ts k in
        (rest, ap₂ (λ x xs. x ∷ xs) (sym (same_bytes-eq b t e)) same))
      (λ e k. absurd (cc k)) h

same_bytes_refl : (s : List ℕ) → same_bytes s s ≡ true
same_bytes_refl [] = refl
same_bytes_refl (c ∷ s) = ground (arith, same_bytes_refl s)

-- What begins with the directory and goes on with names stays inside.
rel_path-append : (bs rest : List Segment) → rel_path bs (bs ++ rest) ≡ rest
unfolding rel_path
rel_path-append [] rest = refl
rel_path-append (b ∷ bs) rest =
    if_rule (λ r. r ≡ rest) (same_bytes b b) _ _ (λ e. rel_path-append bs rest)
      λ e. absurd (cc (e, same_bytes_refl b))

names_stay : (rest : List Segment) → All IsName rest → escapes rest ≡ false
names_stay [] h = refl
names_stay (s ∷ ss) h = ground (arith, h.0)

All-tail : (xs ys : List Segment) → All IsName (xs ++ ys) → All IsName ys
All-tail [] ys h = h
All-tail (x ∷ xs) ys h = All-tail xs ys h.1

inside :
    (work : List Segment) (path : List ℕ)
    → All IsName work
    → escapes (rel_path work (join_path work path)) ≡ false
    → IsInside work (join_path work path)
inside work path h e =
    let (rest, same) = rel_path-prefix work (join_path work path) e in
    record {
      rest = rest;
      extends = same;
      names = All-tail work rest (subst (All IsName) same (join_path-All work path h));
    }

outside :
    (work : List Segment) (target : List Segment)
    → escapes (rel_path work target) ≡ true
    → IsInside work target
    → ⊥
outside work target e i =
    let same = ap (λ t. escapes (rel_path work t)) i.extends in
    let stay = names_stay i.rest i.names in
    let cut = ap escapes (rel_path-append work i.rest) in absurd (cc (e, same, stay, cut))

-- What each answer says of the path.
abbrev pub IsRight : List Segment → List Segment → ComposePath → Type 0
IsRight work target escaping = IsInside work target → ⊥
IsRight work target (as_given path) = is_abs path ≡ true
IsRight work target (joined t) = (t ≡ target) × IsInside work t

compose-IsRight :
    (work : List Segment) (path : List ℕ)
    → All IsName work
    → IsRight work (join_path work path) (resolve_compose_path work path)
unfolding resolve_compose_path
compose-IsRight work path h =
    let target = join_path work path in
    if_rule (IsRight work target) (is_abs path) _ _ (λ e. e)
      λ rel.
        if_rule (IsRight work target) (escapes (rel_path work target)) _ _
          (λ e. outside work target e) λ e. (refl, inside work path h e)

abbrev pub IsFound : List Segment → List Segment → Option (List Segment) → Type 0
IsFound work target none = IsInside work target → ⊥
IsFound work target (some t) = (t ≡ target) × IsInside work t

dockerfile-IsFound :
    (work : List Segment) (path : List ℕ)
    → All IsName work
    → IsFound work (join_path work path) (resolve_dockerfile work path)
unfolding resolve_dockerfile
dockerfile-IsFound work path h =
    let target = join_path work path in
    if_rule (IsFound work target) (escapes (rel_path work target)) _ _ (λ e. outside work target e)
      λ e. (refl, inside work path h e)

-- For a checkout's directory, absolute and clean, and any path: the Dockerfile's path is accepted exactly
-- where the joined and cleaned path is the directory's followed by names, with no empty, `.` or `..`
-- segment; so is the compose file's, unless it is absolute, and then it is taken as it is given.
pub resolved_inside :
    (work : List Segment) (path : List ℕ)
    → All IsName work
    → IsFound work (join_path work path) (resolve_dockerfile work path)
      × IsRight work (join_path work path) (resolve_compose_path work path)
resolved_inside work path h = (dockerfile-IsFound work path h, compose-IsRight work path h)
