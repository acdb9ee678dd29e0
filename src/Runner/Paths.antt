-- ===== src/Runner/Paths.antt =====
-- internal/runner/runner.go: where the Dockerfile and the compose file of a checkout may lie. A cleaned
-- absolute path is the list of its segments; Join, Clean and Rel of path/filepath are written out for the
-- checkout's directory, which is absolute and clean. Symbolic links are outside.
pub mod Inside
mod Tests
use build_system.Prelude.{
  ℕ, Bool, true, false, List, [], ◌∷◌, ◌++◌, map, Option, none, some, ◌||◌, ◌==◌, if◌then◌else◌,
}
use build_system.Prelude.Text.{codes, same_bytes}

abbrev pub Segment : Type 0
Segment = List ℕ

abbrev pub push_code : ℕ → List Segment → List Segment
push_code c [] = (c ∷ []) ∷ []
push_code c (s ∷ ss) = (c ∷ s) ∷ ss

-- The texts between the slashes.
unfoldable pub split_path : List ℕ → List Segment
split_path [] = [] ∷ []
split_path (c ∷ cs) = let rest = split_path cs in if c == 47 then [] ∷ rest else push_code c rest

abbrev pub parent : List Segment → List Segment
parent [] = []
parent (s ∷ ss) = ss

-- A segment that `Clean` drops, and the one that it resolves.
abbrev pub is_dot : Segment → Bool
is_dot s = same_bytes s [] || same_bytes s (codes ".")

abbrev pub is_dots : Segment → Bool
is_dots s = same_bytes s (codes "..")

-- `Clean` of what follows a clean directory, which stands backwards.
unfoldable pub clean_onto : List Segment → List Segment → List Segment
clean_onto kept [] = kept
clean_onto kept (s ∷ ss) =
    clean_onto (if is_dot s then kept else if is_dots s then parent kept else s ∷ kept) ss

unfoldable pub backwards : List Segment → List Segment → List Segment
backwards [] done = done
backwards (s ∷ ss) done = backwards ss (s ∷ done)

-- `filepath.Join(workDir, path)`.
unfoldable pub join_path : List Segment → List ℕ → List Segment
join_path work path = backwards (clean_onto (backwards work []) (split_path path)) []

-- `filepath.Rel` of two clean absolute paths.
unfoldable pub rel_path : List Segment → List Segment → List Segment
rel_path [] ts = ts
rel_path (b ∷ bs) [] = map (λ s. codes "..") (b ∷ bs)
rel_path (b ∷ bs) (t ∷ ts) =
    let rest = rel_path bs ts in
    if same_bytes b t then rest else map (λ s. codes "..") (b ∷ bs) ++ t ∷ ts

-- `rel == ".."`, or `rel` begins with `../`.
abbrev pub escapes : List Segment → Bool
escapes [] = false
escapes (s ∷ ss) = is_dots s

-- `resolveDockerfile`.
unfoldable pub resolve_dockerfile : List Segment → List ℕ → Option (List Segment)
resolve_dockerfile work path =
    let target = join_path work path in if escapes (rel_path work target) then none else some target

pub data ComposePath : Type 0 where
  escaping : ComposePath
  as_given : List ℕ → ComposePath
  joined : List Segment → ComposePath

abbrev pub is_abs : List ℕ → Bool
is_abs [] = false
is_abs (c ∷ cs) = c == 47

-- `resolveComposePath`.
unfoldable pub resolve_compose_path : List Segment → List ℕ → ComposePath
resolve_compose_path work path =
    let target = join_path work path in
    if is_abs path
    then as_given path
    else if escapes (rel_path work target)
    then escaping
    else joined target
