-- ===== src/Runner/Paths/Tests.antt =====
-- Paths in the checkout /tmp/w.
use build_system.Prelude.{ℕ, ◌≡◌, refl, List, [], ◌∷◌, none, some}
use build_system.Prelude.Text.{codes}
use build_system.Runner.Paths.{
  Segment, split_path, clean_onto, backwards, join_path, rel_path, resolve_dockerfile,
  resolve_compose_path,
}
use build_system.Runner.Paths.Inside.{IsRight, IsFound, resolved_inside}

abbrev checkout : List Segment
checkout = codes "tmp" ∷ codes "w" ∷ []

stays_test :
    resolve_dockerfile checkout (codes "a/./b/../Dockerfile")
    ≡ some (codes "tmp" ∷ codes "w" ∷ codes "a" ∷ codes "Dockerfile" ∷ [])
unfolding resolve_dockerfile join_path rel_path backwards clean_onto split_path
stays_test = refl

escapes_test : resolve_dockerfile checkout (codes "a/../../wx") ≡ none
unfolding resolve_dockerfile join_path rel_path backwards clean_onto split_path
escapes_test = refl

abbrev winding : List ℕ
winding = codes "a/../../w/c.yml"

resolved_inside_example :
    IsFound checkout (join_path checkout winding) (resolve_dockerfile checkout winding)
    × IsRight checkout (join_path checkout winding) (resolve_compose_path checkout winding)
resolved_inside_example = resolved_inside checkout winding (refl, (refl, tt))
