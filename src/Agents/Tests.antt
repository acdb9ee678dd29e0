-- ===== src/Agents/Tests.antt =====
-- An agent that polls twice at once, ends one poll twice, and is forgotten.
use build_system.Prelude.{◌≡◌, refl, List, [], ◌∷◌}
use build_system.Agents.Registry.{
  new_registry, poll_started, poll_ended, find_poll, drop_poll, doubled, should_persist,
}
use build_system.Agents.Polls.{
  Call, starts, ends_poll, persists, perform, run, polling_of, polling_exact,
}

abbrev two_polls : List Call
two_polls =
    starts 10 "mac" [] "https"
    ∷ starts 11 "mac" [] "https"
    ∷ ends_poll 12 0
    ∷ ends_poll 13 0
    ∷ persists 14 60 "mac"
    ∷ []

polling_exact_example : polling_of ((run two_polls (new_registry 0)).seen "mac") ≡ 1
unfolding run perform poll_started poll_ended find_poll drop_poll doubled should_persist
polling_exact_example = polling_exact 0 two_polls "mac" refl
