-- ===== src/Db/AgentStore/Tests.antt =====
-- An agent that is paused, reports itself, and has a full disk.
use build_system.Prelude.{ℕ, ◌≡◌, refl, List, [], ◌∷◌, length, ◌+◌, ◌*◌, none, some}
use build_system.Prelude.Int.{pos}
use build_system.Models.Texts.{rune}
use build_system.Models.Report.{AgentStatus}
use build_system.Db.AgentStore.Columns.{SelfReport, blank_row}
use build_system.Db.AgentStore.Table.{agent_paused_until, pause_agent, resume_agent}
use build_system.Db.AgentStore.Pauses.{
  run_requests, Request, sees, reports, forgets_agent, pause_holds,
}

abbrev full_disk : SelfReport
full_disk = record {
  version = rune 50 ∷ [];
  os_arch = [];
  started_at = none;
  disk_free_gb = some (pos 0);
  disk_floor_gb = none;
}

-- Each check is 20 KB long, and so is a map with an entry.
abbrev long_checks : AgentStatus (List ℕ) → ℕ
long_checks st = 20000 * length st.checks + 20000 * length st.tools

abbrev traffic : List Request
traffic =
    sees "a" ("mac" ∷ []) "https" full_disk 7 [] ∷ reports "a" none 8 [] ∷ forgets_agent "b" ∷ []

pause_holds_example :
    (agent_paused_until "a"
        (run_requests long_checks traffic (pause_agent "a" 50 [] (blank_row "b" ∷ [])))
      ≡ some 50)
    × (agent_paused_until "a"
          (run_requests long_checks traffic (resume_agent "a" (blank_row "b" ∷ [])))
        ≡ none)
pause_holds_example =
    pause_holds long_checks "a" 50 [] traffic (blank_row "b" ∷ []) (tt, (tt, (refl, tt)))
