-- ===== src/Models/Status.antt =====
-- internal/models/models.go: `BuildStatus`. The Go type is a string; the program only ever stores
-- these five.
use build_system.Prelude.{Bool, true, false}

pub data BuildStatus : Type 0 where
  pending running success failed canceled : BuildStatus

pub BuildStatus-discrete : Discrete BuildStatus
BuildStatus-discrete = hlevel

-- `==` on statuses.
abbrev pub same_status : BuildStatus → BuildStatus → Bool
same_status pending pending = true
same_status running running = true
same_status success success = true
same_status failed failed = true
same_status canceled canceled = true
same_status _ _ = false

abbrev pub terminal : BuildStatus → Bool
terminal success = true
terminal failed = true
terminal canceled = true
terminal _ = false
