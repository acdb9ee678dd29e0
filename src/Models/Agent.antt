-- ===== src/Models/Agent.antt =====
-- internal/models/models.go: executors, liveness and pause of build agents. An instant is a number of
-- nanoseconds, and 0 is the zero time.
use build_system.Prelude.{
  ℕ, ◌+◌, String, Bool, false, not, ◌&&◌, Option, none, some, ltb, leb, ◌==◌, if◌then◌else◌,
}
use build_system.Prelude.Text.{str_eq}

-- `ExecutorLocal`.
abbrev pub executor_local : String
executor_local = "local"

abbrev pub remote : String → Bool
remote executor = not (str_eq executor "") && not (str_eq executor executor_local)

-- `AgentHeartbeatTTL`: 90 seconds.
abbrev pub heartbeat_ttl : ℕ
heartbeat_ttl = 90_000_000_000

-- The later of the floor and the last heartbeat.
abbrev pub last_evidence : Option ℕ → ℕ → ℕ
last_evidence none floor = floor
last_evidence (some beat) floor = if ltb floor beat then beat else floor

-- `AgentStale`: now - last ≥ TTL.
abbrev pub agent_stale : Option ℕ → ℕ → ℕ → Bool
agent_stale beat floor now = leb (last_evidence beat floor + heartbeat_ttl) now

-- `AgentPaused`.
abbrev pub agent_paused : Option ℕ → ℕ → Bool
agent_paused none now = false
agent_paused (some until) now = not (until == 0) && ltb now until
