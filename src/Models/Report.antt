-- ===== src/Models/Report.antt =====
-- internal/models/models.go: the report of a build machine about itself, and its bounds. A map is the
-- list of its entries; before the clamp a text is what a machine sent, and afterwards it is bytes.
use build_system.Prelude.{
  ℕ, zero, suc, ◌+◌, ◌≤◌, Bool, true, false, List, [], ◌∷◌, ◌++◌, Option, map, length, length-map,
  length-take, take, All, ltb, ◌==◌, if_rule, if◌then◌else◌, arith,
}
use build_system.Prelude.Text.{same_bytes}
use build_system.Models.Texts.{Piece, text_bytes, clamp_text}
use build_system.Models.Texts.Clamped.{clamp_text_short}

-- `MaxStatusChecks` and the bounds beside it.
abbrev pub max_status_checks : ℕ
max_status_checks = 32

abbrev pub max_status_detail_len : ℕ
max_status_detail_len = 500

abbrev pub max_status_name_len : ℕ
max_status_name_len = 64

abbrev pub max_status_list : ℕ
max_status_list = 32

abbrev pub max_status_workspaces : ℕ
max_status_workspaces = 50

abbrev pub max_status_bytes : ℕ
max_status_bytes = 32768

pub record AgentCheck (T : Type 0) : Type 0 where
  pub name : T
  pub detail : T
  pub passes : Bool
  pub needs_operator : Bool

pub record AgentWorkspace (T : Type 0) : Type 0 where
  pub name : T
  pub used : Option ℕ

pub record AgentStatus (T : Type 0) : Type 0 where
  pub checks : List (AgentCheck T)
  pub unity : List T
  pub tools : List (T × T)
  pub workspaces : List (AgentWorkspace T)
  pub timeouts : List (T × T)

-- The order of `sort.Strings`.
abbrev pub bytes_less : List ℕ → List ℕ → Bool
bytes_less [] [] = false
bytes_less [] (b ∷ bs) = true
bytes_less (a ∷ l) [] = false
bytes_less (a ∷ l) (b ∷ bs) = if a == b then bytes_less l bs else ltb a b

abbrev pub insert_key :
    List Piece × List Piece → List (List Piece × List Piece) → List (List Piece × List Piece)
insert_key e [] = e ∷ []
insert_key e (f ∷ fs) =
    if bytes_less (text_bytes f.0) (text_bytes e.0) then f ∷ insert_key e fs else e ∷ f ∷ fs

abbrev pub sort_keys : List (List Piece × List Piece) → List (List Piece × List Piece)
sort_keys [] = []
sort_keys (e ∷ es) = insert_key e (sort_keys es)

-- `out[k] = v`.
abbrev pub put_entry : List ℕ → List ℕ → List (List ℕ × List ℕ) → List (List ℕ × List ℕ)
put_entry k v [] = (k, v) ∷ []
put_entry k v (e ∷ es) = if same_bytes e.0 k then (k, v) ∷ es else e ∷ put_entry k v es

abbrev pub put_all :
    ℕ → List (List Piece × List Piece) → List (List ℕ × List ℕ) → List (List ℕ × List ℕ)
put_all max_val [] out = out
put_all max_val (e ∷ es) out =
    put_all max_val es (put_entry (clamp_text e.0 max_status_name_len) (clamp_text e.1 max_val) out)

-- `clampMap`.
unfoldable pub clamp_map : List (List Piece × List Piece) → ℕ → ℕ → List (List ℕ × List ℕ)
clamp_map m max_keys max_val = put_all max_val (take max_keys (sort_keys m)) []

abbrev pub clamp_check : AgentCheck (List Piece) → AgentCheck (List ℕ)
clamp_check c = record {
  name = clamp_text c.name max_status_name_len;
  detail = clamp_text c.detail max_status_detail_len;
  passes = c.passes;
  needs_operator = c.needs_operator;
}

abbrev pub clamp_workspace : AgentWorkspace (List Piece) → AgentWorkspace (List ℕ)
clamp_workspace w = record { name = clamp_text w.name max_status_name_len; used = w.used }

-- `AgentStatus.Clamp`.
unfoldable pub clamp : AgentStatus (List Piece) → AgentStatus (List ℕ)
clamp s = record {
  checks = map clamp_check (take max_status_checks s.checks);
  unity = map (λ t. clamp_text t max_status_name_len) (take max_status_list s.unity);
  tools = clamp_map s.tools max_status_list max_status_detail_len;
  workspaces = map clamp_workspace (take max_status_workspaces s.workspaces);
  timeouts = clamp_map s.timeouts max_status_list max_status_name_len;
}

-- The loop of `Problems`, with its two lists.
abbrev pub sort_problems :
    {T : Type 0}
    → List (AgentCheck T)
    → List (AgentCheck T)
    → List (AgentCheck T)
    → List (AgentCheck T)
sort_problems [] operator other = operator ++ other
sort_problems (c ∷ cs) operator other =
    if c.passes
    then sort_problems cs operator other
    else if c.needs_operator
    then sort_problems cs (operator ++ c ∷ []) other
    else sort_problems cs operator (other ++ c ∷ [])

-- `Problems`.
unfoldable pub problems : {T : Type 0} → AgentStatus T → List (AgentCheck T)
problems s = sort_problems s.checks [] []

abbrev pub Short : ℕ → List ℕ → Type 0
Short n l = length l ≤ n

-- A map of at most so many entries, with short keys and values.
abbrev pub IsSmall : ℕ → ℕ → List (List ℕ × List ℕ) → Type 0
IsSmall count max_val m =
    (length m ≤ count) × All (λ (e : List ℕ × List ℕ). Short 64 e.0 × Short max_val e.1) m

-- The documented bounds on what is stored.
pub record IsClamped (s : AgentStatus (List ℕ)) : Type 0 where
  pub few_checks : length s.checks ≤ 32
  pub short_checks :
      All (λ (c : AgentCheck (List ℕ)). Short 64 c.name × Short 500 c.detail) s.checks
  pub few_unity : length s.unity ≤ 32
  pub short_unity : All (Short 64) s.unity
  pub small_tools : IsSmall 32 500 s.tools
  pub few_workspaces : length s.workspaces ≤ 50
  pub short_workspaces : All (λ (w : AgentWorkspace (List ℕ)). Short 64 w.name) s.workspaces
  pub small_timeouts : IsSmall 32 64 s.timeouts

All-map_each {ℓ κ ι} :
    {A : Type ℓ} {B : Type κ} (P : B → Type ι) (f : A → B)
    → ((a : A) → P (f a))
    → (xs : List A) → All P (map f xs)
All-map_each P f h [] = tt
All-map_each P f h (x ∷ xs) = (h x, All-map_each P f h xs)

put_entry-IsSmall :
    (n max_val : ℕ) (k v : List ℕ) (m : List (List ℕ × List ℕ))
    → Short 64 k
    → Short max_val v
    → IsSmall n max_val m
    → IsSmall (suc n) max_val (put_entry k v m)
put_entry-IsSmall n max_val k v [] a b h = (omega arith, ((a, b), tt))
put_entry-IsSmall zero max_val k v (e ∷ es) a b h = absurd (omega (arith, h.0))
put_entry-IsSmall (suc n) max_val k v (e ∷ es) a b h =
    let rest = put_entry-IsSmall n max_val k v es a b (omega (arith, h.0), h.1.1) in
    if_rule (IsSmall (suc (suc n)) max_val) (same_bytes e.0 k) _ _
      (λ same. (omega (arith, h.0), ((a, b), h.1.1)))
      λ other. (omega (arith, rest.0), (h.1.0, rest.1))

put_all-IsSmall :
    (n max_val : ℕ) (es : List (List Piece × List Piece)) (out : List (List ℕ × List ℕ))
    → IsSmall n max_val out
    → IsSmall (n + length es) max_val (put_all max_val es out)
put_all-IsSmall n max_val [] out h = (omega (arith, h.0), h.1)
put_all-IsSmall n max_val (e ∷ es) out h =
    let next = put_all-IsSmall (suc n) max_val es _ (
      put_entry-IsSmall n max_val _ _ out (clamp_text_short e.0 64) (clamp_text_short e.1 max_val)
        h) in
    (omega (arith, next.0), next.1)

clamp_map-IsSmall :
    (m : List (List Piece × List Piece)) (max_keys max_val : ℕ)
    → IsSmall max_keys max_val (clamp_map m max_keys max_val)
unfolding clamp_map
clamp_map-IsSmall m max_keys max_val =
    let kept = take max_keys (sort_keys m) in
    let small = put_all-IsSmall 0 max_val kept [] (omega arith, tt) in
    (omega (arith, small.0, length-take max_keys (sort_keys m)), small.1)

length-map-take {ℓ κ} :
    {A : Type ℓ} {B : Type κ} (f : A → B) (n : ℕ) (xs : List A) → length (map f (take n xs)) ≤ n
length-map-take f n xs = omega (arith, length-map (take n xs) f, length-take n xs)

-- Whatever a machine reports, the clamp puts it within the documented bounds: the number of checks,
-- editors, workspaces and entries, and the bytes of each text, the keys of the maps included.
pub clamp-IsClamped : (s : AgentStatus (List Piece)) → IsClamped (clamp s)
unfolding clamp
clamp-IsClamped s = record {
  few_checks = length-map-take clamp_check 32 s.checks;
  short_checks =
      All-map_each _ clamp_check (λ c. (clamp_text_short c.name 64, clamp_text_short c.detail 500))
        (take 32 s.checks);
  few_unity = length-map-take (λ t. clamp_text t 64) 32 s.unity;
  short_unity =
      All-map_each (Short 64) (λ t. clamp_text t 64) (λ t. clamp_text_short t 64) (take 32 s.unity);
  small_tools = clamp_map-IsSmall s.tools 32 500;
  few_workspaces = length-map-take clamp_workspace 50 s.workspaces;
  short_workspaces =
      All-map_each _ clamp_workspace (λ w. clamp_text_short w.name 64) (take 50 s.workspaces);
  small_timeouts = clamp_map-IsSmall s.timeouts 32 64;
}
