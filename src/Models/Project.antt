-- ===== src/Models/Project.antt =====
-- internal/models/models.go: `Project`, its executor profiles, and the poll interval.
use build_system.Prelude.{
  ℕ, String, Bool, true, false, not, ◌&&◌, ◌||◌, ◌≡◌, ◌∙◌, ap, sym, refl, List, [], ◌∷◌, Option,
  none, some, ltb, ◌==◌, if◌then◌else◌, arith,
}
use build_system.Prelude.Int.{ℤ, pos, negsuc}
use build_system.Prelude.Text.{str_eq, eq_iff, has_text}

-- `ExecutorProfile`.
pub record Profile : Type 0 where
  pub build_command : String
  pub build_path : String
  pub upload_script : String

-- The map `ExecutorProfiles` is the list of its entries.
pub record Project : Type 0 where
  pub id : ℕ
  pub name : String
  pub repo_url : String
  pub branch : String
  pub webhook_secret : String
  pub clone_token : String
  pub executor : String
  pub build_command : String
  pub build_path : String
  pub upload_script : String
  pub executor_profiles : List (String × Profile)
  pub poll_enabled : Bool
  pub poll_interval_secs : ℤ
  pub last_polled_sha : String

abbrev pub is_nonempty {ℓ} : {A : Type ℓ} → List A → Bool
is_nonempty [] = false
is_nonempty (x ∷ xs) = true

abbrev pub has_profiles : Project → Bool
has_profiles p = is_nonempty p.executor_profiles

pub lookup_profile : String → List (String × Profile) → Option Profile
lookup_profile k [] = none
lookup_profile k ((j, v) ∷ m) = if str_eq k j then some v else lookup_profile k m

-- What one round of the loop of `ProfileFor` finds.
abbrev pub profile_at : Project → String → Option Profile
profile_at p executor =
    if has_profiles p
    then lookup_profile executor p.executor_profiles
    else if str_eq executor p.executor
    then some (record {
      build_command = p.build_command;
      build_path = p.build_path;
      upload_script = p.upload_script;
    })
    else none

abbrev pub or_else {ℓ} : {A : Type ℓ} → Option A → Option A → Option A
or_else (some a) o = some a
or_else none o = o

-- `ProfileFor`.
unfoldable pub profile_for : Project → List String → Option Profile
profile_for p [] = none
profile_for p (e ∷ es) = or_else (profile_at p e) (profile_for p es)

-- `PollInterval`, in seconds.
pub poll_interval : Project → ℕ
poll_interval p =
    let secs : ℕ = elim p.poll_interval_secs [ pos n ↦ if n == 0 then 60 else n | negsuc n ↦ 60 ] in
    if ltb secs 30 then 30 else secs

-- `Sanitize`.
pub sanitize : Project → Project
sanitize p = record p { webhook_secret = ""; clone_token = "" }

-- `EXISTS (SELECT 1 FROM json_each(p.executor_profiles) profile WHERE profile.key IN (...))`.
abbrev pub any_profile : List (String × Profile) → List String → Bool
any_profile [] executors = false
any_profile ((k, v) ∷ m) executors = has_text k executors || any_profile m executors

-- The claim's condition on the project's profiles.
abbrev pub matches_profiles : Project → List String → Bool
matches_profiles p executors =
    (not (has_profiles p) && has_text p.executor executors)
    || any_profile p.executor_profiles executors

abbrev pub is_found {ℓ} : {A : Type ℓ} → Option A → Bool
is_found none = false
is_found (some a) = true

str_eq_comm : (a b : String) → str_eq a b ≡ str_eq b a
str_eq_comm a b = ground (arith, eq_iff a b, eq_iff b a)

any_profile-nil : (m : List (String × Profile)) → any_profile m [] ≡ false
any_profile-nil [] = refl
any_profile-nil ((k, v) ∷ m) = any_profile-nil m

any_profile-cons :
    (m : List (String × Profile)) (e : String) (es : List String)
    → any_profile m (e ∷ es) ≡ (is_found (lookup_profile e m) || any_profile m es)
unfolding lookup_profile
any_profile-cons [] e es = refl
any_profile-cons ((k, v) ∷ m) e es = ground (arith, any_profile-cons m e es, str_eq_comm k e)

is_found-or_else : (a b : Option Profile) → is_found (or_else a b) ≡ (is_found a || is_found b)
is_found-or_else none b = refl
is_found-or_else (some a) b = refl

abbrev matches_at : (p : Project) (e : String) → Bool
matches_at p e =
    if has_profiles p then is_found (lookup_profile e p.executor_profiles) else str_eq e p.executor

is_found-profile_at : (p : Project) (e : String) → is_found (profile_at p e) ≡ matches_at p e
is_found-profile_at p e = ground arith

matches-cons :
    (m : List (String × Profile)) (x e : String) (es : List String)
    → ((not (is_nonempty m) && has_text x (e ∷ es)) || any_profile m (e ∷ es)) ≡ (
        (if is_nonempty m then is_found (lookup_profile e m) else str_eq e x)
        || ((not (is_nonempty m) && has_text x es) || any_profile m es))
matches-cons [] x e es = ground (arith, str_eq_comm x e)
matches-cons ((k, v) ∷ m) x e es = any_profile-cons ((k, v) ∷ m) e es

-- The claim query and `ProfileFor` agree: a project matches exactly if a profile is found for it.
pub matches_profiles-profile_for :
    (p : Project) (executors : List String)
    → matches_profiles p executors ≡ is_found (profile_for p executors)
unfolding profile_for
matches_profiles-profile_for p [] = ground (arith, any_profile-nil p.executor_profiles)
matches_profiles-profile_for p (e ∷ es) =
    matches-cons p.executor_profiles p.executor e es
    ∙ ap (◌||◌ (matches_at p e)) (matches_profiles-profile_for p es)
    ∙ ap (λ b. b || is_found (profile_for p es)) (sym (is_found-profile_at p e))
    ∙ sym (is_found-or_else (profile_at p e) (profile_for p es))
