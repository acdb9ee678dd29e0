-- ===== src/Db/AgentStore/Trimmed.antt =====
-- What is stored of a report that is too long.
use build_system.Prelude.{
  ℕ, zero, suc, ◌≤◌, ◌<◌, ◌≡◌, ◌≢◌, ap, sym, subst, ◌⊎◌, refl, inl, inr, ◌||◌, List, Option, none,
  some, length, leb, if_rule, if◌then◌else◌, arith,
}
use build_system.Models.Report.{AgentStatus, max_status_bytes}
use build_system.Db.AgentStore.Table.{only_checks, trim_checks, fit_status}

==_cases : (a b : ℕ) → (a ≡ b) ⊎ (a ≢ b)
==_cases a b = ground arith

module _ (size : AgentStatus (List ℕ) → ℕ) where
  -- The first k checks alone fit, and no longer prefix does.
  pub record IsLongest (st : AgentStatus (List ℕ)) (k : ℕ) : Type 0 where
    pub prefix : k ≤ length st.checks
    pub fits : size (only_checks st k) ≤ 32768
    pub longest : (j : ℕ) → k < j → j ≤ length st.checks → 32768 < size (only_checks st j)

  abbrev pub IsFit : AgentStatus (List ℕ) → Option (AgentStatus (List ℕ)) → Type 0
  IsFit st none =
      (32768 < size st) × ((j : ℕ) → 0 < j → j ≤ length st.checks → 32768 < size (only_checks st j))
  IsFit st (some r) =
      ((r ≡ st) × (size st ≤ 32768))
      ⊎ ((32768 < size st) × ((k : ℕ) × (r ≡ only_checks st k) × IsLongest st k))

  -- Where the loop stops.
  record Stops (st r : AgentStatus (List ℕ)) (n : ℕ) : Type 0 where
    at : ℕ
    within : at ≤ n
    found : r ≡ only_checks st at
    least : (size (only_checks st at) ≤ 32768) ⊎ (at ≤ 1)
    tried : (j : ℕ) → at < j → j ≤ n → 32768 < size (only_checks st j)

  trim_checks-Stops : (st : AgentStatus (List ℕ)) (n : ℕ) → Stops st (trim_checks size st n) n
  unfolding trim_checks
  trim_checks-Stops st zero = record {
    at = 0;
    within = omega arith;
    found = refl;
    least = inr (omega arith);
    tried = λ j p q. absurd (omega (arith, p, q));
  }
  trim_checks-Stops st (suc n) =
      let rest = trim_checks-Stops st n in
      if_rule (λ r. Stops st r (suc n))
        (leb (size (only_checks st (suc n))) max_status_bytes || leb (suc n) 1) _ _
        (λ e. record {
          at = suc n;
          within = omega arith;
          found = refl;
          least = ground (arith, e);
          tried = λ j p q. absurd (omega (arith, p, q));
        })
        λ e. record {
          at = rest.at;
          within = omega (arith, rest.within);
          found = rest.found;
          least = rest.least;
          tried = λ j p q. elim (==_cases j (suc n)) [
            | inl same ↦ subst (λ i. 32768 < size (only_checks st i)) (sym same) (ground (arith, e))
            | inr other ↦ rest.tried j p (omega (arith, q, other))
          ];
        }

  trimmed_lem :
      (st trimmed : AgentStatus (List ℕ))
      → Stops st trimmed (length st.checks)
      → 32768 < size st
      → IsFit st (if leb (size trimmed) max_status_bytes then some trimmed else none)
  trimmed_lem st trimmed s big =
      if_rule (IsFit st) (leb (size trimmed) max_status_bytes) _ _
        (λ e. inr (
          big,
          (
            s.at,
            s.found,
            record {
              prefix = s.within;
              fits = ground (arith, e, ap size s.found);
              longest = s.tried;
            },
          ),
        ))
        λ e. (
          big,
          λ j p q. elim (==_cases j s.at) [
            | inl same ↦
                subst (λ i. 32768 < size (only_checks st i)) (sym same)
                  (ground (arith, e, ap size s.found))
            | inr other ↦ s.tried j (ground (arith, s.least, e, ap size s.found, p, other)) q
          ],
        )

  -- Of a clamped report, whatever the length of its text is as a function: all is stored if that fits
  -- into 32 KiB; or else the longest prefix of its checks that fits, and nothing else; and nothing at all
  -- only if not even the first check fits.
  pub fit_status-IsFit : (st : AgentStatus (List ℕ)) → IsFit st (fit_status size st)
  unfolding fit_status
  fit_status-IsFit st =
      if_rule (IsFit st) (leb (size st) max_status_bytes) _ _ (λ e. inl (refl, ground (arith, e)))
        λ e.
          trimmed_lem st (trim_checks size st (length st.checks))
            (trim_checks-Stops st (length st.checks)) (ground (arith, e))
