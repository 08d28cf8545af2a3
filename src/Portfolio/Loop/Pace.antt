-- ===== src/Portfolio/Loop/Pace.antt =====
-- How often the loop rebalances.
use portfolio_engine.Prelude.{
  ℕ, suc, ◌+◌, ◌*◌, ◌≤◌, ◌<◌, ◌%◌, ◌≡◌, refl, ◌∙◌, sym, ◌⊎◌, inl, inr, Bool-cases, List, [], ◌∷◌,
  leb, leb→le, arith, if◌then◌else◌,
}
use portfolio_engine.Float.{Float}
use portfolio_engine.Portfolio.Numpy.{Numpy}
use portfolio_engine.Portfolio.Estimates.{Pandas}
use portfolio_engine.Portfolio.Schedule.{day, hour, minute, next_rebalance_from}
use portfolio_engine.Portfolio.Schedule.Daily.{next_rebalance_from-IsNext}
use portfolio_engine.Portfolio.Rebalance.{Config, run_rebalance}
use portfolio_engine.Portfolio.Loop.{Service, Round, check}

module _ {F : Type 0} ⦃f : Float F⦄ (np : Numpy F) (pd : Pandas F) (c : Config F) (h m : ℕ) where
  -- The service after a round that rebalances.
  abbrev run_service : Round F → Service F → Service F
  run_service r s = record {
    next_rebalance_at = next_rebalance_from h m r.after;
    world = (run_rebalance np pd c r.env s.world).1;
  }

  -- How many of the rounds rebalance.
  unfoldable pub runs : List (Round F) → Service F → ℕ
  runs [] s = 0
  runs (r ∷ rounds) s =
      let rest = runs rounds (check np pd c h m r s) in
      if leb s.next_rebalance_at r.now then suc rest else rest

  -- The clock does not go back, from `t` on.
  abbrev pub IsMonotone : ℕ → List (Round F) → Type 0
  IsMonotone t [] = Unit
  IsMonotone t (r ∷ rounds) = (t ≤ r.now) × (r.now ≤ r.after) × IsMonotone r.after rounds

  abbrev pub last_time : ℕ → List (Round F) → ℕ
  last_time t [] = t
  last_time t (r ∷ rounds) = last_time r.after rounds

  le-last_time : (rounds : List (Round F)) (t : ℕ) → IsMonotone t rounds → t ≤ last_time t rounds
  le-last_time [] t mono = omega arith
  le-last_time (r ∷ rounds) t mono = omega (arith, le-last_time rounds r.after mono.2)

  -- Two instants at one time of day are whole days apart.
  day_later : (a b : ℕ) → a % day ≡ b % day → a < b → a + day ≤ b
  day_later a b e l = omega arith

  -- For an hour below 24, a minute below 60, a clock that does not go back and a first scheduled
  -- instant at that time of day: over any rounds, either none rebalances, or the clock ends at least
  -- `n - 1` days after the first scheduled instant, for the `n` rounds that do.
  pub runs_bound :
      (rounds : List (Round F)) (t : ℕ) (s : Service F)
      → h < 24
      → m < 60
      → IsMonotone t rounds
      → s.next_rebalance_at % day ≡ h * hour + m * minute
      → (runs rounds s ≡ 0) ⊎ (s.next_rebalance_at + runs rounds s * day ≤ last_time t rounds + day)
  unfolding runs check
  runs_bound [] t s hh hm mono at = inl refl
  runs_bound (r ∷ rounds) t s hh hm mono at = elim (Bool-cases (leb s.next_rebalance_at r.now)) [
    | inl due ↦
        let (later, _, slot, _) = next_rebalance_from-IsNext h m r.after hh hm in
        let rest = runs_bound rounds r.after (run_service r s) hh hm mono.2 slot in
        let last = le-last_time rounds r.after mono.2 in
        let was = leb→le _ _ due in
        let gap =
          day_later s.next_rebalance_at (next_rebalance_from h m r.after) (at ∙ sym slot)
            (omega arith) in
        rw due (inr (elim rest [ inl none_left ↦ omega arith | inr more ↦ omega arith ]))
    | inr early ↦ rw early (runs_bound rounds r.after s hh hm mono.2 at)
  ]
