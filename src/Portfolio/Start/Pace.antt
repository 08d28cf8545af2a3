-- ===== src/Portfolio/Start/Pace.antt =====
-- How soon and how often a service that starts rebalances.
use portfolio_engine.Prelude.{
  ℕ, ◌+◌, ◌*◌, ◌≤◌, ◌<◌, ◌≡◌, refl, ap, sym, ◌∙◌, ◌⊎◌, inl, inr, Bool-cases, List, [], ◌∷◌, leb,
  arith,
}
use portfolio_engine.Float.{Float}
use portfolio_engine.Portfolio.Numpy.{Numpy}
use portfolio_engine.Portfolio.Estimates.{Pandas}
use portfolio_engine.Portfolio.Schedule.{day}
use portfolio_engine.Portfolio.Schedule.Daily.{next_rebalance_from-IsNext}
use portfolio_engine.Portfolio.Rebalance.{Config}
use portfolio_engine.Portfolio.Loop.{Service, Round, check, serve}
use portfolio_engine.Portfolio.Loop.Pace.{runs, IsMonotone, last_time, runs_bound}
use portfolio_engine.Portfolio.Start.{Boot, Sleeps, serving, first_service, main}
use portfolio_engine.Portfolio.Start.Waits.{main_serves_iff}

module _ {F : Type 0} ⦃f : Float F⦄ (np : Numpy F) (pd : Pandas F) (c : Config F) (h m : ℕ) where
  -- Rounds that do not rebalance change nothing.
  serve-idle :
      (rounds : List (Round F)) (s : Service F)
      → runs np pd c h m rounds s ≡ 0
      → serve np pd c h m rounds s ≡ s
  unfolding runs serve check
  serve-idle [] s e = refl
  serve-idle (r ∷ rounds) s e = elim (Bool-cases (leb s.next_rebalance_at r.now)) [
    | inl due ↦ absurd (ground (arith, due, e))
    | inr early ↦
        let skipped : runs np pd c h m (r ∷ rounds) s ≡ runs np pd c h m rounds s = rw early refl in
        rw early (serve-idle rounds s (sym skipped ∙ e))
  ]

  module _ {C : Type 0} (min_price_rows : ℕ) where
    -- For an hour below 24, a minute below 60 and a clock that does not go back: a service that has
    -- started either has not rebalanced, and then its tables are those at the end of the waits, or
    -- the clock has come more than `n - 1` days past the end of the waits, for the `n` times that it
    -- has.
    main_paces :
        (b : Boot F C) (rounds : List (Round F)) (x : Sleeps) (s : Service F)
        → h < 24
        → m < 60
        → 1 ≤ min_price_rows
        → IsMonotone np pd c h m b.now rounds
        → main np pd c h m min_price_rows b rounds ≡ serving x s
        → (s.world ≡ b.world)
          ⊎ (b.now + runs np pd c h m rounds (first_service h m b) * day
              < last_time np pd c h m b.now rounds + day)
    main_paces b rounds x s hh hm pos mono e =
        let first = first_service h m b in
        let (_, _, same) = (main_serves_iff np pd c h m min_price_rows b rounds x s pos).0 e in
        let (later, _, slot, _) = next_rebalance_from-IsNext h m b.now hh hm in
        elim (runs_bound np pd c h m rounds b.now first hh hm mono slot) [
          | inl none_ran ↦
              inl (ap (λ (t : Service F). t.world) (sym same ∙ serve-idle rounds first none_ran))
          | inr bound ↦ inr (omega arith)
        ]
