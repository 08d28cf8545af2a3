-- ===== src/Portfolio/Loop/Books.antt =====
-- The profits in the table of the states, over the life of the service.
use mathlib.Core.Path.{subst}
use mathlib.Core.List.{append_assoc, append-nil}
use mathlib.Core.Option
use portfolio_engine.Prelude.{
  ℕ, ◌+◌ as nat_add, ◌*◌ as nat_mul, ◌%◌, ◌≤◌, ◌<◌, ◌≡◌, refl, sym, ap, ◌∙◌, ◌⊎◌, inl, inr,
  Bool-cases, Option, Option-cases, some, List, [], ◌∷◌, ◌++◌, All, All-append, All-imp, All-suffix,
  All-both, Has, String, leb, leb→le, arith,
}
use portfolio_engine.Float.{Float, ◌+◌, ◌-◌, zero, one}
use portfolio_engine.Database.{
  StateRow, newest, newest-IsLatest, newest-none, All-Has, upsert-new, time_key,
}
use portfolio_engine.Portfolio.States.{latest_state, or_default, fetch_latest_portfolio_state}
use portfolio_engine.Portfolio.States.History.{by_time}
use portfolio_engine.Portfolio.Numpy.{Numpy}
use portfolio_engine.Portfolio.Estimates.{Pandas}
use portfolio_engine.Portfolio.Schedule.{minute, hour, day, next_rebalance_from}
use portfolio_engine.Portfolio.Schedule.Daily.{next_rebalance_from-IsNext}
use portfolio_engine.Portfolio.Rebalance.{Config, World, Env, previous, this_minute, run_rebalance}
use portfolio_engine.Portfolio.Rebalance.Ledger.{row_of, plan-Accounts, run_rebalance-States}
use portfolio_engine.Portfolio.Loop.{Service, Round, check, serve}

Has-append : {A : Type 0} (xs ys : List A) (a : A) → Has a xs → Has a (xs ++ ys)
Has-append [] ys a m = elim m [ ]
Has-append (x ∷ xs) ys a (inl e) = inl e
Has-append (x ∷ xs) ys a (inr m) = inr (Has-append xs ys a m)

module _ {F : Type 0} ⦃f : Float F⦄ where
  -- The profit of the row's period, from an equity before it; and the profits so far, with it.
  abbrev pub Books : StateRow F → F → F → Type 0
  Books r equity cumulative =
      (e : F) × (r.equity ≡ some e)
      × (r.period_pnl ≡ some (e - equity))
      × (r.cumulative_pnl ≡ some (cumulative + (e - equity)))

  -- The row is the first in time, and starts from an equity of 1 and no profit; or it starts from the
  -- row that is the last in time before it.
  abbrev pub IsBooked : List (StateRow F) → StateRow F → Type 0
  IsBooked rows r =
      (All (λ (p : StateRow F). r.time ≤ p.time) rows × Books r one zero)
      ⊎ ((q : StateRow F) × Has q rows
          × (q.time < r.time)
          × All (λ (p : StateRow F). p.time < r.time → p.time ≤ q.time) rows
          × Books r (or_default one q.equity) (or_default zero q.cumulative_pnl))

  -- The old rows, and behind them rows that are booked.
  abbrev pub IsGrown : List (StateRow F) → List (StateRow F) → Type 0
  IsGrown old rows = (added : List (StateRow F)) × (rows ≡ old ++ added) × All (IsBooked rows) added

  IsBooked-append :
      (rows : List (StateRow F)) (r row : StateRow F)
      → r.time < row.time
      → IsBooked rows r
      → IsBooked (rows ++ row ∷ []) r
  IsBooked-append rows r row l (inl (first, books)) =
      inl (All-append _ rows (row ∷ []) first (omega arith, tt), books)
  IsBooked-append rows r row l (inr (q, m, before, top, books)) = inr (
    q,
    Has-append rows (row ∷ []) q m,
    before,
    All-append _ rows (row ∷ []) top ((λ k. absurd (omega arith)), tt),
    books,
  )

  -- A row that is later than all and starts from the latest of them.
  last-IsBooked :
      (symbols : List String) (rows : List (StateRow F)) (row : StateRow F)
      → All (λ (q : StateRow F). q.time < row.time) rows
      → (let prev = previous symbols row.time (fetch_latest_portfolio_state rows) in
          Books row prev.equity prev.cumulative_pnl)
      → IsBooked (rows ++ row ∷ []) row
  unfolding fetch_latest_portfolio_state
  last-IsBooked symbols rows row later books = elim (Option-cases (newest by_time rows)) [
    | inl e ↦
        let started : Books row one zero =
          subst
            (λ (o : Option (StateRow F)).
              let prev = previous symbols row.time (Option.map latest_state o) in
              Books row prev.equity prev.cumulative_pnl)
            e books in
        let nothing : [] ≡ rows = sym (newest-none by_time rows e) in
        inl (
          subst (λ l. All (λ (p : StateRow F). row.time ≤ p.time) (l ++ row ∷ [])) nothing
              (omega arith, tt),
          started,
        )
    | inr (q, e) ↦
        let (m, top) = newest-IsLatest by_time rows q e in
        let followed =
          subst
            (λ (o : Option (StateRow F)).
              let prev = previous symbols row.time (Option.map latest_state o) in
              Books row prev.equity prev.cumulative_pnl)
            e books in
        inr (
          q,
          Has-append rows (row ∷ []) q m,
          All-Has (λ (p : StateRow F). p.time < row.time) rows q later m,
          All-append _ rows (row ∷ []) (All-imp rows (λ p k _. k) top)
              ((λ k. absurd (omega arith)), tt),
          followed,
        )
  ]

  -- One more row behind.
  IsGrown-append :
      (old rows : List (StateRow F)) (row : StateRow F)
      → IsGrown old rows
      → All (λ (q : StateRow F). q.time < row.time) rows
      → IsBooked (rows ++ row ∷ []) row
      → IsGrown old (rows ++ row ∷ [])
  IsGrown-append old rows row (added, e, booked) later last = (
    added ++ row ∷ [],
    ap (λ l. l ++ row ∷ []) e ∙ append_assoc old added (row ∷ []),
    All-append _ added (row ∷ [])
        (All-imp added (λ r (b, l). IsBooked-append rows r row l b)
          (All-both _ _ added booked (
            All-suffix (λ (q : StateRow F). q.time < row.time) old added
              (subst (All (λ (q : StateRow F). q.time < row.time)) e later))))
        (last, tt),
  )

  module _ (np : Numpy F) (pd : Pandas F) (c : Config F) where
    -- A run whose minute is later than all stored times.
    run_rebalance-IsGrown :
        (env : Env F) (w : World F) (old : List (StateRow F))
        → IsGrown old w.states
        → All (λ (q : StateRow F). q.time < this_minute env) w.states
        → let rows = (run_rebalance np pd c env w).1.states in
          IsGrown old rows × All (λ (q : StateRow F). q.time ≤ env.now) rows
    run_rebalance-IsGrown env w old grown later =
        run_rebalance-States np pd c env w
          (λ rows. IsGrown old rows × All (λ (q : StateRow F). q.time ≤ env.now) rows)
          (grown, All-imp w.states (λ q l. omega arith) later)
          (λ p stored planned _.
            let (at, _, period, cumulative) = plan-Accounts np pd c env w p planned in
            let row = row_of p stored in
            let behind = All-imp w.states (λ q l. subst (λ t. q.time < t) (sym at) l) later in
            let added =
              upsert-new by_time row w.states (All-imp w.states (λ q l e. omega arith) behind) in
            let booked =
              last-IsBooked c.symbols w.states row behind
                (p.equity, refl, ap some period, ap some cumulative) in
            subst (λ rows. IsGrown old rows × All (λ (q : StateRow F). q.time ≤ env.now) rows)
              (sym added)
              (
                IsGrown-append old w.states row grown behind booked,
                All-append _ w.states (row ∷ []) (All-imp w.states (λ q l. omega arith) later)
                    (omega arith, tt),
              ))

    module _ (h m : ℕ) where
      serve-IsGrown :
          (rounds : List (Round F)) (s : Service F) (old : List (StateRow F))
          → h < 24
          → m < 60
          → All (λ (r : Round F). (r.now ≤ r.env.now) × (r.env.now ≤ r.after)) rounds
          → s.next_rebalance_at % day ≡ nat_add (nat_mul h hour) (nat_mul m minute)
          → All (λ (q : StateRow F). q.time < s.next_rebalance_at) s.world.states
          → IsGrown old s.world.states
          → IsGrown old (serve np pd c h m rounds s).world.states
      unfolding serve check
      serve-IsGrown [] s old hh hm clocks at later grown = grown
      serve-IsGrown (r ∷ rounds) s old hh hm clocks at later grown =
          elim (Bool-cases (leb s.next_rebalance_at r.now)) [
            | inl due ↦
                let (next, _, slot, _) = next_rebalance_from-IsNext h m r.after hh hm in
                let was = leb→le _ _ due in
                let reached : s.next_rebalance_at ≤ this_minute r.env = omega arith in
                let (more, now) =
                  run_rebalance-IsGrown r.env s.world old grown
                    (All-imp s.world.states (λ q l. omega arith) later) in
                rw (due, serve, check)
                  (serve-IsGrown rounds
                    (record {
                      next_rebalance_at = next_rebalance_from h m r.after;
                      world = (run_rebalance np pd c r.env s.world).1;
                    })
                    old hh hm clocks.1 slot (All-imp _ (λ q l. omega arith) now) more)
            | inr early ↦
                rw (early, serve, check) (serve-IsGrown rounds s old hh hm clocks.1 at later grown)
          ]

      -- For an hour below 24, a minute below 60, a first scheduled instant at that time of day that
      -- is later than all stored states, and runs that take place between the two readings of the
      -- clock in their round: over any rounds, whatever fails in them, the old rows stay as they are
      -- and are followed by rows each of which has, in the sums of doubles, as the profit of its
      -- period its equity less that of the row that is the last in time before it, and as its
      -- cumulative profit that of this row and its own; a row that is the first in time starts from
      -- an equity of 1 and no profit.
      pub serve-Books :
          (rounds : List (Round F)) (s : Service F)
          → h < 24
          → m < 60
          → All (λ (r : Round F). (r.now ≤ r.env.now) × (r.env.now ≤ r.after)) rounds
          → s.next_rebalance_at % day ≡ nat_add (nat_mul h hour) (nat_mul m minute)
          → All (λ (q : StateRow F). q.time < s.next_rebalance_at) s.world.states
          → IsGrown s.world.states (serve np pd c h m rounds s).world.states
      serve-Books rounds s hh hm clocks at later =
          serve-IsGrown rounds s s.world.states hh hm clocks at later
            ([], sym (append-nil s.world.states), tt)
