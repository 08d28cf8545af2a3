-- ===== src/FeatureEngineering/Stream/Bounded.antt =====
-- The buffers, one for each symbol, against the history of all candles.
use mathlib.Core.Path.{subst, ap₂}
use mathlib.Core.List.{append-nil}
use portfolio_engine.Prelude.{
  ◌-◌, IsTail, IsTail-eq, drop-IsTail, drop, ◌-◌, String, ◌≡◌, refl, sym, ap, ◌∙◌, inl, inr,
  Bool-cases, Option, Option-cases, none, some, List, [], ◌∷◌, ◌++◌, length, str_eq, eq_iff, arith,
  if◌then◌else◌, leb,
}
use portfolio_engine.Float.{Float}
use portfolio_engine.Dict.{Dict, get, insert, get-insert}
use portfolio_engine.Database.{where_true, where_true-append}
use portfolio_engine.FeatureEngineering.Indicators.{Candle, Series}
use portfolio_engine.FeatureEngineering.Stream.{
  Message, Write, price, features, price_row, feature_row, append, writes_of, candle_of, writes,
  Stored, fresh, run, store_all,
}
use portfolio_engine.FeatureEngineering.Stream.Restart.{run-writes}

module _ {F : Type 0} where
  abbrev pub of_symbol : String → List (Candle F) → List (Candle F)
  of_symbol s = where_true (λ c. str_eq c.symbol s)

  -- The candles of the messages, up to the first that cannot be read.
  unfoldable pub candles_of : (String → Option F) → List Message → List (Candle F)
  candles_of parse_float [] = []
  candles_of parse_float (m ∷ ms) = elim (candle_of parse_float m) [
    | none ↦ []
    | some candle ↦ candle ∷ candles_of parse_float ms
  ]

  -- The buffer is the end of the history, and all of it while it is shorter than 120.
  abbrev IsEnd : List (Candle F) → List (Candle F) → Type 0
  IsEnd = IsTail 120

  append-IsEnd :
      (h b : List (Candle F)) (c : Candle F) → IsEnd h b → IsEnd (h ++ c ∷ []) (append c b)
  unfolding append
  append-IsEnd h b c = drop-IsTail 120 h b c (omega arith)

  -- Every buffer against the history of its symbol.
  abbrev Buffers : List (Candle F) → Dict (List (Candle F)) → Type 0
  Buffers past buffers = (s : String) → IsEnd (of_symbol s past) (get [] s buffers)

  of_symbol_self :
      (past : List (Candle F)) (c : Candle F)
      → of_symbol c.symbol (past ++ c ∷ []) ≡ of_symbol c.symbol past ++ c ∷ []
  of_symbol_self past c =
      where_true-append (λ (d : Candle F). str_eq d.symbol c.symbol) past (c ∷ [])
      ∙ ap (λ b. of_symbol c.symbol past ++ (if b then c ∷ [] else []))
          ((eq_iff c.symbol c.symbol).1 refl)

  Buffers-insert :
      (past : List (Candle F)) (buffers : Dict (List (Candle F))) (c : Candle F)
      → Buffers past buffers
      → Buffers (past ++ c ∷ []) (insert c.symbol (append c (get [] c.symbol buffers)) buffers)
  Buffers-insert past buffers c h s =
      let b = append c (get [] c.symbol buffers) in
      elim (Bool-cases (str_eq c.symbol s)) [
        | inl e ↦
            let same : c.symbol ≡ s = (eq_iff c.symbol s).0 e in
            subst (λ x. IsEnd (of_symbol x (past ++ c ∷ [])) (get [] x (insert c.symbol b buffers)))
              same
              (rw
                (
                  of_symbol_self past c,
                  get-insert [] c.symbol c.symbol b buffers,
                  (eq_iff c.symbol c.symbol).1 refl,
                )
                (append-IsEnd (of_symbol c.symbol past) (get [] c.symbol buffers) c (h c.symbol)))
        | inr e ↦
            let skip : of_symbol s (past ++ c ∷ []) ≡ of_symbol s past =
              where_true-append (λ (d : Candle F). str_eq d.symbol s) past (c ∷ [])
              ∙ ap (λ t. of_symbol s past ++ (if t then c ∷ [] else [])) e
              ∙ append-nil (of_symbol s past) in
            rw (skip, get-insert [] c.symbol s b buffers, e) (h s)
      ]

-- The last 120 candles of a history, or all of it.
abbrev pub recent_candles : {F : Type 0} → List (Candle F) → List (Candle F)
recent_candles h = drop (length h - 120) h

module _ {F : Type 0} ⦃f : Float F⦄ (series : Series F) where
  -- The insertions for a candle, with the recent candles of its symbol: a price row, and from 62
  -- candles on also a feature row.
  unfoldable pub reference_writes : Candle F → List (Candle F) → List (Write F)
  reference_writes c recent =
      if leb 62 (length recent)
      then price (price_row c) ∷ features (feature_row series c recent) ∷ []
      else price (price_row c) ∷ []

  writes_of_eq : (c : Candle F) (b : List (Candle F)) → writes_of series c b ≡ reference_writes c b
  unfolding writes_of reference_writes
  writes_of_eq c b = elim (Bool-cases (leb 62 (length b))) [ inl e ↦ rw e refl | inr e ↦ rw e refl ]

  -- The reference, without buffers: the insertions for a candle are computed from the last 120
  -- candles of its symbol in the history, in the order in which they came.
  unfoldable pub writes_of_history : List (Candle F) → List (Candle F) → List (Write F)
  writes_of_history past [] = []
  writes_of_history past (c ∷ candles) =
      reference_writes c (recent_candles (of_symbol c.symbol (past ++ c ∷ [])))
      ++ writes_of_history (past ++ c ∷ []) candles

  module _ (parse_float : String → Option F) where
    writes-history :
        (ms : List Message) (past : List (Candle F)) (buffers : Dict (List (Candle F)))
        → Buffers past buffers
        → writes series parse_float ms buffers ≡ writes_of_history past (candles_of parse_float ms)
    unfolding writes candles_of writes_of_history
    writes-history [] past buffers h = refl
    writes-history (m ∷ ms) past buffers h = elim (Option-cases (candle_of parse_float m)) [
      | inl e ↦ rw (e, writes, candles_of, writes_of_history) refl
      | inr (c, e) ↦
          let b = append c (get [] c.symbol buffers) in
          let ended : IsEnd (of_symbol c.symbol (past ++ c ∷ [])) b =
            subst (λ (hs : List (Candle F)). IsEnd hs b) (sym (of_symbol_self past c))
              (append-IsEnd (of_symbol c.symbol past) (get [] c.symbol buffers) c (h c.symbol)) in
          let same : b ≡ recent_candles (of_symbol c.symbol (past ++ c ∷ [])) =
            IsTail-eq 120 _ b ended in
          rw (e, writes, candles_of, writes_of_history)
            (ap₂ ◌++◌ (writes_of_eq c b ∙ ap (reference_writes c) same) (
              writes-history ms (past ++ c ∷ []) (insert c.symbol b buffers)
                (Buffers-insert past buffers c h)))
    ]

    -- The buffers implement the reference, whatever the messages and the tables: every price row and
    -- every feature row that the consumer writes is the one that is computed, without buffers, from
    -- the last 120 candles of its symbol among all that have come, if there are 62 or more.
    pub run_refines :
        (ms : List Message) (t : Stored F)
        → (run series parse_float ms fresh t).2
          ≡ store_all (writes_of_history [] (candles_of parse_float ms)) t
    unfolding get
    run_refines ms t =
        run-writes series parse_float ms fresh t
        ∙ ap (λ ws. store_all ws t)
            (writes-history ms [] [] (λ s. ([], refl, omega arith, inl refl)))
