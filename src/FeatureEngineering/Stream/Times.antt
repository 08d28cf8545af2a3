-- ===== src/FeatureEngineering/Stream/Times.antt =====
-- At which times the consumer writes rows of a symbol.
use portfolio_engine.Prelude.{
  ℕ, suc, ◌+◌, ◌-◌, ◌≡◌, refl, sym, ap, ◌∙◌, inl, inr, String, true, Bool-cases, Option,
  Option-cases, List, [], ◌∷◌, ◌++◌, map, length, length-append, length-drop, drop, leb, leb→le,
  zero, ◌&&◌, All, Has, str_eq, eq_iff, arith, if◌then◌else◌,
}
use portfolio_engine.Float.{Float}
use portfolio_engine.Dict.{Dict, get, insert, get-insert}
use portfolio_engine.Database.{PriceRow, FeatureRow, where_true, pair_key}
use portfolio_engine.Portfolio.Ready.{number_of}
use portfolio_engine.FeatureEngineering.Indicators.{Candle, Series}
use portfolio_engine.FeatureEngineering.Stream.{
  Message, Write, Stored, append, buffer_size, min_buffer, feature_row, store, store_all, writes_of,
  candle_of, writes,
}
use portfolio_engine.FeatureEngineering.Stream.Restart.{
  HasKey, IsDone, store-IsDone, store_all-keeps,
}
use portfolio_engine.FeatureEngineering.Stream.Bounded.{of_symbol, candles_of}

module _ {R : Type 0} (symbol_of : R → String) (time_of : R → ℕ) where
  -- The times of the rows of a symbol.
  abbrev pub times_of : String → List R → List ℕ
  times_of s rows = map time_of (where_true (λ r. str_eq (symbol_of r) s) rows)

  pub number_of-times_of :
      (s : String) (rows : List R) → number_of symbol_of s rows ≡ length (times_of s rows)
  unfolding number_of
  number_of-times_of s [] = refl
  number_of-times_of s (r ∷ rows) = elim (Bool-cases (str_eq (symbol_of r) s)) [
    | inl e ↦ rw e (ap suc (number_of-times_of s rows))
    | inr e ↦ rw e (number_of-times_of s rows)
  ]

  HasKey-times_of :
      (s x : String) (t : ℕ) (rows : List R)
      → str_eq x s ≡ true
      → HasKey {K = String × ℕ} (λ r. (symbol_of r, time_of r)) (x, t) rows
      → Has t (times_of s rows)
  HasKey-times_of s x t [] same h = elim h [ ]
  HasKey-times_of s x t (r ∷ rows) same (inl found) =
      let here : str_eq (symbol_of r) s ≡ true =
        ap (λ (p : String × ℕ). str_eq p.0 s) found ∙ same in
      rw here (inl (ap (λ (p : String × ℕ). p.1) found))
  HasKey-times_of s x t (r ∷ rows) same (inr h) = elim (Bool-cases (str_eq (symbol_of r) s)) [
    | inl e ↦ rw e (inr (HasKey-times_of s x t rows same h))
    | inr e ↦ rw e (HasKey-times_of s x t rows same h)
  ]

module _ {F : Type 0} where
  -- The times of the price rows of a symbol among the insertions, and those of its feature rows.
  abbrev pub price_times : String → List (Write F) → List ℕ
  price_times s [] = []
  price_times s (Write.price r ∷ ws) =
      if str_eq r.symbol s then r.time ∷ price_times s ws else price_times s ws
  price_times s (Write.features r ∷ ws) = price_times s ws

  abbrev pub feature_times : String → List (Write F) → List ℕ
  feature_times s [] = []
  feature_times s (Write.price r ∷ ws) = feature_times s ws
  feature_times s (Write.features r ∷ ws) =
      if str_eq r.symbol s then r.time ∷ feature_times s ws else feature_times s ws

  pub store_all-IsDone : (ws : List (Write F)) (t : Stored F) → All (IsDone (store_all ws t)) ws
  unfolding store_all
  store_all-IsDone [] t = tt
  store_all-IsDone (w ∷ ws) t =
      (store_all-keeps ws w (store w t) (store-IsDone w t), store_all-IsDone ws (store w t))

  pub price_times-Has :
      (s : String) (ws : List (Write F)) (t : Stored F)
      → All (IsDone t) ws
      → All
          (λ y. Has y (times_of (λ (r : PriceRow F). r.symbol) (λ r. r.time) s t.prices))
          (price_times s ws)
  price_times-Has s [] t h = tt
  price_times-Has s (Write.price r ∷ ws) t h = elim (Bool-cases (str_eq r.symbol s)) [
    | inl e ↦ rw e (
      HasKey-times_of (λ (q : PriceRow F). q.symbol) (λ q. q.time) s r.symbol r.time t.prices e h.0,
      price_times-Has s ws t h.1,
    )
    | inr e ↦ rw e (price_times-Has s ws t h.1)
  ]
  price_times-Has s (Write.features r ∷ ws) t h = price_times-Has s ws t h.1

  pub feature_times-Has :
      (s : String) (ws : List (Write F)) (t : Stored F)
      → All (IsDone t) ws
      → All
          (λ y. Has y (times_of (λ (r : FeatureRow F). r.symbol) (λ r. r.time) s t.features))
          (feature_times s ws)
  feature_times-Has s [] t h = tt
  feature_times-Has s (Write.price r ∷ ws) t h = feature_times-Has s ws t h.1
  feature_times-Has s (Write.features r ∷ ws) t h = elim (Bool-cases (str_eq r.symbol s)) [
    | inl e ↦ rw e (
      HasKey-times_of (λ (q : FeatureRow F). q.symbol) (λ q. q.time) s r.symbol r.time t.features e
          h.0,
      feature_times-Has s ws t h.1,
    )
    | inr e ↦ rw e (feature_times-Has s ws t h.1)
  ]

  -- The times of a symbol's candles.
  abbrev pub candle_times : String → List (Candle F) → List ℕ
  candle_times s cs = map (λ (c : Candle F). c.time) (of_symbol s cs)

drop-nil : (n : ℕ) → drop {A = ℕ} n [] ≡ []
drop-nil zero = refl
drop-nil (suc n) = refl

-- One more candle, when the buffer had `before` of them and then has `after`.
drop_step :
    (before after time : ℕ) (written times : List ℕ)
    → after ≡ before + 1 - (before + 1 - buffer_size)
    → written ≡ drop (61 - after) times
    → (if leb min_buffer after then time ∷ written else written) ≡ drop (61 - before) (time ∷ times)
drop_step before after time written times e h = elim (Bool-cases (leb min_buffer after)) [
  | inl enough ↦
      let all_after : 61 - after ≡ 0 = ground (arith, leb→le min_buffer after enough) in
      let all_before : 61 - before ≡ 0 = ground (arith, leb→le min_buffer after enough) in
      rw (enough, all_before) (ap (λ l. time ∷ l) (rw all_after at h))
  | inr few ↦ let one_less : 61 - before ≡ suc (61 - after) = ground arith in rw (few, one_less) h
]

module _ {F : Type 0} ⦃f : Float F⦄ (series : Series F) (parse_float : String → Option F) where
  price_times-writes_of :
      (s : String) (c : Candle F) (b : List (Candle F)) (ws : List (Write F))
      → price_times s (writes_of series c b ++ ws)
        ≡ (if str_eq c.symbol s then c.time ∷ price_times s ws else price_times s ws)
  price_times-writes_of s c b ws = elim (Bool-cases (leb min_buffer (length b))) [
    | inl e ↦ rw e refl
    | inr e ↦ rw e refl
  ]

  feature_times-writes_of :
      (s : String) (c : Candle F) (b : List (Candle F)) (ws : List (Write F))
      → feature_times s (writes_of series c b ++ ws) ≡ (
          if str_eq c.symbol s && leb min_buffer (length b)
          then c.time ∷ feature_times s ws
          else feature_times s ws)
  unfolding feature_row
  feature_times-writes_of s c b ws = elim (Bool-cases (leb min_buffer (length b))) [
    | inl e ↦ elim (Bool-cases (str_eq c.symbol s)) [
      | inl same ↦ rw (e, same) refl
      | inr other ↦ rw (e, other) refl
    ]
    | inr e ↦ elim (Bool-cases (str_eq c.symbol s)) [
      | inl same ↦ rw (e, same) refl
      | inr other ↦ rw (e, other) refl
    ]
  ]

  pub price_times-writes :
      (s : String) (ms : List Message) (buffers : Dict (List (Candle F)))
      → price_times s (writes series parse_float ms buffers)
        ≡ candle_times s (candles_of parse_float ms)
  unfolding writes candles_of
  price_times-writes s [] buffers = refl
  price_times-writes s (m ∷ ms) buffers = elim (Option-cases (candle_of parse_float m)) [
    | inl e ↦ rw (e, writes, candles_of) refl
    | inr (c, e) ↦
        let b = append c (get [] c.symbol buffers) in
        let rest = price_times-writes s ms (insert c.symbol b buffers) in
        elim (Bool-cases (str_eq c.symbol s)) [
          | inl same ↦
              rw (e, writes, candles_of)
                (price_times-writes_of s c b _ ∙ rw same (ap (λ l. c.time ∷ l) rest))
          | inr other ↦ rw (e, writes, candles_of) (price_times-writes_of s c b _ ∙ rw other rest)
        ]
  ]

  length-append_buffer :
      (c : Candle F) (b : List (Candle F))
      → length (append c b) ≡ length b + 1 - (length b + 1 - buffer_size)
  unfolding append
  length-append_buffer c b = omega (
    arith,
    length-drop (length (b ++ c ∷ []) - buffer_size) (b ++ c ∷ []),
    length-append b (c ∷ []),
  )

  -- Features are written from the 62nd candle of the buffer on.
  pub feature_times-writes :
      (s : String) (ms : List Message) (buffers : Dict (List (Candle F)))
      → feature_times s (writes series parse_float ms buffers)
        ≡ drop (61 - length (get [] s buffers)) (candle_times s (candles_of parse_float ms))
  unfolding writes candles_of
  feature_times-writes s [] buffers = sym (drop-nil (61 - length (get [] s buffers)))
  feature_times-writes s (m ∷ ms) buffers = elim (Option-cases (candle_of parse_float m)) [
    | inl e ↦ rw (e, writes, candles_of) (sym (drop-nil (61 - length (get [] s buffers))))
    | inr (c, e) ↦
        let b = append c (get [] c.symbol buffers) in
        let rest = feature_times-writes s ms (insert c.symbol b buffers) in
        elim (Bool-cases (str_eq c.symbol s)) [
          | inl same ↦
              let old = ap (λ j. length (get [] j buffers)) ((eq_iff c.symbol s).0 same) in
              let long = length-append_buffer c (get [] c.symbol buffers) in
              rw (e, writes, candles_of)
                (feature_times-writes_of s c b _
                  ∙ rw same (
                      drop_step (length (get [] s buffers)) (length b) c.time _
                        (candle_times s (candles_of parse_float ms)) (omega (arith, long, old))
                        (rw (get-insert [] c.symbol s b buffers, same) at rest)))
          | inr other ↦
              rw (e, writes, candles_of)
                (feature_times-writes_of s c b _
                  ∙ rw other (rw (get-insert [] c.symbol s b buffers, other) at rest))
        ]
  ]
