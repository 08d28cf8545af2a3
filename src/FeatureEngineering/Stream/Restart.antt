-- ===== src/FeatureEngineering/Stream/Restart.antt =====
-- A process that stops and starts again.
use portfolio_engine.Prelude.{
  ℕ, zero, suc, String, ◌≡◌, refl, sym, ap, ◌∙◌, ◌⊎◌, inl, inr, Bool-cases, Option, Option-cases,
  List, [], ◌∷◌, ◌++◌, take, arith,
}
use portfolio_engine.Float.{Float}
use portfolio_engine.Dict.{get, insert}
use portfolio_engine.Database.{Key, insert_new, pair_key}
use portfolio_engine.FeatureEngineering.Indicators.{Series}
use portfolio_engine.FeatureEngineering.Stream.{
  Message, Write, Stored, Consumer, fresh, append, price_key, feature_key, store, store_all,
  writes_of, candle_of, run, writes,
}

module _ {R K : Type 0} ⦃k : Key K⦄ (key : R → K) where
  -- Some row has the key.
  abbrev pub HasKey : K → List R → Type 0
  HasKey x [] = ⊥
  HasKey x (r ∷ rows) = (key r ≡ x) ⊎ HasKey x rows

  insert_new-HasKey : (row : R) (rows : List R) → HasKey (key row) (insert_new key row rows)
  unfolding insert_new
  insert_new-HasKey row [] = inl refl
  insert_new-HasKey row (r ∷ rows) = elim (Bool-cases (k.beq (key r) (key row))) [
    | inl e ↦ rw e (inl ((k.beq_iff _ _).0 e))
    | inr e ↦ rw e (inr (insert_new-HasKey row rows))
  ]

  pub insert_new-keeps :
      (x : K) (row : R) (rows : List R) → HasKey x rows → HasKey x (insert_new key row rows)
  unfolding insert_new
  insert_new-keeps x row [] h = elim h [ ]
  insert_new-keeps x row (r ∷ rows) h = elim (Bool-cases (k.beq (key r) (key row))) [
    | inl e ↦ rw e h
    | inr e ↦ rw e (elim h [ inl p ↦ inl p | inr m ↦ inr (insert_new-keeps x row rows m) ])
  ]

  insert_new-present :
      (row : R) (rows : List R) → HasKey (key row) rows → insert_new key row rows ≡ rows
  unfolding insert_new
  insert_new-present row [] h = elim h [ ]
  insert_new-present row (r ∷ rows) h = elim (Bool-cases (k.beq (key r) (key row))) [
    | inl e ↦ rw e
    | inr e ↦ rw e (elim h [
      | inl p ↦ absurd (ground (arith, (k.beq_iff (key r) (key row)).1 p))
      | inr m ↦ ap (λ t. r ∷ t) (insert_new-present row rows m)
    ])
  ]

module _ {F : Type 0} where
  -- The table has a row with the key of the insertion.
  abbrev pub IsDone : Stored F → Write F → Type 0
  IsDone t (Write.price r) = HasKey price_key (price_key r) t.prices
  IsDone t (Write.features r) = HasKey feature_key (feature_key r) t.features

  pub store-IsDone : (w : Write F) (t : Stored F) → IsDone (store w t) w
  unfolding store
  store-IsDone (Write.price r) t = insert_new-HasKey price_key r t.prices
  store-IsDone (Write.features r) t = insert_new-HasKey feature_key r t.features

  store-keeps : (w v : Write F) (t : Stored F) → IsDone t v → IsDone (store w t) v
  unfolding store
  store-keeps (Write.price r) (Write.price q) t h = insert_new-keeps price_key _ r t.prices h
  store-keeps (Write.price r) (Write.features q) t h = h
  store-keeps (Write.features r) (Write.price q) t h = h
  store-keeps (Write.features r) (Write.features q) t h =
      insert_new-keeps feature_key _ r t.features h

  store-done : (w : Write F) (t : Stored F) → IsDone t w → store w t ≡ t
  unfolding store
  store-done (Write.price r) t h =
      ap (λ x. record t { prices = x }) (insert_new-present price_key r t.prices h)
  store-done (Write.features r) t h =
      ap (λ x. record t { features = x }) (insert_new-present feature_key r t.features h)

  pub store_all-keeps :
      (ws : List (Write F)) (v : Write F) (t : Stored F) → IsDone t v → IsDone (store_all ws t) v
  unfolding store_all
  store_all-keeps [] v t h = h
  store_all-keeps (w ∷ ws) v t h = store_all-keeps ws v (store w t) (store-keeps w v t h)

  store_all-append :
      (ws vs : List (Write F)) (t : Stored F)
      → store_all (ws ++ vs) t ≡ store_all vs (store_all ws t)
  unfolding store_all
  store_all-append [] vs t = refl
  store_all-append (w ∷ ws) vs t = store_all-append ws vs (store w t)

  -- The first insertions of a list, made once more before all of them, change nothing.
  store_all-again :
      (n : ℕ) (ws : List (Write F)) (t : Stored F)
      → store_all ws (store_all (take n ws) t) ≡ store_all ws t
  unfolding store_all
  store_all-again zero ws t = refl
  store_all-again (suc n) [] t = refl
  store_all-again (suc n) (w ∷ ws) t =
      ap (store_all ws) (
        store-done w (store_all (take n ws) (store w t))
          (store_all-keeps (take n ws) w (store w t) (store-IsDone w t)))
      ∙ store_all-again n ws (store w t)

module _ {F : Type 0} ⦃f : Float F⦄ (series : Series F) (parse_float : String → Option F) where
  pub run-writes :
      (ms : List Message) (k : Consumer F) (t : Stored F)
      → (run series parse_float ms k t).2 ≡ store_all (writes series parse_float ms k.buffers) t
  unfolding run writes store_all
  run-writes [] k t = refl
  run-writes (m ∷ ms) k t = elim (Option-cases (candle_of parse_float m)) [
    | inl e ↦ rw (e, run, writes)
    | inr (candle, e) ↦
        let buffer = append candle (get [] candle.symbol k.buffers) in
        rw (e, run, writes)
          (run-writes ms
              (record { last_id = m.msg_id; buffers = insert candle.symbol buffer k.buffers }) _
            ∙ sym (store_all-append (writes_of series candle buffer) _ t))
  ]

  -- A process that was stopped after any number of insertions, also between the two of one message,
  -- and that is started again, with empty buffers and at the start of the stream, leaves the tables
  -- that it leaves without the stop.
  pub restart_changes_nothing :
      (ms : List Message) (n : ℕ) (t : Stored F)
      → (run series parse_float ms fresh (store_all (take n (writes series parse_float ms [])) t)).2
        ≡ (run series parse_float ms fresh t).2
  restart_changes_nothing ms n t =
      run-writes ms fresh _
      ∙ store_all-again n (writes series parse_float ms []) t
      ∙ sym (run-writes ms fresh t)
