-- ===== src/FeatureEngineering/Stream/Keyed.antt =====
-- The keys of the two tables that the consumer writes.
use mathlib.Core.Path.{subst}
use portfolio_engine.Prelude.{
  ◌≡◌, refl, ap, inl, inr, ℕ, zero, suc, Bool, true, false, List, length, [], ◌∷◌, take, leb, All,
  All-imp, Has, if◌then◌else◌,
}
use portfolio_engine.Float.{Float}
use portfolio_engine.Database.{
  Key, PriceRow, FeatureRow, IsKeyed, insert_new-All, insert_new-IsKeyed, Has-insert_new, pair_key,
}
use portfolio_engine.FeatureEngineering.Indicators.{Candle, Series}
use portfolio_engine.FeatureEngineering.Stream.{
  Write, Stored, price_key, feature_key, price_row, feature_row, store, store_all, writes_of,
  min_buffer,
}
use portfolio_engine.FeatureEngineering.Stream.Restart.{HasKey, store-IsDone, insert_new-keeps}

module _ {R K : Type 0} ⦃k : Key K⦄ (key : R → K) where
  Has-HasKey : (r : R) (rows : List R) → Has r rows → HasKey key (key r) rows
  Has-HasKey r (q ∷ rows) (inl e) = inl (ap key e)
  Has-HasKey r (q ∷ rows) (inr m) = inr (Has-HasKey r rows m)
  Has-HasKey r [] m = elim m [ ]

  -- A table with all rows of another has its keys.
  pub HasKey-of_kept :
      (x : K) (rows more : List R)
      → ((r : R) → Has r rows → Has r more)
      → HasKey key x rows
      → HasKey key x more
  HasKey-of_kept x [] more g m = elim m [ ]
  HasKey-of_kept x (r ∷ rows) more g (inl e) =
      subst (λ y. HasKey key y more) e (Has-HasKey r more (g r (inl refl)))
  HasKey-of_kept x (r ∷ rows) more g (inr m) = HasKey-of_kept x rows more (λ q n. g q (inr n)) m

pub two_writes :
    {A : Type 0} (b : Bool) (w v : A)
    → take 2 (w ∷ (if b then v ∷ [] else [])) ≡ w ∷ (if b then v ∷ [] else [])
two_writes true w v = refl
two_writes false w v = refl

module _ {F : Type 0} where
  -- The keys of both tables are unique, each feature row has a price row of its symbol and time, and
  -- all rows of the first tables are there.
  pub record IsJoined (before t : Stored F) : Type 0 where
    pub prices_keyed : IsKeyed price_key t.prices
    pub features_keyed : IsKeyed feature_key t.features
    pub priced : All (λ (r : FeatureRow F). HasKey price_key (feature_key r) t.prices) t.features
    pub prices_kept : (r : PriceRow F) → Has r before.prices → Has r t.prices
    pub features_kept : (r : FeatureRow F) → Has r before.features → Has r t.features

  -- A feature row may be written once its price row is there.
  abbrev pub CanWrite : Stored F → Write F → Type 0
  CanWrite t (Write.price r) = Unit
  CanWrite t (Write.features r) = HasKey price_key (feature_key r) t.prices

  store-IsJoined :
      (before t : Stored F) (w : Write F)
      → IsJoined before t
      → CanWrite t w
      → IsJoined before (store w t)
  unfolding store
  store-IsJoined before t (Write.price r) h ok = record {
    prices_keyed = insert_new-IsKeyed price_key r t.prices h.prices_keyed;
    features_keyed = h.features_keyed;
    priced =
        All-imp t.features (λ q k. insert_new-keeps price_key (feature_key q) r t.prices k)
          h.priced;
    prices_kept = λ q m. Has-insert_new price_key r t.prices q (h.prices_kept q m);
    features_kept = h.features_kept;
  }
  store-IsJoined before t (Write.features r) h ok = record {
    prices_keyed = h.prices_keyed;
    features_keyed = insert_new-IsKeyed feature_key r t.features h.features_keyed;
    priced = insert_new-All feature_key _ r t.features ok h.priced;
    prices_kept = h.prices_kept;
    features_kept = λ q m. Has-insert_new feature_key r t.features q (h.features_kept q m);
  }

  features_after :
      (n : ℕ) (b : Bool) (row : FeatureRow F) (before t : Stored F)
      → IsJoined before t
      → CanWrite t (Write.features row)
      → IsJoined before (store_all (take n (if b then Write.features row ∷ [] else [])) t)
  unfolding store_all
  features_after zero b row before t h ok = h
  features_after (suc n) false row before t h ok = h
  features_after (suc zero) true row before t h ok =
      store-IsJoined before t (Write.features row) h ok
  features_after (suc (suc n)) true row before t h ok =
      store-IsJoined before t (Write.features row) h ok

module _ {F : Type 0} ⦃f : Float F⦄ (series : Series F) where
  -- The first insertions for a candle, of which that of the price is the first.
  pub writes_of-IsJoined :
      (n : ℕ) (candle : Candle F) (buffer : List (Candle F)) (before t : Stored F)
      → IsJoined before t
      → IsJoined before (store_all (take n (writes_of series candle buffer)) t)
  unfolding store_all feature_row
  writes_of-IsJoined zero candle buffer before t h = h
  writes_of-IsJoined (suc n) candle buffer before t h =
      let priced = store (Write.price (price_row candle)) t in
      features_after n (leb min_buffer (length buffer)) (feature_row series candle buffer) before
        priced (store-IsJoined before t (Write.price (price_row candle)) h tt)
        (store-IsDone (Write.price (price_row candle)) t)
