-- ===== src/FeatureEngineering/Stream.antt =====
-- The consumer of feature_engineering/main.py, with `insert_price` and `insert_features` of db.py.
pub mod Restart
pub mod Bounded
pub mod Late
pub mod Times
pub mod Counts
pub mod Keyed
use portfolio_engine.Prelude.{
  ℕ, suc, ◌+◌, ◌-◌, ◌*◌, String, Bool, true, false, Option, none, some, List, [], ◌∷◌, ◌++◌, map,
  drop, length, leb, ◌>>=◌, if◌then◌else◌,
}
use portfolio_engine.Float.{Float}
use portfolio_engine.Dict.{Dict, get, insert, lookup}
use portfolio_engine.Database.{PriceRow, FeatureRow, insert_new, pair_key}
use portfolio_engine.FeatureEngineering.Indicators.{
  Candle, Series, latest_feature_row, feature_cols,
}

-- The JSON text of a message, read: what the Go service writes.
pub record RawKline : Type 0 where
  pub s : String
  pub t : ℕ
  pub o : String
  pub h : String
  pub l : String
  pub c : String
  pub v : String

-- A message of the stream; `none` is a text that is not such a JSON object.
pub record Message : Type 0 where
  pub msg_id : String
  pub kline : Option RawKline

-- One of the two insertions.
pub data Write (F : Type 0) : Type 0 where
  price : PriceRow F → Write F
  features : FeatureRow F → Write F

pub record Stored (F : Type 0) : Type 0 where
  pub prices : List (PriceRow F)
  pub features : List (FeatureRow F)

-- The variables of `main`.
pub record Consumer (F : Type 0) : Type 0 where
  pub last_id : String
  pub buffers : Dict (List (Candle F))

abbrev pub buffer_size : ℕ
buffer_size = 120

-- `max(ROLLING_WINDOWS) + 2`
abbrev pub min_buffer : ℕ
min_buffer = 62

module _ {F : Type 0} where
  -- A process starts reading at "0", with no buffer.
  abbrev pub fresh : Consumer F
  fresh = record { last_id = "0"; buffers = [] }

  -- `parse_float` is Python's `float` of a text; `none` is its ValueError.
  unfoldable pub parse_kline : (String → Option F) → RawKline → Option (Candle F)
  parse_kline parse_float raw = do
    o ← parse_float raw.o
    h ← parse_float raw.h
    l ← parse_float raw.l
    c ← parse_float raw.c
    v ← parse_float raw.v
    some (record {
      symbol = raw.s;
      time = raw.t * 1000;
      open_price = o;
      high = h;
      low = l;
      close = c;
      volume = v;
    })

  abbrev pub candle_of : (String → Option F) → Message → Option (Candle F)
  candle_of parse_float m = m.kline >>= parse_kline parse_float

  -- `append` to a `deque(maxlen=120)`.
  unfoldable pub append : Candle F → List (Candle F) → List (Candle F)
  append candle buffer =
      let longer = buffer ++ candle ∷ [] in drop (length longer - buffer_size) longer

  abbrev pub price_key : PriceRow F → String × ℕ
  price_key r = (r.symbol, r.time)

  abbrev pub feature_key : FeatureRow F → String × ℕ
  feature_key r = (r.symbol, r.time)

  abbrev pub price_row : Candle F → PriceRow F
  price_row c = record {
    time = c.time;
    symbol = c.symbol;
    open_price = c.open_price;
    high = c.high;
    low = c.low;
    close = c.close;
    volume = c.volume;
  }

  -- `insert_price` and `insert_features`, which leave a row of the same time and symbol as it is.
  unfoldable pub store : Write F → Stored F → Stored F
  store (price r) t = record t { prices = insert_new price_key r t.prices }
  store (features r) t = record t { features = insert_new feature_key r t.features }

  unfoldable pub store_all : List (Write F) → Stored F → Stored F
  unfolding store
  store_all [] t = t
  store_all (w ∷ ws) t = store_all ws (store w t)

-- What is in a feature row: `feat_row.get(c)` of the columns.
module _ {F : Type 0} where
  unfoldable pub select_columns : Dict (Option F) → List String → Dict (Option F)
  select_columns row [] = []
  select_columns row (c ∷ cols) = (c, get none c row) ∷ select_columns row cols

module _ {F : Type 0} ⦃f : Float F⦄ (series : Series F) where
  -- `_buffer_to_df`: the candles by time.
  abbrev pub buffer_to_df : List (Candle F) → List (Candle F)
  buffer_to_df buf = series.sort_index buf

  -- The row that is inserted for a candle, from the candles that are at hand.
  unfoldable pub feature_row : Candle F → List (Candle F) → FeatureRow F
  unfolding select_columns
  feature_row candle candles = record {
    time = candle.time;
    symbol = candle.symbol;
    values = select_columns (latest_feature_row series (buffer_to_df candles)) feature_cols;
  }

  -- The insertions for a candle, when its buffer has become `buffer`.
  abbrev pub writes_of : Candle F → List (Candle F) → List (Write F)
  writes_of candle buffer =
      price (price_row candle)
      ∷ (if leb min_buffer (length buffer) then features (feature_row candle buffer) ∷ [] else [])

  -- The loop's body for a candle.
  unfoldable pub handle : Candle F → Consumer F → Stored F → Consumer F × Stored F
  unfolding append feature_row store_all
  handle candle k t =
      let buffer = append candle (get [] candle.symbol k.buffers) in
      (
        record k { buffers = insert candle.symbol buffer k.buffers },
        store_all (writes_of candle buffer) t,
      )

  module _ (parse_float : String → Option F) where
    -- The messages that come, in order. `false` is an exception, which nothing catches: the process
    -- ends.
    unfoldable pub run : List Message → Consumer F → Stored F → Bool × Consumer F × Stored F
    unfolding handle
    run [] k t = (true, k, t)
    run (m ∷ ms) k t =
        let seen = record k { last_id = m.msg_id } in
        elim (candle_of parse_float m) [
          | none ↦ (false, seen, t)
          | some candle ↦ let next = handle candle seen t in run ms next.0 next.1
        ]

    -- The insertions that these messages lead to, in their order.
    unfoldable pub writes : List Message → Dict (List (Candle F)) → List (Write F)
    unfolding append feature_row
    writes [] buffers = []
    writes (m ∷ ms) buffers = elim (candle_of parse_float m) [
      | none ↦ []
      | some candle ↦
          let buffer = append candle (get [] candle.symbol buffers) in
          writes_of candle buffer ++ writes ms (insert candle.symbol buffer buffers)
    ]
