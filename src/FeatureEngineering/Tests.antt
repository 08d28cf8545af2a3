-- ===== src/FeatureEngineering/Tests.antt =====
-- The theorems on the consumer at messages of one symbol, over fixed-point numbers.
mod Start
use mathlib.Core.List.{append-nil}
use mathlib.Core.Path.{subst}
use portfolio_engine.Prelude.{
  zero, All-append, All-prefix, All-suffix, All-imp, sym, ◌<◌, ℕ, suc, ◌-◌, ◌≤◌, ◌≡◌, refl, ap, ◌∙◌,
  String, Bool, Bool-cases, inl, inr, Option, none, some, List, [], ◌∷◌, ◌++◌, length,
  length-append, drop, take, replicate, All, str_eq, arith, if◌then◌else◌,
}
use portfolio_engine.Float.{lit}
use portfolio_engine.Float.Fixed.{Fixed, fixed_float, add_all}
use portfolio_engine.Database.{where_true, where_true-All, place, order_by_time}
use portfolio_engine.FeatureEngineering.Indicators.{
  Candle, Series, IsSeries, IsSorted, IsStrict, last?, latest_feature_row,
}
use portfolio_engine.FeatureEngineering.Stream.{
  parse_kline, RawKline, Message, Stored, fresh, run, writes, store_all,
}
use portfolio_engine.FeatureEngineering.Stream.{Write, price_row, feature_row, writes_of}
use portfolio_engine.FeatureEngineering.Stream.Late.{late_candle}
use portfolio_engine.FeatureEngineering.Stream.Restart.{restart_changes_nothing}
use portfolio_engine.FeatureEngineering.Stream.Bounded.{candles_of, writes_of_history, run_refines}

-- The last `n` entries.
abbrev end : ℕ → List Fixed → List Fixed
end n xs = drop (length xs - n) xs

-- Of each column only the last entry, as the sum of the window's.
abbrev pub series : Series Fixed
series = record {
  rolling = λ a w xs. add_all (end w xs) ∷ [];
  pct_change = λ xs. add_all (end 2 xs) ∷ [];
  sort_index = order_by_time (λ c. c.time);
}

place-first :
    (c : Candle Fixed) (df : List (Candle Fixed))
    → All (λ (d : Candle Fixed). c.time ≤ d.time) df
    → place (λ (d : Candle Fixed). d.time) c df ≡ c ∷ df
unfolding place
place-first c [] h = refl
place-first c (d ∷ df) h = ground (arith, h.0)

sorted-order :
    (df : List (Candle Fixed)) → IsSorted df → order_by_time (λ (d : Candle Fixed). d.time) df ≡ df
unfolding order_by_time
sorted-order [] h = refl
sorted-order (c ∷ df) h =
    ap (place (λ (d : Candle Fixed). d.time) c) (sorted-order df h.1) ∙ place-first c df h.0

place-past :
    (l : Candle Fixed) (earlier later : List (Candle Fixed))
    → IsStrict (earlier ++ l ∷ later)
    → place (λ (d : Candle Fixed). d.time) l (earlier ++ later) ≡ earlier ++ l ∷ later
unfolding place
place-past l [] later h = place-first l later (All-imp later (λ d k. omega arith) h.0)
place-past l (c ∷ earlier) later h =
    let (first, _) = All-suffix (λ (d : Candle Fixed). c.time < d.time) earlier (l ∷ later) h.0 in
    ground (arith, place-past l earlier later h.1)

IsStrict-without :
    (l : Candle Fixed) (earlier later : List (Candle Fixed))
    → IsStrict (earlier ++ l ∷ later)
    → IsStrict (earlier ++ later)
IsStrict-without l [] later h = h.1
IsStrict-without l (c ∷ earlier) later h =
    let (_, after) = All-suffix (λ (d : Candle Fixed). c.time < d.time) earlier (l ∷ later) h.0 in
    (
      All-append (λ (d : Candle Fixed). c.time < d.time) earlier later
          (All-prefix (λ (d : Candle Fixed). c.time < d.time) earlier (l ∷ later) h.0) after,
      IsStrict-without l earlier later h.1,
    )

IsStrict-IsSorted : (df : List (Candle Fixed)) → IsStrict df → IsSorted df
IsStrict-IsSorted [] h = tt
IsStrict-IsSorted (c ∷ df) h = (All-imp df (λ d k. omega arith) h.0, IsStrict-IsSorted df h.1)

blocks-order :
    (later earlier : List (Candle Fixed))
    → IsStrict (earlier ++ later)
    → order_by_time (λ (d : Candle Fixed). d.time) (later ++ earlier) ≡ earlier ++ later
unfolding order_by_time
blocks-order [] earlier h =
    let same = append-nil earlier in
    sorted-order earlier (IsStrict-IsSorted earlier (subst IsStrict same h)) ∙ sym same
blocks-order (l ∷ later) earlier h =
    ap (place (λ (d : Candle Fixed). d.time) l)
      (blocks-order later earlier (IsStrict-without l earlier later h))
    ∙ place-past l earlier later h

series-IsSeries : IsSeries Fixed series
series-IsSeries = record { sort_index_sorted = sorted-order; sort_index_blocks = blocks-order }

abbrev pub raw : ℕ → RawKline
raw t = record { s = "BTCUSDT"; t = t; o = "1.0"; h = "1.0"; l = "1.0"; c = "1.0"; v = "1.0" }

abbrev pub parse : String → Option Fixed
parse text = if str_eq text "1.0" then some (lit 1 0) else none

abbrev pub messages : List Message
messages =
    record { msg_id = "1-0"; kline = some (raw 60_000) }
    ∷ record { msg_id = "2-0"; kline = some (raw 120_000) }
    ∷ record { msg_id = "3-0"; kline = none }
    ∷ []

abbrev pub empty : Stored Fixed
empty = record { prices = []; features = [] }

restart_changes_nothing_example :
    (run series parse messages fresh (store_all (take 1 (writes series parse messages [])) empty)).2
    ≡ (run series parse messages fresh empty).2
restart_changes_nothing_example = restart_changes_nothing series parse messages 1 empty

run_refines_example :
    (run series parse messages fresh empty).2
    ≡ store_all (writes_of_history series [] (candles_of parse messages)) empty
run_refines_example = run_refines series parse messages empty

abbrev pub candle : Candle Fixed
candle = record {
  symbol = "BTCUSDT";
  time = 0;
  open_price = lit 1 0;
  high = lit 1 0;
  low = lit 1 0;
  close = lit 1 0;
  volume = lit 1 0;
}

-- A live candle, and sixty-one that come after it and are earlier.
abbrev at : ℕ → Candle Fixed
at t = record candle { time = t }

abbrev minutes : ℕ → ℕ → List (Candle Fixed)
minutes t zero = []
minutes t (suc n) = at t ∷ minutes (suc t) n

late_candle_example :
    writes_of series (at 60) (([] ++ at 100 ∷ []) ++ (minutes 0 60 ++ at 60 ∷ []))
    ≡ Write.price (price_row (at 60))
      ∷ Write.features (record {
        time = 60;
        symbol = "BTCUSDT";
        values =
            (feature_row series
              (at 100)
              ((minutes 0 60 ++ at 60 ∷ []) ++ ([] ++ at 100 ∷ []))).values;
      })
      ∷ []
late_candle_example =
    late_candle series series-IsSeries (minutes 0 60) [] (at 60) (at 100) (omega arith)
      (omega arith)
