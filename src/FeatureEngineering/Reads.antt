-- ===== src/FeatureEngineering/Reads.antt =====
-- The loop of feature_engineering/main.py around the messages: `xread` from the last id on.
pub mod Queue
pub mod Ids
pub mod Once
use portfolio_engine.Prelude.{ℕ, String, Bool, true, Option, List, [], ◌∷◌, ◌++◌, if◌then◌else◌}
use portfolio_engine.Float.{Float}
use portfolio_engine.Database.{pair_key}
use portfolio_engine.FeatureEngineering.Indicators.{Series}
use portfolio_engine.FeatureEngineering.Stream.{Message, Stored, Consumer, run}

-- What `xread` returns: the names of streams, with messages of each.
abbrev pub Response : Type 0
Response = List (String × List Message)

abbrev pub read_count : ℕ
read_count = 10

-- `xread` of Redis: what it returns while the stream has these messages, from the message after an
-- id on, and at most so many.
abbrev pub Xread : Type 0
Xread = List Message → String → ℕ → Response

module _ {F : Type 0} ⦃f : Float F⦄ (series : Series F) (parse_float : String → Option F) where
  -- The two `for` loops. Where an exception ends the first, there is no second.
  unfoldable pub consume : Response → Consumer F → Stored F → Bool × Consumer F × Stored F
  unfolding run
  consume [] k t = (true, k, t)
  consume ((_, ms) ∷ response) k t =
      let after = run series parse_float ms k t in
      let rest = consume response after.1 after.2 in if after.0 then rest else after

  -- The `while` loop, over what is in the stream at each read. A read that returns nothing is
  -- followed by the next.
  unfoldable pub consume_loop :
      Xread → List (List Message) → Consumer F → Stored F → Bool × Consumer F × Stored F
  unfolding consume
  consume_loop xread [] k t = (true, k, t)
  consume_loop xread (stream ∷ streams) k t =
      let after = consume (xread stream k.last_id read_count) k t in
      let rest = consume_loop xread streams after.1 after.2 in if after.0 then rest else after
