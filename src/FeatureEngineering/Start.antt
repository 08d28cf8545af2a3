-- ===== src/FeatureEngineering/Start.antt =====
-- `main` of feature_engineering/main.py: the address, the connection, the tables, and the loop.
use mathlib.Core.List.{flatten}
use portfolio_engine.Prelude.{
  ℕ, ◌*◌, ◌≤◌, ◌≡◌, refl, ap, ◌∙◌, ◌↔◌, ◌⊎◌, inl, inr, String, Bool, Bool-cases, true, ◌&&◌, Option,
  none, some, List, [], ◌++◌, length, replicate, arith, if◌then◌else◌,
}
use portfolio_engine.Float.{Float}
use portfolio_engine.Database.{pair_key}
use portfolio_engine.Database.Schema.{Catalog}
use portfolio_engine.Tables.{feature_engineering_program}
use portfolio_engine.Tables.Begin.{begins, CanBegin, begins_iff}
use portfolio_engine.Settings.{Text, parse_address, is_read}
use portfolio_engine.Settings.Address.{IsAddress, is_read_iff}
use portfolio_engine.FeatureEngineering.Indicators.{Series}
use portfolio_engine.FeatureEngineering.Stream.{Message, Stored, Consumer, fresh, run}
use portfolio_engine.FeatureEngineering.Reads.{Xread, read_count, consume_loop}
use portfolio_engine.FeatureEngineering.Reads.Ids.{AreIds, IsXread}
use portfolio_engine.FeatureEngineering.Reads.Queue.{streams_of}
use portfolio_engine.FeatureEngineering.Reads.Once.{consume_loop-once}

-- What the start meets: the setting, the attempts to connect, the catalogue, the tables, and what
-- is in the stream at each read.
pub record Boot (F C : Type 0) : Type 0 where
  pub redis_addr : Text
  pub is_int : Text → Bool
  pub attempt : ℕ → Option C
  pub catalog : Catalog
  pub stored : Stored F
  pub streams : List (List Message)

-- The address is a host and a port, one of the ten attempts to connect works, and so do the
-- statements that make the tables.
abbrev pub CanStart : {F C : Type 0} → Boot F C → Type 0
CanStart b =
    ((a : Text × Text) × IsAddress b.is_int b.redis_addr a)
    × CanBegin b.attempt feature_engineering_program b.catalog

module _ {F C : Type 0} ⦃f : Float F⦄ (series : Series F) (parse_float : String → Option F)
    (xread : Xread) where
  -- `none` is an exception before the loop.
  unfoldable pub main : Boot F C → Option (Bool × Consumer F × Stored F)
  main b =
      let looped = consume_loop series parse_float xread b.streams fresh b.stored in
      if is_read (parse_address b.is_int b.redis_addr)
        && begins b.attempt feature_engineering_program b.catalog
      then some looped
      else none

  starts_iff :
      (b : Boot F C)
      → ((is_read (parse_address b.is_int b.redis_addr)
            && begins b.attempt feature_engineering_program b.catalog)
          ≡ true)
        ↔ CanStart b
  starts_iff b =
      let read = is_read_iff b.is_int b.redis_addr in
      let begun = begins_iff b.attempt feature_engineering_program b.catalog in
      (
        λ h. (read.0 (ground arith), begun.0 (ground arith)),
        λ (a, c). let x = read.1 a in let y = begun.1 c in ground arith,
      )

  -- Where Redis gives what it documents and drops none of the messages, and their ids differ from
  -- one another and from "0": in whatever portions the messages arrive between the reads, if at
  -- least a tenth as many reads follow as there are messages, then the service has handled each of
  -- them once and in order, up to the first at which an exception ends it; or it has not come to
  -- the loop, which is so exactly if the address is not a host and a port, if none of the ten
  -- attempts to connect works, or if the statements that make the tables fail.
  pub main_handles_once :
      (b : Boot F C) (arrivals : List (List Message)) (n : ℕ)
      → IsXread xread
      → AreIds (flatten arrivals)
      → length (flatten arrivals) ≤ read_count * n
      → b.streams ≡ streams_of [] (arrivals ++ replicate n [])
      → (CanStart b × (main b ≡ some (run series parse_float (flatten arrivals) fresh b.stored)))
        ⊎ ((¬ CanStart b) × (main b ≡ none))
  unfolding main
  main_handles_once b arrivals n laws ids enough same =
      let guard =
        is_read (parse_address b.is_int b.redis_addr)
        && begins b.attempt feature_engineering_program b.catalog in
      elim (Bool-cases guard) [
        | inl e ↦ inl (
          (starts_iff b).0 e,
          rw e (
              ap (λ streams. some (consume_loop series parse_float xread streams fresh b.stored))
                same
              ∙ ap some
                  (consume_loop-once series parse_float xread arrivals n b.stored laws ids enough)),
        )
        | inr e ↦ inr (λ h. absurd (ground (arith, (starts_iff b).1 h)), rw e refl)
      ]
