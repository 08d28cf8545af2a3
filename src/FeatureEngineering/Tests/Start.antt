-- ===== src/FeatureEngineering/Tests/Start.antt =====
-- A Redis that looks the id up, and a start with messages that arrive in two portions.
use mathlib.Core.List.{append-nil, flatten}
use portfolio_engine.Prelude.{
  ℕ, ◌≡◌, ◌≢◌, refl, ap, ◌∙◌, inl, inr, ◌⊎◌, String, Bool-cases, true, false, none, some, List, [],
  ◌∷◌, ◌++◌, map, take, All, IsNodup, replicate, str_eq, eq_iff, arith, ◌==◌, if◌then◌else◌,
}
use portfolio_engine.Float.Fixed.{Fixed, fixed_float}
use portfolio_engine.FeatureEngineering.Stream.{Message, fresh, run}
use portfolio_engine.FeatureEngineering.Reads.{Xread}
use portfolio_engine.FeatureEngineering.Reads.Ids.{last_id_of, messages_of, AreIds, IsXread}
use portfolio_engine.FeatureEngineering.Reads.Queue.{streams_of}
use portfolio_engine.FeatureEngineering.Start.{Boot, CanStart, main, main_handles_once}
use portfolio_engine.FeatureEngineering.Tests.{series, parse, empty, messages}

abbrev ids_of : List Message → List String
ids_of ms = map (λ m. m.msg_id) ms

-- What comes after the message of an id.
abbrev after_id : String → List Message → List Message
after_id id [] = []
after_id id (m ∷ ms) = let rest = after_id id ms in if str_eq m.msg_id id then ms else rest

abbrev xread : Xread
xread stream id n = ("candles", take n (if str_eq id "0" then stream else after_id id stream)) ∷ []

str_eq_refl : (s : String) → str_eq s s ≡ true
str_eq_refl s = (eq_iff s s).1 refl

differs : (s t : String) → s ≢ t → str_eq s t ≡ false
differs s t h = elim (Bool-cases (str_eq s t)) [ inl e ↦ absurd (h ((eq_iff s t).0 e)) | inr e ↦ e ]

-- The last id is none that came before.
last_id-differs :
    (s : String) (m : Message) (ms after : List Message)
    → All (λ j. s ≢ j) (ids_of (m ∷ ms ++ after))
    → s ≢ last_id_of m.msg_id ms
last_id-differs s m [] after h = h.0
last_id-differs s m (m' ∷ ms) after h = last_id-differs s m' ms after h.1

after_id-last :
    (m : Message) (ms after : List Message)
    → IsNodup (ids_of (m ∷ ms ++ after))
    → after_id (last_id_of m.msg_id ms) (m ∷ ms ++ after) ≡ after
after_id-last m [] after h = rw (str_eq_refl m.msg_id) refl
after_id-last m (m' ∷ ms) after h =
    rw (differs m.msg_id (last_id_of m'.msg_id ms) (last_id-differs m.msg_id m' ms after h.0))
      (after_id-last m' ms after h.1)

last_id-new :
    (m : Message) (ms after : List Message)
    → All (λ (x : Message). x.msg_id ≢ "0") (m ∷ ms ++ after)
    → last_id_of m.msg_id ms ≢ "0"
last_id-new m [] after h = h.0
last_id-new m (m' ∷ ms) after h = last_id-new m' ms after h.1

xread-after :
    (before after : List Message) (n : ℕ)
    → AreIds (before ++ after)
    → messages_of (xread (before ++ after) (last_id_of "0" before) n) ≡ take n after
xread-after [] after n h = append-nil (take n after)
xread-after (m ∷ before) after n (nodup, new) =
    let id = last_id_of m.msg_id before in
    let rest : (if str_eq id "0" then m ∷ before ++ after else after_id id (m ∷ before ++ after))
        ≡ after =
      ap (λ b. if b then m ∷ before ++ after else after_id id (m ∷ before ++ after))
        (differs id "0" (last_id-new m before after new))
      ∙ after_id-last m before after nodup in
    append-nil _ ∙ ap (take n) rest

xread-IsXread : IsXread xread
xread-IsXread = record { reads_after = xread-after }

abbrev arrivals : List (List Message)
arrivals = take 2 messages ∷ [] ∷ (record { msg_id = "3-0"; kline = none } ∷ []) ∷ []

abbrev boot : Boot Fixed ℕ
boot = record {
  redis_addr = b'r' ∷ b':' ∷ b'6' ∷ [];
  is_int = λ text. true;
  attempt = λ k. if k == 1 then none else some k;
  catalog = record { tables = []; indexes = [] };
  stored = empty;
  streams = streams_of [] (arrivals ++ replicate 1 []);
}

apart : (s t : String) → str_eq s t ≡ false → s ≢ t
apart s t h e = absurd (ground (arith, (eq_iff s t).1 e))

arrivals-AreIds : AreIds (flatten arrivals)
unfolding flatten
arrivals-AreIds = (
  ((apart _ _ refl, (apart _ _ refl, tt)), ((apart _ _ refl, tt), (tt, tt))),
  (apart _ _ refl, (apart _ _ refl, (apart _ _ refl, tt))),
)

main_handles_once_example :
    (CanStart boot
      × (main series parse xread boot ≡ some (run series parse (flatten arrivals) fresh empty)))
    ⊎ ((¬ CanStart boot) × (main series parse xread boot ≡ none))
unfolding flatten
main_handles_once_example =
    main_handles_once series parse xread boot arrivals 1 xread-IsXread arrivals-AreIds (omega arith)
      refl
