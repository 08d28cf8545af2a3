-- ===== src/FeatureEngineering/Reads/Ids.antt =====
-- The ids of messages, and `xread` as Redis documents it.
use mathlib.Core.Path.{subst}
use portfolio_engine.Prelude.{
  ℕ, ◌≡◌, ◌≢◌, refl, ap, String, List, [], ◌∷◌, ◌++◌, map, take, All, All-prefix, IsNodup,
}
use portfolio_engine.FeatureEngineering.Stream.{Message}
use portfolio_engine.FeatureEngineering.Reads.{Response, Xread}

-- The id of the last message, or else `id`.
abbrev pub last_id_of : String → List Message → String
last_id_of id [] = id
last_id_of id (m ∷ ms) = last_id_of m.msg_id ms

pub last_id_of-append :
    (id : String) (ms ns : List Message)
    → last_id_of id (ms ++ ns) ≡ last_id_of (last_id_of id ms) ns
last_id_of-append id [] ns = refl
last_id_of-append id (m ∷ ms) ns = last_id_of-append m.msg_id ms ns

-- The messages of a response, in the order of the two loops.
abbrev pub messages_of : Response → List Message
messages_of [] = []
messages_of ((_, ms) ∷ response) = ms ++ messages_of response

-- The ids differ from one another and from "0".
abbrev pub AreIds : List Message → Type 0
AreIds ms = IsNodup (map (λ m. m.msg_id) ms) × All (λ (m : Message). m.msg_id ≢ "0") ms

-- What Redis documents: `xread` gives the messages after the id, the first `n` of them, and all are
-- after "0".
pub record IsXread (xread : Xread) : Type 0 where
  pub reads_after :
      (before after : List Message) (n : ℕ)
      → AreIds (before ++ after)
      → messages_of (xread (before ++ after) (last_id_of "0" before) n) ≡ take n after

IsNodup-prefix : {A : Type 0} (xs ys : List A) → IsNodup (xs ++ ys) → IsNodup xs
IsNodup-prefix [] ys h = tt
IsNodup-prefix (x ∷ xs) ys h = (All-prefix _ xs ys h.0, IsNodup-prefix xs ys h.1)

map-append : {A B : Type 0} (g : A → B) (xs ys : List A) → map g (xs ++ ys) ≡ map g xs ++ map g ys
map-append g [] ys = refl
map-append g (x ∷ xs) ys = ap (λ l. g x ∷ l) (map-append g xs ys)

pub AreIds-prefix : (ms ns : List Message) → AreIds (ms ++ ns) → AreIds ms
AreIds-prefix ms ns (nodup, others) = (
  IsNodup-prefix (map (λ m. m.msg_id) ms) (map (λ m. m.msg_id) ns)
      (subst IsNodup (map-append (λ (m : Message). m.msg_id) ms ns) nodup),
  All-prefix _ ms ns others,
)
