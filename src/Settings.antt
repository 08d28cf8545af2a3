-- ===== src/Settings.antt =====
-- The settings that are texts: `_parse_symbols` of portfolio_engine/config.py, and REDIS_ADDR, which
-- the `main` of portfolio_engine and of feature_engineering take apart. A text is its code points.
pub mod Split
pub mod Symbols
pub mod Address
mod Tests
use portfolio_engine.Prelude.{
  ℕ, ◌-◌, Bool, true, false, ◌&&◌, ◌||◌, not, Option, none, some, List, [], ◌∷◌, ◌++◌, map, leb,
  ◌==◌, if◌then◌else◌,
}

abbrev pub Text : Type 0
Text = List ℕ

-- `str.isspace` of one character.
unfoldable pub is_space : ℕ → Bool
is_space c =
    leb 9 c && leb c 13
    || leb 28 c && leb c 32
    || c == 133
    || c == 160
    || c == 5760
    || leb 8192 c && leb c 8202
    || c == 8232
    || c == 8233
    || c == 8239
    || c == 8287
    || c == 12288

abbrev pub add_first : ℕ → List Text → List Text
add_first c [] = (c ∷ []) ∷ []
add_first c (p ∷ ps) = (c ∷ p) ∷ ps

-- `text.split(sep)`, for a separator of one character.
unfoldable pub split : ℕ → Text → List Text
split sep [] = [] ∷ []
split sep (c ∷ text) = let rest = split sep text in if c == sep then [] ∷ rest else add_first c rest

unfoldable pub lstrip : Text → Text
lstrip [] = []
lstrip (c ∷ text) = let rest = lstrip text in if is_space c then rest else c ∷ text

-- What is left without the spaces at the end.
unfoldable pub rstrip : Text → Text
rstrip [] = []
rstrip (c ∷ text) = elim (rstrip text) [
  | [] ↦ if is_space c then [] else c ∷ []
  | d ∷ rest ↦ c ∷ d ∷ rest
]

unfoldable pub strip : Text → Text
unfolding lstrip rstrip
strip text = rstrip (lstrip text)

-- `[p for p in parts if p]`
unfoldable pub without_empty : List Text → List Text
without_empty [] = []
without_empty ([] ∷ ps) = without_empty ps
without_empty ((c ∷ p) ∷ ps) = (c ∷ p) ∷ without_empty ps

-- `str.upper` of the characters beyond ASCII is `upper_other`, which may give more than one.
module _ (upper_other : ℕ → Text) where
  unfoldable pub upper_char : ℕ → Text
  upper_char c =
      if leb b'a' c && leb c b'z'
      then (c - 32) ∷ []
      else if leb c 127
      then c ∷ []
      else upper_other c

  unfoldable pub upper : Text → Text
  unfolding upper_char
  upper [] = []
  upper (c ∷ text) = upper_char c ++ upper text

  unfoldable pub parse_symbols : Text → List Text
  unfolding upper without_empty split strip
  parse_symbols raw = without_empty (map (λ p. upper (strip p)) (split b',' raw))

-- `host, port = text.split(":")`, and then `int(port)`, which raises where `is_int` does not hold.
unfoldable pub parse_address : (Text → Bool) → Text → Option (Text × Text)
unfolding split
parse_address is_int text = elim (split b':' text) [
  | host ∷ port ∷ [] ↦ if is_int port then some (host, port) else none
  | _ ↦ none
]

abbrev pub is_read : Option (Text × Text) → Bool
is_read none = false
is_read (some _) = true
