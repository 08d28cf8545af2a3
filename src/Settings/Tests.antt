-- ===== src/Settings/Tests.antt =====
-- Texts of settings.
use portfolio_engine.Prelude.{ℕ, refl, [], ◌∷◌, map}
use portfolio_engine.Settings.{Text, is_space, parse_symbols}
use portfolio_engine.Settings.Split.{join}
use portfolio_engine.Settings.Symbols.{Entry, text_of, AreSymbols, parse_symbols-join}

-- "btc , ,eth"
abbrev btc : Entry
btc = record { before = []; symbol = b'b' ∷ b't' ∷ b'c' ∷ []; after = b' ' ∷ [] }

abbrev no_symbol : Entry
no_symbol = record { before = b' ' ∷ []; symbol = []; after = [] }

abbrev eth : Entry
eth = record { before = []; symbol = b'e' ∷ b't' ∷ b'h' ∷ []; after = [] }

abbrev same : ℕ → Text
same c = c ∷ []

parse_symbols-join_example :
    AreSymbols same
      (btc ∷ no_symbol ∷ eth ∷ [])
      (parse_symbols same (join b',' (map text_of (btc ∷ no_symbol ∷ eth ∷ []))))
unfolding is_space
parse_symbols-join_example = parse_symbols-join same btc (no_symbol ∷ eth ∷ []) (
  (tt, ((refl, refl), ((refl, refl), ((refl, refl), tt))), (refl, tt)),
  (((refl, tt), tt, tt), ((tt, ((refl, refl), ((refl, refl), ((refl, refl), tt))), tt), tt)),
)
