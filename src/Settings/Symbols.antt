-- ===== src/Settings/Symbols.antt =====
-- What `_parse_symbols` makes of a list of symbols that is written with commas.
use mathlib.Core.List.{append-nil}
use mathlib.Core.Path.{ap₂, subst}
use portfolio_engine.Prelude.{
  ◌+◌, ◌-◌, ◌≤◌, ◌<◌, ◌≢◌, ◌⊎◌, inl, inr, Bool-cases, leb, ◌&&◌, ℕ, ◌≡◌, refl, sym, ap, ◌∙◌, true,
  false, List, [], ◌∷◌, ◌++◌, map, All, All-append, All-imp, All-map, arith, ◌==◌,
}
use portfolio_engine.Settings.Split.{join, Lacks, split-join}
use portfolio_engine.Settings.{
  Text, is_space, lstrip, rstrip, strip, upper, upper_char, without_empty, parse_symbols,
}

abbrev AreSpaces : Text → Type 0
AreSpaces = All (λ c. is_space c ≡ true)

abbrev AreSolid : Text → Type 0
AreSolid = All (λ c. is_space c ≡ false)

lstrip-append : (l t : Text) → AreSpaces l → lstrip (l ++ t) ≡ lstrip t
unfolding lstrip
lstrip-append [] t h = refl
lstrip-append (c ∷ l) t h = rw (h.0) (lstrip-append l t h.1)

rstrip_spaces : (r : Text) → AreSpaces r → rstrip r ≡ []
unfolding rstrip
rstrip_spaces [] h = refl
rstrip_spaces (c ∷ r) h = rw (rstrip_spaces r h.1, rstrip, h.0)

rstrip-append : (s r : Text) → AreSolid s → AreSpaces r → rstrip (s ++ r) ≡ s
unfolding rstrip
rstrip-append [] r h k = rstrip_spaces r k
rstrip-append (c ∷ []) r h k = rw (rstrip_spaces r k, rstrip, h.0)
rstrip-append (c ∷ d ∷ s) r h k = rw (rstrip-append (d ∷ s) r h.1 k, rstrip)

strip-append : (l s r : Text) → AreSpaces l → AreSolid s → AreSpaces r → strip (l ++ (s ++ r)) ≡ s
unfolding strip lstrip
strip-append l [] r h solid k =
    ap rstrip (lstrip-append l r h ∙ ap lstrip (sym (append-nil r)) ∙ lstrip-append r [] k)
strip-append l (c ∷ s) r h solid k =
    ap rstrip {y = c ∷ s ++ r} (lstrip-append l (c ∷ s ++ r) h ∙ rw (solid.0) refl)
    ∙ rstrip-append (c ∷ s) r solid k

-- A symbol as it is written, with spaces around it.
pub record Entry : Type 0 where
  pub before : Text
  pub symbol : Text
  pub after : Text

abbrev pub text_of : Entry → Text
text_of e = e.before ++ (e.symbol ++ e.after)

-- There are only spaces around it, and neither spaces nor commas in it.
abbrev pub IsEntry : Entry → Type 0
IsEntry e =
    AreSpaces e.before
    × All (λ c. (is_space c ≡ false) × ((c == b',') ≡ false)) e.symbol
    × AreSpaces e.after

space_lacks_comma : (c : ℕ) → is_space c ≡ true → (c == b',') ≡ false
unfolding is_space
space_lacks_comma c h = ground arith

text_of-Lacks : (e : Entry) → IsEntry e → Lacks b',' (text_of e)
text_of-Lacks e (l, s, r) =
    All-append _ e.before (e.symbol ++ e.after) (All-imp e.before space_lacks_comma l) (
      All-append _ e.symbol e.after (All-imp e.symbol (λ c h. h.1) s)
        (All-imp e.after space_lacks_comma r))

strip-text_of : (e : Entry) → IsEntry e → strip (text_of e) ≡ e.symbol
strip-text_of e (l, s, r) =
    strip-append e.before e.symbol e.after l (All-imp e.symbol (λ c h. h.0) s) r

module _ (upper_other : ℕ → Text) where
  map-strip :
      (es : List Entry)
      → All IsEntry es
      → map (λ p. upper upper_other (strip p)) (map text_of es)
        ≡ map (λ e. upper upper_other e.symbol) es
  map-strip [] h = refl
  map-strip (e ∷ es) h = ap₂ ◌∷◌ (ap (upper upper_other) (strip-text_of e h.0)) (map-strip es h.1)

  -- The upper case of a character: a small letter of ASCII is 32 above its capital, other characters
  -- of ASCII stay as they are.
  abbrev pub IsUpperChar : ℕ → Text → Type 0
  IsUpperChar c u =
      ((d : ℕ) × (c ≡ d + 32) × (b'A' ≤ d) × (d ≤ b'Z') × (u ≡ d ∷ []))
      ⊎ (((c < b'a') ⊎ (b'z' < c)) × (c ≤ 127) × (u ≡ c ∷ []))
      ⊎ ((127 < c) × (u ≡ upper_other c))

  abbrev pub IsUpper : Text → Text → Type 0
  IsUpper [] t = t ≡ []
  IsUpper (c ∷ s) t = (u : Text) × (v : Text) × (t ≡ u ++ v) × IsUpperChar c u × IsUpper s v

  -- The texts are the upper case of the symbols, without those that are empty.
  abbrev pub AreSymbols : List Entry → List Text → Type 0
  AreSymbols [] ts = ts ≡ []
  AreSymbols (e ∷ es) ts =
      (IsUpper e.symbol [] × AreSymbols es ts)
      ⊎ ((t : Text) × (rest : List Text) × (ts ≡ t ∷ rest)
          × (t ≢ [])
          × IsUpper e.symbol t
          × AreSymbols es rest)

  upper_char-IsUpperChar : (c : ℕ) → IsUpperChar c (upper_char upper_other c)
  unfolding upper_char
  upper_char-IsUpperChar c = elim (Bool-cases (leb b'a' c && leb c b'z')) [
    | inl small ↦ rw small (inl (c - 32, ground arith, ground arith, ground arith, refl))
    | inr other ↦ elim (Bool-cases (leb c 127)) [
      | inl ascii ↦ rw (other, ascii) (inr (inl (ground arith, ground arith, refl)))
      | inr beyond ↦ rw (other, beyond) (inr (inr (ground arith, refl)))
    ]
  ]

  upper-IsUpper : (s : Text) → IsUpper s (upper upper_other s)
  unfolding upper
  upper-IsUpper [] = refl
  upper-IsUpper (c ∷ s) = (
    upper_char upper_other c,
    upper upper_other s,
    refl,
    upper_char-IsUpperChar c,
    upper-IsUpper s,
  )

  kept-AreSymbols :
      (e : Entry) (es : List Entry) (t : Text) (ts : List Text)
      → IsUpper e.symbol t
      → AreSymbols es (without_empty ts)
      → AreSymbols (e ∷ es) (without_empty (t ∷ ts))
  unfolding without_empty
  kept-AreSymbols e es [] ts u rest = inl (u, rest)
  kept-AreSymbols e es (c ∷ t) ts u rest =
      inr (c ∷ t, without_empty ts, refl, (λ k. absurd (ground arith)), u, rest)

  without_empty-AreSymbols :
      (es : List Entry) → AreSymbols es (without_empty (map (λ e. upper upper_other e.symbol) es))
  unfolding without_empty
  without_empty-AreSymbols [] = refl
  without_empty-AreSymbols (e ∷ es) =
      kept-AreSymbols e es (upper upper_other e.symbol) _ (upper-IsUpper e.symbol)
        (without_empty-AreSymbols es)

  -- Of one or more symbols that are written with commas between them, with spaces around each, and
  -- that have neither spaces nor commas in them, `_parse_symbols` gives, in their order, those whose
  -- upper case is not empty, in upper case: a small letter of ASCII becomes the letter 32 below, any
  -- other character of ASCII stays, and one beyond becomes what Python has for it.
  pub parse_symbols-join :
      (e : Entry) (es : List Entry)
      → All IsEntry (e ∷ es)
      → AreSymbols (e ∷ es) (parse_symbols upper_other (join b',' (map text_of (e ∷ es))))
  unfolding parse_symbols
  parse_symbols-join e es h =
      let parsed : parse_symbols upper_other (join b',' (map text_of (e ∷ es)))
          ≡ without_empty (map (λ x. upper upper_other x.symbol) (e ∷ es)) =
        ap (λ ps. without_empty (map (λ p. upper upper_other (strip p)) ps))
          (split-join b',' (text_of e) (map text_of es)
            (All-map (Lacks b',') text_of (e ∷ es) (All-imp (e ∷ es) text_of-Lacks h)))
        ∙ ap without_empty (map-strip (e ∷ es) h) in
      subst (AreSymbols (e ∷ es)) (sym parsed) (without_empty-AreSymbols (e ∷ es))
