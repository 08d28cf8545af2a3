-- ===== src/Settings/Address.antt =====
-- Which texts `host, port = REDIS_ADDR.split(":")` and `int(port)` take.
use mathlib.Core.Path.{subst}
use portfolio_engine.Prelude.{
  All, ◌≡◌, refl, sym, ap, ◌∙◌, ◌↔◌, inl, inr, Bool, true, Option, Option-cases, some, none, List,
  [], ◌∷◌, ◌++◌, arith, if◌then◌else◌,
}
use portfolio_engine.Settings.{Text, split, parse_address, is_read}
use portfolio_engine.Settings.Split.{join, Lacks, split-join, split-Lacks, join-split}

-- The text is the host, a colon and the port, without other colons, and the port is a number.
abbrev pub IsAddress : (Text → Bool) → Text → Text × Text → Type 0
IsAddress is_int text (host, port) =
    (text ≡ host ++ b':' ∷ port) × Lacks b':' host × Lacks b':' port × (is_int port ≡ true)

abbrev two_parts : (Text → Bool) → List Text → Option (Text × Text)
two_parts is_int parts = elim parts [
  | host ∷ port ∷ [] ↦ if is_int port then some (host, port) else none
  | _ ↦ none
]

two_parts_iff :
    (is_int : Text → Bool) (parts : List Text) (host port : Text)
    → (two_parts is_int parts ≡ some (host, port))
      ↔ ((parts ≡ host ∷ port ∷ []) × (is_int port ≡ true))
two_parts_iff is_int [] host port = ground arith
two_parts_iff is_int (p ∷ []) host port = ground arith
two_parts_iff is_int (p ∷ q ∷ []) host port = ground arith
two_parts_iff is_int (p ∷ q ∷ r ∷ parts) host port = ground arith

-- The address is read exactly where the text is such a one, and into these parts.
parse_address_iff :
    (is_int : Text → Bool) (text host port : Text)
    → (parse_address is_int text ≡ some (host, port)) ↔ IsAddress is_int text (host, port)
unfolding parse_address
parse_address_iff is_int text host port =
    let (to, back) = two_parts_iff is_int (split b':' text) host port in
    (
      λ e.
          let (parts, i) = to e in
          let (h, (p, _)) = subst (All (Lacks b':')) parts (split-Lacks b':' text) in
          (sym (join-split b':' text) ∙ ap (join b':') parts, h, p, i),
      λ (same, h, p, i).
          back ((ap (split b':') same ∙ split-join b':' host (port ∷ []) (h, (p, tt))), i),
    )

pub is_read_iff :
    (is_int : Text → Bool) (text : Text)
    → (is_read (parse_address is_int text) ≡ true) ↔ ((a : Text × Text) × IsAddress is_int text a)
is_read_iff is_int text = elim (Option-cases (parse_address is_int text)) [
  | inl e ↦ (
    λ h. absurd (ground arith),
    λ ((host, port), a). absurd (ground (arith, (parse_address_iff is_int text host port).1 a)),
  )
  | inr ((host, port), e) ↦
      (λ h. ((host, port), (parse_address_iff is_int text host port).0 e), λ h. rw e refl)
]
