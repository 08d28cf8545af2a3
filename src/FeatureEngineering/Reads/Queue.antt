-- ===== src/FeatureEngineering/Reads/Queue.antt =====
-- The reads as a queue: what has come and is not read waits, and each read takes the first ten.
use mathlib.Core.List.{append-nil, append_assoc, flatten}
use portfolio_engine.Prelude.{
  ℕ, zero, suc, ◌*◌, ◌≤◌, ◌≡◌, refl, sym, ap, ◌∙◌, List, [], ◌∷◌, ◌++◌, length, length-append,
  length-drop, take, drop, replicate, arith,
}
use portfolio_engine.FeatureEngineering.Reads.{read_count}

module _ {A : Type 0} where
  -- What is in the stream at each read, where these messages come before it.
  abbrev pub streams_of : List A → List (List A) → List (List A)
  streams_of stream [] = []
  streams_of stream (new ∷ arrivals) = (stream ++ new) ∷ streams_of (stream ++ new) arrivals

  -- What the reads take from the queue.
  abbrev pub taken : List A → List (List A) → List A
  taken queue [] = []
  taken queue (new ∷ arrivals) =
      take read_count (queue ++ new) ++ taken (drop read_count (queue ++ new)) arrivals

  pub take-drop : (n : ℕ) (xs : List A) → take n xs ++ drop n xs ≡ xs
  take-drop zero xs = refl
  take-drop (suc n) [] = refl
  take-drop (suc n) (x ∷ xs) = ap (λ l. x ∷ l) (take-drop n xs)

  short : (xs : List A) → length xs ≤ 0 → xs ≡ []
  short [] h = refl
  short (x ∷ xs) h = absurd (omega arith)

  taken_rest :
      (n : ℕ) (queue : List A)
      → length queue ≤ read_count * n
      → taken queue (replicate n []) ≡ queue
  taken_rest zero queue h = sym (short queue (omega arith))
  taken_rest (suc n) queue h =
      ap (λ q. take read_count q ++ taken (drop read_count q) (replicate n [])) (append-nil queue)
      ∙ ap (λ l. take read_count queue ++ l)
          (taken_rest n (drop read_count queue) (omega (arith, length-drop read_count queue)))
      ∙ take-drop read_count queue

  -- With enough reads after the last arrival, all is taken.
  pub taken-all :
      (n : ℕ) (queue : List A) (arrivals : List (List A))
      → length (queue ++ flatten arrivals) ≤ read_count * n
      → taken queue (arrivals ++ replicate n []) ≡ queue ++ flatten arrivals
  unfolding flatten
  taken-all n queue [] h =
      let same = append-nil queue in
      taken_rest n queue (omega (arith, h, ap length same)) ∙ sym same
  taken-all n queue (new ∷ arrivals) h =
      let q = queue ++ new in
      let rest = flatten arrivals in
      let parts : take read_count q ++ (drop read_count q ++ rest) ≡ queue ++ (new ++ rest) =
        sym (append_assoc (take read_count q) (drop read_count q) rest)
        ∙ ap (λ l. l ++ rest) (take-drop read_count q)
        ∙ append_assoc queue new rest in
      ap (λ l. take read_count q ++ l)
        (taken-all n (drop read_count q) arrivals (
          omega (
            arith,
            h,
            ap length parts,
            length-append (take read_count q) (drop read_count q ++ rest),
          )))
      ∙ parts
