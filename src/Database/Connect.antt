-- ===== src/Database/Connect.antt =====
-- `connect` of portfolio_engine/db.py, which feature_engineering/db.py and forecasting/db.py repeat.
-- An attempt gives a connection, or `none` for an OperationalError.
use mathlib.Core.Path.{subst}
use portfolio_engine.Prelude.{
  ℕ, zero, suc, ◌+◌, ◌<◌, ◌≡◌, refl, ap, ◌∙◌, ◌⊎◌, inl, inr, true, false, Bool-cases, Option,
  Option-cases, none, some, ◌==◌, arith, if◌then◌else◌,
}

-- A connection, with the sleeps before it; the last error; or the end of the loop, which returns None.
pub data Connection (C : Type 0) : Type 0 where
  connected : C → ℕ → Connection C
  raised : Connection C
  no_connection : Connection C

abbrev pub max_retries : ℕ
max_retries = 10

module _ {C : Type 0} (outcome : ℕ → Option C) where
  -- The rounds that are left, the number of the attempt and the sleeps so far.
  unfoldable pub attempts : ℕ → ℕ → ℕ → Connection C
  attempts zero attempt sleeps = no_connection
  attempts (suc left) attempt sleeps =
      let rest = attempts left (suc attempt) (suc sleeps) in
      elim (outcome attempt) [
        | some c ↦ connected c sleeps
        | none ↦ if attempt == max_retries then raised else rest
      ]

  unfoldable pub connect : Connection C
  unfolding attempts
  connect = attempts max_retries 1 0

  -- The first `k` attempts fail.
  abbrev pub Fail : ℕ → Type 0
  Fail k = (j : ℕ) → j < k → outcome (suc j) ≡ none

  abbrev Ends : Connection C → Type 0
  Ends r =
      ((c : C) × (k : ℕ) × (k < max_retries)
        × Fail k
        × (outcome (suc k) ≡ some c)
        × (r ≡ connected c k))
      ⊎ (Fail max_retries × (r ≡ raised))

  Fail-suc : (k : ℕ) → Fail k → outcome (suc k) ≡ none → Fail (suc k)
  Fail-suc k h e j l = elim (Bool-cases (j == k)) [
    | inl same ↦ let same' : j ≡ k = ground arith in ap (λ x. outcome (suc x)) same' ∙ e
    | inr other ↦ h j (ground arith)
  ]

  attempts-Ends :
      (left k : ℕ) → k + suc left ≡ max_retries → Fail k → Ends (attempts (suc left) (suc k) k)
  unfolding attempts
  attempts-Ends zero k e h = elim (Option-cases (outcome (suc k))) [
    | inl fails ↦
        let last : (suc k == max_retries) ≡ true = ground arith in
        let ten : suc k ≡ max_retries = omega arith in
        rw (fails, attempts, last) (inr (subst Fail ten (Fail-suc k h fails), refl))
    | inr (c, works) ↦ rw (works, attempts) (inl (c, k, omega arith, h, works, refl))
  ]
  attempts-Ends (suc left) k e h = elim (Option-cases (outcome (suc k))) [
    | inl fails ↦
        let more : (suc k == max_retries) ≡ false = ground arith in
        rw (fails, attempts, more) (attempts-Ends left (suc k) (omega arith) (Fail-suc k h fails))
    | inr (c, works) ↦ rw (works, attempts) (inl (c, k, omega arith, h, works, refl))
  ]

  -- The loop ends: after at most nine sleeps there is the connection of the first attempt that works,
  -- or all ten attempts fail and the error is raised; it never ends without either.
  pub connect-Ends :
      ((c : C) × (k : ℕ) × (k < max_retries)
        × Fail k
        × (outcome (suc k) ≡ some c)
        × (connect ≡ connected c k))
      ⊎ (Fail max_retries × (connect ≡ raised))
  unfolding connect
  connect-Ends = attempts-Ends 9 0 refl (λ j l. absurd (omega arith))
