-- ===== src/Worker/Investigation/Fitting.antt =====
-- The request to the model fits the budget of the task.
use incident_desk.Prelude.{
  Bool-cases, Result, String, arith, err, false, inl, inr, leb, leb→le, ltb, ltb→lt, ok, refl,
  runtime_error, subst, suc, sym, zero, ℕ, ◌<◌, ◌≡◌, ◌≤◌, ◌⊎◌,
}
use incident_desk.Json.Defs.{Value}
use incident_desk.Worker.Contracts.{ContextBundle, RunContext}
use incident_desk.Worker.Investigation.{Model, fit, request_size}

le_suc_cases : (j n : ℕ) → j ≤ suc n → (j ≤ n) ⊎ (j ≡ suc n)
le_suc_cases j n h = elim (Bool-cases (leb j n)) [
  | inl e ↦ inl (leb→le j n e)
  | inr e ↦ inr (ground arith)
]

zero_of_le : (j : ℕ) → j ≤ 0 → 0 ≡ j
zero_of_le j h = omega arith

not_ltb→le : (a b : ℕ) → ltb a b ≡ false → b ≤ a
not_ltb→le a b h = ground arith

module _ (repr : Value → String) (m : Model) (run : RunContext) (b : ContextBundle) where
  -- A request with n pieces of evidence is too large.
  abbrev pub IsTooLarge : ℕ → Type 0
  IsTooLarge n = run.budget.tokens < request_size repr m run b n

  -- Of at most n pieces, as many as fit are taken, or not even none fits.
  abbrev pub IsLargest : ℕ → Result ℕ → Type 0
  IsLargest n (ok k) =
      (k ≤ n)
      × (request_size repr m run b k ≤ run.budget.tokens)
      × ((j : ℕ) → k < j → j ≤ n → IsTooLarge j)
  IsLargest n (err e) =
      (e ≡ runtime_error "model_input_budget_exhausted") × ((j : ℕ) → j ≤ n → IsTooLarge j)

  IsLargest-suc : (n : ℕ) (r : Result ℕ) → IsTooLarge (suc n) → IsLargest n r → IsLargest (suc n) r
  IsLargest-suc n (ok k) t h = (
    omega (arith, h.0),
    h.1,
    λ j a c. elim (le_suc_cases j n c) [
      | inl below ↦ h.2 j a below
      | inr same ↦ subst IsTooLarge (sym same) t
    ],
  )
  IsLargest-suc n (err e) t h = (
    h.0,
    λ j a. elim (le_suc_cases j n a) [
      | inl below ↦ h.1 j below
      | inr same ↦ subst IsTooLarge (sym same) t
    ],
  )

  -- The request to the model has as many of the allowed pieces of evidence as the tokens of the task
  -- allow, with what the answer may need set aside; if it is too large without any, that is an error.
  pub fit-IsLargest : (n : ℕ) → IsLargest n (fit repr m run b n)
  unfolding fit
  fit-IsLargest zero = elim (Bool-cases (ltb run.budget.tokens (request_size repr m run b 0))) [
    | inl e ↦ rw e (refl, λ j a. subst IsTooLarge (zero_of_le j a) (ltb→lt _ _ e))
    | inr e ↦ rw e (omega arith, not_ltb→le _ _ e, λ j a c. absurd (omega arith))
  ]
  fit-IsLargest (suc n) =
      elim (Bool-cases (ltb run.budget.tokens (request_size repr m run b (suc n)))) [
        | inl e ↦ rw e (IsLargest-suc n (fit repr m run b n) (ltb→lt _ _ e) (fit-IsLargest n))
        | inr e ↦ rw e (omega arith, not_ltb→le _ _ e, λ j a c. absurd (omega arith))
      ]
