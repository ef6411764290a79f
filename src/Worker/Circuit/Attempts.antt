-- ===== src/Worker/Circuit/Attempts.antt =====
-- One call through the breaker: how often it calls the source, and what it leaves in the circuit.
use incident_desk.Prelude.{
  Bool-cases, Exc, Result, Result-cases, arith, err, false, inl, inr, leb, ltb, ok, refl,
  runtime_error, suc, true, zero, ℕ, ◌+◌, ◌<◌, ◌∙◌, ◌≡◌, ◌≤◌,
}
use incident_desk.Worker.Circuit.{
  Circuit, attempt_loop, call, closed, count_failure, failed_at, opens, retryable,
}

module _ {S A : Type 0} (tick : S → ℕ × S) (fn : S → Result A × S) where
  -- While the circuit is open a call raises without calling the source: only the clock was read,
  -- and the circuit is as it was.
  pub call_open :
      (c : Circuit) (s : S)
      → (tick s).0 < c.until
      → call tick fn (c, s) ≡ (err (runtime_error "source_circuit_open"), (c, (tick s).1))
  unfolding call
  call_open c s h = ground arith

  module _ (cost : S → ℕ) (tick_free : (s : S) → cost (tick s).1 ≡ cost s)
      (fn_cost : (s : S) → cost (fn s).1 ≤ cost s + 1) where
    count_failure_free : (c : Circuit) (s : S) → cost (count_failure tick fn (c, s)).1 ≡ cost s
    unfolding count_failure
    count_failure_free c s = ground (arith, tick_free s)

    attempt_loop_cost :
        (left : ℕ) (c : Circuit) (s : S)
        → cost (attempt_loop tick fn left (c, s)).1.1 ≤ cost s + (left + 1)
    unfolding attempt_loop
    attempt_loop_cost zero c s = ground (arith, fn_cost s, count_failure_free c (fn s).1)
    attempt_loop_cost (suc left) c s =
        let p = count_failure tick fn (c, (fn s).1) in
        ground (arith, fn_cost s, count_failure_free c (fn s).1, attempt_loop_cost left p.0 p.1)

    -- A call through the breaker calls the source at most three times: whatever one call of the
    -- source costs at most once, and a reading of the clock does not cost, is paid three times at most.
    pub call_cost : (c : Circuit) (s : S) → cost (call tick fn (c, s)).1.1 ≤ cost s + 3
    unfolding call
    call_cost c s = ground (arith, tick_free s, attempt_loop_cost 2 c (tick s).1)

  -- An invariant of what lies outside the circuit.
  module _ (P : S → Type 0) (tick_keeps : (s : S) → P s → P (tick s).1)
      (fn_keeps : (s : S) → P s → P (fn s).1) where
    count_failure_keeps : (c : Circuit) (s : S) → P s → P (count_failure tick fn (c, s)).1
    unfolding count_failure
    count_failure_keeps c s h = elim (Bool-cases (opens c)) [
      | inl e ↦ rw e (tick_keeps s h)
      | inr e ↦ rw e h
    ]

    attempt_loop_keeps :
        (left : ℕ) (c : Circuit) (s : S) → P s → P (attempt_loop tick fn left (c, s)).1.1
    unfolding attempt_loop
    attempt_loop_keeps zero c s h = elim (Result-cases (fn s).0) [
      | inl (a, e) ↦ rw (e, attempt_loop) (fn_keeps s h)
      | inr (x, e) ↦ elim (Bool-cases (retryable x)) [
        | inl again ↦
            rw (e, attempt_loop) (rw again (count_failure_keeps c (fn s).1 (fn_keeps s h)))
        | inr final ↦ rw (e, attempt_loop) (rw final (fn_keeps s h))
      ]
    ]
    attempt_loop_keeps (suc left) c s h = elim (Result-cases (fn s).0) [
      | inl (a, e) ↦ rw (e, attempt_loop) (fn_keeps s h)
      | inr (x, e) ↦ elim (Bool-cases (retryable x)) [
        | inl again ↦
            let p = count_failure tick fn (c, (fn s).1) in
            rw (e, attempt_loop)
              (rw again
                (attempt_loop_keeps left p.0 p.1 (count_failure_keeps c (fn s).1 (fn_keeps s h))))
        | inr final ↦ rw (e, attempt_loop) (rw final (fn_keeps s h))
      ]
    ]

    pub call_keeps : (c : Circuit) (s : S) → P s → P (call tick fn (c, s)).1.1
    unfolding call
    call_keeps c s h = elim (Bool-cases (ltb (tick s).0 c.until)) [
      | inl e ↦ rw (e, call) (tick_keeps s h)
      | inr e ↦ rw (e, call) (attempt_loop_keeps 2 c (tick s).1 (tick_keeps s h))
    ]

  failures-count_failure :
      (c : Circuit) (s : S) → (count_failure tick fn (c, s)).0.failures ≡ c.failures + 1
  unfolding count_failure
  failures-count_failure c s = ground arith

  -- The circuit was opened for ten seconds at a reading of the clock that led to the state `s'`.
  abbrev pub JustOpened : Circuit → S → Type 0
  JustOpened c' s' = (s : S) × (c'.until ≡ (tick s).0 + 10000) × (s' ≡ (tick s).1)

  -- When the circuit lets calls through again: as before, if fewer than five failures are counted or
  -- none was; and ten seconds after a reading of the clock, if some were and they are at least five.
  abbrev pub Reopens : Circuit → Circuit → Type 0
  Reopens c c' =
      (c'.failures < 5 → c'.until ≡ c.until)
      × (c'.failures ≡ c.failures → c'.until ≡ c.until)
      × (c.failures < c'.failures → 5 ≤ c'.failures → (s' : S) × JustOpened c' s')

  count_failure-JustOpened :
      (c : Circuit) (s : S)
      → 5 ≤ c.failures + 1
      → JustOpened (count_failure tick fn (c, s)).0 (count_failure tick fn (c, s)).1
  unfolding count_failure failed_at opens
  count_failure-JustOpened c s h =
      let e : leb 5 (c.failures + 1) ≡ true = ground arith in rw e (s, refl, refl)

  count_failure-early :
      (c : Circuit) (s : S) → c.failures + 1 < 5 → (count_failure tick fn (c, s)).0.until ≡ c.until
  unfolding count_failure failed_at opens
  count_failure-early c s h = let e : leb 5 (c.failures + 1) ≡ false = ground arith in rw e refl

  count_failure-Reopens : (c : Circuit) (s : S) → Reopens c (count_failure tick fn (c, s)).0
  count_failure-Reopens c s =
      let n = failures-count_failure c s in
      (
        (λ h. count_failure-early c s (omega (arith, n, h))),
        (λ h. absurd (omega (arith, n, h))),
        (λ h k.
            ((count_failure tick fn (c, s)).1, count_failure-JustOpened c s (omega (arith, n, k)))),
      )

  Reopens-suc :
      (c c₁ c' : Circuit)
      → c₁.failures ≡ c.failures + 1
      → c₁.failures ≤ c'.failures
      → Reopens c c₁
      → Reopens c₁ c'
      → Reopens c c'
  Reopens-suc c c₁ c' one more first rest = (
    (λ h. rest.0 h ∙ first.0 (omega (arith, h, more))),
    (λ h. absurd (omega (arith, h, one, more))),
    (λ h k. elim (Bool-cases (ltb c₁.failures c'.failures)) [
      | inl e ↦ rest.2 (ground arith) k
      | inr e ↦
          let same : c'.failures ≡ c₁.failures = ground arith in
          let (s', (s, at, reached)) = first.2 (omega (arith, one)) (omega (arith, same, k)) in
          (s', (s, rest.1 same ∙ at, reached))
    ]),
  )

  -- What `n` attempts leave behind, by how they end.
  abbrev pub Settles : ℕ → Circuit → Result A → Circuit → S → Type 0
  Settles n c (ok a) c' s' = c' ≡ closed
  Settles n c (err e) c' s' =
      Reopens c c'
      × (retryable e ≡ true → (c'.failures ≡ c.failures + n) × (5 ≤ c'.failures → JustOpened c' s'))
      × (retryable e ≡ false → (c.failures ≤ c'.failures) × (c'.failures + 1 ≤ c.failures + n))

  Settles-grows :
      (n : ℕ) (c : Circuit) (x : Exc) (c' : Circuit) (s' : S)
      → Settles n c (err x) c' s'
      → c.failures ≤ c'.failures
  Settles-grows n c x c' s' h = elim (Bool-cases (retryable x)) [
    | inl e ↦ omega (arith, (h.1 e).0)
    | inr e ↦ (h.2 e).0
  ]

  Settles-suc :
      (n : ℕ) (c c₁ : Circuit) (r : Result A) (c' : Circuit) (s' : S)
      → c₁.failures ≡ c.failures + 1
      → Reopens c c₁
      → Settles n c₁ r c' s'
      → Settles (suc n) c r c' s'
  Settles-suc n c c₁ (ok a) c' s' e first h = h
  Settles-suc n c c₁ (err x) c' s' e first h = (
    Reopens-suc c c₁ c' e (Settles-grows n c₁ x c' s' h) first h.0,
    (λ p. (omega (arith, (h.1 p).0), (h.1 p).1)),
    (λ q. let (low, high) = h.2 q in (omega arith, omega arith)),
  )

  attempt_loop-Settles :
      (left : ℕ) (c : Circuit) (s : S)
      → Settles
          (suc left)
          c
          (attempt_loop tick fn left (c, s)).0
          (attempt_loop tick fn left (c, s)).1.0
          (attempt_loop tick fn left (c, s)).1.1
  unfolding attempt_loop
  attempt_loop-Settles zero c s = elim (Result-cases (fn s).0) [
    | inl (a, e) ↦ rw (e, attempt_loop) refl
    | inr (x, e) ↦ elim (Bool-cases (retryable x)) [
      | inl again ↦
          let n = failures-count_failure c (fn s).1 in
          rw (e, attempt_loop)
            (rw again (
              count_failure-Reopens c (fn s).1,
              (λ _. (n, (λ k. count_failure-JustOpened c (fn s).1 (omega (arith, n, k))))),
              (λ q. cc),
            ))
      | inr final ↦
          rw (e, attempt_loop)
            (rw final (
              ((λ _. refl), (λ _. refl), (λ h k. absurd (omega (arith, h)))),
              (λ q. cc),
              (λ _. (omega arith, omega arith)),
            ))
    ]
  ]
  attempt_loop-Settles (suc left) c s = elim (Result-cases (fn s).0) [
    | inl (a, e) ↦ rw (e, attempt_loop) refl
    | inr (x, e) ↦ elim (Bool-cases (retryable x)) [
      | inl again ↦
          let p = count_failure tick fn (c, (fn s).1) in
          rw (e, attempt_loop)
            (rw again (
              Settles-suc (suc left) c p.0 (attempt_loop tick fn left p).0
                (attempt_loop tick fn left p).1.0 (attempt_loop tick fn left p).1.1
                (failures-count_failure c (fn s).1) (count_failure-Reopens c (fn s).1)
                (attempt_loop-Settles left p.0 p.1)))
      | inr final ↦
          rw (e, attempt_loop)
            (rw final (
              ((λ _. refl), (λ _. refl), (λ h k. absurd (omega (arith, h)))),
              (λ q. cc),
              (λ _. (omega arith, omega arith)),
            ))
    ]
  ]

  -- A call that finds the circuit not open either succeeds, and leaves the circuit closed with no
  -- failures counted; or raises a retryable exception after three counted failures; or raises any
  -- other exception, which is not counted, after at most two counted ones. When it raises, the time
  -- until which the circuit is open is as before, if fewer than five failures are counted or none
  -- was in this call; otherwise it is ten seconds after a reading of the clock, which is the last
  -- thing that a call which raises a retryable exception does.
  pub call-Settles :
      (c : Circuit) (s : S)
      → c.until ≤ (tick s).0
      → Settles 3 c (call tick fn (c, s)).0 (call tick fn (c, s)).1.0 (call tick fn (c, s)).1.1
  unfolding call
  call-Settles c s h =
      let closed_now : ltb (tick s).0 c.until ≡ false = ground arith in
      rw (closed_now, call) (attempt_loop-Settles 2 c (tick s).1)
