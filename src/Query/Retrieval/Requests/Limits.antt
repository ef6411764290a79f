-- ===== src/Query/Retrieval/Requests/Limits.antt =====
-- The requests of a call are limited, and it ends.
use incident_desk.Prelude.{
  Bool-cases, List, [], all, ap, arith, false, inl, inr, length, map, refl, suc, ℕ, ◌*◌, ◌+◌, ◌<◌,
  ◌∙◌, ◌∷◌, ◌≡◌, ◌≤◌, ◌⊎◌,
}
use incident_desk.Query.Retrieval.Requests.{
  IsLimited, Phase, Pool, Progresses, Step, Task, Turn, answers, answers_late, begins, cancelled,
  closing, drops_running, drops_waiting, ends, enters, finished, gathering, goes_on, here,
  in_flight, is_done, leaves, over, pool, running, slots_of, task_item, there, waiting,
}

Turn-in_flight :
    {A : Type 0} {a b : Task A} {ts us : List (Task A)}
    → Turn a b ts us
    → in_flight us + slots_of a ≡ in_flight ts + slots_of b
Turn-in_flight here = omega arith
Turn-in_flight (there t) = omega (arith, Turn-in_flight t)

Turn-items :
    {A : Type 0} {a b : Task A} {ts us : List (Task A)}
    → task_item a ≡ task_item b
    → Turn a b ts us
    → map task_item us ≡ map task_item ts
Turn-items e here = rw e refl
Turn-items e (there t) = rw (Turn-items e t) refl

Step-IsLimited :
    {A : Type 0} (k : ℕ) (items : List A) {p q : Pool A}
    → Step p q
    → IsLimited k items p
    → IsLimited k items q
Step-IsLimited k items (enters t) h =
    (omega (arith, h.0, Turn-in_flight t), Turn-items refl t ∙ h.1, tt)
Step-IsLimited k items (answers t) h =
    (omega (arith, h.0, Turn-in_flight t), Turn-items refl t ∙ h.1, tt)
Step-IsLimited k items (answers_late t) h =
    (omega (arith, h.0, Turn-in_flight t), Turn-items refl t ∙ h.1, tt)
Step-IsLimited k items leaves h = h
Step-IsLimited k items (drops_waiting t) h =
    (omega (arith, h.0, Turn-in_flight t), Turn-items refl t ∙ h.1, tt)
Step-IsLimited k items (drops_running t) h =
    (omega (arith, h.0, Turn-in_flight t), Turn-items refl t ∙ h.1, tt)
Step-IsLimited k items (ends d) h = (h.0, h.1, d)

start-in_flight : {A : Type 0} (items : List A) → in_flight (map waiting items) ≡ 0
start-in_flight [] = refl
start-in_flight (x ∷ xs) = omega (arith, start-in_flight xs)

start-items : {A : Type 0} (items : List A) → map task_item (map waiting items) ≡ items
start-items [] = refl
start-items (x ∷ xs) = ap (λ rest. x ∷ rest) (start-items xs)

abbrev pub steps : {A : Type 0} {k : ℕ} {items : List A} {p : Pool A} → Progresses k items p → ℕ
steps begins = 0
steps (goes_on r s) = suc (steps r)

abbrev work_of : {A : Type 0} → Task A → ℕ
work_of (waiting x) = 2
work_of (running x) = 1
work_of (finished x) = 0
work_of (cancelled x) = 0

abbrev work : {A : Type 0} → List (Task A) → ℕ
work [] = 0
work (t ∷ ts) = work_of t + work ts

abbrev phases_left : Phase → ℕ
phases_left gathering = 2
phases_left closing = 1
phases_left over = 0

abbrev work_left : {A : Type 0} → Pool A → ℕ
work_left (pool p ts n) = phases_left p + work ts

Turn-work :
    {A : Type 0} {a b : Task A} {ts us : List (Task A)}
    → Turn a b ts us
    → work us + work_of a ≡ work ts + work_of b
Turn-work here = omega arith
Turn-work (there t) = omega (arith, Turn-work t)

Step-work_left : {A : Type 0} {p q : Pool A} → Step p q → work_left q < work_left p
Step-work_left (enters t) = omega (arith, Turn-work t)
Step-work_left (answers t) = omega (arith, Turn-work t)
Step-work_left (answers_late t) = omega (arith, Turn-work t)
Step-work_left leaves = omega arith
Step-work_left (drops_waiting t) = omega (arith, Turn-work t)
Step-work_left (drops_running t) = omega (arith, Turn-work t)
Step-work_left (ends d) = omega arith

start-work : {A : Type 0} (items : List A) → work (map waiting items) ≡ 2 * length items
start-work [] = refl
start-work (x ∷ xs) = omega (arith, start-work xs)

steps-work_left :
    {A : Type 0} (k : ℕ) (items : List A) (p : Pool A) (r : Progresses k items p)
    → steps r + work_left p ≤ 2 * length items + 2
steps-work_left k items p begins = omega (arith, start-work items)
steps-work_left k items q (goes_on {p} r s) =
    omega (arith, steps-work_left k items p r, Step-work_left s)

limits :
    {A : Type 0} (k : ℕ) (items : List A) (p : Pool A) → Progresses k items p → IsLimited k items p
limits k items p begins = (omega (arith, start-in_flight items), start-items items, tt)
limits k items q (goes_on {p} r s) = Step-IsLimited k items s (limits k items p r)

abbrev LeftOver : {A : Type 0} → List (Task A) → Type 0
LeftOver ts =
    (x : _) × (us : _) × (Turn (waiting x) (cancelled x) ts us
      ⊎ Turn (running x) (cancelled x) ts us)

shifted : {A : Type 0} (t : Task A) {ts : List (Task A)} → LeftOver ts → LeftOver (t ∷ ts)
shifted t (x, us, inl w) = (x, t ∷ us, inl (there w))
shifted t (x, us, inr r) = (x, t ∷ us, inr (there r))

-- A task that is left.
left_over : {A : Type 0} (ts : List (Task A)) → all is_done ts ≡ false → LeftOver ts
left_over [] h = cc
left_over (waiting x ∷ ts) h = (x, cancelled x ∷ ts, inl here)
left_over (running x ∷ ts) h = (x, cancelled x ∷ ts, inr here)
left_over (finished x ∷ ts) h = shifted (finished x) (left_over ts h)
left_over (cancelled x ∷ ts) h = shifted (cancelled x) (left_over ts h)

-- Unless the call is over, it can go on.
abbrev pub GoesOn : {A : Type 0} → Pool A → Type 0
GoesOn (pool gathering ts n) = (q : Pool _) × Step (pool gathering ts n) q
GoesOn (pool closing ts n) = (q : Pool _) × Step (pool closing ts n) q
GoesOn (pool over ts n) = Unit

pool-GoesOn : {A : Type 0} (p : Pool A) → GoesOn p
pool-GoesOn (pool gathering ts n) = (pool closing ts n, leaves)
pool-GoesOn (pool over ts n) = tt
pool-GoesOn (pool closing ts n) = elim (Bool-cases (all is_done ts)) [
  | inl e ↦ (pool over ts n, ends e)
  | inr e ↦
      let (x, us, t) = left_over ts e in
      elim t [
        | inl w ↦ (pool closing us n, drops_waiting w)
        | inr r ↦ (pool closing us (suc n), drops_running r)
      ]
]

-- However the requests of a call answer, and whenever it is cancelled, those on their way and the free
-- slots are together the concurrency; the tasks are those of the items in their order; and once the
-- call is over, each of them is done. It can go on until it is over,
-- which it is after at most two steps for each item and two more.
pub Progresses-IsLimited :
    {A : Type 0} (k : ℕ) (items : List A) (p : Pool A) (r : Progresses k items p)
    → IsLimited k items p × GoesOn p × (steps r ≤ 2 * length items + 2)
Progresses-IsLimited k items p r =
    (limits k items p r, pool-GoesOn p, omega (arith, steps-work_left k items p r))
