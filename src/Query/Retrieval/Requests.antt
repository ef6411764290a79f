-- ===== src/Query/Retrieval/Requests.antt =====
-- query/app/core/retrieval.py, `bounded_map`, as asyncio runs it: one task for each item, which waits
-- for a slot of the semaphore, makes its request, and gives the slot back. What the call returns is
-- `map_all` of Query/Agent/Nodes.
pub mod Limits
use incident_desk.Prelude.{Bool, List, [], all, false, map, suc, true, ℕ, ◌+◌, ◌∷◌, ◌≡◌}

-- A task, with its item.
pub data Task (A : Type 0) : Type 0 where
  waiting running finished cancelled : A → Task A

-- The call awaits `gather`, then cancels what is left and awaits the second `gather`, then is over.
pub data Phase : Type 0 where
  gathering closing over : Phase

-- The phase, the tasks in the order of the items, and the free slots of the semaphore.
pub data Pool (A : Type 0) : Type 0 where
  pool : Phase → List (Task A) → ℕ → Pool A

abbrev task_item : {A : Type 0} → Task A → A
task_item (waiting x) = x
task_item (running x) = x
task_item (finished x) = x
task_item (cancelled x) = x

-- task.done()
abbrev is_done : {A : Type 0} → Task A → Bool
is_done (waiting x) = false
is_done (running x) = false
is_done (finished x) = true
is_done (cancelled x) = true

-- One task of the list changes.
pub data Turn {A : Type 0} (a b : Task A) : List (Task A) → List (Task A) → Type 0 where
  here : {ts : List (Task A)} → Turn a b (a ∷ ts) (b ∷ ts)
  there : {t : Task A} {ts us : List (Task A)} → Turn a b ts us → Turn a b (t ∷ ts) (t ∷ us)

pub data Step {A : Type 0} : Pool A → Pool A → Type 0 where
  enters :
      {x : A} {ts us : List (Task A)} {n : ℕ}
      → Turn (waiting x) (running x) ts us
      → Step (pool gathering ts (suc n)) (pool gathering us n)
  -- The request returns or raises.
  answers :
      {x : A} {ts us : List (Task A)} {n : ℕ}
      → Turn (running x) (finished x) ts us
      → Step (pool gathering ts n) (pool gathering us (suc n))
  answers_late :
      {x : A} {ts us : List (Task A)} {n : ℕ}
      → Turn (running x) (finished x) ts us
      → Step (pool closing ts n) (pool closing us (suc n))
  -- All tasks are done, one has raised, or the call itself is cancelled or timed out.
  leaves : {ts : List (Task A)} {n : ℕ} → Step (pool gathering ts n) (pool closing ts n)
  drops_waiting :
      {x : A} {ts us : List (Task A)} {n : ℕ}
      → Turn (waiting x) (cancelled x) ts us
      → Step (pool closing ts n) (pool closing us n)
  drops_running :
      {x : A} {ts us : List (Task A)} {n : ℕ}
      → Turn (running x) (cancelled x) ts us
      → Step (pool closing ts n) (pool closing us (suc n))
  ends :
      {ts : List (Task A)} {n : ℕ}
      → all is_done ts ≡ true
      → Step (pool closing ts n) (pool over ts n)

-- What a call with these items and this concurrency may come to.
pub data Progresses {A : Type 0} (concurrency : ℕ) (items : List A) : Pool A → Type 0 where
  begins : Progresses concurrency items (pool gathering (map waiting items) concurrency)
  goes_on :
      {p q : Pool A} → Progresses concurrency items p → Step p q → Progresses concurrency items q

abbrev slots_of : {A : Type 0} → Task A → ℕ
slots_of (waiting x) = 0
slots_of (running x) = 1
slots_of (finished x) = 0
slots_of (cancelled x) = 0

-- The requests on their way.
abbrev in_flight : {A : Type 0} → List (Task A) → ℕ
in_flight [] = 0
in_flight (t ∷ ts) = slots_of t + in_flight ts

abbrev IsOver : {A : Type 0} → Phase → List (Task A) → Type 0
IsOver gathering ts = Unit
IsOver closing ts = Unit
IsOver over ts = all is_done ts ≡ true

-- The requests on their way have the slots that are not free, at most as many as there are; the tasks
-- are those of the items, in their order; and when the call is over all of them are done.
abbrev pub IsLimited : {A : Type 0} → ℕ → List A → Pool A → Type 0
IsLimited concurrency items (pool p ts n) =
    (in_flight ts + n ≡ concurrency) × (map task_item ts ≡ items) × IsOver p ts
