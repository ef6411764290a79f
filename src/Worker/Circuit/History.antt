-- ===== src/Worker/Circuit/History.antt =====
-- The circuit as threads share it: each region under the lock is one event, and the threads'
-- events may come in any order.
use incident_desk.Prelude.{List, [], arith, if◌then◌else◌, leb, length, refl, ℕ, ◌+◌, ◌<◌, ◌∷◌, ◌≡◌}
use incident_desk.Worker.Circuit.{Circuit, closed, failed_at}

pub data Event : Type 0 where
  success : Event
  failure : (now : ℕ) → Event

-- What one region under the lock does.
pub happen : Event → Circuit → Circuit
happen success c = closed
happen (failure now) c = failed_at now c

-- The shared circuit after a history, newest event first.
pub after : List Event → Circuit
unfolding happen
after [] = closed
after (e ∷ older) = happen e (after older)

-- The times of the failures since the last success, newest first.
pub streak : List Event → List ℕ
streak [] = []
streak (success ∷ older) = []
streak (failure now ∷ older) = now ∷ streak older

-- When a circuit with these failures lets calls through again: ten seconds after the newest of at
-- least five, and at once with fewer.
abbrev pub reopening : List ℕ → ℕ
reopening [] = 0
reopening (now ∷ earlier) = if leb 5 (length (now ∷ earlier)) then now + 10000 else 0

reopening_short : (l : List ℕ) → length l < 5 → reopening l ≡ 0
reopening_short [] h = refl
reopening_short (now ∷ earlier) h = ground arith

-- Whatever the order in which threads report successes and failures, the circuit counts the
-- failures since the last success, and stays open until ten seconds after the newest of them if
-- there are at least five, and is closed with fewer.
pub after-streak :
    (h : List Event)
    → ((after h).failures ≡ length (streak h)) × ((after h).until ≡ reopening (streak h))
unfolding after streak failed_at
after-streak [] = (refl, refl)
after-streak (success ∷ older) = (refl, refl)
after-streak (failure now ∷ older) =
    let (count, opening) = after-streak older in
    ground (arith, count, opening, reopening_short (streak older))
