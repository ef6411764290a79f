-- ===== src/Query/Sql/Periods/Days.antt =====
-- The days between bounds of one month are days of it.
use incident_desk.Prelude.{
  Bool-cases, arith, if◌then◌else◌, inl, inr, leb, nat_eq, ok, ok-injective, some, string_eq, true,
  ℕ, ◌%◌, ◌+◌, ◌==◌, ◌≡◌, ◌≤◌,
}
use incident_desk.Query.Sql.Calendar.{Date, earlier, not_after, same_day}
use incident_desk.Query.Sql.Periods.Searches.{following, month_end, requested_day}
use incident_desk.Worker.Contracts.{object_eq, source_eq}

-- A day, at least in a month of the year.
pub record IsDay (d : Date) : Type 0 where
  pub first : 1 ≤ d.month
  pub last : d.month ≤ 12
  pub counted : 1 ≤ d.day

abbrev pub InMonth : ℕ → ℕ → Date → Type 0
InMonth m y d = (d.month ≡ m) × (d.year ≡ y)

pub same_day-InMonth :
    (m y : ℕ) (v d : Date)
    → requested_day m (some y) (some v) ≡ true
    → same_day d v ≡ true
    → InMonth m y d
same_day-InMonth m y v d r h = (ground arith, ground arith)

pub between-InMonth :
    (m y : ℕ) (low high d : Date)
    → requested_day m (some y) (some low) ≡ true
    → requested_day m (some y) (some high) ≡ true
    → not_after low d ≡ true
    → not_after d high ≡ true
    → InMonth m y d
between-InMonth m y low high d r s h k = (ground arith, ground arith)

pub last-InMonth :
    (m y : ℕ) (low high d : Date)
    → requested_day m (some y) (some low) ≡ true
    → not_after high (month_end m low) ≡ true
    → not_after low d ≡ true
    → not_after d high ≡ true
    → InMonth m y d
last-InMonth m y low high d r s h k = (ground arith, ground arith)

unfoldable pub next_day : ℕ → Date → Date
next_day m low = record {
  year = low.year + (if m == 12 then 1 else 0);
  month = m % 12 + 1;
  day = 1;
}

pub before_next-InMonth :
    (m y : ℕ) (low d : Date)
    → requested_day m (some y) (some low) ≡ true
    → IsDay d
    → not_after low d ≡ true
    → earlier d (next_day m low) ≡ true
    → InMonth m y d
unfolding next_day
before_next-InMonth m y low d r i h k = elim (Bool-cases (m == 12)) [
  | inl e ↦ (let q = (rw e at k) in (ground arith, ground arith))
  | inr e ↦ (let q = (rw e at k) in (ground arith, ground arith))
]

pub following-next_day :
    (m : ℕ) (low next : Date) → following m low ≡ ok next → next_day m low ≡ next
unfolding following next_day
following-next_day m low next f =
    elim (Bool-cases (leb (low.year + (if m == 12 then 1 else 0)) 9999)) [
      | inl e ↦ ok-injective (rw e at f)
      | inr e ↦ let q = (rw e at f) in cc q
    ]
