-- ===== src/Worker/Circuit.antt =====
-- worker/incident_worker/resilience.py: the circuit breaker that stands before each source. Times
-- are milliseconds; `fn` and the clock act on a state of their own, which the breaker passes along.
pub mod Attempts
pub mod History
use incident_desk.Prelude.{
  Bool, Exc, Result, err, false, http_status, if◌then◌else◌, leb, ltb, nat_eq, not, ok,
  runtime_error, string_eq, suc, transport_error, true, zero, ℕ, ◌&&◌, ◌+◌, ◌==◌,
}
use incident_desk.Worker.Contracts.{object_eq, source_eq}

pub record Circuit : Type 0 where
  pub failures : ℕ
  pub until : ℕ

-- Circuit.__init__, and what a success writes.
abbrev pub closed : Circuit
closed = record { failures = 0; until = 0 }

abbrev pub threshold : ℕ
threshold = 5

abbrev pub open_time : ℕ
open_time = 10000

-- The exceptions that are counted and retried: transport errors, and statuses other than the
-- client errors, with 429 counted. (`status` is 0 for a transport error.)
pub retryable : Exc → Bool
retryable (transport_error _) = true
retryable (http_status status) = not (not (status == 0) && not (status == 429) && ltb status 500)
retryable _ = false

-- A counted failure at time `now`; the clock is read only when the circuit opens.
pub opens : Circuit → Bool
opens c = leb threshold (c.failures + 1)

pub failed_at : ℕ → Circuit → Circuit
unfolding opens
failed_at now c = record {
  failures = c.failures + 1;
  until = if opens c then now + open_time else c.until;
}

module _ {S A : Type 0} (tick : S → ℕ × S) (fn : S → Result A × S) where
  count_failure : Circuit × S → Circuit × S
  unfolding failed_at opens
  count_failure (c, s) =
      if opens c then (let (now, s') = tick s in (failed_at now c, s')) else (failed_at 0 c, s)

  -- The `for attempt in range(3)` loop; `left` is the number of attempts after this one.
  pub attempt_loop : ℕ → Circuit × S → Result A × (Circuit × S)
  unfolding count_failure retryable
  attempt_loop zero (c, s) =
      let (r, s') = fn s in
      elim r [
        | ok a ↦ (ok a, (closed, s'))
        | err e ↦ if retryable e then (err e, count_failure (c, s')) else (err e, (c, s'))
      ]
  attempt_loop (suc left) (c, s) =
      let (r, s') = fn s in
      elim r [
        | ok a ↦ (ok a, (closed, s'))
        | err e ↦
            let again = attempt_loop left (count_failure (c, s')) in
            if retryable e then again else (err e, (c, s'))
      ]

  unfoldable pub call : Circuit × S → Result A × (Circuit × S)
  unfolding attempt_loop
  call (c, s) =
      let (now, s') = tick s in
      if ltb now c.until
      then (err (runtime_error "source_circuit_open"), (c, s'))
      else attempt_loop 2 (c, s')
