-- ===== src/Worker/Session/Delivery.antt =====
-- How the result of a task is delivered.
use incident_desk.Prelude.{
  List, Result, String, ap, arith, err, http_status, inl, inr, length, ok, other_error,
  permission_error, refl, runtime_error, subst, suc, sym, transport_error, value_error, zero, ℕ,
  ◌+◌, ◌<◌, ◌∙◌, ◌∷◌, ◌≡◌, ◌≤◌, ◌⊎◌,
}
use incident_desk.Json.Defs.{Value}
use incident_desk.Worker.Session.{
  Answer, Call, Request, Session, World, after_attempt, call_task, report_result, result_loop,
  send_result, stamp,
}

abbrev pub copies : ℕ → Call → List Call → List Call
copies zero c sent = sent
copies (suc n) c sent = c ∷ copies n c sent

copies-suc : (n : ℕ) (c : Call) (sent : List Call) → copies n c (c ∷ sent) ≡ copies (suc n) c sent
copies-suc zero c sent = refl
copies-suc (suc n) c sent = rw (copies-suc n c sent) refl

-- The answer is an exception of the transport, of whatever class.
abbrev pub IsLost : Result Answer → Type 0
IsLost r = (name : String) × (r ≡ err (transport_error name))

module _ (w : World) where
  -- The requests that `left + 1` attempts have sent: from one to all of them the same request. Each
  -- but the last was answered by a transport error, the last by what is returned, which is a
  -- transport error only if all attempts were made.
  pub record IsDelivered (left : ℕ) (c : Call) (before : List Call) (r : Result Answer × Session)
      : Type 0 where
    pub resent : ℕ
    pub only_copies : r.1.sent ≡ copies (suc resent) c before
    pub at_most : resent ≤ left
    pub lost : (k : ℕ) → k < resent → IsLost (w.answer (length before + k) c)
    pub last : r.0 ≡ w.answer (length before + resent) c
    pub given_up : IsLost r.0 → resent ≡ left

  once :
      (left : ℕ) (c : Call) (s s' : Session)
      → s'.sent ≡ c ∷ s.sent
      → (IsLost (w.answer (length s.sent) c) → left ≡ 0)
      → IsDelivered left c s.sent (w.answer (length s.sent) c, s')
  once left c s s' sent last = record {
    resent = 0;
    only_copies = sent;
    at_most = omega arith;
    lost = λ k h. absurd (omega (arith, h));
    last = let e : length s.sent ≡ length s.sent + 0 = omega arith in ap (λ i. w.answer i c) e;
    given_up = λ e. omega (arith, last e);
  }

  IsLost-before :
      (n : ℕ) (c : Call) (sent : List Call)
      → IsLost (w.answer (length sent) c)
      → ((k : ℕ) → k < n → IsLost (w.answer (length (c ∷ sent) + k) c))
      → (k : ℕ) → k < suc n
      → IsLost (w.answer (length sent + k) c)
  IsLost-before n c sent first f zero h =
      let e : length sent ≡ length sent + 0 = omega arith in
      subst (λ i. IsLost (w.answer i c)) e first
  IsLost-before n c sent first f (suc k) h =
      let e : length (c ∷ sent) + k ≡ length sent + suc k = omega arith in
      subst (λ i. IsLost (w.answer i c)) e (f k (omega (arith, h)))

  once_more :
      (left : ℕ) (c : Call) (sent : List Call) (r : Result Answer × Session)
      → IsLost (w.answer (length sent) c)
      → IsDelivered left c (c ∷ sent) r
      → IsDelivered (suc left) c sent r
  once_more left c sent r first d = record {
    resent = suc d.resent;
    only_copies = d.only_copies ∙ copies-suc (suc d.resent) c sent;
    at_most = omega (arith, d.at_most);
    lost = IsLost-before d.resent c sent first d.lost;
    last =
        let e : length (c ∷ sent) + d.resent ≡ length sent + suc d.resent = omega arith in
        d.last ∙ ap (λ i. w.answer i c) e;
    given_up = λ e. omega (arith, d.given_up e);
  }

  -- An answer is lost, or ends the attempts.
  after_attempt-cases :
      (r : Result Answer)
      → IsLost r
        ⊎ ((¬ IsLost r)
            × ((s' : Session) (again : Result Answer × Session)
                → after_attempt r s' again ≡ (r, s')))
  unfolding after_attempt
  after_attempt-cases (err (transport_error name)) = inl (name, refl)
  after_attempt-cases (ok a) = inr ((λ h. cc (h.1)), (λ s' again. refl))
  after_attempt-cases (err (value_error m)) = inr ((λ h. cc (h.1)), (λ s' again. refl))
  after_attempt-cases (err (permission_error m)) = inr ((λ h. cc (h.1)), (λ s' again. refl))
  after_attempt-cases (err (runtime_error m)) = inr ((λ h. cc (h.1)), (λ s' again. refl))
  after_attempt-cases (err (http_status m)) = inr ((λ h. cc (h.1)), (λ s' again. refl))
  after_attempt-cases (err (other_error m)) = inr ((λ h. cc (h.1)), (λ s' again. refl))

  after_attempt-again :
      (r : Result Answer) (s' : Session) (again : Result Answer × Session)
      → IsLost r
      → after_attempt r s' again ≡ again
  unfolding after_attempt
  after_attempt-again r s' again h = rw (h.1) refl

  after_attempt-IsDelivered :
      (left : ℕ) (c : Call) (s s' : Session) (again : Result Answer × Session)
      → s'.sent ≡ c ∷ s.sent
      → IsDelivered left c (c ∷ s.sent) again
      → IsDelivered (suc left) c s.sent (after_attempt (w.answer (length s.sent) c) s' again)
  after_attempt-IsDelivered left c s s' again sent d =
      elim (after_attempt-cases (w.answer (length s.sent) c)) [
        | inl h ↦
            subst (IsDelivered (suc left) c s.sent)
              (sym (after_attempt-again (w.answer (length s.sent) c) s' again h))
              (once_more left c s.sent again h d)
        | inr h ↦
            subst (IsDelivered (suc left) c s.sent) (sym (h.1 s' again))
              (once (suc left) c s s' sent (λ e. absurd (h.0 e)))
      ]

  result_loop-IsDelivered :
      (left : ℕ) (request : Request) (s : Session)
      → IsDelivered left (stamp w request s) s.sent (result_loop w left request s)
  unfolding result_loop call_task
  result_loop-IsDelivered zero request s =
      once zero (stamp w request s) s (call_task w request s).1 refl (λ e. refl)
  result_loop-IsDelivered (suc left) request s =
      after_attempt-IsDelivered left (stamp w request s) s (call_task w request s).1
        (result_loop w left request (call_task w request s).1) refl
        (result_loop-IsDelivered left request (call_task w request s).1)

  -- A result is delivered by one request, sent again, the same callback id included, at most twice.
  -- Each request that is followed by another was answered by a transport error, what is returned or
  -- raised is the answer of the last, and a transport error is raised only after the third.
  pub send_result-IsDelivered :
      (status : String) (result manifest : Value) (callback_id : String) (s : Session)
      → IsDelivered 2
          (stamp w (report_result status result manifest callback_id) s)
          s.sent
          (send_result w status result manifest callback_id s)
  unfolding send_result
  send_result-IsDelivered status result manifest callback_id s =
      result_loop-IsDelivered 2 (report_result status result manifest callback_id) s
