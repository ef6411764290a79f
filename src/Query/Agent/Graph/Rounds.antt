-- ===== src/Query/Agent/Graph/Rounds.antt =====
-- What the nodes of a round keep when they send their messages in turns.
use incident_desk.Prelude.{
  Keeps, Keeps-bind, Keeps-lift, Keeps-pure, Keeps-raise, List, Option, Result, [], err, none, ok,
  some, ℕ, ◌∷◌,
}
use incident_desk.Query.Agent.{Message, Trace, Update, tell}
use incident_desk.Query.Agent.Graph.{
  Branch, advanced, branch_at, finish_round, interleaved, resume, send_all, turn,
}

module _ (P : Trace → Type 0) (tell-Keeps : (e : Message) → Keeps P (tell e)) where
  resume-Keeps : (ms : List Message) (r : Result Update) → Keeps P (resume ms r)
  unfolding resume
  resume-Keeps (m ∷ ms) r = tell-Keeps m
  resume-Keeps [] (ok u) = Keeps-pure tt
  resume-Keeps [] (err e) = Keeps-raise e

  turn-Keeps : (b : Option Branch) → Keeps P (turn b)
  unfolding turn
  turn-Keeps none = Keeps-pure tt
  turn-Keeps (some b) = resume-Keeps b.messages b.result

  send_all-Keeps : (ms : List Message) → Keeps P (send_all ms)
  unfolding send_all
  send_all-Keeps [] = Keeps-pure tt
  send_all-Keeps (m ∷ ms) = Keeps-bind _ _ (tell-Keeps m) (λ u. send_all-Keeps ms)

  finish_round-Keeps : (bs : List Branch) → Keeps P (finish_round bs)
  unfolding finish_round
  finish_round-Keeps [] = Keeps-pure []
  finish_round-Keeps (b ∷ bs) = Keeps-bind _ _ (send_all-Keeps b.messages) λ v.
      Keeps-bind _ _ (Keeps-lift b.result)
        λ u. Keeps-bind _ _ (finish_round-Keeps bs) (λ us. Keeps-pure (u ∷ us))

  pub interleaved-Keeps : (ks : List ℕ) (bs : List Branch) → Keeps P (interleaved ks bs)
  unfolding interleaved
  interleaved-Keeps [] bs = finish_round-Keeps bs
  interleaved-Keeps (k ∷ ks) bs =
      Keeps-bind _ _ (turn-Keeps (branch_at k bs)) (λ u. interleaved-Keeps ks (advanced k bs))
