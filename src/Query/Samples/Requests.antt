-- ===== src/Query/Samples/Requests.antt =====
-- A call with two items and one slot, cancelled while the first request is on its way.
use incident_desk.Prelude.{List, String, [], refl, ◌∷◌, ◌≤◌}
use incident_desk.Query.Retrieval.Requests.{
  IsLimited, Pool, Progresses, begins, cancelled, drops_running, drops_waiting, ends, enters,
  goes_on, here, leaves, over, pool, there,
}
use incident_desk.Query.Retrieval.Requests.Limits.{GoesOn, Progresses-IsLimited, steps}

abbrev two : List String
two = "gmv" ∷ "aov" ∷ []

abbrev two_cancelled : Pool String
two_cancelled = pool over (cancelled "gmv" ∷ cancelled "aov" ∷ []) 1

cancelled_run : Progresses 1 two two_cancelled
cancelled_run =
    goes_on
      (goes_on
        (goes_on (goes_on (goes_on begins (enters {x = "gmv"} here)) leaves)
          (drops_running {x = "gmv"} here))
        (drops_waiting {x = "aov"} (there here)))
      (ends refl)

Progresses-IsLimited_example :
    IsLimited 1 two two_cancelled × GoesOn two_cancelled × (steps cancelled_run ≤ 6)
Progresses-IsLimited_example = Progresses-IsLimited 1 two two_cancelled cancelled_run
