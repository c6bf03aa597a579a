-- ===== src/Service/Scm/Stopped.antt =====
-- core/cmd/caelo-service/service_windows.go: what Execute does with any sequence of requests.
use caelo.Base.{Bool, true, false, List, [], ◌∷◌, ◌++◌, map, ◌≡◌, refl, ap}
use caelo.Base.Text.{codes}
use caelo.Service.Scm.{
  State, start_pending, stop_pending, running, Request, interrogate, stop, shutdown, other_request,
  Action, report, start_work, stop_everything, answer, execute,
}

-- The states that are asked for before the service is told to stop.
abbrev pub asked_for : List Request → List State
asked_for [] = []
asked_for (interrogate current ∷ requests) = current ∷ asked_for requests
asked_for (stop ∷ requests) = []
asked_for (shutdown ∷ requests) = []
asked_for (other_request ∷ requests) = asked_for requests

abbrev pub is_told : List Request → Bool
is_told [] = false
is_told (stop ∷ requests) = true
is_told (shutdown ∷ requests) = true
is_told (_ ∷ requests) = is_told requests

abbrev pub ending : Bool → List Action
ending true = report stop_pending ∷ stop_everything (codes "the service was stopped") ∷ []
ending false = []

answer-eq :
    (requests : List Request)
    → answer requests ≡ map report (asked_for requests) ++ ending (is_told requests)
unfolding answer
answer-eq [] = refl
answer-eq (interrogate current ∷ requests) = ap (λ l. report current ∷ l) (answer-eq requests)
answer-eq (stop ∷ requests) = refl
answer-eq (shutdown ∷ requests) = refl
answer-eq (other_request ∷ requests) = answer-eq requests

-- Whatever is requested, in whatever order: Execute reports that the service starts, sets the work
-- going, reports that it runs, and answers what it is asked. If it is told to stop or to shut down,
-- it then reports that it stops, stops everything once, and does nothing more.
pub execute-eq :
    (requests : List Request)
    → execute requests
      ≡ report start_pending ∷ start_work ∷ report running ∷ map report (asked_for requests)
        ++ ending (is_told requests)
unfolding execute
execute-eq requests =
    ap (λ l. report start_pending ∷ start_work ∷ report running ∷ l) (answer-eq requests)
