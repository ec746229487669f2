-- ===== src/Queue/Worker/Examples.antt =====
-- The registrations of a worker at concrete calls.
use yet_another_go_boilerpla.Base.{pos, false, none, some, List, [], ◌∷◌, ◌≡◌, refl, lit, Holds}
use yet_another_go_boilerpla.Queue.Batch.Run.{Handler, returns}
use yet_another_go_boilerpla.Queue.Worker.Defs.{minute, new_worker, consumer}
use yet_another_go_boilerpla.Queue.Worker.Valid.{IsWorker}
use yet_another_go_boilerpla.Queue.Worker.Setup.{
  Setup, consumes, on, schedules, set_up, set_up-IsWorker,
}

abbrev idle : Handler (Unit {0})
idle timeout m h = (returns none, false, h)

abbrev cleanup : List (Setup (Unit {0}))
cleanup =
    consumes (lit "auth") (lit "worker")
    ∷ on (lit "auth") (lit "worker") (lit "auth.clean") minute (some idle)
    ∷ schedules (lit "auth") (lit "auth.clean") minute (pos 0)
    ∷ []

set_up-IsWorker_example : Holds IsWorker (set_up cleanup new_worker)
set_up-IsWorker_example = set_up-IsWorker cleanup

-- A second consumer of the same name is a panic.
second_consumer : set_up (consumes (lit "auth") (lit "worker") ∷ cleanup) new_worker ≡ none
unfolding set_up new_worker consumer yet_another_go_boilerpla.Queue.Names.Defs.valid_name
second_consumer = refl
