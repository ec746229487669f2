-- ===== src/Queue/Worker/Setup.antt =====
-- The registrations of a worker (worker.go), in any order.
use yet_another_go_boilerpla.Base.{
  ℕ, inl, inr, ℤ, Option, none, some, List, [], ◌∷◌, Text, Option-cases, Holds,
}
use yet_another_go_boilerpla.Queue.Batch.Run.{Handler, Consumer}
use yet_another_go_boilerpla.Queue.Worker.Defs.{
  Worker, new_worker, consumer, handle, handle_in, with_consumers, handle_on, schedule,
}
use yet_another_go_boilerpla.Queue.Worker.Valid.{IsWorker, consumer-IsWorker, schedule-IsWorker}
use yet_another_go_boilerpla.Queue.Worker.Grown.{
  handle-IsGrown, AreGrown, handle_in-AreGrown, grown-IsWorker,
}

pub with_consumers-IsWorker :
    {H : Type 0} (w : Worker H) (o : Option (List (Consumer H)))
    → IsWorker w
    → Holds (AreGrown w.consumers) o
    → Holds IsWorker (with_consumers w o)
with_consumers-IsWorker w none v g = tt
with_consumers-IsWorker w (some ds) v g = grown-IsWorker w ds g v

pub handle_on-IsWorker :
    {H : Type 0} (queue name typ : Text) (timeout : ℕ) (o : Option (Handler H)) (w : Worker H)
    → IsWorker w
    → Holds IsWorker (handle_on queue name typ timeout o w)
unfolding handle_on
handle_on-IsWorker queue name typ timeout o w v =
    with_consumers-IsWorker w (handle_in queue name (handle typ timeout o) w.consumers) v (
      handle_in-AreGrown queue name (handle typ timeout o) w.consumers
        (handle-IsGrown typ timeout o))

-- The calls by which a worker is set up.
pub data Setup (H : Type 0) : Type 0 where
  consumes : Text → Text → Setup H
  on : Text → Text → Text → ℕ → Option (Handler H) → Setup H
  schedules : Text → Text → ℕ → ℤ → Setup H

abbrev pub apply : {H : Type 0} → Setup H → Worker H → Option (Worker H)
apply (consumes queue name) w = consumer queue name w
apply (on queue name typ timeout h) w = handle_on queue name typ timeout h w
apply (schedules queue typ every offset) w = schedule queue typ every offset w

-- The calls in order, up to a panic.
unfoldable pub set_up : {H : Type 0} → List (Setup H) → Worker H → Option (Worker H)
set_up [] w = some w
set_up (s ∷ ss) w = elim (apply s w) [ none ↦ none | some w' ↦ set_up ss w' ]

pub apply-IsWorker :
    {H : Type 0} (s : Setup H) (w : Worker H) → IsWorker w → Holds IsWorker (apply s w)
apply-IsWorker (consumes queue name) w v = consumer-IsWorker queue name w v
apply-IsWorker (on queue name typ timeout h) w v = handle_on-IsWorker queue name typ timeout h w v
apply-IsWorker (schedules queue typ every offset) w v = schedule-IsWorker queue typ every offset w v

pub new_worker-IsWorker : {H : Type 0} → IsWorker {H = H} new_worker
unfolding new_worker
new_worker-IsWorker = record {
  consumers_valid = tt;
  consumers_distinct = tt;
  schedules_valid = tt;
  types_distinct = tt;
}

pub set_up_from :
    {H : Type 0} (ss : List (Setup H)) (w : Worker H) → IsWorker w → Holds IsWorker (set_up ss w)
unfolding set_up
set_up_from [] w v = v
set_up_from (s ∷ ss) w v = elim (Option-cases (apply s w)) [
  | inl e ↦ rw (e, set_up) tt
  | inr (w', e) ↦ rw (e, set_up) (set_up_from ss w' (rw e at (apply-IsWorker s w v)))
]

-- After any calls of Consumer, Handle and Schedule on a new worker that do not panic: the names are
-- valid; no two consumers have the same queue and name; every handler has a valid type of its own
-- and a positive timeout; every schedule has a handler for its type on its queue, an interval of at
-- least a minute, and an offset below its interval; and no two schedules have the same type.
pub set_up-IsWorker :
    {H : Type 0} (ss : List (Setup H)) → Holds IsWorker (set_up ss (new_worker {H = H}))
set_up-IsWorker ss = set_up_from ss new_worker new_worker-IsWorker
