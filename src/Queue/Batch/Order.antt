-- ===== src/Queue/Batch/Order.antt =====
-- worker_batch.go: the results of runAll, for every behaviour of the handlers.
use mathlib.Core.Path.{ap₂}
use yet_another_go_boilerpla.Base.{
  ℕ, ◌≡◌, refl, ap, Bool, true, false, Option, none, some, List, [], ◌∷◌, map, arith, All,
}
use yet_another_go_boilerpla.Queue.Batch.Message.{Message, HandlerError, Result, failed}
use yet_another_go_boilerpla.Queue.Batch.Run.{Consumer, run_handler, run_all, skipped, result_of}

-- No message that the worker stopped has a message after it that it did not stop.
abbrev pub IsStoppedTail : List Result → Type 0
IsStoppedTail [] = Unit
IsStoppedTail (r ∷ rs) = (r.stopped ≡ true → All (λ s. s.stopped ≡ true) rs) × IsStoppedTail rs

-- A stopped message failed.
abbrev pub StoppedFails : Result → Type 0
StoppedFails r = r.stopped ≡ true → failed r ≡ true

run_all_ended :
    {H : Type 0} (rand_n : Message → ℕ → ℕ) (c : Consumer H) (msgs : List Message) (h : H)
    → run_all rand_n c true msgs h ≡ (map skipped msgs, h)
unfolding run_all
run_all_ended rand_n c [] h = refl
run_all_ended rand_n c (m ∷ msgs) h = ground (arith, run_all_ended rand_n c msgs h)

skipped-IsStoppedTail :
    (msgs : List Message)
    → All (λ s. s.stopped ≡ true) (map skipped msgs) × IsStoppedTail (map skipped msgs)
skipped-IsStoppedTail [] = (tt, tt)
skipped-IsStoppedTail (m ∷ msgs) =
    let (a, t) = skipped-IsStoppedTail msgs in ((refl, a), ((λ _. a), t))

-- The results of a part of a batch: one for each message, in order; once stopped, always stopped;
-- and failed where stopped.
abbrev pub AreResultsOf : List Message → List Result → Type 0
AreResultsOf msgs rs = (map (λ r. r.msg) rs ≡ msgs) × IsStoppedTail rs × All StoppedFails rs

skipped-AreResultsOf : (msgs : List Message) → AreResultsOf msgs (map skipped msgs)
skipped-AreResultsOf [] = (refl, tt, tt)
skipped-AreResultsOf (m ∷ msgs) =
    let (same, tail, fail) = skipped-AreResultsOf msgs in
    (ap (◌∷◌ m) same, ((λ _. (skipped-IsStoppedTail msgs).0), tail), ((λ _. refl), fail))

result_of_facts :
    (rand_n : Message → ℕ → ℕ) (m : Message) (e : Option HandlerError) (ended : Bool)
    → let r = result_of rand_n m e ended in
      (r.msg ≡ m) × (r.stopped ≡ true → ended ≡ true) × StoppedFails r
result_of_facts rand_n m none ended = (refl, (λ h. cc), λ h. cc)
result_of_facts rand_n m (some e) ended = (refl, (λ h. h), λ h. refl)

-- Whatever the handlers do, runAll gives one result for each message, in their order; after the
-- first message that it stopped or skipped it stopped or skipped all; and those have an error.
pub run_all-AreResultsOf :
    {H : Type 0} (rand_n : Message → ℕ → ℕ) (c : Consumer H) (ended : Bool) (msgs : List Message)
    (h : H)
    → AreResultsOf msgs (run_all rand_n c ended msgs h).0
unfolding run_all
run_all-AreResultsOf rand_n c true msgs h = rw run_all_ended (skipped-AreResultsOf msgs)
run_all-AreResultsOf rand_n c false [] h = (refl, tt, tt)
run_all-AreResultsOf {H} rand_n c false (m ∷ msgs) h =
    let step = run_handler c m h in
    let (is, stops, fails) = result_of_facts rand_n m step.0 step.1 in
    let (same, tail, fail) = run_all-AreResultsOf rand_n c step.1 msgs step.2 in
    (ap₂ ◌∷◌ is same, ((λ s. rest (stops s)), tail), (fails, fail))
  where
    rest :
        (run_handler c m h).1 ≡ true
        → All
            (λ s. s.stopped ≡ true)
            (run_all rand_n c (run_handler c m h).1 msgs (run_handler c m h).2).0
    rest e = rw (e, run_all_ended) (skipped-IsStoppedTail msgs).0
