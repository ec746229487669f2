-- ===== src/Queue/Batch/Run.antt =====
-- internal/platform/queue/worker_batch.go: from the next batch to its results. A handler works on a
-- state `H` of its own. It reports what it returned, and whether its context had ended by then: the
-- context of the handlers, once ended, stays so.
use yet_another_go_boilerpla.Base.{
  ℕ, ℤ, pos, at_least, Bool, true, false, Option, none, some, List, [], ◌∷◌, Outcome, ok, err, ◌==◌,
  if◌then◌else◌, length, any, Text, Dict, lookup,
}
use yet_another_go_boilerpla.Queue.Batch.Message.{
  Message, HandlerError, no_handler, unfinished, context_ended, panicked, Result,
}
use yet_another_go_boilerpla.Queue.Batch.Backoff.{backoff}
use yet_another_go_boilerpla.Queue.Sql.World.{PgQue, Error, World, Sql, ◌>>=◌, return}
use yet_another_go_boilerpla.Queue.Sql.Statements.{
  current_batch, count_run, uncount_run, next_batch, batch_messages, finish_batch,
}

abbrev pub max_batch_runs : ℕ
max_batch_runs = 3

pub data Return : Type 0 where
  returns : Option HandlerError → Return
  panics : Text → Return

-- A handler gets its timeout and the message.
abbrev pub Handler : Type 0 → Type 0
Handler H = ℕ → Message → H → Return × Bool × H

pub record Registration (H : Type 0) : Type 0 where
  pub handler : Handler H
  pub timeout : ℕ

pub record Consumer (H : Type 0) : Type 0 where
  pub queue : Text
  pub name : Text
  pub handlers : Dict (Registration H)

pub record Batch : Type 0 where
  pub id : ℕ
  pub msgs : List Message
  pub runs : ℤ

-- The recovery of a panic in runHandler.
abbrev pub error_of : Return → Option HandlerError
error_of (returns e) = e
error_of (panics v) = some (panicked v)

-- The loop of runAll writes this result for a message that it skips.
abbrev pub skipped : Message → Result
skipped msg = record {
  msg = msg;
  err = some context_ended;
  delay = 0;
  stopped = true;
  dead = false;
}

-- The result of a message whose handler ran. `rand_n` stands for rand.N at this message.
abbrev pub result_of : (Message → ℕ → ℕ) → Message → Option HandlerError → Bool → Result
result_of rand_n msg none ended = record {
  msg = msg;
  err = none;
  delay = 0;
  stopped = false;
  dead = false;
}
result_of rand_n msg (some e) ended = record {
  msg = msg;
  err = some e;
  delay = backoff (rand_n msg) msg.retries;
  stopped = ended;
  dead = false;
}

module _ {H : Type 0} where
  -- runHandler: the error, whether the context has ended, and the state
  unfoldable pub run_handler : Consumer H → Message → H → Option HandlerError × Bool × H
  run_handler c msg h = elim (lookup msg.typ c.handlers) [
    | none ↦ (some (no_handler msg.typ), false, h)
    | some reg ↦ let (r, ended, h') = reg.handler reg.timeout msg h in (error_of r, ended, h')
  ]

  -- runAll, from a point of its loop where the context has ended or not
  unfoldable pub run_all :
      (Message → ℕ → ℕ) → Consumer H → Bool → List Message → H → List Result × H
  unfolding run_handler
  run_all rand_n c ended [] h = ([], h)
  run_all rand_n c true (msg ∷ msgs) h =
      let (rs, h') = run_all rand_n c true msgs h in (skipped msg ∷ rs, h')
  run_all rand_n c false (msg ∷ msgs) h =
      let (e, ended, h') = run_handler c msg h in
      let (rs, h'') = run_all rand_n c ended msgs h' in (result_of rand_n msg e ended ∷ rs, h'')

-- giveUp
unfoldable pub give_up : (Message → ℕ → ℕ) → ℕ → List Message → List Result
give_up rand_n runs [] = []
give_up rand_n runs (msg ∷ msgs) =
    record {
      msg = msg;
      err = some (unfinished runs);
      delay = backoff (rand_n msg) msg.retries;
      stopped = false;
      dead = false;
    }
    ∷ give_up rand_n runs msgs

-- `wasOpen && open == id`
abbrev pub reopened : Option ℕ → ℕ → Bool
reopened none id = false
reopened (some open_id) id = open_id == id

abbrev pub runs_number : ℤ → ℕ
runs_number (pos n) = n
runs_number z = 0

-- What handleBatch returns: the number of messages, whether it found a batch, and its error.
pub record Handled : Type 0 where
  pub count : ℕ
  pub found : Bool
  pub error : Option Error

abbrev pub handled : ℕ → Outcome Error (List Result) → Handled
handled n (ok rs) = record { count = n; found = true; error = none }
handled n (err e) = record { count = n; found = true; error = some e }

module _ (pg : PgQue) where
  open pg use {State}

  -- The part of openBatch after nextBatch.
  unfoldable pub load_batch : Option ℕ → Option ℕ → Sql State (Option Batch)
  unfolding count_run batch_messages
  load_batch before none = return none
  load_batch before (some id) = do
    runs ← (if reopened before id then count_run pg id else return (pos 0))
    msgs ← batch_messages pg id
    return (some (record { id = id; msgs = msgs; runs = runs }))

  -- openBatch
  unfoldable pub open_batch : Text → Text → Sql State (Option Batch)
  unfolding current_batch next_batch load_batch
  open_batch queue consumer = do
    before ← current_batch pg queue consumer
    id ← next_batch pg queue consumer
    load_batch before id

  -- leaveOpen; its error is only logged
  unfoldable pub leave_open : Batch → World State → World State
  unfolding uncount_run
  leave_open b w = (uncount_run pg b.id w).1

  module _ {H : Type 0} (text : HandlerError → Text) (rand_n : Message → ℕ → ℕ) where
    -- The results of a batch: of its handlers, or without them after too many runs.
    unfoldable pub results_of : Consumer H → Bool → Batch → H → List Result × H
    results_of c ended b h =
        if at_least max_batch_runs b.runs
        then (give_up rand_n (runs_number b.runs) b.msgs, h)
        else run_all rand_n c ended b.msgs h

    -- handleBatch after its results: the batch stays open if the worker stopped a message of it.
    unfoldable pub conclude : Consumer H → Batch → List Result → World State → Handled × World State
    conclude c b results w =
        if any (λ r. r.stopped) results
        then (record { count = length b.msgs; found = true; error = none }, leave_open b w)
        else let (r, w') = finish_batch pg text c.queue c.name b.id results w in
          (handled (length b.msgs) r, w')

    abbrev pub handle_opened :
        Consumer H
        → Bool
        → H
        → Outcome Error (Option Batch)
        → World State
        → Handled × World State × H
    handle_opened c ended h (err e) w = (record { count = 0; found = false; error = some e }, w, h)
    handle_opened c ended h (ok none) w = (record { count = 0; found = false; error = none }, w, h)
    handle_opened c ended h (ok (some b)) w =
        let (results, h') = results_of c ended b h in
        let (r, w') = conclude c b results w in (r, w', h')

    -- handleBatch; `ended` says whether the context of the handlers has ended when they start. An
    -- error of openBatch comes with `found` unread by every caller.
    unfoldable pub handle_batch : Consumer H → Bool → World State → H → Handled × World State × H
    handle_batch c ended w h =
        handle_opened c ended h (open_batch c.queue c.name w).0 (open_batch c.queue c.name w).1
