-- ===== src/Queue/Sql/Statements.antt =====
-- internal/platform/queue/postgres.go: one function for each statement on the batches, with the
-- errors that each can return.
use yet_another_go_boilerpla.Base.{
  ℕ, suc, ℤ, pos, negsuc, add_one, sub_one, Bool, true, Option, none, some, List, [], ◌∷◌, ok, err,
  ◌==◌, if◌then◌else◌, leb, length, any, Text,
}
use yet_another_go_boilerpla.Queue.Names.Defs.{error_text}
use yet_another_go_boilerpla.Queue.Batch.Message.{
  Message, HandlerError, is_permanent, Result, failed,
}
use yet_another_go_boilerpla.Queue.Sql.World.{
  PgQue, sql_error, no_row, not_in_batch, not_open, Sql, ◌>>=◌, ◌>>◌, return, fail, statement,
  begin_func,
}
use yet_another_go_boilerpla.Queue.Sql.Runs.{upsert_runs, runs_of, delete_runs}

abbrev pub default_max_retries : ℕ
default_max_retries = 5

-- The failed messages of a batch, one array for each column.
pub record Failures : Type 0 where
  pub ids : List ℕ
  pub delays : List ℕ
  pub reasons : List Text
  pub dead : List Bool

abbrev pub no_failures : Failures
no_failures = record { ids = []; delays = []; reasons = []; dead = [] }

abbrev pub gives_up : ℕ → Message → HandlerError → Bool
gives_up max_retries msg e = if is_permanent e then true else leb max_retries msg.retries

-- `text` is the method Error of the errors, the formatting of package fmt.
module _ (text : HandlerError → Text) where
  abbrev pub collect_one :
      ℕ → Result → Option HandlerError → Failures × List Result → Failures × List Result
  collect_one max_retries r none (f, rs) = (f, r ∷ rs)
  collect_one max_retries r (some e) (f, rs) =
      let dead = gives_up max_retries r.msg e in
      (
        record {
          ids = r.msg.id ∷ f.ids;
          delays = r.delay ∷ f.delays;
          reasons = error_text (text e) ∷ f.reasons;
          dead = dead ∷ f.dead;
        },
        record r { dead = dead } ∷ rs,
      )

  -- collectFailures: the failed messages, and the results with their `dead` fields
  unfoldable pub collect_failures : List Result → ℕ → Failures × List Result
  collect_failures [] max_retries = (no_failures, [])
  collect_failures (r ∷ rs) max_retries =
      collect_one max_retries r r.err (collect_failures rs max_retries)

-- One row of unnest(ids, delays, reasons, dead).
pub record FailedRow : Type 0 where
  pub id : ℕ
  pub delay : ℕ
  pub reason : Text
  pub dead : Bool

-- The arrays of `Failures` are equally long.
unfoldable pub unnest : List ℕ → List ℕ → List Text → List Bool → List FailedRow
unnest (i ∷ is) (d ∷ ds) (r ∷ rs) (b ∷ bs) =
    record { id = i; delay = d; reason = r; dead = b } ∷ unnest is ds rs bs
unnest _ _ _ _ = []

module _ (pg : PgQue) where
  open pg use {State}

  -- currentBatch. `id` is nil after every error of Scan, so the test `id == nil` comes first and the
  -- function returns no error at all.
  unfoldable pub current_batch : Text → Text → Sql State (Option ℕ)
  unfolding statement
  current_batch queue consumer w =
      let (r, w') = statement (λ t. (ok (pg.current_batch t.queue queue consumer), t)) w in
      elim r [ ok id ↦ (ok id, w') | err e ↦ (ok none, w') ]

  -- countRun
  unfoldable pub count_run : ℕ → Sql State ℤ
  unfolding statement
  count_run batch = statement λ t.
      let runs = upsert_runs add_one (pos 1) batch t.runs in
      (ok (runs_of batch runs), record t { runs = runs })

  -- uncountRun
  unfoldable pub uncount_run : ℕ → Sql State (Unit {0})
  unfolding statement
  uncount_run batch =
      statement λ t. (ok tt, record t { runs = upsert_runs sub_one (negsuc 0) batch t.runs })

  -- nextBatch
  unfoldable pub next_batch : Text → Text → Sql State (Option ℕ)
  unfolding statement
  next_batch queue consumer = statement λ t. elim (pg.next_batch t.queue queue consumer) [
    | none ↦ (err sql_error, t)
    | some (q, id) ↦ (ok id, record t { queue = q })
  ]

  -- batchMessages
  unfoldable pub batch_messages : ℕ → Sql State (List Message)
  unfolding statement
  batch_messages batch = statement λ t. (ok (pg.batch_events t.queue batch), t)

  -- The CASE of storeFailures at one row of the join.
  abbrev pub store_event : Text → Text → ℕ → FailedRow → Message → State → State
  store_event queue consumer batch row e q =
      if row.dead
      then pg.event_dead q batch e row.reason
      else pg.event_retry q queue consumer row.delay (suc e.retries) e

  -- One failed row joined with the events of the batch: the new state, and the rows of the join.
  unfoldable pub join_row : Text → Text → ℕ → FailedRow → List Message → State × ℕ → State × ℕ
  join_row queue consumer batch row [] acc = acc
  join_row queue consumer batch row (e ∷ es) acc =
      join_row queue consumer batch row es
        (if e.id == row.id then (store_event queue consumer batch row e acc.0, suc acc.1) else acc)

  unfoldable pub join_rows : Text → Text → ℕ → List FailedRow → List Message → State × ℕ → State × ℕ
  unfolding join_row
  join_rows queue consumer batch [] es acc = acc
  join_rows queue consumer batch (row ∷ rows) es acc =
      join_rows queue consumer batch rows es (join_row queue consumer batch row es acc)

  -- The statement of storeFailures, and the test on the rows that it affects.
  unfoldable pub exec_failures : Text → Text → ℕ → Failures → Sql State (Unit {0})
  unfolding statement join_rows unnest
  exec_failures queue consumer batch f = do
    n ← statement λ t.
        let (q, n) =
          join_rows queue consumer batch (unnest f.ids f.delays f.reasons f.dead)
            (pg.batch_events t.queue batch) (t.queue, 0) in
        (ok n, record t { queue = q })
    if n == length f.ids then return tt else fail not_in_batch

  -- The query for the retry limit in storeFailures.
  unfoldable pub read_max_retries : Text → Sql State ℕ
  unfolding statement
  read_max_retries queue = statement λ t. elim (pg.queue_max_retries t.queue queue) [
    | none ↦ (err no_row, t)
    | some none ↦ (ok default_max_retries, t)
    | some (some n) ↦ (ok n, t)
  ]

  -- storeFailures: the results, with their `dead` fields
  unfoldable pub store_failures :
      (HandlerError → Text) → Text → Text → ℕ → List Result → Sql State (List Result)
  store_failures text queue consumer batch results =
      if any failed results
      then (do
        max_retries ← read_max_retries queue
        exec_failures queue consumer batch (collect_failures text results max_retries).0
        return (collect_failures text results max_retries).1)
      else return results

  -- The last statements of finishBatch: the run count goes away, and the batch closes.
  unfoldable pub close_batch : ℕ → Sql State (Unit {0})
  unfolding statement
  close_batch batch = do
    statement λ t. (ok tt, record t { runs = delete_runs batch t.runs })
    finished ← statement λ t. let (q, n) = pg.ack t.queue batch in (ok n, record t { queue = q })
    if finished == 1 then return tt else fail not_open

  -- The body of the transaction of finishBatch.
  unfoldable pub finish_body :
      (HandlerError → Text) → Text → Text → ℕ → List Result → Sql State (List Result)
  finish_body text queue consumer batch results = do
    stored ← store_failures text queue consumer batch results
    close_batch batch
    return stored

  -- finishBatch
  unfoldable pub finish_batch :
      (HandlerError → Text) → Text → Text → ℕ → List Result → Sql State (List Result)
  unfolding begin_func finish_body
  finish_batch text queue consumer batch results =
      begin_func (finish_body text queue consumer batch results)
