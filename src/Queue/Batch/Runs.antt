-- ===== src/Queue/Batch/Runs.antt =====
-- worker_batch.go: which runs of a batch count, and what happens after too many.
use yet_another_go_boilerpla.Base.{
  ℕ, suc, ℤ, pos, negsuc, add_one, sub_one, at_least, ◌≡◌, refl, ap, ◌∙◌, Bool, true, false, Option,
  some, List, [], ◌∷◌, arith, Outcome, ok, any, map, All, Text, length,
}
use yet_another_go_boilerpla.Queue.Batch.Message.{Message, HandlerError, unfinished, Result}
use yet_another_go_boilerpla.Queue.Batch.Backoff.{backoff}
use yet_another_go_boilerpla.Queue.Batch.Run.{
  Consumer, Batch, max_batch_runs, give_up, results_of, leave_open, conclude, open_batch,
  handle_batch, handled, handle_opened, runs_number,
}
use yet_another_go_boilerpla.Queue.Sql.World.{PgQue, Error, Tables, World}
use yet_another_go_boilerpla.Queue.Sql.Runs.{
  runs_of, upsert_runs, runs_of-uncount_count, runs_of-upsert,
}
use yet_another_go_boilerpla.Queue.Sql.Statements.{finish_batch}
use yet_another_go_boilerpla.Queue.Sql.Transactions.{calm}

module _ (pg : PgQue) (queue consumer : Text) (id : ℕ) where
  -- A batch of the consumer is open, and the next batch call gives it again.
  abbrev ComesBack : Tables pg.State → pg.State → Type 0
  ComesBack t q =
      (pg.current_batch t.queue queue consumer ≡ some id)
      × (pg.next_batch t.queue queue consumer ≡ some (q, some id))

  reopen :
      (t : Tables pg.State) (q : pg.State)
      → ComesBack t q
      → (open_batch pg queue consumer (calm t)).0
        ≡ ok (
            some (record {
              id = id;
              msgs = pg.batch_events q id;
              runs = runs_of id (upsert_runs add_one (pos 1) id t.runs);
            }))
  unfolding open_batch
  reopen t q h = ground arith

at_least_next : (k : ℕ) (z : ℤ) → at_least k z ≡ true → at_least (suc k) (add_one z) ≡ true
at_least_next k (pos n) h = ground arith
at_least_next k (negsuc n) h = cc

pub give_up-unstopped :
    (rand_n : Message → ℕ → ℕ) (runs : ℕ) (msgs : List Message)
    → any (λ r. r.stopped) (give_up rand_n runs msgs) ≡ false
unfolding give_up
give_up-unstopped rand_n runs [] = refl
give_up-unstopped rand_n runs (m ∷ msgs) = give_up-unstopped rand_n runs msgs

-- The result of a message that no handler got: it failed, since its batch did not finish in `runs`
-- runs, and waits for the delay of its own retries; neither stopped nor final.
abbrev pub IsRetry : (Message → ℕ → ℕ) → ℕ → Result → Type 0
IsRetry rand_n runs r =
    (r.err ≡ some (unfinished runs))
    × (r.delay ≡ backoff (rand_n r.msg) r.msg.retries)
    × (r.stopped ≡ false)
    × (r.dead ≡ false)

-- One such result for each message, in their order.
abbrev pub AreRetries : (Message → ℕ → ℕ) → ℕ → List Message → List Result → Type 0
AreRetries rand_n runs msgs rs = (map (λ r. r.msg) rs ≡ msgs) × All (IsRetry rand_n runs) rs

give_up-AreRetries :
    (rand_n : Message → ℕ → ℕ) (runs : ℕ) (msgs : List Message)
    → AreRetries rand_n runs msgs (give_up rand_n runs msgs)
unfolding give_up
give_up-AreRetries rand_n runs [] = (refl, tt)
give_up-AreRetries rand_n runs (m ∷ msgs) =
    let (same, retries) = give_up-AreRetries rand_n runs msgs in
    (ap (◌∷◌ m) same, ((refl, refl, refl, refl), retries))

-- What openBatch returns for a batch.
abbrev pub opened_batch : ℕ → List Message → ℤ → Outcome Error (Option Batch)
opened_batch id msgs runs = ok (some (record { id = id; msgs = msgs; runs = runs }))

module _ (pg : PgQue) {H : Type 0} (text : HandlerError → Text) (rand_n : Message → ℕ → ℕ) where
  conclude_stopped :
      (c : Consumer H) (b : Batch) (rs : List Result) (t : Tables pg.State)
      → any (λ r. r.stopped) rs ≡ true
      → (conclude pg text rand_n c b rs (calm t)).1
        ≡ calm (record t { runs = upsert_runs sub_one (negsuc 0) b.id t.runs })
  unfolding conclude leave_open
  conclude_stopped c b rs t h = ground arith

  -- Let a batch be open that the next batch call gives again, and no statement fail. If its run
  -- ends in handleBatch with a stopped message, the next openBatch gives the runs that the table held
  -- before; if the run ends in a crash, the next openBatch gives one more.
  pub conclude_stopped-open_batch :
      (c : Consumer H) (b : Batch) (rs : List Result) (t : Tables pg.State) (q : pg.State)
      → pg.current_batch t.queue c.queue c.name ≡ some b.id
      → pg.next_batch t.queue c.queue c.name ≡ some (q, some b.id)
      → any (λ r. r.stopped) rs ≡ true
      → ((open_batch pg c.queue c.name (conclude pg text rand_n c b rs (calm t)).1).0
          ≡ opened_batch b.id (pg.batch_events q b.id) (runs_of b.id t.runs))
        × ((open_batch pg c.queue c.name (calm t)).0
            ≡ opened_batch b.id (pg.batch_events q b.id) (add_one (runs_of b.id t.runs)))
  conclude_stopped-open_batch c b rs t q opened back stopped = (
    rw (conclude_stopped c b rs t stopped) (
        reopen pg c.queue c.name b.id
          (record t { runs = upsert_runs sub_one (negsuc 0) b.id t.runs }) q (opened, back)
        ∙ ap (opened_batch b.id (pg.batch_events q b.id)) (runs_of-uncount_count b.id t.runs)),
    reopen pg c.queue c.name b.id t q (opened, back)
        ∙ ap (opened_batch b.id (pg.batch_events q b.id)) (runs_of-upsert add_one b.id t.runs),
  )

  opened_gives_up :
      (c : Consumer H) (ended : Bool) (id : ℕ) (msgs : List Message) (runs : ℤ) (h : H)
      (w : World pg.State)
      → at_least max_batch_runs runs ≡ true
      → let (r, w') =
          finish_batch pg text c.queue c.name id (give_up rand_n (runs_number runs) msgs) w in
        handle_opened pg text rand_n c ended h (opened_batch id msgs runs) w
        ≡ (handled (length msgs) r, w', h)
  unfolding results_of conclude
  opened_gives_up c ended id msgs runs h w many =
      rw (many, give_up-unstopped rand_n (runs_number runs) msgs)

  -- Let a batch be open that the next batch call gives again, no statement of openBatch fail, and
  -- the table hold at least `max_batch_runs - 1` runs of it. Then handleBatch runs no handler (the
  -- state of the handlers stays), and finishes the batch with one result for each message, in their
  -- order: an error that counts the runs, which is not final, and the delay of the retries of the
  -- message.
  pub handle_batch_gives_up :
      (c : Consumer H) (ended : Bool) (id : ℕ) (t : Tables pg.State) (q : pg.State) (h : H)
      → pg.current_batch t.queue c.queue c.name ≡ some id
      → pg.next_batch t.queue c.queue c.name ≡ some (q, some id)
      → at_least 2 (runs_of id t.runs) ≡ true
      → (rs : List Result) × AreRetries rand_n
          (runs_number (add_one (runs_of id t.runs)))
          (pg.batch_events q id)
          rs
        × (let w = (open_batch pg c.queue c.name (calm t)).1 in
            let (r, w') = finish_batch pg text c.queue c.name id rs w in
            handle_batch pg text rand_n c ended (calm t) h
            ≡ (handled (length (pg.batch_events q id)) r, w', h))
  unfolding handle_batch
  handle_batch_gives_up c ended id t q h opened back runs = (
    give_up rand_n (runs_number (add_one (runs_of id t.runs))) (pg.batch_events q id),
    give_up-AreRetries rand_n (runs_number (add_one (runs_of id t.runs))) (pg.batch_events q id),
    ap (λ o. handle_opened pg text rand_n c ended h o (open_batch pg c.queue c.name (calm t)).1)
          (reopen pg c.queue c.name id t q (opened, back)
            ∙ ap (opened_batch id (pg.batch_events q id)) (runs_of-upsert add_one id t.runs))
        ∙ opened_gives_up c ended id (pg.batch_events q id) (add_one (runs_of id t.runs)) h
            (open_batch pg c.queue c.name (calm t)).1 (at_least_next 2 (runs_of id t.runs) runs),
  )
