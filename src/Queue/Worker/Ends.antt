-- ===== src/Queue/Worker/Ends.antt =====
-- internal/platform/queue/worker.go: RunDue ends, since each batch that it handles closes.
use yet_another_go_boilerpla.Base.{
  ℕ, pos, zero, suc, ◌+◌, ◌≤◌, ◌<◌, ◌≡◌, refl, inl, inr, Bool, true, false, Option, none, some,
  List, [], ◌∷◌, All, arith, Outcome, ok, err, Bool-cases, Option-cases, if◌then◌else◌, any,
  at_least, Text, lookup,
}
use yet_another_go_boilerpla.Queue.Batch.Message.{Message, HandlerError, Result}
use yet_another_go_boilerpla.Queue.Batch.Run.{
  Consumer, Registration, Batch, max_batch_runs, run_handler, run_all, load_batch, open_batch,
  handle_batch, handle_opened, conclude, results_of, runs_number, result_of, reopened,
}
use yet_another_go_boilerpla.Queue.Batch.Runs.{give_up-unstopped}
use yet_another_go_boilerpla.Queue.Sql.World.{PgQue, Error, World, return}
use yet_another_go_boilerpla.Queue.Sql.Statements.{
  current_batch, count_run, next_batch, batch_messages, finish_batch,
}
use yet_another_go_boilerpla.Queue.Sql.Transactions.{Outcome-cases}
use yet_another_go_boilerpla.Queue.Schedule.Defs.{Schedule}
use yet_another_go_boilerpla.Queue.Worker.Defs.{Worker}
use yet_another_go_boilerpla.Queue.Worker.Due.{
  Due, run_consumer, run_consumers, end_pass, go_on, run_prepared, prepare_due, run_due,
}
use yet_another_go_boilerpla.Queue.Worker.Spends.{
  Counts, Spends, statement-keeps, if-Spends, bind-Spends, return-Spends, finish_batch-Spends,
}

-- No handler of the consumer sees the end of its context.
abbrev pub Lasts : {H : Type 0} → Consumer H → Type 0
Lasts {H} c =
    (typ : Text) (reg : Registration H)
    → lookup typ c.handlers ≡ some reg
    → (m : Message) (h : H) → (reg.handler reg.timeout m h).1 ≡ false

result_of-unstopped :
    (rand_n : Message → ℕ → ℕ) (m : Message) (e : Option HandlerError)
    → (result_of rand_n m e false).stopped ≡ false
result_of-unstopped rand_n m none = refl
result_of-unstopped rand_n m (some e) = refl

module _ {H : Type 0} where
  run_handler-Lasts :
      (c : Consumer H) (m : Message) (h : H) → Lasts c → (run_handler c m h).1 ≡ false
  unfolding run_handler
  run_handler-Lasts c m h lasts = ran (lookup m.typ c.handlers) refl
    where
      ran :
          (o : Option (Registration H))
          → lookup m.typ c.handlers ≡ o
          → (run_handler c m h).1 ≡ false
      ran none e = ground (arith, e)
      ran (some reg) e = ground (arith, e, lasts m.typ reg e m h)

  run_all-unstopped :
      (rand_n : Message → ℕ → ℕ) (c : Consumer H) (msgs : List Message) (h : H)
      → Lasts c
      → any (λ r. r.stopped) (run_all rand_n c false msgs h).0 ≡ false
  unfolding run_all
  run_all-unstopped rand_n c [] h lasts = refl
  run_all-unstopped rand_n c (m ∷ msgs) h lasts =
      let ended = run_handler-Lasts c m h lasts in
      rw ended (
        ground (
          arith,
          result_of-unstopped rand_n m (run_handler c m h).0,
          run_all-unstopped rand_n c msgs (run_handler c m h).2 lasts,
        ))

module _ (pg : PgQue) (ready : pg.State → ℕ) (counts : Counts pg ready) where
  current_batch-Spends :
      (queue consumer : Text) → Spends pg ready counts 0 (current_batch pg queue consumer)
  unfolding current_batch
  current_batch-Spends queue consumer w a e = ground arith

  next_batch-Spends :
      (queue consumer : Text) → Spends pg ready counts 0 (next_batch pg queue consumer)
  unfolding next_batch
  next_batch-Spends queue consumer = statement-keeps pg ready counts _ λ t.
      elim (Option-cases (pg.next_batch t.queue queue consumer)) [
        | inl e ↦ ground (arith, e)
        | inr ((q, id), e) ↦ ground (arith, e, counts.opens t.queue q queue consumer id e)
      ]

  count_run-Spends : (batch : ℕ) → Spends pg ready counts 0 (count_run pg batch)
  unfolding count_run
  count_run-Spends batch = statement-keeps pg ready counts _ λ t. omega arith

  batch_messages-Spends : (batch : ℕ) → Spends pg ready counts 0 (batch_messages pg batch)
  unfolding batch_messages
  batch_messages-Spends batch = statement-keeps pg ready counts _ λ t. omega arith

  load_batch-Spends : (before id : Option ℕ) → Spends pg ready counts 0 (load_batch pg before id)
  unfolding load_batch count_run batch_messages
  load_batch-Spends before none = return-Spends pg ready counts none
  load_batch-Spends before (some id) =
      bind-Spends pg ready counts (if reopened before id then count_run pg id else return (pos 0)) _
        0 0
        (if-Spends pg ready counts 0 (reopened before id) (count_run pg id) (return (pos 0))
          (count_run-Spends id) (return-Spends pg ready counts (pos 0)))
        λ runs.
          bind-Spends pg ready counts (batch_messages pg id) _ 0 0 (batch_messages-Spends id)
            λ msgs. return-Spends pg ready counts _

  open_batch-Spends :
      (queue consumer : Text) → Spends pg ready counts 0 (open_batch pg queue consumer)
  unfolding open_batch
  open_batch-Spends queue consumer =
      bind-Spends pg ready counts (current_batch pg queue consumer) _ 0 0
        (current_batch-Spends queue consumer)
        λ before.
          bind-Spends pg ready counts (next_batch pg queue consumer) _ 0 0
            (next_batch-Spends queue consumer) λ id. load_batch-Spends before id

-- A batch that is found costs one.
abbrev cost : Bool → ℕ
cost true = 1
cost false = 0

module _ (pg : PgQue) (ready : pg.State → ℕ) (counts : Counts pg ready) {H : Type 0}
    (text : HandlerError → Text) (rand_n : Message → ℕ → ℕ) where
  results_of-unstopped :
      (c : Consumer H) (b : Batch) (h : H)
      → Lasts c
      → any (λ r. r.stopped) (results_of pg text rand_n c false b h).0 ≡ false
  unfolding results_of
  results_of-unstopped c b h lasts = elim (Bool-cases (at_least max_batch_runs b.runs)) [
    | inl e ↦ rw e (give_up-unstopped rand_n (runs_number b.runs) b.msgs)
    | inr e ↦ rw e (run_all-unstopped rand_n c b.msgs h lasts)
  ]

  conclude-spends :
      (c : Consumer H) (b : Batch) (rs : List Result) (w : World pg.State)
      → any (λ r. r.stopped) rs ≡ false
      → (conclude pg text rand_n c b rs w).0.error ≡ none
      → cost (conclude pg text rand_n c b rs w).0.found
          + ready (conclude pg text rand_n c b rs w).1.tables.queue
        ≤ ready w.tables.queue
  unfolding conclude
  conclude-spends c b rs w unstopped fine =
      elim (Outcome-cases (finish_batch pg text c.queue c.name b.id rs w).0) [
        | inl (stored, e) ↦ ground (
          arith,
          unstopped,
          e,
          finish_batch-Spends pg ready counts text c.queue c.name b.id rs w stored e,
        )
        | inr (x, e) ↦ absurd (ground (arith, unstopped, e, fine))
      ]

  handle_opened-spends :
      (c : Consumer H) (h : H) (o : Outcome Error (Option Batch)) (w : World pg.State)
      → Lasts c
      → (handle_opened pg text rand_n c false h o w).0.error ≡ none
      → cost (handle_opened pg text rand_n c false h o w).0.found
          + ready (handle_opened pg text rand_n c false h o w).1.tables.queue
        ≤ ready w.tables.queue
  handle_opened-spends c h (err e) w lasts fine = absurd cc
  handle_opened-spends c h (ok none) w lasts fine = omega arith
  handle_opened-spends c h (ok (some b)) w lasts fine =
      conclude-spends c b (results_of pg text rand_n c false b h).0 w
        (results_of-unstopped c b h lasts) fine

  handle_batch-spends :
      (c : Consumer H) (w : World pg.State) (h : H)
      → Lasts c
      → (handle_batch pg text rand_n c false w h).0.error ≡ none
      → cost (handle_batch pg text rand_n c false w h).0.found
          + ready (handle_batch pg text rand_n c false w h).1.tables.queue
        ≤ ready w.tables.queue
  unfolding handle_batch
  handle_batch-spends c w h lasts fine = elim (Outcome-cases (open_batch pg c.queue c.name w).0) [
    | inl (o, e) ↦
        let spent =
          handle_opened-spends c h (open_batch pg c.queue c.name w).0
            (open_batch pg c.queue c.name w).1 lasts fine in
        omega (arith, spent, open_batch-Spends pg ready counts c.queue c.name w o e)
    | inr (x, e) ↦ absurd (ground (arith, e, fine))
  ]

  -- A loop ends, and its world without an error has at most `bound` batches left.
  abbrev Ends : Option (Due pg.State H) → ℕ → Type 0
  Ends o bound =
      (d : Due pg.State H) × (o ≡ some d) × (d.error ≡ none → ready d.world.tables.queue ≤ bound)

  end_pass-Ends :
      (n : ℕ) (e : Option Error) (found : Bool) (w : World pg.State) (h : H)
      (rest : Option (Due pg.State H)) (bound : ℕ)
      → (e ≡ none → cost found + ready w.tables.queue ≤ bound)
      → (e ≡ none → found ≡ true → Ends rest bound)
      → Ends (end_pass pg text rand_n n e found w h rest) bound
  end_pass-Ends n (some e) found w h rest bound spent go = (_, refl, λ no. absurd cc)
  end_pass-Ends n none true w h rest bound spent go = go refl refl
  end_pass-Ends n none false w h rest bound spent go = (_, refl, λ fine. omega (arith, spent refl))

  run_consumer-Ends :
      (fuel : ℕ) (c : Consumer H) (n : ℕ) (w : World pg.State) (h : H)
      → Lasts c
      → ready w.tables.queue < fuel
      → Ends (run_consumer pg text rand_n fuel c n w h) (ready w.tables.queue)
  unfolding run_consumer
  run_consumer-Ends zero c n w h lasts le = absurd (omega (arith, le))
  run_consumer-Ends (suc fuel) c n w h lasts le =
      let spent = handle_batch-spends c w h lasts in
      end_pass-Ends _ _ _ _ _ _ (ready w.tables.queue) spent λ fine found.
        let low = rw found at spent fine in
        let (d, run, kept) = run_consumer-Ends fuel c _ _ _ lasts (omega (arith, low, le)) in
        (d, run, λ good. omega (arith, kept good, low))

  go_on-ends :
      (o : Option (Due pg.State H)) (d : Due pg.State H)
      (f : Due pg.State H → Option (Due pg.State H))
      → o ≡ some d
      → (d.error ≡ none → (e : Due pg.State H) × (f d ≡ some e))
      → (e : Due pg.State H) × (go_on pg text rand_n o f ≡ some e)
  go_on-ends o d f run next = elim (Option-cases d.error) [
    | inl e ↦ let (last, ran) = next e in (last, rw (run, e) ran)
    | inr (x, e) ↦ (d, simp (run, e) refl)
  ]

  run_consumers-ends :
      (fuel : ℕ) (cs : List (Consumer H)) (n : ℕ) (w : World pg.State) (h : H)
      → All Lasts cs
      → ready w.tables.queue < fuel
      → (d : Due pg.State H) × (run_consumers pg text rand_n fuel cs n w h ≡ some d)
  unfolding run_consumers
  run_consumers-ends fuel [] n w h lasts le = (_, refl)
  run_consumers-ends fuel (c ∷ cs) n w h lasts le =
      let (d, run, kept) = run_consumer-Ends fuel c n w h lasts.0 le in
      go_on-ends (run_consumer pg text rand_n fuel c n w h) d _ run λ fine.
        run_consumers-ends fuel cs d.count d.world d.state lasts.1 (omega (arith, kept fine, le))

  run_prepared-ends :
      (old : ℕ → Bool) (fuel : ℕ) (worker : Worker H) (h : H)
      (p : Outcome Error (Unit {0}) × List Schedule × World pg.State)
      → All Lasts worker.consumers
      → ready p.2.tables.queue < fuel
      → (d : Due pg.State H) × (worker' : Worker H) × (run_prepared pg old text rand_n fuel worker h
            p
          ≡ some (d, worker'))
  run_prepared-ends old fuel worker h (err e, schedules, w) lasts le = (_, _, refl)
  run_prepared-ends old fuel worker h (ok u, schedules, w) lasts le =
      let (d, run) = run_consumers-ends fuel worker.consumers 0 w h lasts le in
      (d, record worker { schedules = schedules }, ground (arith, run))

  -- Whatever statements fail: when opening a batch and storing the outcome of a message do not raise
  -- the number of batches of PgQue, an acknowledgement lowers it, and no handler sees its context
  -- end, RunDue ends, with one pass more than there are batches after prepareDue for each consumer.
  pub run_due-ends :
      (old : ℕ → Bool) (fuel : ℕ) (payload : ℕ → Text) (now : ℕ) (worker : Worker H)
      (w : World pg.State) (h : H)
      → All Lasts worker.consumers
      → ready (prepare_due pg old payload now worker w).2.tables.queue < fuel
      → (d : Due pg.State H) × (worker' : Worker H) × (run_due pg old text rand_n fuel payload now
            worker w h
          ≡ some (d, worker'))
  unfolding run_due
  run_due-ends old fuel payload now worker w h lasts le =
      run_prepared-ends old fuel worker h (prepare_due pg old payload now worker w) lasts le
