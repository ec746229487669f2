-- ===== src/Queue/DueExamples.antt =====
-- RunDue over the stand-in for PgQue, with one consumer and a statement that fails.
use yet_another_go_boilerpla.Base.{
  ℕ, suc, ◌<◌, ◌≡◌, refl, Option, none, some, [], ◌∷◌, arith, false, lit,
}
use yet_another_go_boilerpla.Queue.Batch.Run.{Consumer, Registration, returns}
use yet_another_go_boilerpla.Queue.Sql.World.{World, fails, works}
use yet_another_go_boilerpla.Queue.Worker.Defs.{Worker}
use yet_another_go_boilerpla.Queue.Worker.Due.{Due, prepare_due, run_due}
use yet_another_go_boilerpla.Queue.Worker.Spends.{Counts}
use yet_another_go_boilerpla.Queue.Worker.Ends.{Lasts, run_due-ends}
use yet_another_go_boilerpla.Queue.Examples.{Stand, stand_in, tables, error_as_text, draw}

abbrev batches : Option ℕ → ℕ
batches none = 0
batches (some b) = 1

abbrev ready : Stand → ℕ
ready s = batches s.batch

closes_open :
    (s : Stand) (b : Option ℕ) (id : ℕ)
    → s.batch ≡ b
    → (stand_in.ack s id).1 ≡ 1
    → ready (stand_in.ack s id).0 < ready s
closes_open s none id e h = absurd (ground (arith, e, h))
closes_open s (some b) id e h = ground (arith, e)

stand_in-Counts : Counts stand_in ready
stand_in-Counts = record {
  opens = λ q q' queue consumer id e. ground (arith, e);
  buries = λ q batch m reason. omega arith;
  retries = λ q queue consumer delay n m. omega arith;
  closes = λ q batch h. closes_open q q.batch batch refl h;
}

-- A handler that counts its calls.
abbrev counter : Consumer ℕ
counter = record {
  queue = lit "q";
  name = lit "c";
  handlers =
      (lit "a", record { handler = λ timeout m n. (returns none, false, suc n); timeout = 1 }) ∷ [];
}

abbrev the_worker : Worker ℕ
the_worker = record { consumers = counter ∷ []; schedules = [] }

-- The first statement after the check fails.
abbrev broken : World Stand
broken = record { tables = tables; faults = works ∷ fails ∷ [] }

counter-Lasts : Lasts counter
counter-Lasts typ reg e m h = ground (arith, e)

one_left :
    ready (prepare_due stand_in (λ id. false) (λ slot. []) 0 the_worker broken).2.tables.queue ≡ 1
unfolding prepare_due yet_another_go_boilerpla.Queue.Worker.Defs.check_each
one_left = refl

run_due-ends_example :
    (d : Due Stand ℕ) × (worker : Worker ℕ) × (run_due stand_in
        (λ id. false)
        error_as_text
        draw
        2
        (λ slot. [])
        0
        the_worker
        broken
        0
      ≡ some (d, worker))
run_due-ends_example =
    run_due-ends stand_in ready stand_in-Counts error_as_text draw (λ id. false) 2 (λ slot. []) 0
      the_worker broken 0 (counter-Lasts, tt) (omega (arith, one_left))

abbrev count_of : Option (Due Stand ℕ × Worker ℕ) → ℕ
count_of none = 0
count_of (some (d, worker)) = d.count

-- Without a fault the three messages of the batch are handled.
handles_three :
    count_of (
      run_due stand_in
        (λ id. false)
        error_as_text
        draw
        2
        (λ slot. [])
        0
        the_worker
        (record { tables = tables; faults = [] })
        0)
    ≡ 3
unfolding run_due yet_another_go_boilerpla.Queue.Worker.Defs.check_each
    yet_another_go_boilerpla.Queue.Batch.Run.open_batch
    yet_another_go_boilerpla.Queue.Batch.Run.conclude
    yet_another_go_boilerpla.Queue.Batch.Run.results_of
    yet_another_go_boilerpla.Queue.Batch.Run.give_up
    yet_another_go_boilerpla.Queue.Sql.Statements.finish_batch
    yet_another_go_boilerpla.Queue.Sql.Statements.store_failures
    yet_another_go_boilerpla.Queue.Sql.Statements.read_max_retries
    yet_another_go_boilerpla.Queue.Sql.Statements.exec_failures
    yet_another_go_boilerpla.Queue.Sql.Statements.collect_failures
    yet_another_go_boilerpla.Queue.Sql.Statements.close_batch
    yet_another_go_boilerpla.Queue.Batch.Message.is_permanent
handles_three = refl
