-- ===== src/Queue/Examples.antt =====
-- Tests of the queue package over a small stand-in for PgQue, and its theorems at concrete inputs.
use yet_another_go_boilerpla.Base.{
  ℕ, suc, ◌+◌, ◌-◌, ◌*◌, ◌/◌, ◌==◌, ◌≤◌, ◌<◌, ◌≡◌, refl, inl, inr, pos, Bool, true, false, Option,
  none, some, List, [], ◌∷◌, ok, arith, if◌then◌else◌, Text, lit, valid_string, length, contains,
}
use yet_another_go_boilerpla.Queue.Names.Defs.{error_text}
use yet_another_go_boilerpla.Queue.Names.Texts.{error_text_storable}
use yet_another_go_boilerpla.Queue.Batch.Message.{Message, HandlerError, returned, Result}
use yet_another_go_boilerpla.Queue.Batch.Backoff.{backoff, backoff_bounds, hour, second}
use yet_another_go_boilerpla.Queue.Batch.Run.{
  Consumer, Batch, returns, run_all, open_batch, conclude, handle_batch, handled,
}
use yet_another_go_boilerpla.Queue.Batch.Order.{AreResultsOf, run_all-AreResultsOf}
use yet_another_go_boilerpla.Queue.Batch.Runs.{
  conclude_stopped-open_batch, handle_batch_gives_up, opened_batch, AreRetries,
}
use yet_another_go_boilerpla.Queue.Sql.World.{PgQue, works, lost, Tables, World}
use yet_another_go_boilerpla.Queue.Sql.Statements.{store_failures, finish_body, finish_batch}
use yet_another_go_boilerpla.Queue.Sql.Transactions.{calm, IsAtomic, finish_batch-IsAtomic}
use yet_another_go_boilerpla.Queue.Sql.Stored.{store_failures-store_each, marks, store_each}
use yet_another_go_boilerpla.Queue.Schedule.Defs.{Schedule, slot_at, send_slot}
use yet_another_go_boilerpla.Queue.Schedule.Slots.{Call, call, calls, slot_at_lem, send_slot_once}

-- One queue with one open batch.
pub record Stand : Type 0 where
  pub batch : Option ℕ
  pub events : List Message
  pub retried : List Message
  pub dead : List Message
  pub outbox : List Text

abbrev acked : Stand → Option ℕ → ℕ → Stand × ℕ
acked s none id = (s, 0)
acked s (some b) id = (record s { batch = none; events = [] }, 1)

abbrev pub stand_in : PgQue
stand_in = record {
  State = Stand;
  subscription = λ s queue consumer. true;
  current_batch = λ s queue consumer. s.batch;
  next_batch = λ s queue consumer. some (s, s.batch);
  batch_events = λ s id. s.events;
  queue_max_retries = λ s queue. some (some 2);
  event_dead = λ s id e reason. record s { dead = e ∷ s.dead };
  event_retry = λ s queue consumer delay retries e. record s {
    retried = (record e { retries = retries }) ∷ s.retried;
  };
  ack = λ s id. acked s s.batch id;
  send = λ s queue typ payload. (record s { outbox = typ ∷ s.outbox }, 1);
  ticker = λ s. (s, 0);
  force_next_tick = λ s queue. s;
  maint_retry_events = λ s. (s, 0);
  maint = λ s. s;
  rotate_step2 = λ s. s;
  dlq_purge = λ s queue keep. s;
}

abbrev pub message : ℕ → ℕ → Message
message id retries = record {
  id = id;
  typ = lit "a";
  payload = [];
  retries = retries;
  created_at = 0;
}

abbrev pub tables : Tables Stand
tables = record {
  queue = record {
    batch = some 7;
    events = message 1 0 ∷ message 2 5 ∷ message 3 0 ∷ [];
    retried = [];
    dead = [];
    outbox = [];
  };
  runs = (7, pos 2) ∷ [];
  slots = [];
}

abbrev pub error_as_text : HandlerError → Text
error_as_text e = lit "failed"

abbrev pub draw : Message → ℕ → ℕ
draw m n = n - 1

abbrev result : Message → Option HandlerError → Bool → Result
result m e stopped = record { msg = m; err = e; delay = 1; stopped = stopped; dead = false }

abbrev results : List Result
results =
    result (message 1 0) (some (returned [] false)) false
    ∷ result (message 2 5) (some (returned [] false)) false
    ∷ result (message 3 0) none false
    ∷ []

-- The handler of the type "a" fails at message 2 while its context ends. It counts its calls.
abbrev the_consumer : Consumer ℕ
the_consumer = record {
  queue = lit "q";
  name = lit "c";
  handlers =
      (
        lit "a",
        record {
          handler = λ timeout m n.
              (returns (if m.id == 2 then some (returned [] false) else none), m.id == 2, suc n);
          timeout = 1;
        },
      )
      ∷ [];
}

-- The third message is skipped.
run_all_stops : (run_all draw the_consumer false tables.queue.events 0).1 ≡ 2
unfolding run_all
run_all_stops = refl

run_all-AreResultsOf_example :
    AreResultsOf tables.queue.events (run_all draw the_consumer false tables.queue.events 0).0
run_all-AreResultsOf_example = run_all-AreResultsOf draw the_consumer false tables.queue.events 0

backoff_bounds_example :
    (15 * second ≤ backoff (draw (message 1 0)) 3)
    × (backoff (draw (message 1 0)) 3 < hour + hour / 4)
backoff_bounds_example = backoff_bounds (draw (message 1 0)) 3 (λ n h. omega arith)

-- The commit loses its answer.
abbrev pub faulty : World Stand
faulty = record { tables = tables; faults = works ∷ works ∷ works ∷ works ∷ works ∷ lost ∷ [] }

finish_batch-IsAtomic_example :
    IsAtomic
      (finish_body stand_in error_as_text (lit "q") (lit "c") 7 results)
      tables
      (finish_batch stand_in error_as_text (lit "q") (lit "c") 7 results faulty)
finish_batch-IsAtomic_example =
    finish_batch-IsAtomic stand_in error_as_text (lit "q") (lit "c") 7 results faulty

store_failures-store_each_example :
    store_failures stand_in error_as_text (lit "q") (lit "c") 7 results (calm tables) ≡ (
      ok (marks stand_in (lit "q") (lit "c") 7 2 results),
      calm (record tables {
        queue = store_each stand_in (lit "q") (lit "c") 7 error_as_text 2 results tables.queue;
      }),
    )
store_failures-store_each_example =
    store_failures-store_each stand_in (lit "q") (lit "c") 7 error_as_text results (some 2) tables
      refl (refl, (refl, (refl, tt))) (inl refl, (inr (inl refl), (inr (inr (inl refl)), tt)))

abbrev batch : Batch
batch = record { id = 7; msgs = tables.queue.events; runs = pos 2 }

abbrev stopped_results : List Result
stopped_results =
    result (message 1 0) none false ∷ result (message 2 5) (some (returned [] false)) true ∷ []

conclude_stopped-open_batch_example :
    ((open_batch stand_in
        (lit "q")
        (lit "c")
        (conclude stand_in error_as_text draw the_consumer batch stopped_results (calm tables)).1).0
      ≡ opened_batch 7 tables.queue.events (pos 2))
    × ((open_batch stand_in (lit "q") (lit "c") (calm tables)).0
        ≡ opened_batch 7 tables.queue.events (pos 3))
conclude_stopped-open_batch_example =
    conclude_stopped-open_batch stand_in error_as_text draw the_consumer batch stopped_results
      tables tables.queue refl refl refl

handle_batch_gives_up_example :
    (rs : List Result) × AreRetries draw 3 tables.queue.events rs
    × (let w = (open_batch stand_in (lit "q") (lit "c") (calm tables)).1 in
        let (r, w') = finish_batch stand_in error_as_text (lit "q") (lit "c") 7 rs w in
        handle_batch stand_in error_as_text draw the_consumer false (calm tables) 0
        ≡ (handled 3 r, w', 0))
handle_batch_gives_up_example =
    handle_batch_gives_up stand_in error_as_text draw the_consumer false 7 tables tables.queue 0
      refl refl refl

abbrev hourly : Schedule
hourly = record { queue = lit "q"; typ = lit "a"; every = 3600; offset = 60; last = 0 }

slot_at_lem_example :
    (slot_at hourly 10000 ≤ 10000)
    × (10000 < slot_at hourly 10000 + 3600)
    × ((k : ℕ) × (slot_at hourly 10000 ≡ k * 3600 + 60))
slot_at_lem_example = slot_at_lem hourly 10000 (omega arith) (omega arith)

abbrev slot_call : ℕ → Call
slot_call n = record { queue = lit "q"; typ = lit "a"; slot = n; payload = [] }

send_slot_once_example :
    let w' = calls stand_in (slot_call 8 ∷ []) (call stand_in (slot_call 5) (calm tables)).1 in
    (call stand_in (slot_call 5) w').1.tables ≡ w'.tables
unfolding send_slot
send_slot_once_example =
    send_slot_once stand_in (slot_call 5) (slot_call 5) (slot_call 8 ∷ []) (calm tables) refl refl
      (omega arith)

error_text_cuts : error_text (0xFF ∷ 0 ∷ 0x61 ∷ []) ≡ 0xEF ∷ 0xBF ∷ 0xBD ∷ 0x61 ∷ []
unfolding error_text
error_text_cuts = refl

error_text_storable_example :
    (valid_string (error_text (0xFF ∷ 0 ∷ [])) ≡ true)
    × (length (error_text (0xFF ∷ 0 ∷ [])) ≤ 2000)
    × (contains 0 (error_text (0xFF ∷ 0 ∷ [])) ≡ false)
error_text_storable_example = error_text_storable (0xFF ∷ 0 ∷ [])
