-- ===== src/Queue/Sql/World.antt =====
-- The database as the queue package sees it. PgQue is a library of SQL functions that a migration
-- installs; its functions are the fields of `PgQue`. The tables queue_batch_runs and job_schedules
-- are the repository's own.
use yet_another_go_boilerpla.Base.{ℕ, ℤ, Bool, Option, List, [], ◌∷◌, Outcome, ok, err, Text, Dict}
use yet_another_go_boilerpla.Queue.Batch.Message.{Message}

pub record PgQue : Type 1 where
  pub State : Type 0
  -- pgque.get_consumer_info: whether there is a subscription, and its current_batch
  pub subscription : State → Text → Text → Bool
  pub current_batch : State → Text → Text → Option ℕ
  -- pgque.next_batch; `none` where it raises an error
  pub next_batch : State → Text → Text → Option (State × Option ℕ)
  -- pgque.get_batch_events, in the order of their ids
  pub batch_events : State → ℕ → List Message
  -- queue_max_retries of the row of pgque.queue, if there is such a row
  pub queue_max_retries : State → Text → Option (Option ℕ)
  -- pgque.event_dead, of a batch, an event and a reason
  pub event_dead : State → ℕ → Message → Text → State
  -- pgque.event_retry_raw, of a queue, a consumer, the delay, the new retry count and an event
  pub event_retry : State → Text → Text → ℕ → ℕ → Message → State
  -- pgque.ack: 1 where the batch was open
  pub ack : State → ℕ → State × ℕ
  -- pgque.send, of a queue, a type and a payload
  pub send : State → Text → Text → Text → State × ℕ
  -- pgque.ticker, pgque.force_next_tick
  pub ticker : State → State × ℕ
  pub force_next_tick : State → Text → State
  -- pgque.maint_retry_events, pgque.maint, pgque.maint_rotate_tables_step2, pgque.dlq_purge
  pub maint_retry_events : State → State × ℕ
  pub maint : State → State
  pub rotate_step2 : State → State
  pub dlq_purge : State → Text → ℕ → State

-- What happens to one statement: it works; it fails and does nothing; or the server runs it and
-- the client sees an error, as when the connection breaks before the answer.
pub data Fault : Type 0 where
  works fails lost : Fault

pub data Error : Type 0 where
  outage sql_error no_row not_in_batch not_open no_consumers no_subscription : Error

pub record Tables (Q : Type 0) : Type 0 where
  pub queue : Q
  -- queue_batch_runs: a batch id and its runs
  pub runs : List (ℕ × ℤ)
  -- job_schedules: a message type and its last slot
  pub slots : Dict ℕ

-- The tables, and what will happen to the next statements; they work once the list is empty.
pub record World (Q : Type 0) : Type 0 where
  pub tables : Tables Q
  pub faults : List Fault

abbrev pub Sql : Type 0 → Type 0 → Type 0
Sql Q A = World Q → Outcome Error A × World Q

abbrev pub resume :
    {Q A B : Type 0} → Outcome Error A → (A → Sql Q B) → World Q → Outcome Error B × World Q
resume (ok a) f w = f a w
resume (err e) f w = (err e, w)

infixl 5 ◌>>=◌ ◌>>◌
abbrev pub ◌>>=◌ : {Q A B : Type 0} → Sql Q A → (A → Sql Q B) → Sql Q B
◌>>=◌ m f w = resume (m w).0 f (m w).1

abbrev pub ◌>>◌ : {Q B : Type 0} → Sql Q (Unit {0}) → Sql Q B → Sql Q B
m >> k = m >>= λ _. k

abbrev pub return : {Q A : Type 0} → A → Sql Q A
return a w = (ok a, w)

abbrev pub fail : {Q A : Type 0} → Error → Sql Q A
fail e w = (err e, w)

abbrev pub next_fault : List Fault → Fault
next_fault [] = works
next_fault (f ∷ fs) = f

abbrev pub later_faults : List Fault → List Fault
later_faults [] = []
later_faults (f ∷ fs) = fs

abbrev pub execute :
    {Q A : Type 0}
    → Fault
    → (Tables Q → Outcome Error A × Tables Q)
    → Tables Q
    → Outcome Error A × Tables Q
execute works f t = f t
execute fails f t = (err outage, t)
execute lost f t = (err outage, (f t).1)

-- One statement.
unfoldable pub statement : {Q A : Type 0} → (Tables Q → Outcome Error A × Tables Q) → Sql Q A
statement f w =
    let (r, t) = execute (next_fault w.faults) f w.tables in
    (r, record { tables = t; faults = later_faults w.faults })

-- What the statement COMMIT leaves behind.
abbrev pub settle : {Q A : Type 0} → Fault → Tables Q → A → World Q → Outcome Error A × World Q
settle works before a w = (ok a, w)
settle fails before a w = (err outage, record w { tables = before })
settle lost before a w = (err outage, w)

abbrev pub commit :
    {Q A : Type 0} → Tables Q → Outcome Error A → World Q → Outcome Error A × World Q
commit before (err e) w = (err e, record w { tables = before })
commit before (ok a) w =
    settle (next_fault w.faults) before a (record w { faults = later_faults w.faults })

abbrev pub no_change : {Q : Type 0} → Tables Q → Outcome Error (Unit {0}) × Tables Q
no_change t = (ok tt, t)

-- pgx.BeginFunc: begin, the body, and commit; a rollback after an error.
unfoldable pub begin_func : {Q A : Type 0} → Sql Q A → Sql Q A
unfolding statement
begin_func body = do statement no_change; λ w. commit w.tables (body w).0 (body w).1
