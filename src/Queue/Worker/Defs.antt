-- ===== src/Queue/Worker/Defs.antt =====
-- internal/platform/queue/worker.go: the registration of consumers, handlers and schedules, and one
-- step of the worker (RunDue). `none` stands for a panic of a registration. The duration of a
-- schedule is not negative once it passes the test, so it is a natural number; the offset is signed.
use yet_another_go_boilerpla.Base.{
  ℕ, zero, suc, ◌*◌, ℤ, pos, negsuc, Bool, not, ◌&&◌, ◌||◌, Option, none, some, List, [], ◌∷◌, ◌++◌,
  ok, ltb, leb, ◌==◌, if◌then◌else◌, any, Text, eq_text, insert, has_key,
}
use yet_another_go_boilerpla.Queue.Names.Defs.{valid_name}
use yet_another_go_boilerpla.Queue.Batch.Run.{Handler, Consumer}
use yet_another_go_boilerpla.Queue.Sql.World.{
  PgQue, no_consumers, no_subscription, Sql, ◌>>=◌, ◌>>◌, return, fail, statement,
}
use yet_another_go_boilerpla.Queue.Schedule.Defs.{Schedule}

abbrev pub second : ℕ
second = 1_000_000_000

abbrev pub minute : ℕ
minute = 60 * second

-- keepDead
abbrev pub keep_dead : ℕ
keep_dead = 7 * 24 * 3600 * second

-- maxRetryCalls (postgres.go)
abbrev pub max_retry_calls : ℕ
max_retry_calls = 100

pub record Worker (H : Type 0) : Type 0 where
  pub consumers : List (Consumer H)
  pub schedules : List Schedule

module _ {H : Type 0} where
  -- NewWorker
  unfoldable pub new_worker : Worker H
  new_worker = record { consumers = []; schedules = [] }

  abbrev pub is_named : Text → Text → Consumer H → Bool
  is_named queue name c = eq_text c.queue queue && eq_text c.name name

  -- Worker.Consumer
  unfoldable pub consumer : Text → Text → Worker H → Option (Worker H)
  consumer queue name w =
      if not (valid_name queue) || not (valid_name name)
      then none
      else if any (is_named queue name) w.consumers
      then none
      else some (record w {
        consumers = w.consumers ++ (record { queue = queue; name = name; handlers = [] }) ∷ [];
      })

  -- Consumer.Handle; `none` as the handler stands for nil
  unfoldable pub handle : Text → ℕ → Option (Handler H) → Consumer H → Option (Consumer H)
  handle typ timeout none c = none
  handle typ timeout (some h) c =
      if not (valid_name typ)
      then none
      else if has_key typ c.handlers
      then none
      else if timeout == 0
      then none
      else some (record c {
        handlers = insert typ (record { handler = h; timeout = timeout }) c.handlers;
      })

  abbrev pub on_consumer :
      Consumer H → Option (Consumer H) → Option (List (Consumer H)) → Option (List (Consumer H))
  on_consumer old none rest = none
  on_consumer old (some c) none = none
  on_consumer old (some c) (some cs) = some (c ∷ cs)

  -- The worker and the caller share the consumer, so Handle changes it inside the worker.
  unfoldable pub handle_in :
      Text
      → Text
      → (Consumer H → Option (Consumer H))
      → List (Consumer H)
      → Option (List (Consumer H))
  handle_in queue name f [] = some []
  handle_in queue name f (c ∷ cs) =
      on_consumer c (if is_named queue name c then f c else some c) (handle_in queue name f cs)

  abbrev pub with_consumers : Worker H → Option (List (Consumer H)) → Option (Worker H)
  with_consumers w none = none
  with_consumers w (some cs) = some (record w { consumers = cs })

  -- The call of Handle on the consumer `name` of `queue`.
  unfoldable pub handle_on :
      Text → Text → Text → ℕ → Option (Handler H) → Worker H → Option (Worker H)
  handle_on queue name typ timeout h w =
      with_consumers w (handle_in queue name (handle typ timeout h) w.consumers)

  abbrev pub handles : Text → Text → Consumer H → Bool
  handles queue typ c = eq_text c.queue queue && has_key typ c.handlers

  abbrev pub add_schedule : Text → Text → ℕ → ℤ → Worker H → Option (Worker H)
  add_schedule queue typ every (negsuc n) w = none
  add_schedule queue typ every (pos offset) w =
      if ltb every minute || leb every offset
      then none
      else if any (λ s. eq_text s.typ typ) w.schedules
      then none
      else some (record w {
        schedules =
            w.schedules
            ++ (record { queue = queue; typ = typ; every = every; offset = offset; last = 0 }) ∷ [];
      })

  -- Worker.Schedule
  unfoldable pub schedule : Text → Text → ℕ → ℤ → Worker H → Option (Worker H)
  schedule queue typ every offset w =
      if any (handles queue typ) w.consumers then add_schedule queue typ every offset w else none

  -- The loop of queues: the consumed queues without duplicates.
  unfoldable pub queues_from : List Text → List (Consumer H) → List Text
  queues_from queues [] = queues
  queues_from queues (c ∷ cs) =
      queues_from (if any (eq_text c.queue) queues then queues else queues ++ c.queue ∷ []) cs

  -- Worker.queues
  unfoldable pub queues : Worker H → List Text
  unfolding queues_from
  queues w = queues_from [] w.consumers

module _ (pg : PgQue) where
  open pg use {State}

  -- The loop of check.
  unfoldable pub check_each : {H : Type 0} → List (Consumer H) → Sql State (Unit {0})
  check_each [] = return tt
  check_each (c ∷ cs) = do
    known ← statement λ t. (ok (pg.subscription t.queue c.queue c.name), t)
    (if known then check_each cs else fail no_subscription)

  -- check
  unfoldable pub check : {H : Type 0} → List (Consumer H) → Sql State (Unit {0})
  check [] = fail no_consumers
  check (c ∷ cs) = check_each (c ∷ cs)

  -- moveRetries, with the calls that are left
  unfoldable pub move_retries : ℕ → Sql State (Unit {0})
  move_retries zero = return tt
  move_retries (suc n) = do
    moved ←
        statement λ t. let (q, m) = pg.maint_retry_events t.queue in (ok m, record t { queue = q })
    (if moved == 0 then return tt else move_retries n)

  -- rotate
  unfoldable pub rotate : Sql State (Unit {0})
  rotate = do
    statement λ t. (ok tt, record t { queue = pg.maint t.queue })
    statement λ t. (ok tt, record t { queue = pg.rotate_step2 t.queue })

  unfoldable pub for_each : (Text → Sql State (Unit {0})) → List Text → Sql State (Unit {0})
  for_each f [] = return tt
  for_each f (q ∷ qs) = do f q; for_each f qs

  -- purgeDead
  unfoldable pub purge_dead : Text → Sql State (Unit {0})
  purge_dead queue =
      statement λ t. (ok tt, record t { queue = pg.dlq_purge t.queue queue keep_dead })

  -- forceTick
  unfoldable pub force_tick : Text → Sql State (Unit {0})
  force_tick queue = statement λ t. (ok tt, record t { queue = pg.force_next_tick t.queue queue })

  -- tick
  unfoldable pub tick : Sql State ℕ
  tick = statement λ t. let (q, n) = pg.ticker t.queue in (ok n, record t { queue = q })
