-- ===== src/Queue/Worker/Due.antt =====
-- internal/platform/queue/worker.go (RunDue, prepareDue), worker_lead.go (maintain), postgres.go
-- (purgeRuns, send) and queue.go (Send). The context of RunDue is one that does not end.
use yet_another_go_boilerpla.Base.{
  ℕ, zero, suc, ◌+◌, Bool, true, false, not, Option, none, some, List, [], ◌∷◌, Outcome, ok, err,
  if◌then◌else◌, Text, lit, eq_text, keep,
}
use yet_another_go_boilerpla.Queue.Names.Defs.{valid_name}
use yet_another_go_boilerpla.Queue.Batch.Message.{Message, HandlerError}
use yet_another_go_boilerpla.Queue.Batch.Run.{Consumer, handle_batch}
use yet_another_go_boilerpla.Queue.Sql.World.{
  PgQue, Error, World, Sql, ◌>>=◌, ◌>>◌, return, statement,
}
use yet_another_go_boilerpla.Queue.Schedule.Defs.{Schedule, send_schedules}
use yet_another_go_boilerpla.Queue.Worker.Defs.{
  Worker, check, queues, max_retry_calls, move_retries, rotate, for_each, purge_dead, force_tick,
  tick,
}

-- The errors of Send.
pub data SendError : Type 0 where
  invalid_type encoding_failed : SendError
  not_sent : Error → SendError

-- A result of json.Marshal: `null` becomes {}
abbrev pub payload_text : Text → Text
payload_text json = if eq_text json (lit "null") then lit "{}" else json

abbrev pub sent : {S : Type 0} → Outcome Error ℕ × World S → Outcome SendError ℕ × World S
sent (ok id, w) = (ok id, w)
sent (err e, w) = (err (not_sent e), w)

-- What RunDue returns: the number of messages and the error; then the world and the state of the
-- handlers.
pub record Due (S H : Type 0) : Type 0 where
  pub count : ℕ
  pub error : Option Error
  pub world : World S
  pub state : H

module _ (pg : PgQue) where
  open pg use {State}

  -- send (postgres.go)
  unfoldable pub send_message : Text → Text → Text → Sql State ℕ
  unfolding statement
  send_message queue typ payload =
      statement
        λ t. let (q, id) = pg.send t.queue queue typ payload in (ok id, record t { queue = q })

  abbrev pub send_encoded :
      Text → Text → Option Text → World State → Outcome SendError ℕ × World State
  unfolding send_message
  send_encoded queue typ none w = (err encoding_failed, w)
  send_encoded queue typ (some json) w = sent (send_message queue typ (payload_text json) w)

  -- Send; `encoded` is what json.Marshal makes of the payload
  unfoldable pub send : Text → Text → Option Text → World State → Outcome SendError ℕ × World State
  send queue typ encoded w =
      if not (valid_name typ) then (err invalid_type, w) else send_encoded queue typ encoded w

  module _ {H : Type 0} (text : HandlerError → Text) (rand_n : Message → ℕ → ℕ) where
    -- The end of one pass of the loop over the batches of a consumer.
    abbrev pub end_pass :
        ℕ → Option Error → Bool → World State → H → Option (Due State H) → Option (Due State H)
    end_pass n (some e) found w h rest =
        some (record { count = n; error = some e; world = w; state = h })
    end_pass n none true w h rest = rest
    end_pass n none false w h rest = some (record { count = n; error = none; world = w; state = h })

    -- The loop over the batches of a consumer, on fuel; `n` messages are handled before it.
    unfoldable pub run_consumer : ℕ → Consumer H → ℕ → World State → H → Option (Due State H)
    unfolding handle_batch
    run_consumer zero c n w h = none
    run_consumer (suc fuel) c n w h =
        let (r, w', h') = handle_batch pg text rand_n c false w h in
        let rest = run_consumer fuel c (n + r.count) w' h' in
        end_pass (n + r.count) r.error r.found w' h' rest

    abbrev pub go_on :
        Option (Due State H) → (Due State H → Option (Due State H)) → Option (Due State H)
    go_on none f = none
    go_on (some d) f = elim d.error [ none ↦ f d | some e ↦ some d ]

    -- The loop over the consumers.
    unfoldable pub run_consumers :
        ℕ → List (Consumer H) → ℕ → World State → H → Option (Due State H)
    unfolding run_consumer
    run_consumers fuel [] n w h = some (record { count = n; error = none; world = w; state = h })
    run_consumers fuel (c ∷ cs) n w h =
        go_on (run_consumer fuel c n w h) λ d. run_consumers fuel cs d.count d.world d.state

  -- `old` says of a batch that its row did not change for keepDead, by the clock of the server.
  module _ (old : ℕ → Bool) where
    -- purgeRuns
    unfoldable pub purge_runs : Sql State (Unit {0})
    unfolding statement
    purge_runs = statement λ t. (ok tt, record t { runs = keep (λ row. not (old row.0)) t.runs })

    -- maintain, for the queues of the worker
    unfoldable pub maintain : List Text → Sql State (Unit {0})
    unfolding move_retries rotate for_each purge_dead purge_runs
    maintain names = do
      move_retries pg max_retry_calls
      rotate pg
      for_each pg (purge_dead pg) names
      purge_runs

    -- The rest of prepareDue, after the schedules.
    unfoldable pub prepare_queues : List Text → Sql State (Unit {0})
    unfolding maintain for_each force_tick tick
    prepare_queues names = do
      maintain names
      for_each pg (force_tick pg) names
      n ← tick pg
      return tt

    module _ {H : Type 0} where
      abbrev pub prepare_from :
          (ℕ → Text)
          → ℕ
          → Worker H
          → Outcome Error (Unit {0}) × World State
          → Outcome Error (Unit {0}) × List Schedule × World State
      prepare_from payload now worker (err e, w) = (err e, worker.schedules, w)
      prepare_from payload now worker (ok u, w) =
          let (r, schedules, w') = send_schedules pg payload now worker.schedules w in
          elim r [
            | err e ↦ (err e, schedules, w')
            | ok u ↦ let (r', w'') = prepare_queues (queues worker) w' in (r', schedules, w'')
          ]

      -- prepareDue: its error, the schedules with their last slots, and the world
      unfoldable pub prepare_due :
          (ℕ → Text)
          → ℕ
          → Worker H
          → World State
          → Outcome Error (Unit {0}) × List Schedule × World State
      unfolding check send_schedules prepare_queues queues
      prepare_due payload now worker w =
          prepare_from payload now worker (check pg worker.consumers w)

      module _ (text : HandlerError → Text) (rand_n : Message → ℕ → ℕ) where
        abbrev pub run_prepared :
            ℕ
            → Worker H
            → H
            → Outcome Error (Unit {0}) × List Schedule × World State
            → Option (Due State H × Worker H)
        run_prepared fuel worker h (err e, schedules, w) = some (
          record { count = 0; error = some e; world = w; state = h },
          record worker { schedules = schedules },
        )
        run_prepared fuel worker h (ok u, schedules, w) =
            elim (run_consumers text rand_n fuel worker.consumers 0 w h) [
              | none ↦ none
              | some d ↦ some (d, record worker { schedules = schedules })
            ]

        -- RunDue, and the worker with the last slots of its schedules; `none` once a loop over
        -- batches is out of fuel
        unfoldable pub run_due :
            ℕ → (ℕ → Text) → ℕ → Worker H → World State → H → Option (Due State H × Worker H)
        unfolding prepare_due run_consumers
        run_due fuel payload now worker w h =
            run_prepared fuel worker h (prepare_due payload now worker w)
