-- ===== src/Auth/Jobs.antt =====
-- internal/auth/jobs.go and NewWorker of internal/app/worker.go: the background job of the package.
use yet_another_go_boilerpla.Base.{◌*◌, pos, ◌≡◌, Option, none, some, [], ◌∷◌, refl, Text, lit}
use yet_another_go_boilerpla.Queue.Batch.Run.{Handler}
use yet_another_go_boilerpla.Queue.Worker.Defs.{
  Worker, minute, new_worker, consumer, handle_on, schedule,
}

abbrev pub job_queue : Text
job_queue = lit "auth"

abbrev pub job_consumer : Text
job_consumer = lit "worker"

abbrev pub delete_expired_type : Text
delete_expired_type = lit "auth.delete_expired_sessions"

abbrev pub and_then : {A B : Type 0} → Option A → (A → Option B) → Option B
and_then none f = none
and_then (some a) f = f a

module _ {H : Type 0} where
  -- Jobs; the handler is handleDeleteExpired of a service
  unfoldable pub jobs : Handler H → Worker H → Option (Worker H)
  unfolding consumer handle_on schedule
  jobs handle_delete_expired w = and_then (consumer job_queue job_consumer w) λ w1.
      and_then
        (handle_on job_queue job_consumer delete_expired_type minute (some handle_delete_expired)
          w1)
        λ w2. schedule job_queue delete_expired_type (60 * minute) (pos 0) w2

  -- NewWorker (internal/app/worker.go)
  unfoldable pub app_worker : Handler H → Option (Worker H)
  unfolding jobs new_worker
  app_worker handle_delete_expired = jobs handle_delete_expired new_worker

  -- The registrations of the process do not panic: there is one consumer with one handler, and one
  -- schedule, once in each hour.
  pub app_worker_lem :
      (h : Handler H)
      → app_worker h
        ≡ some (record {
          consumers =
              (record {
                queue = job_queue;
                name = job_consumer;
                handlers = (delete_expired_type, record { handler = h; timeout = minute }) ∷ [];
              })
              ∷ [];
          schedules =
              (record {
                queue = job_queue;
                typ = delete_expired_type;
                every = 60 * minute;
                offset = 0;
                last = 0;
              })
              ∷ [];
        })
  unfolding app_worker yet_another_go_boilerpla.Queue.Names.Defs.valid_name
      yet_another_go_boilerpla.Queue.Worker.Defs.handle_in
      yet_another_go_boilerpla.Queue.Worker.Defs.handle
  app_worker_lem h = refl
