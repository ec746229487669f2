-- ===== src/Queue/Schedule/Defs.antt =====
-- internal/platform/queue: sendSchedules (worker_lead.go) and sendSlot (postgres.go). A time is a
-- number of nanoseconds since the zero time of Go, by which Truncate rounds.
use yet_another_go_boilerpla.Base.{
  ℕ, ◌+◌, ◌-◌, ◌*◌, ◌/◌, Bool, true, false, not, Option, none, some, List, [], ◌∷◌, Outcome, ok,
  err, ltb, if◌then◌else◌, Text, lookup, insert,
}
use yet_another_go_boilerpla.Queue.Sql.World.{PgQue, Error, World, Sql, statement}

pub record Schedule : Type 0 where
  pub queue : Text
  pub typ : Text
  pub every : ℕ
  pub offset : ℕ
  pub last : ℕ

-- now.Add(-s.offset).Truncate(s.every).Add(s.offset)
unfoldable pub slot_at : Schedule → ℕ → ℕ
slot_at s now = (now - s.offset) / s.every * s.every + s.offset

-- Whether the upsert on job_schedules claims the slot.
abbrev pub claims : Option ℕ → ℕ → Bool
claims none slot = true
claims (some last) slot = ltb last slot

module _ (pg : PgQue) where
  open pg use {State}

  -- sendSlot: true where it sent the message
  unfoldable pub send_slot : Text → Text → ℕ → Text → Sql State Bool
  unfolding statement
  send_slot queue typ slot payload = statement λ t.
      if claims (lookup typ t.slots) slot
      then (
        ok true,
        record t { queue = (pg.send t.queue queue typ payload).0; slots = insert typ slot t.slots },
      )
      else (ok false, t)

  -- sendSchedules: its error, the schedules with their last slots, and the world. `payload` stands
  -- for the JSON text of a slot.
  unfoldable pub send_schedules :
      (ℕ → Text)
      → ℕ
      → List Schedule
      → World State
      → Outcome Error (Unit {0}) × List Schedule × World State
  send_schedules payload now [] w = (ok tt, [], w)
  send_schedules payload now (s ∷ ss) w =
      let slot = slot_at s now in
      let skip = send_schedules payload now ss w in
      let sent = send_slot s.queue s.typ slot (payload slot) w in
      let next = send_schedules payload now ss sent.1 in
      if not (ltb s.last slot) then (skip.0, s ∷ skip.1, skip.2) else elim sent.0 [
        | err e ↦ (err e, s ∷ ss, sent.1)
        | ok b ↦ (next.0, record s { last = slot } ∷ next.1, next.2)
      ]
