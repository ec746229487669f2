-- ===== src/Queue/Batch/Message.antt =====
-- internal/platform/queue: messages, handler errors, and the results of a batch (queue.go,
-- worker_batch.go). The duration of a run feeds only the log and is left out.
use yet_another_go_boilerpla.Base.{ℕ, Bool, true, false, Option, none, some, Text}

pub record Message : Type 0 where
  pub id : ℕ
  pub typ : Text
  pub payload : Text
  pub retries : ℕ
  pub created_at : ℕ

-- What stands in `result.err`: the error that a handler returned, with whether Permanent wraps it;
-- or an error of the worker itself.
pub data HandlerError : Type 0 where
  returned : Text → Bool → HandlerError
  panicked : Text → HandlerError
  no_handler : Text → HandlerError
  unfinished : ℕ → HandlerError
  context_ended : HandlerError

-- Permanent marks an error as final; a wrapped error stays one.
unfoldable pub permanent : Option HandlerError → Option HandlerError
permanent none = none
permanent (some (returned text mark)) = some (returned text true)
permanent (some e) = some e

unfoldable pub is_permanent : HandlerError → Bool
is_permanent (returned text mark) = mark
is_permanent e = false

pub record Result : Type 0 where
  pub msg : Message
  pub err : Option HandlerError
  pub delay : ℕ
  pub stopped : Bool
  pub dead : Bool

abbrev pub failed : Result → Bool
failed r = elim r.err [ none ↦ false | some e ↦ true ]
