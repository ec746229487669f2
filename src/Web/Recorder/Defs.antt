-- ===== src/Web/Recorder/Defs.antt =====
-- internal/platform/web/middleware.go: statusRecorder. The writer below is the list of the statuses
-- that it got, the last one first.
use yet_another_go_boilerpla.Base.{
  ℕ, Bool, true, false, ◌&&◌, List, [], ◌∷◌, ltb, leb, if◌then◌else◌,
}

pub record StatusRecorder : Type 0 where
  pub sent : List ℕ
  pub status : ℕ
  pub wrote_header : Bool

-- The literal that LogRequests, RecoverPanics and E start with.
abbrev pub new_recorder : StatusRecorder
new_recorder = record { sent = []; status = 200; wrote_header = false }

-- A status 1xx, after which another one follows.
abbrev pub is_informational : ℕ → Bool
is_informational status = leb 100 status && ltb status 200

-- WriteHeader
unfoldable pub write_header : ℕ → StatusRecorder → StatusRecorder
write_header status r =
    if r.wrote_header
    then r
    else if is_informational status
    then record r { sent = status ∷ r.sent }
    else record { sent = status ∷ r.sent; status = status; wrote_header = true }

-- Write, and FlushError, before the writer below goes on
unfoldable pub write : StatusRecorder → StatusRecorder
unfolding write_header
write r = if r.wrote_header then r else write_header 200 r

unfoldable pub flush_error : StatusRecorder → StatusRecorder
unfolding write_header
flush_error r = if r.wrote_header then r else write_header 200 r

-- The calls of a handler
pub data Call : Type 0 where
  header : ℕ → Call
  body flush : Call

abbrev pub call : Call → StatusRecorder → StatusRecorder
call (header status) r = write_header status r
call body r = write r
call flush r = flush_error r

abbrev pub calls : List Call → StatusRecorder → StatusRecorder
calls [] r = r
calls (c ∷ cs) r = calls cs (call c r)
