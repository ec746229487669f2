-- ===== src/Web/Stream/Defs.antt =====
-- internal/platform/web/sse.go. The stream is the text that reached the client, and what happens to the
-- next writes.
use yet_another_go_boilerpla.Base.{
  ℕ, Bool, false, ◌&&◌, ◌||◌, List, [], ◌∷◌, ◌++◌, map, ◌==◌, if◌then◌else◌, Outcome, ok, err, Text,
  lit, is_empty, contains, split, take,
}

-- A write and its flush: both work; the write fails after some bytes; the flush fails, and the bytes
-- before it, or some of them, arrive.
pub data Delivery : Type 0 where
  works : Delivery
  write_fails flush_fails : ℕ → Delivery

pub data SendError : Type 0 where
  line_break not_written not_flushed : SendError

pub record EventStream : Type 0 where
  pub sent : Text
  pub deliveries : List Delivery

abbrev starts_with : ℕ → Text → Bool
starts_with c [] = false
starts_with c (d ∷ s) = d == c

-- strings.ReplaceAll of CRLF by LF: each CR before an LF goes away.
unfoldable pub replace_crlf : Text → Text
replace_crlf [] = []
replace_crlf (c ∷ s) =
    let rest = replace_crlf s in if c == 13 && starts_with 10 s then rest else c ∷ rest

-- strings.ReplaceAll of CR by LF
unfoldable pub replace_cr : Text → Text
replace_cr [] = []
replace_cr (c ∷ s) = (if c == 13 then 10 else c) ∷ replace_cr s

-- The line breaks of data as Send writes them.
abbrev pub with_lf : Text → Text
with_lf s = replace_cr (replace_crlf s)

-- Each line, and a line break after it.
abbrev pub unlines : List Text → Text
unlines [] = []
unlines (l ∷ ls) = l ++ 10 ∷ unlines ls

abbrev pub event_line : Text → List Text
event_line event = if is_empty event then [] else (lit "event: " ++ event) ∷ []

abbrev pub data_line : Text → Text
data_line line = lit "data: " ++ line

abbrev pub lines_of : Text → Text → List Text
lines_of event text = event_line event ++ map data_line (split 10 (with_lf text))

-- The text that Send builds.
unfoldable pub event_text : Text → Text → Text
event_text event text = unlines (lines_of event text) ++ 10 ∷ []

abbrev pub later : List Delivery → List Delivery
later [] = []
later (d ∷ ds) = ds

abbrev pub next_delivery : List Delivery → Delivery
next_delivery [] = works
next_delivery (d ∷ ds) = d

abbrev pub deliver : Text → Delivery → EventStream → Outcome {0, 0} SendError Unit × EventStream
deliver text works s = (ok tt, record { sent = s.sent ++ text; deliveries = later s.deliveries })
deliver text (write_fails n) s =
    (err not_written, record { sent = s.sent ++ take n text; deliveries = later s.deliveries })
deliver text (flush_fails n) s =
    (err not_flushed, record { sent = s.sent ++ take n text; deliveries = later s.deliveries })

-- EventStream.Send
unfoldable pub send : Text → Text → EventStream → Outcome {0, 0} SendError Unit × EventStream
unfolding event_text
send event text s =
    if contains 13 event || contains 10 event
    then (err line_break, s)
    else deliver (event_text event text) (next_delivery s.deliveries) s
