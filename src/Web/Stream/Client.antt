-- ===== src/Web/Stream/Client.antt =====
-- internal/platform/web/static/app.js: the functions that read an event stream in the browser. Texts are
-- their UTF-8 bytes: the parser looks at ASCII characters only. TextDecoderStream, which leaves valid
-- UTF-8 as it is, is the identity here; what it puts in place of invalid bytes is not modelled.
use yet_another_go_boilerpla.Base.{
  ℕ, zero, suc, Bool, true, false, ◌&&◌, Option, none, some, List, [], ◌∷◌, ◌++◌, ◌==◌,
  if◌then◌else◌, Text, lit, eq_text, cut, split, length,
}

pub record Event : Type 0 where
  pub type : Text
  pub text : Text

-- data.join("\n")
abbrev pub joined : List Text → Text
joined [] = []
joined (l ∷ []) = l
joined (l ∷ m ∷ ls) = l ++ 10 ∷ joined (m ∷ ls)

-- The type, and the data lines so far.
pub record Fields : Type 0 where
  pub type : Text
  pub lines : List Text

-- The space that the format allows after the colon
abbrev pub without_space : Text → Text
without_space [] = []
without_space (c ∷ s) = if c == 32 then s else c ∷ s

abbrev pub set_field : Text → Text → Fields → Fields
set_field field value f =
    if eq_text field (lit "event")
    then record f { type = value }
    else if eq_text field (lit "data")
    then record f { lines = f.lines ++ value ∷ [] }
    else f

abbrev pub read_cut : Text → Option (Text × Text) → Fields → Fields
read_cut line none f = set_field line [] f
read_cut line (some (field, value)) f = set_field field (without_space value) f

-- The loop of parseEvent over the lines of a block.
unfoldable pub read_lines : List Text → Fields → Fields
read_lines [] f = f
read_lines (line ∷ ls) f = read_lines ls (read_cut line (cut 58 line) f)

abbrev pub event_of : Fields → Event
event_of f = record { type = f.type; text = joined f.lines }

-- parseEvent
unfoldable pub parse_event : Text → Event
unfolding read_lines
parse_event block =
    event_of (read_lines (split 10 block) (record { type = lit "message"; lines = [] }))

abbrev pub push_front : ℕ → Option (Text × Text) → Option (Text × Text)
push_front c none = none
push_front c (some (a, b)) = some (c ∷ a, b)

-- buffer.indexOf("\n\n"), with the two slices of the buffer
abbrev pub cut_blank : Text → Option (Text × Text)
cut_blank [] = none
cut_blank (c ∷ []) = none
cut_blank (c ∷ d ∷ s) =
    if c == 10 && d == 10 then some ([], s) else push_front c (cut_blank (d ∷ s))

abbrev pub yield_block :
    Option (Text × Text) → Text → (Text → List Event × Text) → List Event × Text
yield_block none buffer go = ([], buffer)
yield_block (some (block, rest)) buffer go =
    let (es, end) = go rest in (parse_event block ∷ es, end)

-- The inner loop of readEvents, on fuel: its events, and the buffer after it.
unfoldable pub drain : ℕ → Text → List Event × Text
unfolding parse_event
drain zero buffer = ([], buffer)
drain (suc fuel) buffer = yield_block (cut_blank buffer) buffer (drain fuel)

-- readEvents, from a buffer, over the values that the reader gives; the length of the buffer is fuel
-- enough.
unfoldable pub read_events : Text → List Text → List Event
unfolding drain
read_events buffer [] = []
read_events buffer (value ∷ values) =
    let (es, rest) = drain (length (buffer ++ value)) (buffer ++ value) in
    es ++ read_events rest values

-- What readAnswer leaves: the text of the output, the error shown, and its result.
pub record Shown : Type 0 where
  pub output : Text
  pub error : Option Text
  pub ended : Bool

abbrev pub append_output : Text → Shown → Shown
append_output t s = record s { output = t ++ s.output }

-- readAnswer
unfoldable pub read_answer : List Event → Shown
read_answer [] = record { output = []; error = none; ended = false }
read_answer (e ∷ es) =
    let rest = read_answer es in
    if eq_text e.type (lit "delta")
    then append_output e.text rest
    else if eq_text e.type (lit "error")
    then record { output = []; error = some e.text; ended = true }
    else if eq_text e.type (lit "done")
    then record { output = []; error = none; ended = true }
    else rest
