-- ===== src/Chat/Shown.antt =====
-- internal/chat/http.go, sse.go and app.js: what the browser shows for a question.
use yet_another_go_boilerpla.Base.{
  ◌≡◌, refl, ap, sym, ◌∙◌, true, false, Option, none, some, List, [], ◌∷◌, ◌++◌, Outcome, ok, err,
  Text, lit, All, contains,
}
use yet_another_go_boilerpla.Llm.Fake.{Request, Response, join, append_nil, append_assoc}
use yet_another_go_boilerpla.Web.Stream.Defs.{with_lf, EventStream, event_text, send}
use yet_another_go_boilerpla.Web.Stream.Client.{Shown, append_output, read_events, read_answer}
use yet_another_go_boilerpla.Web.Stream.Chunks.{event_texts, all_received, read_events-event_texts}
use yet_another_go_boilerpla.Chat.Defs.{
  Provider, called, stream, stream_request, request, run_script, stream_answer, end_stream,
  reason_text,
}

-- The parts of an answer, with their line breaks as LF.
abbrev pub text_of : List Text → Text
text_of [] = []
text_of (part ∷ parts) = with_lf part ++ text_of parts

-- What the user is to see: the whole answer; or what came of it, and an error.
abbrev pub generic_error : Text
generic_error = lit "the answer failed, try again"

abbrev pub error_shown : {E : Type 0} → Outcome E Response → Option Text
error_shown (ok resp) = none
error_shown (err e) = some generic_error

abbrev pub shown_result : {E : Type 0} → List Text → Outcome E Response → Shown
shown_result parts result = record {
  output = text_of parts;
  error = error_shown result;
  ended = true;
}

abbrev pub shown : {E : Type 0} → Provider E → Outcome Text Request → Shown
shown provider (ok req) = shown_result (provider req).parts (provider req).result
shown provider (err message) = record { output = []; error = some (with_lf message); ended = true }

generic_error-with_lf : with_lf generic_error ≡ generic_error
unfolding yet_another_go_boilerpla.Web.Stream.Defs.replace_cr
    yet_another_go_boilerpla.Web.Stream.Defs.replace_crlf
generic_error-with_lf = refl

abbrev pub quiet : Text → EventStream
quiet t = record { sent = t; deliveries = [] }

-- The events of an answer: its parts, and its end.
abbrev end_event : {E : Type 0} → Outcome E Response → Text × Text
end_event (ok resp) = (lit "done", reason_text resp.stop_reason)
end_event (err e) = (lit "error", generic_error)

abbrev events_of : {E : Type 0} → List Text → Outcome E Response → List (Text × Text)
events_of [] result = end_event result ∷ []
events_of (part ∷ parts) result = (lit "delta", part) ∷ events_of parts result

abbrev all_events : {E : Type 0} → Provider E → Outcome Text Request → List (Text × Text)
all_events provider (ok req) = events_of (provider req).parts (provider req).result
all_events provider (err message) = (lit "error", message) ∷ []

abbrev NoBreak : Text × Text → Type 0
NoBreak e = contains 10 e.0 ≡ false

module _ {E : Type 0} (provider : Provider E) (model : Text) where
  end_event-NoBreak : (result : Outcome E Response) → NoBreak (end_event result)
  end_event-NoBreak (ok resp) = refl
  end_event-NoBreak (err e) = refl

  events_of-NoBreak :
      (parts : List Text) (result : Outcome E Response) → All NoBreak (events_of parts result)
  events_of-NoBreak [] result = (end_event-NoBreak result, tt)
  events_of-NoBreak (part ∷ parts) result = (refl, events_of-NoBreak parts result)

  all_events-NoBreak : (r : Outcome Text Request) → All NoBreak (all_events provider r)
  all_events-NoBreak (ok req) = events_of-NoBreak (provider req).parts (provider req).result
  all_events-NoBreak (err message) = (refl, tt)

  run_script-quiet :
      (parts : List Text) (result : Outcome E Response) (t : Text)
      → (end_stream provider model
          (called (run_script (send (lit "delta")) parts result (quiet t)))).1.sent
        ≡ t ++ event_texts (events_of parts result)
  unfolding run_script send end_stream
  run_script-quiet [] (ok resp) t = ap (λ u. t ++ u) (sym (append_nil _))
  run_script-quiet [] (err e) t = ap (λ u. t ++ u) (sym (append_nil _))
  run_script-quiet (part ∷ parts) result t =
      run_script-quiet parts result (t ++ event_text (lit "delta") part)
      ∙ append_assoc t (event_text (lit "delta") part) (event_texts (events_of parts result))

  stream_request-sent :
      (r : Outcome Text Request)
      → (end_stream provider model
          (stream_request provider model (send (lit "delta")) r (quiet []))).1.sent
        ≡ event_texts (all_events provider r)
  unfolding stream_request end_stream send
  stream_request-sent (ok req) = run_script-quiet (provider req).parts (provider req).result []
  stream_request-sent (err message) = sym (append_nil _)

  stream_answer-sent :
      (question : Text)
      → (stream_answer provider model true question (quiet [])).1.sent
        ≡ event_texts (all_events provider (request model question))
  unfolding stream_answer stream end_stream send
  stream_answer-sent question = stream_request-sent (request model question)

  read_answer-events_of :
      (parts : List Text) (result : Outcome E Response)
      → read_answer (all_received (events_of parts result)) ≡ shown_result parts result
  unfolding read_answer
  read_answer-events_of [] (ok resp) = refl
  read_answer-events_of [] (err e) =
      ap (λ t. record { output = []; error = some t; ended = true }) generic_error-with_lf
  read_answer-events_of (part ∷ parts) result =
      ap (append_output (with_lf part)) (read_answer-events_of parts result)

  read_answer-all_events :
      (r : Outcome Text Request)
      → read_answer (all_received (all_events provider r)) ≡ shown provider r
  unfolding read_answer
  read_answer-all_events (ok req) = read_answer-events_of (provider req).parts (provider req).result
  read_answer-all_events (err message) = refl

  -- What the browser shows for a question, when the stream opens and no write fails, wherever the
  -- network cuts the body: the parts of the answer in their order, with LF line breaks, and an error
  -- just where the call failed; for a question that the service rejects, its message. The browser
  -- never takes a complete stream for one that stopped early.
  pub stream_answer-shown :
      (question : Text) (values : List Text)
      → join values ≡ (stream_answer provider model true question (quiet [])).1.sent
      → read_answer (read_events [] values) ≡ shown provider (request model question)
  stream_answer-shown question values e =
      ap read_answer (
        read_events-event_texts (all_events provider (request model question)) values
          (all_events-NoBreak (request model question)) (e ∙ stream_answer-sent question))
      ∙ read_answer-all_events (request model question)
