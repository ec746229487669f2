-- ===== src/Chat/Defs.antt =====
-- internal/chat/service.go and http.go, and the interface Provider of internal/platform/llm/llm.go. The
-- time limit of the model call is a failure of the provider.
use yet_another_go_boilerpla.Base.{
  ℕ, Bool, true, false, not, ◌||◌, Option, none, some, List, [], ◌∷◌, ltb, if◌then◌else◌, Outcome,
  ok, err, Text, lit, is_empty, contains, valid_string, trim_space, rune_count,
}
use yet_another_go_boilerpla.Llm.Fake.{
  Role, Request, Response, StopReason, stop_end, stop_max_tokens, stop_refusal,
}
use yet_another_go_boilerpla.Web.Stream.Defs.{SendError, EventStream, send}

-- What a provider gives to onText, in order, and what it returns then.
pub record Script (E : Type 0) : Type 0 where
  pub parts : List Text
  pub result : Outcome E Response

abbrev pub Provider : Type 0 → Type 0
Provider E = Request → Script E

-- An error of the provider, or that of onText.
pub data CallError (E : Type 0) : Type 0 where
  failed : E → CallError E
  refused : SendError → CallError E

abbrev pub returned : {E : Type 0} → Outcome E Response → Outcome (CallError E) Response
returned (ok r) = ok r
returned (err e) = err (failed e)

module _ {E S : Type 0} (on_text : Text → S → Outcome {0, 0} SendError Unit × S) where
  abbrev pub pass_on :
      Outcome {0, 0} SendError Unit
      → S
      → Outcome (CallError E) Response × S
      → Outcome (CallError E) Response × S
  pass_on (ok u) s rest = rest
  pass_on (err e) s rest = (err (refused e), s)

  -- Provider.Stream: an error of onText ends the call.
  unfoldable pub run_script :
      List Text → Outcome E Response → S → Outcome (CallError E) Response × S
  run_script [] result s = (returned result, s)
  run_script (part ∷ parts) result s =
      let (r, s') = on_text part s in let rest = run_script parts result s' in pass_on r s' rest

-- ValidationError, or an error of the call
pub data Error (E : Type 0) : Type 0 where
  validation_error : Text → Error E
  call_error : CallError E → Error E

abbrev pub max_question_length : ℕ
max_question_length = 2000

abbrev pub max_answer_tokens : ℕ
max_answer_tokens = 4096

abbrev pub system_prompt : Text
system_prompt = lit "You are a helpful assistant in a web app. Answer briefly, in plain text."

-- Service.request, for a service of `model`
unfoldable pub request : Text → Text → Outcome Text Request
request model question =
    let trimmed = trim_space question in
    if not (valid_string question) || contains 0 question
    then err (lit "question must contain valid text")
    else if is_empty trimmed
    then err (lit "question must not be empty")
    else if ltb max_question_length (rune_count trimmed)
    then err (lit "question must be at most 2000 characters")
    else ok (record {
      model = model;
      system = system_prompt;
      messages = record { role = Role.user; text = trimmed } ∷ [];
      max_tokens = max_answer_tokens;
    })

-- string(resp.StopReason)
abbrev pub reason_text : StopReason → Text
reason_text stop_end = lit "end"
reason_text stop_max_tokens = lit "max_tokens"
reason_text stop_refusal = lit "refusal"

abbrev pub called :
    {E S : Type 0} → Outcome (CallError E) Response × S → Outcome (Error E) Response × S
called (ok r, s) = (ok r, s)
called (err e, s) = (err (call_error e), s)

module _ {E : Type 0} (provider : Provider E) (model : Text) where
  unfoldable pub stream_request :
      {S : Type 0}
      → (Text → S → Outcome {0, 0} SendError Unit × S)
      → Outcome Text Request
      → S
      → Outcome (Error E) Response × S
  unfolding run_script
  stream_request on_text (err message) s = (err (validation_error message), s)
  stream_request on_text (ok req) s =
      called (run_script on_text (provider req).parts (provider req).result s)

  -- Service.Stream
  unfoldable pub stream :
      {S : Type 0}
      → (Text → S → Outcome {0, 0} SendError Unit × S)
      → Text
      → S
      → Outcome (Error E) Response × S
  unfolding stream_request request
  stream on_text question s = stream_request on_text (request model question) s

  abbrev accept_all : Text → Unit {0} → Outcome {0, 0} SendError Unit × Unit {0}
  accept_all text u = (ok tt, u)

  -- Service.Answer, with llm.Generate
  unfoldable pub answer : Text → Outcome (Error E) Response
  unfolding stream
  answer question = (stream accept_all question tt).0

  -- What a handler returns to web.E: nil, or its error.
  pub data Failure : Type 0 where
    bad_form not_opened : Failure
    not_sent : SendError → Failure
    model_failed : CallError E → Failure

  abbrev pub sent : Outcome {0, 0} SendError Unit × EventStream → Option Failure × EventStream
  sent (ok u, s) = (none, s)
  sent (err e, s) = (some (not_sent e), s)

  -- streamAnswer after Service.Stream
  unfoldable pub end_stream :
      Outcome (Error E) Response × EventStream → Option Failure × EventStream
  unfolding send
  end_stream (ok resp, s) = sent (send (lit "done") (reason_text resp.stop_reason) s)
  end_stream (err (validation_error message), s) = sent (send (lit "error") message s)
  end_stream (err (call_error e), s) =
      (some (model_failed e), (send (lit "error") (lit "the answer failed, try again") s).1)

  -- streamAnswer; `opens` says that NewEventStream works
  unfoldable pub stream_answer : Bool → Text → EventStream → Option Failure × EventStream
  unfolding send stream end_stream
  stream_answer false question s = (some not_opened, s)
  stream_answer true question s = end_stream (stream (send (lit "delta")) question s)

  -- The data of the page, without the title and the model.
  pub record ChatData : Type 0 where
    pub question : Text
    pub answer : Text
    pub error : Text

  -- The chat section or the full page, with a status; or the error that goes to web.E.
  pub data Answer : Type 0 where
    fragment page : ℕ → ChatData → Answer
    fails : Failure → Answer

  -- renderChat
  abbrev pub render_chat : Bool → ℕ → ChatData → Answer
  render_chat is_htmx status d = if is_htmx then fragment status d else page status d

  abbrev pub render_result : Bool → Text → Outcome (Error E) Response → Answer
  render_result is_htmx question (ok resp) =
      render_chat is_htmx 200 (record { question = question; answer = resp.text; error = [] })
  render_result is_htmx question (err (validation_error message)) =
      render_chat is_htmx 422 (record { question = question; answer = []; error = message })
  render_result is_htmx question (err (call_error e)) = fails (model_failed e)

  -- renderAnswer; `opens` says that RemoveWriteDeadline works
  unfoldable pub render_answer : Bool → Bool → Text → Answer
  unfolding answer
  render_answer opens is_htmx question =
      if opens then render_result is_htmx question (answer question) else fails not_opened

  -- What the client gets: a page, or an event stream and what web.E logs.
  pub data Reply : Type 0 where
    rendered : Answer → Reply
    streamed : Option Failure × EventStream → Reply

  -- handleAsk
  unfoldable pub handle_ask : Bool → Bool → Bool → Bool → Text → EventStream → Reply
  unfolding stream_answer render_answer
  handle_ask malformed wants_stream opens is_htmx question s =
      if malformed
      then rendered (fails bad_form)
      else if wants_stream
      then streamed (stream_answer opens question s)
      else rendered (render_answer opens is_htmx question)
