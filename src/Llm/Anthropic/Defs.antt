-- ===== src/Llm/Anthropic/Defs.antt =====
-- internal/platform/llm/anthropic/anthropic.go. `decode` stands for json.Unmarshal into an apiEvent,
-- and `send` for the HTTP call with the marshalled body: the status and the body of the response, or
-- `none` for an error. Token counts are numbers from zero on.
use yet_another_go_boilerpla.Base.{
  ℕ, max, Bool, true, false, not, ◌&&◌, ◌||◌, Option, none, some, List, [], ◌∷◌, ◌++◌, ◌==◌,
  if◌then◌else◌, Text, lit, eq_text, is_empty, trim_suffix, Outcome, ok, err,
}
use yet_another_go_boilerpla.Llm.Fake.{
  Role, Message, Request, StopReason, stop_end, stop_max_tokens, stop_refusal, Usage, Response,
}
use yet_another_go_boilerpla.Llm.Lines.{
  ProviderError, unknown_role, request_failed, reading_failed, bad_data, error_event,
  on_text_failed, no_stop_reason, unexpected_stop_reason, bad_status, Body, is_broken, lines, scan,
  is_too_long, data_of,
}

pub record Provider : Type 0 where
  pub endpoint : Text
  pub api_key : Text

-- New
unfoldable pub new_provider : Text → Text → Provider
new_provider base_url api_key = record {
  endpoint = trim_suffix 47 base_url ++ lit "/v1/messages";
  api_key = api_key;
}

pub record ApiMessage : Type 0 where
  pub role : Text
  pub content : Text

pub record ApiRequest : Type 0 where
  pub model : Text
  pub max_tokens : ℕ
  pub system : Text
  pub messages : List ApiMessage
  pub stream : Bool

pub record ApiEvent : Type 0 where
  pub type : Text
  pub message_usage : Usage
  pub delta_type : Text
  pub delta_text : Text
  pub delta_stop_reason : Text
  pub usage : Usage

abbrev pub role_name : Role → Option Text
role_name Role.user = some (lit "user")
role_name Role.assistant = some (lit "assistant")
role_name (Role.other t) = none

abbrev pub push_message :
    Message → Option Text → Option (List ApiMessage) → Option (List ApiMessage)
push_message m none rest = none
push_message m (some role) none = none
push_message m (some role) (some rest) = some (record { role = role; content = m.text } ∷ rest)

abbrev pub api_messages : List Message → Option (List ApiMessage)
api_messages [] = some []
api_messages (m ∷ ms) = push_message m (role_name m.role) (api_messages ms)

-- newRequestBody, before json.Marshal
unfoldable pub new_request_body : Request → Outcome ProviderError ApiRequest
new_request_body req = elim (api_messages req.messages) [
  | none ↦ err unknown_role
  | some messages ↦ ok (record {
    model = req.model;
    max_tokens = req.max_tokens;
    system = req.system;
    messages = messages;
    stream = true;
  })
]

pub record Stream : Type 0 where
  pub text : Text
  pub stop : Text
  pub usage : Usage
  pub done : Bool

abbrev pub new_stream : Stream
new_stream = record {
  text = [];
  stop = [];
  usage = record { input_tokens = 0; output_tokens = 0 };
  done = false;
}

-- stopReason
unfoldable pub stop_reason : Text → Outcome ProviderError StopReason
stop_reason reason =
    if eq_text reason (lit "end_turn") || eq_text reason (lit "stop_sequence")
    then ok stop_end
    else if eq_text reason (lit "max_tokens")
        || eq_text reason (lit "model_context_window_exceeded")
    then ok stop_max_tokens
    else if eq_text reason (lit "refusal")
    then ok stop_refusal
    else if is_empty reason
    then err no_stop_reason
    else err unexpected_stop_reason

abbrev pub respond_with :
    Text → Usage → Outcome ProviderError StopReason → Outcome ProviderError Response
respond_with text usage (err e) = err e
respond_with text usage (ok reason) =
    ok (record { text = text; stop_reason = reason; usage = usage })

-- stream.response
unfoldable pub response : Stream → Outcome ProviderError Response
response st = respond_with st.text st.usage (stop_reason st.stop)

-- The usage after message_delta.
abbrev pub total_usage : Usage → Usage → Usage
total_usage before totals = record {
  input_tokens = max before.input_tokens totals.input_tokens;
  output_tokens = totals.output_tokens;
}

-- What happens after the loop of readStream; `failed` says that the scanner has an error.
abbrev pub conclude : Bool → Stream → Outcome ProviderError Response
conclude failed st = if failed then err reading_failed else response st

module _ {ℓ} {S : Type ℓ} (on_text : Text → S → Bool × S) where
  -- The text of a delta goes into the stream and to onText.
  abbrev pub add_text : Text → Stream → S → Outcome ProviderError Stream × S
  add_text t st s =
      let (accepted, s') = on_text t s in
      (if accepted then ok (record st { text = st.text ++ t }) else err on_text_failed, s')

  unfoldable pub add_event : ApiEvent → Stream → S → Outcome ProviderError Stream × S
  add_event e st s =
      if eq_text e.type (lit "message_start")
      then (ok (record st { usage = e.message_usage }), s)
      else if eq_text e.type (lit "content_block_delta")
      then (if not (eq_text e.delta_type (lit "text_delta")) || is_empty e.delta_text
          then (ok st, s)
          else add_text e.delta_text st s)
      else if eq_text e.type (lit "message_delta")
      then (ok (record st { stop = e.delta_stop_reason; usage = total_usage st.usage e.usage }), s)
      else if eq_text e.type (lit "message_stop")
      then (ok (record st { done = true }), s)
      else if eq_text e.type (lit "error")
      then (err error_event, s)
      else (ok st, s)

  abbrev pub add_decoded : Option ApiEvent → Stream → S → Outcome ProviderError Stream × S
  add_decoded none st s = (err bad_data, s)
  add_decoded (some e) st s = add_event e st s

-- An error ends the reading.
abbrev pub proceed {ℓ} :
    {S : Type ℓ} {A : Type 0}
    → Outcome ProviderError Stream × S
    → (Stream → S → Outcome ProviderError A × S)
    → Outcome ProviderError A × S
proceed (err e, s) next = (err e, s)
proceed (ok st, s) next = next st s

module _ {ℓ} {S : Type ℓ} (decode : Text → Option ApiEvent) (on_text : Text → S → Bool × S) where
  -- stream.add
  unfoldable pub add : Text → Stream → S → Outcome ProviderError Stream × S
  unfolding add_event
  add text st s = add_decoded on_text (decode text) st s

  -- The loop of readStream, with the error of the scanner after it. `failed` says that the scanner has
  -- an error already, when it gave the last line: it has where the line feed of this line came with a
  -- read that failed, or after it.
  unfoldable pub read_lines :
      List (Text × Bool) → Bool → Bool → Stream → S → Outcome ProviderError Response × S
  read_lines [] broken failed st s = (conclude (if st.done then failed else broken) st, s)
  read_lines ((l, early) ∷ ls) broken failed st s =
      let next = read_lines ls broken (not early && broken) in
      if st.done
      then (conclude failed st, s)
      else if is_too_long l
      then (err reading_failed, s)
      else elim (data_of l) [ none ↦ next st s | some d ↦ proceed (add d st s) next ]

  -- readStream
  unfoldable pub read_stream : Body → S → Outcome ProviderError Response × S
  unfolding read_lines scan
  read_stream body s = read_lines (lines body) (is_broken body.failing) false new_stream s

  abbrev pub answered : Option (ℕ × Body) → S → Outcome ProviderError Response × S
  answered none s = (err request_failed, s)
  answered (some (status, body)) s =
      if status == 200 then read_stream body s else (err (bad_status status), s)

  -- Provider.Stream
  unfoldable pub stream :
      (ApiRequest → Option (ℕ × Body)) → Request → S → Outcome ProviderError Response × S
  unfolding new_request_body read_stream
  stream send req s = elim (new_request_body req) [
    | err e ↦ (err e, s)
    | ok body ↦ answered (send body) s
  ]
