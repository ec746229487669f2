-- ===== src/Llm/ChatCompletions/Defs.antt =====
-- internal/platform/llm/chatcompletions/chatcompletions.go. Json holds the three uses of
-- json.Unmarshal, and `send` stands for the HTTP call with the marshalled body: the status and the body
-- of the response, or `none` for an error. Token counts are numbers from zero on.
use yet_another_go_boilerpla.Base.{
  ℕ, Bool, true, false, not, ◌&&◌, ◌||◌, Option, none, some, List, [], ◌∷◌, ◌++◌, ◌==◌,
  if◌then◌else◌, Text, lit, eq_text, is_empty, trim_suffix, Outcome, ok, err,
}
use yet_another_go_boilerpla.Llm.Fake.{
  Role, Message, Request, StopReason, stop_end, stop_max_tokens, stop_refusal, Usage, Response,
}
use yet_another_go_boilerpla.Llm.Lines.{
  ProviderError, unknown_role, request_failed, reading_failed, bad_data, error_event,
  on_text_failed, no_stop_reason, unexpected_stop_reason, bad_status, Body, is_broken, lines, scan,
  is_too_long, data_of,
}

pub record Provider : Type 0 where
  pub endpoint : Text
  pub api_key : Text
  pub stream_usage : Bool

-- New
unfoldable pub new_provider : Text → Text → Provider
new_provider base_url api_key = record {
  endpoint = trim_suffix 47 base_url ++ lit "/chat/completions";
  api_key = api_key;
  stream_usage = false;
}

pub record ApiMessage : Type 0 where
  pub role : Text
  pub content : Text

-- `stream_options` is the option include_usage, if it is sent.
pub record ApiRequest : Type 0 where
  pub model : Text
  pub messages : List ApiMessage
  pub max_tokens : ℕ
  pub stream : Bool
  pub stream_options : Option Bool

-- A choice of a chunk; `content` is raw JSON, empty where the field is missing.
pub record ApiChoice : Type 0 where
  pub content : Text
  pub finish_reason : Text

pub record ApiChunk : Type 0 where
  pub choices : List ApiChoice
  pub usage : Option Usage
  pub error : Text

pub record ApiPart : Type 0 where
  pub type : Text
  pub text : Text

pub record Json : Type 0 where
  pub chunk : Text → Option ApiChunk
  pub string : Text → Option Text
  pub parts : Text → Option (List ApiPart)

abbrev pub role_name : Role → Option Text
role_name Role.user = some (lit "user")
role_name Role.assistant = some (lit "assistant")
role_name (Role.other t) = none

abbrev pub push_message :
    Message → Option Text → Option (List ApiMessage) → Option (List ApiMessage)
push_message m none rest = none
push_message m (some role) none = none
push_message m (some role) (some rest) = some (record { role = role; content = m.text } ∷ rest)

abbrev pub api_messages : List Message → Option (List ApiMessage)
api_messages [] = some []
api_messages (m ∷ ms) = push_message m (role_name m.role) (api_messages ms)

abbrev pub with_system : Text → List ApiMessage → List ApiMessage
with_system system messages =
    if is_empty system
    then messages
    else record { role = lit "system"; content = system } ∷ messages

-- newRequestBody, before json.Marshal
unfoldable pub new_request_body : Provider → Request → Outcome ProviderError ApiRequest
new_request_body p req = elim (api_messages req.messages) [
  | none ↦ err unknown_role
  | some messages ↦ ok (record {
    model = req.model;
    messages = with_system req.system messages;
    max_tokens = req.max_tokens;
    stream = true;
    stream_options = if p.stream_usage then some true else none;
  })
]

pub record Stream : Type 0 where
  pub text : Text
  pub finish : Text
  pub usage : Usage

abbrev pub new_stream : Stream
new_stream = record {
  text = [];
  finish = [];
  usage = record { input_tokens = 0; output_tokens = 0 };
}

-- stopReason
unfoldable pub stop_reason : Text → Outcome ProviderError StopReason
stop_reason reason =
    if eq_text reason (lit "stop")
    then ok stop_end
    else if eq_text reason (lit "length") || eq_text reason (lit "model_length")
    then ok stop_max_tokens
    else if eq_text reason (lit "content_filter")
    then ok stop_refusal
    else if is_empty reason
    then err no_stop_reason
    else err unexpected_stop_reason

abbrev pub respond_with :
    Text → Usage → Outcome ProviderError StopReason → Outcome ProviderError Response
respond_with text usage (err e) = err e
respond_with text usage (ok reason) =
    ok (record { text = text; stop_reason = reason; usage = usage })

-- stream.response
unfoldable pub response : Stream → Outcome ProviderError Response
response st = respond_with st.text st.usage (stop_reason st.finish)

abbrev pub is_null : Text → Bool
is_null raw = is_empty raw || eq_text raw (lit "null")

abbrev pub starts_with : ℕ → Text → Bool
starts_with c [] = false
starts_with c (d ∷ s) = d == c

abbrev pub text_of_parts : List ApiPart → Text
text_of_parts [] = []
text_of_parts (p ∷ ps) =
    if eq_text p.type (lit "text") then p.text ++ text_of_parts ps else text_of_parts ps

abbrev pub or_bad {ℓ} : {A : Type ℓ} → (A → Text) → Option A → Outcome ProviderError Text
or_bad f none = err bad_data
or_bad f (some a) = ok (f a)

abbrev pub usage_after : Stream → Option Usage → Stream
usage_after st none = st
usage_after st (some usage) = record st { usage = usage }

abbrev pub finish_after : Stream → Text → Stream
finish_after st reason = if is_empty reason then st else record st { finish = reason }

-- An error ends the reading.
abbrev pub proceed {ℓ} :
    {S : Type ℓ} {A : Type 0}
    → Outcome ProviderError Stream × S
    → (Stream → S → Outcome ProviderError A × S)
    → Outcome ProviderError A × S
proceed (err e, s) next = (err e, s)
proceed (ok st, s) next = next st s

module _ {ℓ} {S : Type ℓ} (json : Json) (on_text : Text → S → Bool × S) where
  -- deltaText
  unfoldable pub delta_text : Text → Outcome ProviderError Text
  delta_text content =
      if is_null content
      then ok []
      else if starts_with 34 content
      then or_bad (λ t. t) (json.string content)
      else or_bad text_of_parts (json.parts content)

  -- The text of a delta goes into the stream and to onText.
  abbrev pub add_text : Outcome ProviderError Text → Stream → S → Outcome ProviderError Stream × S
  add_text (err e) st s = (err e, s)
  add_text (ok t) st s =
      let (accepted, s') = on_text t s in
      if is_empty t
      then (ok st, s)
      else (if accepted then ok (record st { text = st.text ++ t }) else err on_text_failed, s')

  abbrev pub add_choices : List ApiChoice → Stream → S → Outcome ProviderError Stream × S
  add_choices [] st s = (ok st, s)
  add_choices (choice ∷ more) st s =
      add_text (delta_text choice.content) (finish_after st choice.finish_reason) s

  abbrev pub add_chunk : Option ApiChunk → Stream → S → Outcome ProviderError Stream × S
  add_chunk none st s = (err bad_data, s)
  add_chunk (some chunk) st s =
      if is_null chunk.error
      then add_choices chunk.choices (usage_after st chunk.usage) s
      else (err error_event, s)

  -- stream.add
  unfoldable pub add : Text → Stream → S → Outcome ProviderError Stream × S
  unfolding delta_text
  add text st s = add_chunk (json.chunk text) st s

  -- What happens after the loop of readStream; `failed` says that the scanner has an error.
  abbrev pub conclude : Bool → Stream → Outcome ProviderError Response
  conclude failed st = if failed then err reading_failed else response st

  -- The loop of readStream, with the error of the scanner after it. The scanner has an error already
  -- when it gives a line whose line feed came with a read that failed, or after it.
  unfoldable pub read_lines :
      List (Text × Bool) → Bool → Stream → S → Outcome ProviderError Response × S
  read_lines [] broken st s = (conclude broken st, s)
  read_lines ((l, early) ∷ ls) broken st s =
      let next = read_lines ls broken in
      if is_too_long l then (err reading_failed, s) else elim (data_of l) [
        | none ↦ next st s
        | some d ↦
            if eq_text d (lit "[DONE]")
            then (conclude (not early && broken) st, s)
            else proceed (add d st s) next
      ]

  -- readStream
  unfoldable pub read_stream : Body → S → Outcome ProviderError Response × S
  unfolding read_lines scan
  read_stream body s = read_lines (lines body) (is_broken body.failing) new_stream s

  abbrev pub answered : Option (ℕ × Body) → S → Outcome ProviderError Response × S
  answered none s = (err request_failed, s)
  answered (some (status, body)) s =
      if status == 200 then read_stream body s else (err (bad_status status), s)

  abbrev pub send_body :
      (ApiRequest → Option (ℕ × Body))
      → S
      → Outcome ProviderError ApiRequest
      → Outcome ProviderError Response × S
  send_body send s (err e) = (err e, s)
  send_body send s (ok body) = answered (send body) s

  -- Provider.Stream
  unfoldable pub stream :
      (ApiRequest → Option (ℕ × Body)) → Provider → Request → S → Outcome ProviderError Response × S
  unfolding new_request_body read_stream
  stream send p req s = send_body send s (new_request_body p req)
