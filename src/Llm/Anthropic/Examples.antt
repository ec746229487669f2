-- ===== src/Llm/Anthropic/Examples.antt =====
-- The theorems on the Messages API at a concrete stream, with a decoder that knows just its events.
use yet_another_go_boilerpla.Base.{
  ◌≡◌, refl, true, Option, none, some, [], ◌∷◌, if◌then◌else◌, Text, lit, eq_text, ok, err, All,
}
use yet_another_go_boilerpla.Llm.Lines.{reading_failed}
use yet_another_go_boilerpla.Llm.Fake.{Usage, stop_end, collect}
use yet_another_go_boilerpla.Llm.Anthropic.Defs.{
  ApiEvent, stop_reason, respond_with, new_stream, proceed, add_event, add, read_stream,
}
use yet_another_go_boilerpla.Llm.Anthropic.Wire.{
  wire, IsFramed, run, after_events, read_stream-wire,
}
use yet_another_go_boilerpla.Llm.Anthropic.Answer.{answer, read_stream-answer}

abbrev no_usage : Usage
no_usage = record { input_tokens = 0; output_tokens = 0 }

abbrev event : Text → Text → Text → ApiEvent
event type text stop = record {
  type = type;
  message_usage = record { input_tokens = 9; output_tokens = 1 };
  delta_type = lit "text_delta";
  delta_text = text;
  delta_stop_reason = stop;
  usage = record { input_tokens = 0; output_tokens = 4 };
}

abbrev start_event : ApiEvent
start_event = event (lit "message_start") [] []

abbrev hello : ApiEvent
hello = event (lit "content_block_delta") (lit "Hello") []

abbrev ping : ApiEvent
ping = event (lit "ping") [] []

abbrev delta_event : ApiEvent
delta_event = event (lit "message_delta") [] (lit "end_turn")

abbrev stop_event : ApiEvent
stop_event = event (lit "message_stop") [] []

-- The type alone tells these events apart.
abbrev encode : ApiEvent → Text
encode e = e.type

abbrev decode : Text → Option ApiEvent
decode t =
    if eq_text t (lit "message_start")
    then some start_event
    else if eq_text t (lit "content_block_delta")
    then some hello
    else if eq_text t (lit "ping")
    then some ping
    else if eq_text t (lit "message_delta")
    then some delta_event
    else if eq_text t (lit "message_stop")
    then some stop_event
    else none

hello-IsFramed : IsFramed encode decode hello
hello-IsFramed = record {
  decodes = refl;
  type_in_line = refl;
  type_fits = refl;
  data_in_line = refl;
  data_fits = refl;
  data_ends = refl;
}

All-IsFramed :
    All
      (IsFramed encode decode)
      (answer start_event (hello ∷ ping ∷ hello ∷ []) delta_event stop_event)
All-IsFramed = (
  start_framed,
  (hello-IsFramed, (ping_framed, (hello-IsFramed, (delta_framed, (stop_framed, tt))))),
)
  where
    start_framed : IsFramed encode decode start_event
    start_framed = record {
      decodes = refl;
      type_in_line = refl;
      type_fits = refl;
      data_in_line = refl;
      data_fits = refl;
      data_ends = refl;
    }

    ping_framed : IsFramed encode decode ping
    ping_framed = record {
      decodes = refl;
      type_in_line = refl;
      type_fits = refl;
      data_in_line = refl;
      data_fits = refl;
      data_ends = refl;
    }

    delta_framed : IsFramed encode decode delta_event
    delta_framed = record {
      decodes = refl;
      type_in_line = refl;
      type_fits = refl;
      data_in_line = refl;
      data_fits = refl;
      data_ends = refl;
    }

    stop_framed : IsFramed encode decode stop_event
    stop_framed = record {
      decodes = refl;
      type_in_line = refl;
      type_fits = refl;
      data_in_line = refl;
      data_fits = refl;
      data_ends = refl;
    }

-- The end of the answer comes with the error of its read: the text is there, the response is not.
reading_fails :
    read_stream decode collect
      (record {
        bytes = wire encode (start_event ∷ []) [];
        failing = some (wire encode (hello ∷ delta_event ∷ stop_event ∷ []) []);
      })
      []
    ≡ (err reading_failed, lit "Hello")
unfolding add_event add read_stream
reading_fails = refl

read_stream-wire_example :
    read_stream decode collect
      (record { bytes = wire encode (hello ∷ []) (lit "event"); failing = some (lit ": ping") })
      []
    ≡ proceed
        (run collect (hello ∷ []) new_stream [])
        (after_events encode decode collect (lit "event") (lit ": ping") true)
read_stream-wire_example =
    read_stream-wire encode decode collect (hello ∷ []) (lit "event") (some (lit ": ping")) []
      (hello-IsFramed, tt)

read_stream-answer_example :
    read_stream decode collect
      (record {
        bytes =
            wire encode
              (answer start_event (hello ∷ ping ∷ hello ∷ []) delta_event stop_event)
              (lit "data: {");
        failing = some [];
      })
      []
    ≡ (
      respond_with
          (lit "HelloHello")
          (record { input_tokens = 9; output_tokens = 4 })
          (ok stop_end),
      lit "HelloHello",
    )
unfolding stop_reason
read_stream-answer_example =
    read_stream-answer encode decode start_event (hello ∷ ping ∷ hello ∷ []) delta_event stop_event
      (lit "data: {") (some []) All-IsFramed refl (refl, (refl, (refl, tt))) refl refl
