-- ===== src/Llm/Anthropic/Answer.antt =====
-- A complete answer of the Messages API, from its events on the wire to the response.
use yet_another_go_boilerpla.Base.{
  ◌≡◌, refl, ap, ◌∙◌, Bool, true, false, not, ◌&&◌, Option, List, [], ◌∷◌, ◌++◌, arith,
  if◌then◌else◌, Text, lit, eq_text, eq_text→eq, is_empty, ok, All,
}
use yet_another_go_boilerpla.Llm.Lines.{is_broken, last_bytes}
use yet_another_go_boilerpla.Llm.Fake.{collect, append_nil, append_assoc}
use yet_another_go_boilerpla.Llm.Anthropic.Defs.{
  ApiEvent, Stream, new_stream, stop_reason, respond_with, total_usage, response, add_event,
  proceed, read_stream,
}
use yet_another_go_boilerpla.Llm.Anthropic.Wire.{
  wire, IsFramed, run, run_next, run_done, after_events, read_stream-wire,
}

-- Is an event neither a message_start, nor a message_delta, nor a message_stop, nor an error?
abbrev pub is_content : ApiEvent → Bool
is_content e =
    not (eq_text e.type (lit "message_start"))
    && (not (eq_text e.type (lit "message_delta"))
        && (not (eq_text e.type (lit "message_stop")) && not (eq_text e.type (lit "error"))))

-- The text that an event adds to the answer.
abbrev pub text_of : ApiEvent → Text
text_of e =
    if eq_text e.type (lit "content_block_delta") && eq_text e.delta_type (lit "text_delta")
    then e.delta_text
    else []

abbrev pub texts_of : List ApiEvent → Text
texts_of [] = []
texts_of (e ∷ es) = text_of e ++ texts_of es

empty_text : (t : Text) → is_empty t ≡ true → t ≡ []
empty_text [] h = refl
empty_text (c ∷ t) h = absurd (ground (arith, h))

add_event-content :
    (e : ApiEvent) (st : Stream) (seen : Text)
    → is_content e ≡ true
    → add_event collect e st seen
      ≡ (ok (record st { text = st.text ++ text_of e }), seen ++ text_of e)
unfolding add_event
add_event-content e st seen h =
    ground (arith, append_nil st.text, append_nil seen, empty_text e.delta_text)

run-content :
    (es tail : List ApiEvent) (st : Stream) (seen : Text)
    → st.done ≡ false
    → All (λ e. is_content e ≡ true) es
    → run collect (es ++ tail) st seen
      ≡ run collect tail (record st { text = st.text ++ texts_of es }) (seen ++ texts_of es)
unfolding run
run-content [] tail st seen d h = ground (arith, append_nil st.text, append_nil seen)
run-content (e ∷ es) tail st seen d h =
    run_next collect e (es ++ tail) st seen d
    ∙ ap (λ o. proceed o (run collect (es ++ tail))) (add_event-content e st seen h.0)
    ∙ run-content es tail (record st { text = st.text ++ text_of e }) (seen ++ text_of e) d h.1
    ∙ ap (λ t. run collect tail (record st { text = t }) ((seen ++ text_of e) ++ texts_of es))
        (append_assoc st.text (text_of e) (texts_of es))
    ∙ ap (λ t. run collect tail (record st { text = st.text ++ (text_of e ++ texts_of es) }) t)
        (append_assoc seen (text_of e) (texts_of es))

add_event-start :
    (e : ApiEvent) (st : Stream) (seen : Text)
    → eq_text e.type (lit "message_start") ≡ true
    → add_event collect e st seen ≡ (ok (record st { usage = e.message_usage }), seen)
unfolding add_event
add_event-start e st seen h = rw h refl

add_event-delta :
    (e : ApiEvent) (st : Stream) (seen : Text)
    → eq_text e.type (lit "message_delta") ≡ true
    → add_event collect e st seen
      ≡ (ok (record st { stop = e.delta_stop_reason; usage = total_usage st.usage e.usage }), seen)
unfolding add_event
add_event-delta e st seen h = rw (eq_text→eq e.type (lit "message_delta") h) refl

add_event-stop :
    (e : ApiEvent) (st : Stream) (seen : Text)
    → eq_text e.type (lit "message_stop") ≡ true
    → add_event collect e st seen ≡ (ok (record st { done = true }), seen)
unfolding add_event
add_event-stop e st seen h = rw (eq_text→eq e.type (lit "message_stop") h) refl

-- The events of an answer: message_start, contents, message_delta and message_stop.
abbrev pub answer : ApiEvent → List ApiEvent → ApiEvent → ApiEvent → List ApiEvent
answer start contents delta stop = start ∷ (contents ++ (delta ∷ stop ∷ []))

run-answer :
    (start : ApiEvent) (contents : List ApiEvent) (delta stop : ApiEvent)
    → eq_text start.type (lit "message_start") ≡ true
    → All (λ e. is_content e ≡ true) contents
    → eq_text delta.type (lit "message_delta") ≡ true
    → eq_text stop.type (lit "message_stop") ≡ true
    → run collect (answer start contents delta stop) new_stream [] ≡ (
      ok (record {
        text = texts_of contents;
        stop = delta.delta_stop_reason;
        usage = total_usage start.message_usage delta.usage;
        done = true;
      }),
      texts_of contents,
    )
run-answer start contents delta stop a b c d =
    let usage = start.message_usage in
    let begun : Stream = record new_stream { usage = usage } in
    let told : Stream = record begun { text = texts_of contents } in
    let counted : Stream = record told {
      stop = delta.delta_stop_reason;
      usage = total_usage usage delta.usage;
    } in
    run_next collect start (contents ++ (delta ∷ stop ∷ [])) new_stream [] refl
    ∙ ap (λ o. proceed o (run collect (contents ++ (delta ∷ stop ∷ []))))
        (add_event-start start new_stream [] a)
    ∙ run-content contents (delta ∷ stop ∷ []) begun [] refl b
    ∙ run_next collect delta (stop ∷ []) told (texts_of contents) refl
    ∙ ap (λ o. proceed o (run collect (stop ∷ [])))
        (add_event-delta delta told (texts_of contents) c)
    ∙ run_next collect stop [] counted (texts_of contents) refl
    ∙ ap (λ o. proceed o (run collect [])) (add_event-stop stop counted (texts_of contents) d)
    ∙ run_done collect [] (record counted { done = true }) (texts_of contents) refl

-- A complete answer on the wire before the bytes of a read that fails, whatever bytes follow it and
-- whether a read fails then: the response has the text deltas in order, and the reader got just that
-- text; its stop reason is that of message_delta, its output tokens are the totals, and its input
-- tokens the larger of the two counts. For an unknown stop reason the answer is an error.
pub read_stream-answer :
    (encode : ApiEvent → Text) (decode : Text → Option ApiEvent) (start : ApiEvent)
    (contents : List ApiEvent) (delta stop : ApiEvent) (more : Text) (failing : Option Text)
    → All (IsFramed encode decode) (answer start contents delta stop)
    → eq_text start.type (lit "message_start") ≡ true
    → All (λ e. is_content e ≡ true) contents
    → eq_text delta.type (lit "message_delta") ≡ true
    → eq_text stop.type (lit "message_stop") ≡ true
    → read_stream decode collect
        (record { bytes = wire encode (answer start contents delta stop) more; failing = failing })
        []
      ≡ (
        respond_with
            (texts_of contents)
            (total_usage start.message_usage delta.usage)
            (stop_reason delta.delta_stop_reason),
        texts_of contents,
      )
unfolding response
read_stream-answer encode decode start contents delta stop more failing f a b c d =
    read_stream-wire encode decode collect (answer start contents delta stop) more failing [] f
    ∙ ap
        (λ o.
          proceed o
            (after_events encode decode collect more (last_bytes failing) (is_broken failing)))
        (run-answer start contents delta stop a b c d)
