-- ===== src/Llm/Anthropic/Wire.antt =====
-- The events of a stream on the wire: the adapter does with them what one pass over the events does.
use yet_another_go_boilerpla.Base.{
  ◌≡◌, refl, sym, ap, ◌∙◌, inl, inr, Bool, true, false, Option, none, some, List, [], ◌∷◌, ◌++◌,
  arith, if◌then◌else◌, Text, lit, contains, cut_prefix, trim_suffix, Bool-cases, Outcome, ok, err,
  All,
}
use yet_another_go_boilerpla.Llm.Fake.{Response}
use yet_another_go_boilerpla.Llm.Lines.{
  ProviderError, is_broken, last_bytes, scan, is_too_long, data_of, without_space, scan-line,
}
use yet_another_go_boilerpla.Llm.Anthropic.Defs.{
  ApiEvent, Stream, new_stream, response, add_event, proceed, add, read_lines, read_stream,
}

-- One event, as the server sends it: its type, its data and an empty line.
abbrev pub event_line : ApiEvent → Text
event_line e = lit "event: " ++ e.type

abbrev pub data_line : (ApiEvent → Text) → ApiEvent → Text
data_line encode e = lit "data: " ++ encode e

-- The events, and any bytes after them.
abbrev pub wire : (ApiEvent → Text) → List ApiEvent → Text → Text
wire encode [] more = more
wire encode (e ∷ es) more =
    event_line e ++ 10 ∷ (data_line encode e ++ 10 ∷ 10 ∷ wire encode es more)

-- The JSON of an event decodes to it, and its lines are proper lines below the limit.
pub record IsFramed (encode : ApiEvent → Text) (decode : Text → Option ApiEvent) (e : ApiEvent)
    : Type 0 where
  pub decodes : decode (encode e) ≡ some e
  pub type_in_line : contains 10 (event_line e) ≡ false
  pub type_fits : is_too_long (event_line e) ≡ false
  pub data_in_line : contains 10 (data_line encode e) ≡ false
  pub data_fits : is_too_long (data_line encode e) ≡ false
  pub data_ends : trim_suffix 13 (data_line encode e) ≡ data_line encode e

trim_event_line : (t : Text) → cut_prefix (lit "data:") (trim_suffix 13 (lit "event: " ++ t)) ≡ none
trim_event_line [] = refl
trim_event_line (c ∷ t) = refl

module _ {ℓ} {S : Type ℓ} (on_text : Text → S → Bool × S) where
  -- One pass over the events, up to message_stop or an error.
  unfoldable pub run : List ApiEvent → Stream → S → Outcome ProviderError Stream × S
  run [] st s = (ok st, s)
  run (e ∷ es) st s = if st.done then (ok st, s) else proceed (add_event on_text e st s) (run es)

  pub run_done :
      (es : List ApiEvent) (st : Stream) (s : S) → st.done ≡ true → run es st s ≡ (ok st, s)
  unfolding run
  run_done [] st s h = refl
  run_done (e ∷ es) st s h = rw h refl

  pub run_next :
      (e : ApiEvent) (es : List ApiEvent) (st : Stream) (s : S)
      → st.done ≡ false
      → run (e ∷ es) st s ≡ proceed (add_event on_text e st s) (run es)
  unfolding run
  run_next e es st s h = rw h refl

proceed_cong {ℓ} :
    {S : Type ℓ} {A : Type 0} (o : Outcome ProviderError Stream × S)
    (f g : Stream → S → Outcome ProviderError A × S)
    → ((st : Stream) (s : S) → f st s ≡ g st s)
    → proceed o f ≡ proceed o g
proceed_cong (ok st, s) f g h = h st s
proceed_cong (err e, s) f g h = refl

proceed_assoc {ℓ} :
    {S : Type ℓ} {A : Type 0} (o : Outcome ProviderError Stream × S)
    (f : Stream → S → Outcome ProviderError Stream × S)
    (g : Stream → S → Outcome ProviderError A × S)
    → proceed (proceed o f) g ≡ proceed o (λ st s. proceed (f st s) g)
proceed_assoc (ok st, s) f g = refl
proceed_assoc (err e, s) f g = refl

module _ {ℓ} {S : Type ℓ} (encode : ApiEvent → Text) (decode : Text → Option ApiEvent)
    (on_text : Text → S → Bool × S) (more last : Text) (broken : Bool) where
  -- After the events: the response after message_stop, or else what the bytes after them give.
  abbrev pub after_events : Stream → S → Outcome ProviderError Response × S
  after_events st s =
      if st.done
      then (response st, s)
      else read_lines decode on_text (scan more last) broken false st s

  read_lines_done :
      (ls : List (Text × Bool)) (st : Stream) (s : S)
      → st.done ≡ true
      → read_lines decode on_text ls broken false st s ≡ (response st, s)
  unfolding read_lines
  read_lines_done [] st s h = ground arith
  read_lines_done (l ∷ ls) st s h = ground arith

  skip_line :
      (l : Text) (ls : List (Text × Bool)) (st : Stream) (s : S)
      → st.done ≡ false
      → is_too_long l ≡ false
      → data_of l ≡ none
      → read_lines decode on_text ((l, true) ∷ ls) broken false st s
        ≡ read_lines decode on_text ls broken false st s
  unfolding read_lines
  skip_line l ls st s h t d = simp (h, t, d)

  take_line :
      (l : Text) (ls : List (Text × Bool)) (st : Stream) (s : S) (d : Text)
      → st.done ≡ false
      → is_too_long l ≡ false
      → data_of l ≡ some d
      → read_lines decode on_text ((l, true) ∷ ls) broken false st s
        ≡ proceed
            (add decode on_text d st s)
            (λ st' s'. read_lines decode on_text ls broken false st' s')
  unfolding read_lines
  take_line l ls st s d h t e = simp (h, t, e)

  data_of_event_line : (t : Text) → data_of (lit "event: " ++ t) ≡ none
  data_of_event_line t = rw (trim_event_line t) refl

  data_of-data_line :
      (e : ApiEvent)
      → trim_suffix 13 (data_line encode e) ≡ data_line encode e
      → data_of (data_line encode e) ≡ some (encode e)
  data_of-data_line e h = ap (λ t. without_space (cut_prefix (lit "data:") t)) h

  add_framed :
      (e : ApiEvent) (st : Stream) (s : S)
      → decode (encode e) ≡ some e
      → add decode on_text (encode e) st s ≡ add_event on_text e st s
  unfolding add
  add_framed e st s d = rw d refl

  -- The three lines of an event are one step.
  read_lines-event :
      (e : ApiEvent) (rest : Text) (st : Stream) (s : S)
      → IsFramed encode decode e
      → st.done ≡ false
      → read_lines decode on_text
          (scan (event_line e ++ 10 ∷ (data_line encode e ++ 10 ∷ 10 ∷ rest)) last)
          broken
          false
          st
          s
        ≡ proceed
            (add_event on_text e st s)
            (λ st' s'. read_lines decode on_text (([], true) ∷ scan rest last) broken false st' s')
  read_lines-event e rest st s f h =
      ap (λ ls. read_lines decode on_text ls broken false st s)
        (scan-line (event_line e) (data_line encode e ++ 10 ∷ 10 ∷ rest) last f.type_in_line)
      ∙ skip_line (event_line e) (scan (data_line encode e ++ 10 ∷ 10 ∷ rest) last) st s h
          f.type_fits (data_of_event_line e.type)
      ∙ ap (λ ls. read_lines decode on_text ls broken false st s)
          (scan-line (data_line encode e) (10 ∷ rest) last f.data_in_line)
      ∙ take_line (data_line encode e) (scan (10 ∷ rest) last) st s (encode e) h f.data_fits
          (data_of-data_line e f.data_ends)
      ∙ ap
          (λ o.
            proceed o
              (λ st' s'. read_lines decode on_text (scan (10 ∷ rest) last) broken false st' s'))
          (add_framed e st s f.decodes)
      ∙ ap
          (λ ls.
            proceed (add_event on_text e st s)
              (λ st' s'. read_lines decode on_text ls broken false st' s'))
          (scan-line [] rest last refl)

  after_events_done : (st : Stream) (s : S) → st.done ≡ true → after_events st s ≡ (response st, s)
  after_events_done st s h = rw h refl

  read_lines_end :
      (st : Stream) (s : S)
      → read_lines decode on_text (scan more last) broken false st s
        ≡ proceed (run on_text [] st s) after_events
  unfolding run
  read_lines_end st s = elim (Bool-cases st.done) [
    | inl h ↦ read_lines_done (scan more last) st s h ∙ sym (after_events_done st s h)
    | inr h ↦ rw h refl
  ]

  stopped :
      (ls : List (Text × Bool)) (es : List ApiEvent) (st : Stream) (s : S)
      → st.done ≡ true
      → read_lines decode on_text ls broken false st s ≡ proceed (run on_text es st s) after_events
  stopped ls es st s h =
      read_lines_done ls st s h
      ∙ sym (after_events_done st s h)
      ∙ sym (ap (λ o. proceed o after_events) (run_done on_text es st s h))

  after_event :
      (es : List ApiEvent)
      → ((st : Stream) (s : S)
          → read_lines decode on_text (scan (wire encode es more) last) broken false st s
            ≡ proceed (run on_text es st s) after_events)
      → (st : Stream) (s : S)
      → read_lines decode on_text (([], true) ∷ scan (wire encode es more) last) broken false st s
        ≡ proceed (run on_text es st s) after_events
  after_event es rest st s = elim (Bool-cases st.done) [
    | inl h ↦ stopped (([], true) ∷ scan (wire encode es more) last) es st s h
    | inr h ↦ skip_line [] (scan (wire encode es more) last) st s h refl refl ∙ rest st s
  ]

  read_lines-wire :
      (es : List ApiEvent) (st : Stream) (s : S)
      → All (IsFramed encode decode) es
      → read_lines decode on_text (scan (wire encode es more) last) broken false st s
        ≡ proceed (run on_text es st s) after_events
  read_lines-wire [] st s f = read_lines_end st s
  read_lines-wire (e ∷ es) st s f = elim (Bool-cases st.done) [
    | inl h ↦ stopped (scan (wire encode (e ∷ es) more) last) (e ∷ es) st s h
    | inr h ↦
        read_lines-event e (wire encode es more) st s f.0 h
        ∙ proceed_cong (add_event on_text e st s) _ _
            (after_event es (λ st' s'. read_lines-wire es st' s' f.1))
        ∙ sym (proceed_assoc (add_event on_text e st s) (run on_text es) after_events)
        ∙ sym (ap (λ o. proceed o after_events) (run_next on_text e es st s h))
  ]

-- The adapter does with any events on the wire, before the bytes of a read that fails, what one pass
-- over the events does: the calls of onText and the error are the same. After message_stop the result
-- is the response, whatever bytes follow, and also when a read fails then; with no message_stop, the
-- adapter goes on with the bytes that follow.
pub read_stream-wire {ℓ} :
    {S : Type ℓ} (encode : ApiEvent → Text) (decode : Text → Option ApiEvent)
    (on_text : Text → S → Bool × S) (es : List ApiEvent) (more : Text) (failing : Option Text)
    (s : S)
    → All (IsFramed encode decode) es
    → read_stream decode on_text (record { bytes = wire encode es more; failing = failing }) s
      ≡ proceed
          (run on_text es new_stream s)
          (after_events encode decode on_text more (last_bytes failing) (is_broken failing))
unfolding read_stream
read_stream-wire encode decode on_text es more failing s f =
    read_lines-wire encode decode on_text more (last_bytes failing) (is_broken failing) es
      new_stream s f
