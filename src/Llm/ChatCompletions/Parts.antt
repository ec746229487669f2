-- ===== src/Llm/ChatCompletions/Parts.antt =====
-- What the reader of a stream gets, and the response.
use yet_another_go_boilerpla.Base.{
  ℕ, ◌≡◌, refl, sym, ◌∙◌, subst, inl, inr, Bool, true, false, not, ◌&&◌, Option, none, some, List,
  [], ◌∷◌, ◌==◌, arith, ap, ◌++◌, is_empty, Text, lit, eq_text, Bool-cases, Option-cases, Outcome,
  ok, err,
}
use yet_another_go_boilerpla.Llm.Fake.{Request, StopReason, Usage, Response, collect, append_nil}
use yet_another_go_boilerpla.Llm.Lines.{ProviderError, Body, is_broken, lines, is_too_long, data_of}
use yet_another_go_boilerpla.Llm.ChatCompletions.Chunks.{
  put_chunk, finish_or, usage_or, chunks_of, chunks_of-end, chunks_of-skip, chunks_of-done,
  chunks_of-more, last_finish, last_usage,
}
use yet_another_go_boilerpla.Llm.ChatCompletions.Defs.{
  Provider, ApiRequest, ApiChoice, ApiChunk, Json, Stream, new_stream, stop_reason, respond_with,
  response, usage_after, proceed, is_null, delta_text, add_text, add_choices, add_chunk, add,
  conclude, read_lines, read_stream, answered, send_body, new_request_body, stream,
}

-- A result of the reader `collect`: where a stream goes on, its text is what the reader got, and it
-- has this text, this finish reason and this usage.
abbrev pub Collected : Text → Text → Usage → Outcome ProviderError Stream × Text → Type 0
Collected text finish usage (err e, seen) = Unit
Collected text finish usage (ok st, seen) =
    (st.text ≡ seen) × (st.text ≡ text) × (st.finish ≡ finish) × (st.usage ≡ usage)

-- A response has the text that the reader got, which is this one, the stop reason of a finish reason,
-- and a usage.
abbrev pub Responds : Text → Text → Usage → Outcome ProviderError Response × Text → Type 0
Responds all finish usage (err e, seen) = Unit
Responds all finish usage (ok resp, seen) =
    (resp.text ≡ seen)
    × (resp.text ≡ all)
    × (stop_reason finish ≡ ok resp.stop_reason)
    × (resp.usage ≡ usage)

respond_with-Responds :
    (text finish : Text) (usage : Usage) (o : Outcome ProviderError StopReason)
    → stop_reason finish ≡ o
    → Responds text finish usage (respond_with text usage o, text)
respond_with-Responds text finish usage (err e) h = tt
respond_with-Responds text finish usage (ok reason) h = (refl, refl, h, refl)

response-Responds :
    (st : Stream) (seen : Text)
    → st.text ≡ seen
    → Responds st.text st.finish st.usage (response st, seen)
unfolding response
response-Responds st seen h =
    subst
      (λ t.
        Responds st.text st.finish st.usage
          (respond_with st.text st.usage (stop_reason st.finish), t))
      h (respond_with-Responds st.text st.finish st.usage (stop_reason st.finish) refl)

abbrev pub text_or_nothing : Outcome ProviderError Text → Text
text_or_nothing (err e) = []
text_or_nothing (ok t) = t

module _ (json : Json) where
  -- The text of the delta of the first choice.
  abbrev pub choice_text : List ApiChoice → Text
  choice_text [] = []
  choice_text (c ∷ cs) = text_or_nothing (delta_text json collect c.content)

  -- The deltas of the chunks in their order, after a text.
  abbrev pub all_text : Text → List ApiChunk → Text
  all_text before [] = before
  all_text before (c ∷ cs) = all_text (before ++ choice_text c.choices) cs

  empty_delta : (text t : Text) → is_empty t ≡ true → text ≡ text ++ t
  empty_delta text [] h = sym (append_nil text)
  empty_delta text (c ∷ t) h = absurd (ground (arith, h))

  add_text-Collected :
      (o : Outcome ProviderError Text) (st : Stream) (seen : Text)
      → st.text ≡ seen
      → Collected
          (st.text ++ text_or_nothing o)
          st.finish
          st.usage
          (add_text json collect o st seen)
  add_text-Collected (err e) st seen h = tt
  add_text-Collected (ok t) st seen h = elim (Bool-cases (is_empty t)) [
    | inl e ↦ rw e (h, empty_delta st.text t e, refl, refl)
    | inr e ↦ rw e (ap (λ s. s ++ t) h, refl, refl, refl)
  ]

  add_choices-Collected :
      (cs : List ApiChoice) (st : Stream) (seen : Text)
      → st.text ≡ seen
      → Collected
          (st.text ++ choice_text cs)
          (finish_or st.finish cs)
          st.usage
          (add_choices json collect cs st seen)
  add_choices-Collected [] st seen h = (h, sym (append_nil st.text), refl, refl)
  add_choices-Collected (c ∷ cs) st seen h = elim (Bool-cases (is_empty c.finish_reason)) [
    | inl e ↦ rw e (add_text-Collected (delta_text json collect c.content) st seen h)
    | inr e ↦ rw e (
        add_text-Collected (delta_text json collect c.content)
          (record st { finish = c.finish_reason }) seen h)
  ]

  add_usage-Collected :
      (cs : List ApiChoice) (o : Option Usage) (st : Stream) (seen : Text)
      → st.text ≡ seen
      → Collected
          (st.text ++ choice_text cs)
          (finish_or st.finish cs)
          (usage_or st.usage o)
          (add_choices json collect cs (usage_after st o) seen)
  add_usage-Collected cs none st seen h = add_choices-Collected cs st seen h
  add_usage-Collected cs (some usage) st seen h =
      add_choices-Collected cs (record st { usage = usage }) seen h

  add_chunk-Collected :
      (c : ApiChunk) (st : Stream) (seen : Text)
      → st.text ≡ seen
      → Collected
          (st.text ++ choice_text c.choices)
          (finish_or st.finish c.choices)
          (usage_or st.usage c.usage)
          (add_chunk json collect (some c) st seen)
  add_chunk-Collected c st seen h = elim (Bool-cases (is_null c.error)) [
    | inl e ↦ rw e (add_usage-Collected c.choices c.usage st seen h)
    | inr e ↦ rw e tt
  ]

  conclude-Responds :
      (failed : Bool) (st : Stream) (seen : Text)
      → st.text ≡ seen
      → Responds st.text st.finish st.usage (conclude json collect failed st, seen)
  conclude-Responds true st seen h = tt
  conclude-Responds false st seen h = response-Responds st seen h

  -- The rest of the lines answers from what the stream has.
  abbrev Rest : List (Text × Bool) → Bool → Type 0
  Rest ls broken =
      (st : Stream) (seen : Text)
      → st.text ≡ seen
      → Responds (all_text st.text (chunks_of json ls)) (last_finish st.finish (chunks_of json ls))
          (last_usage st.usage (chunks_of json ls)) (read_lines json collect ls broken st seen)

  -- What the rest of the lines makes of a text, a finish reason and a usage.
  abbrev Ends :
      List (Text × Bool) → Text → Text → Usage → Outcome ProviderError Response × Text → Type 0
  Ends ls text finish usage o =
      Responds (all_text text (chunks_of json ls)) (last_finish finish (chunks_of json ls))
        (last_usage usage (chunks_of json ls)) o

  proceed-Responds :
      (ls : List (Text × Bool)) (broken : Bool) (text finish : Text) (usage : Usage)
      (o : Outcome ProviderError Stream × Text)
      → Rest ls broken
      → Collected text finish usage o
      → Ends ls text finish usage (proceed o (read_lines json collect ls broken))
  proceed-Responds ls broken text finish usage (err e, seen) rest c = tt
  proceed-Responds ls broken text finish usage (ok st, seen) rest (h, t, f, u) =
      let o = read_lines json collect ls broken st seen in
      subst (λ x. Ends ls x finish usage o) t
        (subst (λ x. Ends ls st.text x usage o) f
          (subst (λ x. Ends ls st.text st.finish x o) u (rest st seen h)))

  decoded-Responds :
      (ls : List (Text × Bool)) (broken : Bool) (o : Option ApiChunk) (st : Stream) (seen : Text)
      → st.text ≡ seen
      → Rest ls broken
      → Responds
          (all_text st.text (put_chunk o (chunks_of json ls)))
          (last_finish st.finish (put_chunk o (chunks_of json ls)))
          (last_usage st.usage (put_chunk o (chunks_of json ls)))
          (proceed (add_chunk json collect o st seen) (read_lines json collect ls broken))
  decoded-Responds ls broken none st seen h rest = tt
  decoded-Responds ls broken (some c) st seen h rest =
      proceed-Responds ls broken _ _ _ (add_chunk json collect (some c) st seen) rest
        (add_chunk-Collected c st seen h)

  read_lines-Responds : (ls : List (Text × Bool)) (broken : Bool) → Rest ls broken
  unfolding read_lines add
  read_lines-Responds [] broken st seen h =
      rw (chunks_of-end json) (conclude-Responds broken st seen h)
  read_lines-Responds ((l, early) ∷ ls) broken st seen h = elim (Bool-cases (is_too_long l)) [
    | inl e ↦ rw e tt
    | inr e ↦ elim (Option-cases (data_of l)) [
      | inl f ↦
          simp (e, f, chunks_of-skip json l early ls f) (read_lines-Responds ls broken st seen h)
      | inr (d, f) ↦ elim (Bool-cases (eq_text d (lit "[DONE]"))) [
        | inl g ↦
            simp (e, f, g, chunks_of-done json l early ls d f g)
              (conclude-Responds (not early && broken) st seen h)
        | inr g ↦
            simp (e, f, g, chunks_of-more json l early ls d f g)
              (decoded-Responds ls broken (json.chunk d) st seen h (read_lines-Responds ls broken))
      ]
    ]
  ]

  -- A response comes from a body with the status 200 for the request of the adapter.
  abbrev pub IsFrom :
      (ApiRequest → Option (ℕ × Body)) → ApiRequest → Response → Text → Body → Type 0
  IsFrom send r resp seen body =
      (send r ≡ some (200, body))
      × (resp.text ≡ seen)
      × (resp.text ≡ all_text [] (chunks_of json (lines body)))
      × (stop_reason (last_finish [] (chunks_of json (lines body))) ≡ ok resp.stop_reason)
      × (resp.usage
          ≡ last_usage (record { input_tokens = 0; output_tokens = 0 })
              (chunks_of json (lines body)))

  answered-IsFrom :
      (send : ApiRequest → Option (ℕ × Body)) (r : ApiRequest) (o : Option (ℕ × Body))
      (resp : Response) (seen : Text)
      → send r ≡ o
      → answered json collect o [] ≡ (ok resp, seen)
      → (body : Body) × IsFrom send r resp seen body
  unfolding read_stream
  answered-IsFrom send r none resp seen sent h = absurd (ground (arith, h))
  answered-IsFrom send r (some (status, body)) resp seen sent h =
      elim (Bool-cases (status == 200)) [
        | inl e ↦
            let same : status ≡ 200 = ground (arith, e) in
            let ran : read_stream json collect body [] ≡ (ok resp, seen) = ground (arith, e, h) in
            let (text, all, stop, usage) =
              subst
                (Responds (all_text [] (chunks_of json (lines body)))
                  (last_finish [] (chunks_of json (lines body)))
                  (last_usage (record { input_tokens = 0; output_tokens = 0 })
                    (chunks_of json (lines body))))
                ran
                (read_lines-Responds (lines body) (is_broken body.failing) new_stream [] refl) in
            (body, (sent ∙ ap (λ k. some (k, body)) same, text, all, stop, usage))
        | inr e ↦ absurd (ground (arith, e, h))
      ]

  sent-IsFrom :
      (send : ApiRequest → Option (ℕ × Body)) (o : Outcome ProviderError ApiRequest)
      (resp : Response) (seen : Text)
      → send_body json collect send [] o ≡ (ok resp, seen)
      → (r : ApiRequest) × (body : Body) × (o ≡ ok r) × IsFrom send r resp seen body
  sent-IsFrom send (err e) resp seen h = absurd (ground (arith, h))
  sent-IsFrom send (ok r) resp seen h =
      let (body, from) = answered-IsFrom send r (send r) resp seen refl h in (r, body, refl, from)

  -- Whatever the server sends, and whatever the decoder makes of it: where Stream gives a response to a
  -- reader that takes all, the request of the adapter got the status 200, and the reader got just the
  -- text of the response, in its order. Of the chunks up to the line that ends them, the text joins the
  -- deltas of the first choices in their order, the stop reason is that of the last finish reason that
  -- is not empty, which the code knows, and the usage is the last one.
  pub stream-Responds :
      (send : ApiRequest → Option (ℕ × Body)) (p : Provider) (req : Request) (resp : Response)
      (seen : Text)
      → stream json collect send p req [] ≡ (ok resp, seen)
      → (r : ApiRequest) × (body : Body) × (new_request_body p req ≡ ok r)
        × IsFrom send r resp seen body
  unfolding stream
  stream-Responds send p req resp seen h = sent-IsFrom send (new_request_body p req) resp seen h
