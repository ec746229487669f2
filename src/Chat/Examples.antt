-- ===== src/Chat/Examples.antt =====
-- A question to fake models, and what the browser shows.
use yet_another_go_boilerpla.Base.{
  ℕ, ◌≡◌, refl, ap, ◌∙◌, take-append-drop, true, none, some, List, [], ◌∷◌, ◌++◌, Outcome, ok, err,
  Text, lit, take, drop,
}
use yet_another_go_boilerpla.Llm.Fake.{stop_end, append_nil}
use yet_another_go_boilerpla.Web.Stream.Defs.{event_text}
use yet_another_go_boilerpla.Web.Stream.Client.{read_events, read_answer}
use yet_another_go_boilerpla.Chat.Defs.{Provider, request, stream_answer}
use yet_another_go_boilerpla.Chat.Shown.{quiet, shown, stream_answer-shown}

-- Two parts, the second with a line break of Windows.
abbrev two_parts : Provider Text
two_parts req = record {
  parts = lit "Hello " ∷ (lit "a" ++ 13 ∷ 10 ∷ lit "b") ∷ [];
  result = ok (record {
    text = lit "Hello a" ++ 13 ∷ 10 ∷ lit "b";
    stop_reason = stop_end;
    usage = record { input_tokens = 3; output_tokens = 2 };
  });
}

abbrev body : Text
body = (stream_answer two_parts (lit "m") true (lit "hi") (quiet [])).1.sent

-- The network cuts the body in the middle of a line break.
abbrev cut_body : List Text
cut_body = take 13 body ∷ drop 13 body ∷ []

stream_answer-shown_example :
    read_answer (read_events [] cut_body) ≡ shown two_parts (request (lit "m") (lit "hi"))
stream_answer-shown_example =
    stream_answer-shown two_parts (lit "m") (lit "hi") cut_body
      (ap (λ t. take 13 body ++ t) (append_nil (drop 13 body)) ∙ take-append-drop 13 body)

shows_text : (shown two_parts (request (lit "m") (lit "hi"))).output ≡ lit "Hello a" ++ 10 ∷ lit "b"
unfolding request yet_another_go_boilerpla.Base.valid_string
    yet_another_go_boilerpla.Base.trim_space yet_another_go_boilerpla.Base.rune_count
    yet_another_go_boilerpla.Web.Stream.Defs.replace_cr
    yet_another_go_boilerpla.Web.Stream.Defs.replace_crlf
shows_text = refl
