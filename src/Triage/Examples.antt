-- ===== src/Triage/Examples.antt =====
-- Tests of the triage, and its theorem at a concrete answer.
use yet_another_go_boilerpla.Base.{
  ◌≡◌, refl, true, ◌^◌, Option, some, [], ◌∷◌, lit, valid_string, rune_count, trim_space, ok,
}
use yet_another_go_boilerpla.Triage.Decide.{
  Float64, units, nan, QuestionType, Request, Response, Answer, Decision, normalize_message,
  topic_options, is_probability, decide, triage,
}
use yet_another_go_boilerpla.Triage.Sound.{IsSound, triage-IsSound}

abbrev topic : Float64 → Answer
topic confidence = record {
  type = QuestionType.choice;
  choice = lit "bug";
  score = nan;
  noul = nan;
  probabilities = [];
  confidence = confidence;
}

abbrev urgent : Answer
urgent = record {
  type = QuestionType.noul;
  choice = [];
  score = nan;
  noul = units (2 ^ 1074);
  probabilities = [];
  confidence = nan;
}

-- A model that is half sure.
abbrev ask : Request → Option Response
ask req = some (record {
  model = lit "jev";
  answers = (lit "topic", topic (units (2 ^ 1073))) ∷ (lit "urgent", urgent) ∷ [];
})

abbrev reviewed : Decision
reviewed = record {
  queue = lit "review";
  urgent = true;
  confidence = units (2 ^ 1073);
  urgency = units (2 ^ 1074);
  model = lit "jev";
}

half_sure : triage ask (lit "jev") (lit " help ") ≡ ok reviewed
unfolding triage normalize_message decide topic_options is_probability valid_string rune_count
    trim_space
half_sure = refl

triage-IsSound_example : IsSound reviewed
triage-IsSound_example = triage-IsSound ask (lit "jev") (lit " help ") reviewed half_sure
