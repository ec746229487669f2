-- ===== src/Triage/Sound.antt =====
-- The decisions of a triage are sound, whatever the model answers.
use yet_another_go_boilerpla.Base.{
  ◌≡◌, ◌⊎◌, refl, subst, inl, inr, true, false, Option, none, some, arith, Text, has_key, lookup,
  Bool-cases, Outcome, ok, err,
}
use yet_another_go_boilerpla.Triage.Decide.{
  min_confidence, urgent_threshold, float_ge, float_lt, is_probability, Request, Response, Answer,
  Decision, Error, topic_question, urgent_question, queue_review, topic_options, questions,
  normalize_message, is_topic, is_urgency, decision, decide_urgent, decide_topic, decide, decided,
  triage_normal, triage,
}

-- A decision that the answers support: both numbers are probabilities; the queue is review just for a
-- confidence below 0.6, and else an option of the topic question.
abbrev pub IsSound : Decision → Type 0
IsSound d =
    (is_probability d.confidence ≡ true)
    × (is_probability d.urgency ≡ true)
    × (d.urgent ≡ float_ge d.urgency urgent_threshold)
    × (((float_lt d.confidence min_confidence ≡ true) × (d.queue ≡ queue_review))
        ⊎ ((float_lt d.confidence min_confidence ≡ false) × (has_key d.queue topic_options ≡ true)))

abbrev Sound : Outcome Error Decision → Type 0
Sound (err e) = Unit
Sound (ok d) = IsSound d

decision-IsSound :
    (model : Text) (topic urgent : Answer)
    → is_topic topic ≡ true
    → is_urgency urgent ≡ true
    → IsSound (decision model topic urgent)
decision-IsSound model topic urgent t u =
    elim (Bool-cases (float_lt topic.confidence min_confidence)) [
      | inl e ↦ (ground (arith, t), ground (arith, u), refl, inl (e, rw e refl))
      | inr e ↦ (ground (arith, t), ground (arith, u), refl, inr (e, rw e (ground (arith, t))))
    ]

decide_urgent-Sound :
    (model : Text) (topic : Answer) (o : Option Answer)
    → is_topic topic ≡ true
    → Sound (decide_urgent model topic o)
decide_urgent-Sound model topic none t = tt
decide_urgent-Sound model topic (some urgent) t = elim (Bool-cases (is_urgency urgent)) [
  | inl e ↦ rw e (decision-IsSound model topic urgent t e)
  | inr e ↦ rw e tt
]

decide_topic-Sound : (resp : Response) (o : Option Answer) → Sound (decide_topic resp o)
decide_topic-Sound resp none = tt
decide_topic-Sound resp (some topic) = elim (Bool-cases (is_topic topic)) [
  | inl e ↦ rw e (decide_urgent-Sound resp.model topic (lookup urgent_question resp.answers) e)
  | inr e ↦ rw e tt
]

decided-Sound : (ask : Request → Option Response) (o : Option Response) → Sound (decided ask o)
unfolding decide
decided-Sound ask none = tt
decided-Sound ask (some resp) = decide_topic-Sound resp (lookup topic_question resp.answers)

triage_normal-Sound :
    (ask : Request → Option Response) (model : Text) (o : Outcome Error Text)
    → Sound (triage_normal ask model o)
triage_normal-Sound ask model (err e) = tt
triage_normal-Sound ask model (ok message) =
    decided-Sound ask (ask (record { model = model; state = message; questions = questions }))

Sound-ok : (o : Outcome Error Decision) (d : Decision) → Sound o → o ≡ ok d → IsSound d
Sound-ok o d s e = subst Sound e s

-- Whatever the model answers, a decision of Triage is sound: its numbers are probabilities, it is
-- urgent just from the threshold on, and its queue is review just below the least confidence, and
-- else an option of the topic question.
pub triage-IsSound :
    (ask : Request → Option Response) (model message : Text) (d : Decision)
    → triage ask model message ≡ ok d
    → IsSound d
unfolding triage decide
triage-IsSound ask model message d h =
    Sound-ok (triage_normal ask model (normalize_message message)) d
      (triage_normal-Sound ask model (normalize_message message)) h
