-- ===== src/Triage/Decide.antt =====
-- internal/triage/triage.go, service.go, and the types of internal/platform/systemone/systemone.go.
use yet_another_go_boilerpla.Base.{
  ℕ, ◌*◌, ◌^◌, Bool, true, false, not, ◌&&◌, ◌||◌, Option, none, some, List, [], ◌∷◌, ltb, leb,
  if◌then◌else◌, Text, lit, contains, is_empty, valid_string, rune_count, trim_space, Dict, lookup,
  has_key, Outcome, ok, err,
}

-- A float64: NaN; a number below zero; a finite number from zero on, in units of 2^-1074, of which
-- each is a multiple; or plus infinity.
pub data Float64 : Type 0 where
  nan below_zero : Float64
  units : ℕ → Float64
  infinity : Float64

-- The float64 nearest to 0.6, and that to 0.7
abbrev pub min_confidence : Float64
min_confidence = units (5404319552844595 * 2 ^ 1021)

abbrev pub urgent_threshold : Float64
urgent_threshold = units (6305039478318694 * 2 ^ 1021)

abbrev pub one : Float64
one = units (2 ^ 1074)

-- x >= y, which is false where one of them is NaN
abbrev pub float_ge : Float64 → Float64 → Bool
float_ge (units a) (units b) = leb b a
float_ge (units a) below_zero = true
float_ge (units a) nan = false
float_ge (units a) infinity = false
float_ge infinity nan = false
float_ge infinity below_zero = true
float_ge infinity (units b) = true
float_ge infinity infinity = true
float_ge nan y = false
float_ge below_zero y = false

-- x < y where neither is below zero
abbrev pub float_lt : Float64 → Float64 → Bool
float_lt (units a) (units b) = ltb a b
float_lt (units a) infinity = true
float_lt below_zero (units b) = true
float_lt below_zero infinity = true
float_lt x y = false

-- isProbability
unfoldable pub is_probability : Float64 → Bool
is_probability p = float_ge p (units 0) && float_ge one p

pub data QuestionType : Type 0 where
  choice score noul : QuestionType

pub record Question : Type 0 where
  pub type : QuestionType
  pub instructions : Text
  pub options : Dict Text
  pub levels : List Text

pub record Request : Type 0 where
  pub model : Text
  pub state : Text
  pub questions : Dict Question

pub record Answer : Type 0 where
  pub type : QuestionType
  pub choice : Text
  pub score : Float64
  pub noul : Float64
  pub probabilities : Dict Float64
  pub confidence : Float64

pub record Response : Type 0 where
  pub model : Text
  pub answers : Dict Answer

pub record Decision : Type 0 where
  pub queue : Text
  pub urgent : Bool
  pub confidence : Float64
  pub urgency : Float64
  pub model : Text

-- ErrInvalidAnswer for a question; ValidationError with its text; a failed call of the model.
pub data Error : Type 0 where
  invalid_answer validation_error : Text → Error
  asking_failed : Error

abbrev pub max_message_length : ℕ
max_message_length = 4000

abbrev pub topic_question : Text
topic_question = lit "topic"

abbrev pub urgent_question : Text
urgent_question = lit "urgent"

abbrev pub queue_review : Text
queue_review = lit "review"

-- topicOptions
unfoldable pub topic_options : Dict Text
topic_options =
    (lit "billing", lit "Payments, invoices, refunds, and prices.")
    ∷ (lit "bug", lit "The product does not work as expected.")
    ∷ (lit "account", lit "Login, password, profile, and access to the account.")
    ∷ []

-- questions
unfoldable pub questions : Dict Question
questions =
    (
      topic_question,
      record {
        type = QuestionType.choice;
        instructions = lit "Which team must handle this support message?";
        options = topic_options;
        levels = [];
      },
    )
    ∷ (
      urgent_question,
      record {
        type = QuestionType.noul;
        instructions = lit "The customer needs help within one hour.";
        options = [];
        levels = [];
      },
    )
    ∷ []

-- normalizeMessage
unfoldable pub normalize_message : Text → Outcome Error Text
normalize_message message =
    let trimmed = trim_space message in
    if not (valid_string message) || contains 0 message
    then err (Error.validation_error (lit "message must contain valid text"))
    else if is_empty trimmed
    then err (Error.validation_error (lit "message must not be empty"))
    else if ltb max_message_length (rune_count trimmed)
    then err (Error.validation_error (lit "message must be at most 4000 characters"))
    else ok trimmed

abbrev is_choice : QuestionType → Bool
is_choice QuestionType.choice = true
is_choice QuestionType.score = false
is_choice QuestionType.noul = false

abbrev is_noul : QuestionType → Bool
is_noul QuestionType.noul = true
is_noul QuestionType.score = false
is_noul QuestionType.choice = false

abbrev pub is_topic : Answer → Bool
is_topic a = has_key a.choice topic_options && is_choice a.type && is_probability a.confidence

abbrev pub is_urgency : Answer → Bool
is_urgency a = is_noul a.type && is_probability a.noul

abbrev pub decision : Text → Answer → Answer → Decision
decision model topic urgent = record {
  queue = if float_lt topic.confidence min_confidence then queue_review else topic.choice;
  urgent = float_ge urgent.noul urgent_threshold;
  confidence = topic.confidence;
  urgency = urgent.noul;
  model = model;
}

abbrev pub decide_urgent : Text → Answer → Option Answer → Outcome Error Decision
decide_urgent model topic none = err (invalid_answer urgent_question)
decide_urgent model topic (some urgent) =
    if is_urgency urgent
    then ok (decision model topic urgent)
    else err (invalid_answer urgent_question)

abbrev pub decide_topic : Response → Option Answer → Outcome Error Decision
decide_topic resp none = err (invalid_answer topic_question)
decide_topic resp (some topic) =
    if is_topic topic
    then decide_urgent resp.model topic (lookup urgent_question resp.answers)
    else err (invalid_answer topic_question)

-- decide
unfoldable pub decide : Response → Outcome Error Decision
decide resp = decide_topic resp (lookup topic_question resp.answers)

-- `ask` stands for the provider's Ask, `none` for an error.
module _ (ask : Request → Option Response) where
  abbrev pub decided : Option Response → Outcome Error Decision
  decided none = err asking_failed
  decided (some resp) = decide resp

  abbrev pub triage_normal : Text → Outcome Error Text → Outcome Error Decision
  triage_normal model (err e) = err e
  triage_normal model (ok message) =
      decided (ask (record { model = model; state = message; questions = questions }))

  -- Service.Triage
  unfoldable pub triage : Text → Text → Outcome Error Decision
  triage model message = triage_normal model (normalize_message message)
