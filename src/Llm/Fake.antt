-- ===== src/Llm/Fake.antt =====
-- internal/platform/llm/llm.go, fake.go: the requests of the text models, and the model fake/echo. What
-- onText does is a function on a state; `ended` says of each wait whether the context has ended by then.
use yet_another_go_boilerpla.Base.{
  ℕ, zero, suc, ◌+◌, ◌≤◌, ◌≡◌, refl, ap, ◌∙◌, inl, inr, Bool, true, false, not, Option, none, some,
  List, [], ◌∷◌, ◌++◌, ltb, ◌==◌, arith, if◌then◌else◌, Text, lit, eq_text, is_empty, length,
  length-take, take_all, take, drop, keep, space_width, Outcome, ok, err, Bool-cases,
}

-- RoleUser, RoleAssistant, and any other text.
pub data Role : Type 0 where
  user assistant : Role
  other : Text → Role

pub record Message : Type 0 where
  pub role : Role
  pub text : Text

-- MaxTokens below 1 is 0 here.
pub record Request : Type 0 where
  pub model : Text
  pub system : Text
  pub messages : List Message
  pub max_tokens : ℕ

pub data StopReason : Type 0 where
  stop_end stop_max_tokens stop_refusal : StopReason

pub record Usage : Type 0 where
  pub input_tokens : ℕ
  pub output_tokens : ℕ

pub record Response : Type 0 where
  pub text : Text
  pub stop_reason : StopReason
  pub usage : Usage

-- The errors of the fake, the error of the context, and that of onText.
pub data StreamError : Type 0 where
  unknown_model no_max_tokens no_user_message context_ended on_text_failed : StreamError

abbrev space : ℕ
space = 32

abbrev push_front : ℕ → List Text → List Text
push_front c [] = (c ∷ []) ∷ []
push_front c (w ∷ ws) = (c ∷ w) ∷ ws

-- strings.SplitAfter at a space
abbrev pub split_after : Text → List Text
split_after [] = [] ∷ []
split_after (c ∷ s) = if c == space then (c ∷ []) ∷ split_after s else push_front c (split_after s)

-- The words of the answer, without the empty one.
abbrev pub words_of : Text → List Text
words_of question = keep (λ w. not (is_empty w)) (split_after question)

-- len(strings.Fields(s)) for valid UTF-8, from a point inside of a word or not; on fuel, for which the
-- length of the text is enough, since each step drops a byte at least.
abbrev count_fields : ℕ → Bool → Text → ℕ
count_fields zero inside s = 0
count_fields (suc fuel) inside [] = 0
count_fields (suc fuel) inside (c ∷ s) =
    let after_space = count_fields fuel false (drop (space_width (c ∷ s)) (c ∷ s)) in
    let after_byte = count_fields fuel true s in
    if space_width (c ∷ s) == 0
    then (if inside then after_byte else suc after_byte)
    else after_space

abbrev fields : Text → ℕ
fields s = count_fields (length s) false s

abbrev message_words : List Message → ℕ
message_words [] = 0
message_words (m ∷ ms) = fields m.text + message_words ms

-- countWords
unfoldable pub count_words : Request → ℕ
count_words req = fields req.system + message_words req.messages

abbrev or_first : Message → Option Text → Option Text
or_first m (some t) = some t
or_first m none = elim m.role [
  | Role.user ↦ some m.text
  | Role.assistant ↦ none
  | Role.other t ↦ none
]

-- lastUserText; `none` stands for the error.
unfoldable pub last_user_text : List Message → Option Text
last_user_text [] = none
last_user_text (m ∷ ms) = or_first m (last_user_text ms)

abbrev pub join : List Text → Text
join [] = []
join (w ∷ ws) = w ++ join ws

module _ {ℓ} {S : Type ℓ} (ended : ℕ → Bool) (on_text : Text → S → Bool × S) where
  -- The loop of Stream: the text and the number of the words that went out.
  unfoldable pub send_words : ℕ → List Text → Text → S → Outcome StreamError (Text × ℕ) × S
  send_words n [] answer s = (ok (answer, n), s)
  send_words n (w ∷ ws) answer s =
      let (accepted, s') = on_text w s in
      let rest = send_words (suc n) ws (answer ++ w) s' in
      if ended n
      then (err context_ended, s)
      else if accepted
      then rest
      else (err on_text_failed, s')

  abbrev pub respond :
      ℕ → StopReason → Outcome StreamError (Text × ℕ) × S → Outcome StreamError Response × S
  respond input reason (err e, s) = (err e, s)
  respond input reason (ok (answer, n), s) = (
    ok (record {
      text = answer;
      stop_reason = reason;
      usage = record { input_tokens = input; output_tokens = n };
    }),
    s,
  )

  abbrev pub stream_words : Request → Option Text → S → Outcome StreamError Response × S
  stream_words req none s = (err no_user_message, s)
  stream_words req (some question) s =
      let words = words_of question in
      if ltb req.max_tokens (length words)
      then respond (count_words req) stop_max_tokens (send_words 0 (take req.max_tokens words) [] s)
      else respond (count_words req) stop_end (send_words 0 words [] s)

  -- Fake.Stream
  unfoldable pub stream : Request → S → Outcome StreamError Response × S
  stream req s =
      if not (eq_text req.model (lit "echo"))
      then (err unknown_model, s)
      else if req.max_tokens == 0
      then (err no_max_tokens, s)
      else stream_words req (last_user_text req.messages) s

join-push_front : (c : ℕ) (ws : List Text) → join (push_front c ws) ≡ c ∷ join ws
join-push_front c [] = refl
join-push_front c (w ∷ ws) = refl

join-split_after : (s : Text) → join (split_after s) ≡ s
join-split_after [] = refl
join-split_after (c ∷ s) = ground (arith, join-push_front c (split_after s), join-split_after s)

join-keep : (ws : List Text) → join (keep (λ w. not (is_empty w)) ws) ≡ join ws
join-keep [] = refl
join-keep ([] ∷ ws) = join-keep ws
join-keep ((c ∷ w) ∷ ws) = ap (λ t. c ∷ w ++ t) (join-keep ws)

pub append_assoc : (xs ys zs : Text) → (xs ++ ys) ++ zs ≡ xs ++ (ys ++ zs)
append_assoc [] ys zs = refl
append_assoc (x ∷ xs) ys zs = ap (◌∷◌ x) (append_assoc xs ys zs)

pub append_nil : (xs : Text) → xs ++ [] ≡ xs
append_nil [] = refl
append_nil (x ∷ xs) = ap (◌∷◌ x) (append_nil xs)

-- A reader that takes each part and keeps the text so far.
abbrev pub collect : Text → Text → Bool × Text
collect part seen = (true, seen ++ part)

send_words_all :
    (n : ℕ) (ws : List Text) (answer seen : Text)
    → send_words (λ i. false) collect n ws answer seen
      ≡ (ok (answer ++ join ws, n + length ws), seen ++ join ws)
unfolding send_words
send_words_all n [] answer seen = ground (arith, append_nil answer, append_nil seen)
send_words_all n (w ∷ ws) answer seen = ground (
  arith,
  send_words_all (suc n) ws (answer ++ w) (seen ++ w),
  append_assoc answer w (join ws),
  append_assoc seen w (join ws),
)

-- For fake/echo with a positive cap, a user message, a reader that takes all and no end of the context:
-- the answer is what the reader got, the first max_tokens words of the last user message or, at
-- stop_end, that whole text; and it counts at most max_tokens tokens.
pub stream-collect :
    (req : Request) (question : Text)
    → eq_text req.model (lit "echo") ≡ true
    → (req.max_tokens == 0) ≡ false
    → last_user_text req.messages ≡ some question
    → (resp : Response) × (stream (λ i. false) collect req [] ≡ (ok resp, resp.text))
      × (resp.text ≡ join (take req.max_tokens (words_of question)))
      × (resp.usage.output_tokens ≤ req.max_tokens)
      × ((resp.stop_reason ≡ stop_end) → resp.text ≡ question)
unfolding stream
stream-collect req question echo capped asked =
    elim (Bool-cases (ltb req.max_tokens (length (words_of question)))) [
      | inl e ↦ (
        record {
          text = join (take req.max_tokens (words_of question));
          stop_reason = stop_max_tokens;
          usage = record {
            input_tokens = count_words req;
            output_tokens = length (take req.max_tokens (words_of question));
          };
        },
        rw
            (
              echo,
              capped,
              asked,
              e,
              send_words_all 0 (take req.max_tokens (words_of question)) [] [],
            )
            (ground arith),
        refl,
        omega (arith, length-take req.max_tokens (words_of question)),
        λ h. absurd (ground (arith, h)),
      )
      | inr e ↦ (
        record {
          text = join (words_of question);
          stop_reason = stop_end;
          usage = record {
            input_tokens = count_words req;
            output_tokens = length (words_of question);
          };
        },
        rw (echo, capped, asked, e, send_words_all 0 (words_of question) [] []) (ground arith),
        ground (arith, take_all req.max_tokens (words_of question)),
        ground arith,
        λ h. join-keep (split_after question) ∙ join-split_after question,
      )
    ]
