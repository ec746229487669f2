-- ===== src/Web/Stream/Chunks.antt =====
-- app.js: readEvents gives the same events, wherever the network cuts the body into values.
use yet_another_go_boilerpla.Base.{
  ℕ, zero, suc, ◌≤◌, ◌<◌, ◌≡◌, refl, sym, ap, ◌∙◌, inl, inr, false, ◌&&◌, Option, none, some, List,
  [], ◌∷◌, ◌++◌, ◌==◌, Bool-cases, Option-cases, arith, Text, contains, All, length,
}
use yet_another_go_boilerpla.Llm.Fake.{join, append_nil, append_assoc}
use yet_another_go_boilerpla.Web.Stream.Defs.{event_text}
use yet_another_go_boilerpla.Web.Stream.Client.{
  Event, parse_event, push_front, cut_blank, drain, read_events,
}
use yet_another_go_boilerpla.Web.Stream.Blocks.{received, cut_blank-event_text}

push_front-some :
    (c : ℕ) (o : Option (Text × Text)) (x y : Text)
    → push_front c o ≡ some (x, y)
    → (z : Text) × (o ≡ some (z, y)) × (x ≡ c ∷ z)
push_front-some c none x y h = absurd (ground (arith, h))
push_front-some c (some (a, b)) x y h = (a, ground (arith, h), ground (arith, h))

cut_blank-append :
    (b v x y : Text) → cut_blank b ≡ some (x, y) → cut_blank (b ++ v) ≡ some (x, y ++ v)
cut_blank-append [] v x y h = absurd (ground (arith, h))
cut_blank-append (c ∷ []) v x y h = absurd (ground (arith, h))
cut_blank-append (c ∷ d ∷ b) v x y h = elim (Bool-cases (c == 10 && d == 10)) [
  | inl e ↦ ground (arith, e, h)
  | inr e ↦
      let (z, f, g) = push_front-some c (cut_blank (d ∷ b)) x y (rw e at h) in
      ground (arith, e, cut_blank-append (d ∷ b) v z y f, g)
]

cut_blank-shorter : (b x y : Text) → cut_blank b ≡ some (x, y) → length y < length b
cut_blank-shorter [] x y h = absurd (ground (arith, h))
cut_blank-shorter (c ∷ []) x y h = absurd (ground (arith, h))
cut_blank-shorter (c ∷ d ∷ b) x y h = elim (Bool-cases (c == 10 && d == 10)) [
  | inl e ↦ ground (arith, e, h)
  | inr e ↦
      let (z, f, g) = push_front-some c (cut_blank (d ∷ b)) x y (rw e at h) in
      omega (arith, cut_blank-shorter (d ∷ b) z y f)
]

drain-fuel : (f g : ℕ) (b : Text) → length b ≤ f → length b ≤ g → drain f b ≡ drain g b
unfolding drain
drain-fuel zero zero b lf lg = refl
drain-fuel zero (suc g) [] lf lg = refl
drain-fuel zero (suc g) (c ∷ b) lf lg = absurd (omega (arith, lf))
drain-fuel (suc f) zero [] lf lg = refl
drain-fuel (suc f) zero (c ∷ b) lf lg = absurd (omega (arith, lg))
drain-fuel (suc f) (suc g) b lf lg = elim (Option-cases (cut_blank b)) [
  | inl e ↦ rw e refl
  | inr ((x, y), e) ↦
      let shorter = cut_blank-shorter b x y e in
      rw (e, drain-fuel f g y (omega (arith, shorter, lf)) (omega (arith, shorter, lg))) refl
]

abbrev drained : Text → List Event × Text
unfolding drain
drained b = drain (length b) b

drained-none : (b : Text) → cut_blank b ≡ none → drained b ≡ ([], b)
unfolding drain
drained-none [] h = refl
drained-none (c ∷ b) h = rw h refl

drained-some :
    (b x y : Text)
    → cut_blank b ≡ some (x, y)
    → drained b ≡ (parse_event x ∷ (drained y).0, (drained y).1)
unfolding drain
drained-some [] x y h = absurd (ground (arith, h))
drained-some (c ∷ b) x y h =
    let shorter = cut_blank-shorter (c ∷ b) x y h in
    rw (h, drain-fuel (length b) (length y) y (omega (arith, shorter)) (omega arith)) refl

-- The buffer after the loop has no empty line.
drained-rest : (n : ℕ) (b : Text) → length b ≤ n → cut_blank (drained b).1 ≡ none
drained-rest zero b le = elim (Option-cases (cut_blank b)) [
  | inl e ↦ rw (drained-none b e) e
  | inr ((x, y), e) ↦ absurd (omega (arith, cut_blank-shorter b x y e, le))
]
drained-rest (suc n) b le = elim (Option-cases (cut_blank b)) [
  | inl e ↦ rw (drained-none b e) e
  | inr ((x, y), e) ↦
      rw (drained-some b x y e) (drained-rest n y (omega (arith, cut_blank-shorter b x y e, le)))
]

abbrev followed : List Event × Text → Text → List Event × Text
followed (es, rest) v = (es ++ (drained (rest ++ v)).0, (drained (rest ++ v)).1)

-- More text behind a buffer adds its events.
drained-append : (n : ℕ) (b v : Text) → length b ≤ n → drained (b ++ v) ≡ followed (drained b) v
drained-append zero b v le = elim (Option-cases (cut_blank b)) [
  | inl e ↦ rw (drained-none b e) refl
  | inr ((x, y), e) ↦ absurd (omega (arith, cut_blank-shorter b x y e, le))
]
drained-append (suc n) b v le = elim (Option-cases (cut_blank b)) [
  | inl e ↦ rw (drained-none b e) refl
  | inr ((x, y), e) ↦
      let rest = drained-append n y v (omega (arith, cut_blank-shorter b x y e, le)) in
      drained-some (b ++ v) x (y ++ v) (cut_blank-append b v x y e)
      ∙ ap (λ p. (parse_event x ∷ p.0, p.1)) rest
      ∙ ap (λ p. followed p v) (sym (drained-some b x y e))
]

read_events-drained :
    (b : Text) (values : List Text)
    → cut_blank b ≡ none
    → read_events b values ≡ (drained (b ++ join values)).0
unfolding read_events drained
read_events-drained b [] h =
    sym (ap (λ t. (drained t).0) (append_nil b) ∙ ap (λ p. p.0) (drained-none b h))
read_events-drained b (v ∷ values) h =
    let first = drained (b ++ v) in
    ap (λ es. first.0 ++ es)
      (read_events-drained first.1 values (drained-rest (length (b ++ v)) (b ++ v) (omega arith)))
    ∙ sym (ap (λ p. p.0) (drained-append (length (b ++ v)) (b ++ v) (join values) (omega arith)))
    ∙ ap (λ t. (drained t).0) (append_assoc b v (join values))

-- The texts of some events, one after the other.
abbrev pub event_texts : List (Text × Text) → Text
event_texts [] = []
event_texts ((event, text) ∷ es) = event_text event text ++ event_texts es

abbrev pub all_received : List (Text × Text) → List Event
all_received [] = []
all_received ((event, text) ∷ es) = received event text ∷ all_received es

drained-event_texts :
    (es : List (Text × Text))
    → All (λ e. contains 10 e.0 ≡ false) es
    → drained (event_texts es) ≡ (all_received es, [])
unfolding drained
drained-event_texts [] h = refl
drained-event_texts ((event, text) ∷ es) h =
    let (block, found, read) = cut_blank-event_text event text (event_texts es) h.0 in
    drained-some (event_text event text ++ event_texts es) block (event_texts es) found
    ∙ ap (λ p. (parse_event block ∷ p.0, p.1)) (drained-event_texts es h.1)
    ∙ ap (λ e. (e ∷ all_received es, [])) read

-- The browser gets the events that the server sends, wherever the network cuts the stream.
pub read_events-event_texts :
    (es : List (Text × Text)) (values : List Text)
    → All (λ e. contains 10 e.0 ≡ false) es
    → join values ≡ event_texts es
    → read_events [] values ≡ all_received es
read_events-event_texts es values h e =
    read_events-drained [] values refl
    ∙ ap (λ t. (drained t).0) e
    ∙ ap (λ p. p.0) (drained-event_texts es h)
