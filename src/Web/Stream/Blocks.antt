-- ===== src/Web/Stream/Blocks.antt =====
-- sse.go and app.js: the browser gets back each event that Send writes.
use yet_another_go_boilerpla.Base.{
  ℕ, ◌≡◌, refl, sym, ap, ◌∙◌, inl, inr, Bool, true, false, Option, none, some, List, [], ◌∷◌, ◌++◌,
  map, ◌==◌, ==_iff, Bool-cases, if◌then◌else◌, arith, Text, lit, is_empty, contains, split,
  push_head, All,
}
use yet_another_go_boilerpla.Llm.Fake.{append_assoc}
use yet_another_go_boilerpla.Web.Stream.Defs.{with_lf, unlines, data_line, event_text}
use yet_another_go_boilerpla.Web.Stream.Client.{
  Event, joined, Fields, read_lines, parse_event, event_of, push_front, cut_blank,
}

append_nil_lines : (xs : List Text) → xs ++ [] ≡ xs
append_nil_lines [] = refl
append_nil_lines (x ∷ xs) = ap (◌∷◌ x) (append_nil_lines xs)

append_snoc : (xs : List Text) (y : Text) (zs : List Text) → (xs ++ y ∷ []) ++ zs ≡ xs ++ y ∷ zs
append_snoc [] y zs = refl
append_snoc (x ∷ xs) y zs = ap (◌∷◌ x) (append_snoc xs y zs)

-- A line that is not empty and has no line break.
abbrev IsLine : Text → Type 0
IsLine l = (contains 10 l ≡ false) × (is_empty l ≡ false)

abbrev with_prefix : Text → Option (Text × Text) → Option (Text × Text)
with_prefix p none = none
with_prefix p (some (a, b)) = some (p ++ a, b)

cut_blank-last :
    (l rest : Text) → contains 10 l ≡ false → cut_blank (l ++ 10 ∷ 10 ∷ rest) ≡ some (l, rest)
cut_blank-last [] rest h = refl
cut_blank-last (c ∷ []) rest h = ground (arith, h)
cut_blank-last (c ∷ d ∷ l) rest h = ground (arith, h, cut_blank-last (d ∷ l) rest)

push_front_prefix : (c : ℕ) (o : Option (Text × Text)) → push_front c o ≡ with_prefix (c ∷ []) o
push_front_prefix c none = refl
push_front_prefix c (some (a, b)) = refl

push_front-with_prefix :
    (c : ℕ) (p : Text) (o : Option (Text × Text))
    → push_front c (with_prefix p o) ≡ with_prefix (c ∷ p) o
push_front-with_prefix c p none = refl
push_front-with_prefix c p (some (a, b)) = refl

cut_blank-line :
    (l : Text) (c : ℕ) (s : Text)
    → contains 10 l ≡ false
    → (c == 10) ≡ false
    → cut_blank (l ++ 10 ∷ c ∷ s) ≡ with_prefix (l ++ 10 ∷ []) (cut_blank (c ∷ s))
cut_blank-line [] c s h ne = ground (arith, ne, push_front_prefix 10 (cut_blank (c ∷ s)))
cut_blank-line (d ∷ []) c s h ne = ground (
  arith,
  h,
  ne,
  push_front_prefix 10 (cut_blank (c ∷ s)),
  push_front-with_prefix d (10 ∷ []) (cut_blank (c ∷ s)),
)
cut_blank-line (d ∷ e ∷ l) c s h ne = ground (
  arith,
  h,
  cut_blank-line (e ∷ l) c s,
  push_front-with_prefix d (e ∷ l ++ 10 ∷ []) (cut_blank (c ∷ s)),
)

push_head-part :
    (c : ℕ) (ts : List Text)
    → (c == 10) ≡ false
    → All (λ p. contains 10 p ≡ false) ts
    → All (λ p. contains 10 p ≡ false) (push_head c ts)
push_head-part c [] e h = (ground (arith, e), tt)
push_head-part c (t ∷ ts) e h = (ground (arith, e, h.0), h.1)

split-part : (s : Text) → All (λ p. contains 10 p ≡ false) (split 10 s)
split-part [] = (refl, tt)
split-part (c ∷ s) = elim (Bool-cases (c == 10)) [
  | inl e ↦ rw e (refl, split-part s)
  | inr e ↦ rw e (push_head-part c (split 10 s) e (split-part s))
]

joined-push_head : (c : ℕ) (ts : List Text) → joined (push_head c ts) ≡ c ∷ joined ts
joined-push_head c [] = refl
joined-push_head c (t ∷ []) = refl
joined-push_head c (t ∷ u ∷ ts) = refl

joined-push_head_first :
    (c : ℕ) (ts : List Text) → joined ([] ∷ push_head c ts) ≡ 10 ∷ joined (push_head c ts)
joined-push_head_first c [] = refl
joined-push_head_first c (t ∷ ts) = refl

joined-split_first : (s : Text) → joined ([] ∷ split 10 s) ≡ 10 ∷ joined (split 10 s)
joined-split_first [] = refl
joined-split_first (c ∷ s) = elim (Bool-cases (c == 10)) [
  | inl e ↦ rw e refl
  | inr e ↦ rw e (joined-push_head_first c (split 10 s))
]

joined-split : (s : Text) → joined (split 10 s) ≡ s
joined-split [] = refl
joined-split (c ∷ s) = elim (Bool-cases (c == 10)) [
  | inl e ↦ rw e (
      joined-split_first s
      ∙ ap (◌∷◌ 10) (joined-split s)
      ∙ ap (λ d. d ∷ s) (sym ((==_iff c 10).0 e)))
  | inr e ↦ rw e (joined-push_head c (split 10 s) ∙ ap (◌∷◌ c) (joined-split s))
]

split-cons : (s : Text) → (t : Text) × (ts : List Text) × (split 10 s ≡ t ∷ ts)
split-cons [] = ([], [], refl)
split-cons (c ∷ s) = elim (Bool-cases (c == 10)) [
  | inl e ↦ ([], split 10 s, rw e refl)
  | inr e ↦ let (t, ts, f) = split-cons s in (c ∷ t, ts, rw (e, f) refl)
]

split-line : (l s : Text) → contains 10 l ≡ false → split 10 (l ++ 10 ∷ s) ≡ l ∷ split 10 s
split-line [] s h = refl
split-line (c ∷ l) s h = ground (arith, h, split-line l s)

split-last : (l : Text) → contains 10 l ≡ false → split 10 l ≡ l ∷ []
split-last [] h = refl
split-last (c ∷ l) h = ground (arith, h, split-last l)

split-joined :
    (l : Text) (ls : List Text)
    → All (λ p. contains 10 p ≡ false) (l ∷ ls)
    → split 10 (joined (l ∷ ls)) ≡ l ∷ ls
split-joined l [] h = split-last l h.0
split-joined l (m ∷ ls) h = split-line l (joined (m ∷ ls)) h.0 ∙ ap (◌∷◌ l) (split-joined m ls h.1)

-- The lines of an event, up to its empty line.
cut_blank-unlines :
    (l : Text) (ls : List Text) (rest : Text)
    → All IsLine (l ∷ ls)
    → cut_blank (unlines (l ∷ ls) ++ 10 ∷ rest) ≡ some (joined (l ∷ ls), rest)
cut_blank-unlines l [] rest h =
    ap cut_blank (append_assoc l (10 ∷ []) (10 ∷ rest)) ∙ cut_blank-last l rest h.0.0
cut_blank-unlines l ([] ∷ ls) rest h = absurd (ground (arith, h.1.0))
cut_blank-unlines l ((c ∷ m) ∷ ls) rest h =
    let ne : (c == 10) ≡ false = ground (arith, h.1.0.0) in
    ap cut_blank (append_assoc l (10 ∷ unlines ((c ∷ m) ∷ ls)) (10 ∷ rest))
    ∙ cut_blank-line l c ((m ++ 10 ∷ unlines ls) ++ 10 ∷ rest) h.0.0 ne
    ∙ ap (with_prefix (l ++ 10 ∷ [])) (cut_blank-unlines (c ∷ m) ls rest h.1)
    ∙ ap (λ t. some (t, rest)) (append_assoc l (10 ∷ []) (joined ((c ∷ m) ∷ ls)))

-- The browser's reading of the lines.
read_lines-data :
    (ts : List Text) (f : Fields)
    → read_lines (map data_line ts) f ≡ record f { lines = f.lines ++ ts }
unfolding read_lines
read_lines-data [] f = ap (λ ls. record f { lines = ls }) (sym (append_nil_lines f.lines))
read_lines-data (t ∷ ts) f =
    read_lines-data ts (record f { lines = f.lines ++ t ∷ [] })
    ∙ ap (λ ls. record f { lines = ls }) (append_snoc f.lines t ts)

data_lines-IsLine :
    (ts : List Text) → All (λ p. contains 10 p ≡ false) ts → All IsLine (map data_line ts)
data_lines-IsLine [] h = tt
data_lines-IsLine (t ∷ ts) h = ((h.0, refl), data_lines-IsLine ts h.1)

abbrev no_fields : Fields
no_fields = record { type = lit "message"; lines = [] }

abbrev is_cons : List Text → Bool
is_cons [] = false
is_cons (l ∷ ls) = true

All-no_break : (ls : List Text) → All IsLine ls → All (λ p. contains 10 p ≡ false) ls
All-no_break [] h = tt
All-no_break (l ∷ ls) h = (h.0.0, All-no_break ls h.1)

-- The browser finds the block of some lines, and reads them back.
block_back :
    (ls : List Text) (rest : Text)
    → is_cons ls ≡ true
    → All IsLine ls
    → (block : Text) × (cut_blank ((unlines ls ++ 10 ∷ []) ++ rest) ≡ some (block, rest))
      × (parse_event block ≡ event_of (read_lines ls no_fields))
unfolding parse_event
block_back [] rest ne h = absurd (ground (arith, ne))
block_back (l ∷ ls) rest ne h = (
  joined (l ∷ ls),
  ap cut_blank (append_assoc (unlines (l ∷ ls)) (10 ∷ []) rest) ∙ cut_blank-unlines l ls rest h,
  ap (λ lines. event_of (read_lines lines no_fields)) (split-joined l ls (All-no_break (l ∷ ls) h)),
)

is_cons-data : (s : Text) → is_cons (map data_line (split 10 s)) ≡ true
is_cons-data s = let (t, ts, e) = split-cons s in rw e refl

-- What the browser reads for an event that Send accepts.
abbrev pub received : Text → Text → Event
received event text = record {
  type = if is_empty event then lit "message" else event;
  text = with_lf text;
}

-- The block of an event and its end: the browser finds the block, and reads the event back.
pub cut_blank-event_text :
    (event text rest : Text)
    → contains 10 event ≡ false
    → (block : Text) × (cut_blank (event_text event text ++ rest) ≡ some (block, rest))
      × (parse_event block ≡ received event text)
unfolding event_text read_lines
cut_blank-event_text [] text rest h =
    let parts = split 10 (with_lf text) in
    let (block, found, read) =
      block_back (map data_line parts) rest (is_cons-data (with_lf text))
        (data_lines-IsLine parts (split-part (with_lf text))) in
    (
      block,
      found,
      read
          ∙ ap event_of (read_lines-data parts no_fields)
          ∙ ap (λ t. record { type = lit "message"; text = t }) (joined-split (with_lf text)),
    )
cut_blank-event_text (c ∷ event) text rest h =
    let parts = split 10 (with_lf text) in
    let (block, found, read) =
      block_back ((lit "event: " ++ c ∷ event) ∷ map data_line parts) rest refl
        ((h, refl), data_lines-IsLine parts (split-part (with_lf text))) in
    (
      block,
      found,
      read
          ∙ ap event_of (read_lines-data parts (record { type = c ∷ event; lines = [] }))
          ∙ ap (λ t. record { type = c ∷ event; text = t }) (joined-split (with_lf text)),
    )
