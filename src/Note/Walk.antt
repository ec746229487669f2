-- ===== src/Note/Walk.antt =====
-- A client that follows the cursors of Service.List from the first page to the last one.
use yet_another_go_boilerpla.Base.{
  ℕ, zero, suc, ◌≤◌, ◌<◌, ◌≡◌, refl, ◌∙◌, sym, ap, subst, inl, inr, false, Option, none, some, List,
  [], ◌∷◌, ◌++◌, arith, ltb, ltb→lt, if◌then◌else◌, Text, is_empty, length, length-take, take_all,
  take, drop, keep, All-keep, take-append-drop, IsSorted, IsSorted-keep, Bool-cases, ok, err,
}
use yet_another_go_boilerpla.Note.Table.{
  Note, Cursor, is_zero, zero_cursor, newer, newest_first, of_user, after_cursor, is_selected,
  list_by_user,
}
use yet_another_go_boilerpla.Note.Service.{page_size, cursor_of, page_of, list}
use yet_another_go_boilerpla.Note.Pages.{
  HasDistinctIds, HasIds, notes_of, newest_first-IsSorted, All-newest_first, keep-after_cursor,
  All-append_left, All-append_right,
}

abbrev pub join : List Note → Option (List Note) → Option (List Note)
join notes none = none
join notes (some more) = some (notes ++ more)

-- The notes of all pages from a cursor on; `none` where a page fails or the fuel runs out.
unfoldable pub walk : ℕ → Text → Cursor → List Note → Option (List Note)
walk zero user after ns = none
walk (suc fuel) user after ns = elim (list user after false ns) [
  | err e ↦ none
  | ok (notes, next) ↦ if is_zero next then some notes else join notes (walk fuel user next ns)
]

split_again {ℓ} :
    {A : Type ℓ} (n : ℕ) (seen : List A) (x : A) (xs : List A)
    → seen ++ x ∷ xs ≡ (seen ++ x ∷ take n xs) ++ drop n xs
split_again n [] x xs = ap (◌∷◌ x) (sym (take-append-drop n xs))
split_again n (y ∷ ys) x xs = ap (◌∷◌ y) (split_again n ys x xs)

take-take {ℓ} : {A : Type ℓ} (n : ℕ) (xs : List A) → take n (take (suc n) xs) ≡ take n xs
take-take zero xs = refl
take-take (suc n) [] = refl
take-take (suc n) (x ∷ xs) = ap (◌∷◌ x) (take-take n xs)

length-drop_less {ℓ} :
    {A : Type ℓ} (n : ℕ) (xs : List A) → suc n < length xs → length (drop (suc n) xs) < length xs
length-drop_less zero [] lt = ground arith
length-drop_less zero (x ∷ xs) lt = ground arith
length-drop_less (suc n) [] lt = ground arith
length-drop_less (suc n) (x ∷ xs) lt = ground (arith, length-drop_less n xs)

-- What Service.List gives where the rows after the cursor are `rest`.
page_of_last :
    (rest : List Note)
    → length rest ≤ page_size
    → page_of (ok (take 21 rest)) ≡ ok (rest, zero_cursor)
page_of_last rest le = ground (arith, take_all 21 rest)

page_of_full :
    (rest : List Note)
    → page_size < length rest
    → page_of (ok (take 21 rest)) ≡ ok (take page_size rest, cursor_of (take page_size rest))
page_of_full rest lt = ground (arith, length-take 21 rest, take-take 20 rest)

cursor_of-HasIds :
    (x : Note) (xs : List Note) → HasIds (x ∷ xs) → is_zero (cursor_of (x ∷ xs)) ≡ false
cursor_of-HasIds x [] h = h.0
cursor_of-HasIds x (y ∷ ys) h = cursor_of-HasIds y ys h.1

cursor_of-append :
    (xs : List Note) (y : Note) (ys : List Note) → cursor_of (xs ++ y ∷ ys) ≡ cursor_of (y ∷ ys)
cursor_of-append [] y ys = refl
cursor_of-append (x ∷ []) y ys = refl
cursor_of-append (x ∷ z ∷ xs) y ys = cursor_of-append (z ∷ xs) y ys

-- The condition of the statement, in two steps.
keep-is_selected :
    (user : Text) (after : Cursor) (ms : List Note)
    → is_zero after ≡ false
    → keep (is_selected user after) ms ≡ keep (after_cursor after) (keep (of_user user) ms)
keep-is_selected user after [] h = refl
keep-is_selected user after (m ∷ ms) h = ground (arith, keep-is_selected user after ms h)

keep-is_selected_zero :
    (user : Text) (ms : List Note) → keep (is_selected user zero_cursor) ms ≡ keep (of_user user) ms
keep-is_selected_zero user [] = refl
keep-is_selected_zero user (m ∷ ms) = ground (arith, keep-is_selected_zero user ms)

keep-after_seen :
    (seen : List Note) (x : Note) (page rest : List Note)
    → IsSorted newer ((seen ++ x ∷ page) ++ rest)
    → keep (after_cursor (cursor_of (x ∷ page))) ((seen ++ x ∷ page) ++ rest) ≡ rest
keep-after_seen [] x page rest s = keep-after_cursor x page rest s
keep-after_seen (y ∷ ys) x page rest s =
    subst (λ c. keep (after_cursor c) ((y ∷ ys ++ x ∷ page) ++ rest) ≡ rest)
      (cursor_of-append (y ∷ ys) x page) (keep-after_cursor y (ys ++ x ∷ page) rest s)

notes_of-IsSorted :
    (user : Text) (ns : List Note) → HasDistinctIds ns → IsSorted newer (notes_of user ns)
notes_of-IsSorted user ns d =
    IsSorted-keep newer (of_user user) (newest_first ns) (newest_first-IsSorted ns d)

notes_of-HasIds : (user : Text) (ns : List Note) → HasIds ns → HasIds (notes_of user ns)
notes_of-HasIds user ns h =
    All-keep (λ n. is_empty n.id ≡ false) (of_user user) (newest_first ns)
      (All-newest_first (λ n. is_empty n.id ≡ false) ns h)

module _ (user : Text) (ns : List Note) (distinct : HasDistinctIds ns) (ids : HasIds ns) where
  next_cursor :
      (seen : List Note) (x : Note) (page rest : List Note)
      → notes_of user ns ≡ (seen ++ x ∷ page) ++ rest
      → is_zero (cursor_of (x ∷ page)) ≡ false
  next_cursor seen x page rest split =
      let all = subst HasIds split (notes_of-HasIds user ns ids) in
      let shown = All-append_left (λ n. is_empty n.id ≡ false) (seen ++ x ∷ page) rest all in
      cursor_of-HasIds x page (All-append_right (λ n. is_empty n.id ≡ false) seen (x ∷ page) shown)

  -- After a page, the statement selects what follows it among the notes of the user.
  keep-next :
      (seen : List Note) (x : Note) (page rest : List Note)
      → notes_of user ns ≡ (seen ++ x ∷ page) ++ rest
      → keep (is_selected user (cursor_of (x ∷ page))) (newest_first ns) ≡ rest
  keep-next seen x page rest split =
      keep-is_selected user (cursor_of (x ∷ page)) (newest_first ns)
        (next_cursor seen x page rest split)
      ∙ ap (keep (after_cursor (cursor_of (x ∷ page)))) split
      ∙ keep-after_seen seen x page rest
          (subst (IsSorted newer) split (notes_of-IsSorted user ns distinct))

  list_page :
      (after : Cursor) (rest : List Note)
      → keep (is_selected user after) (newest_first ns) ≡ rest
      → list user after false ns ≡ page_of (ok (take 21 rest))
  unfolding list list_by_user
  list_page after rest selected = ap (λ r. page_of (ok (take 21 r))) selected

  -- From a cursor after which `rest` remains, the walk gives `rest`.
  walk-rest :
      (fuel : ℕ) (after : Cursor) (seen rest : List Note)
      → length rest < fuel
      → notes_of user ns ≡ seen ++ rest
      → keep (is_selected user after) (newest_first ns) ≡ rest
      → walk fuel user after ns ≡ some rest
  unfolding walk
  walk-rest zero after seen rest lt split selected = absurd (ground (arith, lt))
  walk-rest (suc fuel) after seen [] lt split selected = rw (walk, list_page after [] selected) refl
  walk-rest (suc fuel) after seen (x ∷ xs) lt split selected =
      elim (Bool-cases (ltb page_size (length (x ∷ xs)))) [
        | inl e ↦
            let whole = take-append-drop 19 xs in
            let splits : notes_of user ns ≡ (seen ++ x ∷ take 19 xs) ++ drop 19 xs =
              split ∙ split_again 19 seen x xs in
            let rest_less = length-drop_less 19 (x ∷ xs) (ltb→lt page_size (length (x ∷ xs)) e) in
            let rest =
              walk-rest fuel (cursor_of (x ∷ take 19 xs)) (seen ++ x ∷ take 19 xs) (drop 19 xs)
                (omega (arith, rest_less, lt)) splits
                (keep-next seen x (take 19 xs) (drop 19 xs) splits) in
            rw
              (
                walk,
                list_page after (x ∷ xs) selected,
                page_of_full (x ∷ xs) (ltb→lt page_size (length (x ∷ xs)) e),
                next_cursor seen x (take 19 xs) (drop 19 xs) splits,
                rest,
                whole,
              )
              refl
        | inr e ↦
            rw (walk, list_page after (x ∷ xs) selected, page_of_last (x ∷ xs) (ground (arith, e)))
              refl
      ]

-- When no statement fails and the ids are a primary key without an empty text: a client that
-- follows the cursors of Service.List from the first page on gets all notes of the user, newest
-- first, each once, after at most one page more than there are notes.
pub walk-notes_of :
    (user : Text) (ns : List Note)
    → HasDistinctIds ns
    → HasIds ns
    → walk (suc (length (notes_of user ns))) user zero_cursor ns ≡ some (notes_of user ns)
walk-notes_of user ns distinct ids =
    walk-rest user ns distinct ids (suc (length (notes_of user ns))) zero_cursor []
      (notes_of user ns) (omega arith) refl (keep-is_selected_zero user (newest_first ns))
