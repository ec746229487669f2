-- ===== src/Note/Owners.antt =====
-- What the handlers change: the notes of their user only, and a deletion once.
use yet_another_go_boilerpla.Base.{
  ℕ, ◌≤◌, ◌≡◌, ◌⊎◌, refl, inl, inr, Bool, true, false, not, Option, none, some, List, [], ◌∷◌,
  arith, Text, is_empty, contains, valid_string, rune_count, trim_space, keep, any, Bool-cases,
  Outcome, ok, err,
}
use yet_another_go_boilerpla.Note.Table.{Note, Cursor, Error, of_user, is_row, insert, delete}
use yet_another_go_boilerpla.Note.Service.{check_text, insert_checked, add, max_text_length}
use yet_another_go_boilerpla.Note.Cursors.{is_uuid, parse_cursor}
use yet_another_go_boilerpla.Note.Http.{
  answer_add, answer_delete, delete_from, notes_changed, handle_note_add, handle_note_delete,
}

keep_none {ℓ} :
    {A : Type ℓ} (p : A → Bool) (xs : List A) → any p xs ≡ false → keep (λ x. not (p x)) xs ≡ xs
keep_none p [] h = refl
keep_none p (x ∷ xs) h = ground (arith, keep_none p xs)

any_kept {ℓ} : {A : Type ℓ} (p : A → Bool) (xs : List A) → any p (keep (λ x. not (p x)) xs) ≡ false
any_kept p [] = refl
any_kept p (x ∷ xs) = ground (arith, any_kept p xs)

keep_others :
    (user id : Text) (ns : List Note)
    → keep (λ n. not (of_user user n)) (keep (λ n. not (is_row user id n)) ns)
      ≡ keep (λ n. not (of_user user n)) ns
keep_others user id [] = refl
keep_others user id (n ∷ ns) = ground (arith, keep_others user id ns)

delete_others :
    (user id : Text) (down : Bool) (ns : List Note)
    → keep (λ n. not (of_user user n)) (delete user id down ns).1
      ≡ keep (λ n. not (of_user user n)) ns
unfolding delete
delete_others user id true ns = refl
delete_others user id false ns = ground (arith, keep_others user id ns)

delete_gone :
    (user id : Text) (ns : List Note)
    → delete user id false (keep (λ n. not (is_row user id n)) ns)
      ≡ (err Error.not_found, keep (λ n. not (is_row user id n)) ns)
unfolding delete
delete_gone user id ns = ground (arith, any_kept (is_row user id) ns)

-- A table is that of before, or has one valid note of the user more.
abbrev pub AddsOne : Text → Text → List Note → List Note → Type 0
AddsOne user text ns left =
    (left ≡ ns)
    ⊎ ((n : Note) × (left ≡ n ∷ ns)
        × (n.user_id ≡ user)
        × (n.text ≡ trim_space text)
        × (valid_string text ≡ true)
        × (contains 0 text ≡ false)
        × (is_empty n.text ≡ false)
        × (rune_count n.text ≤ max_text_length))

-- What Service.Add checks.
abbrev Checks : Text → Outcome Error Text → Type 0
Checks text (err e) = Unit
Checks text (ok t) =
    (t ≡ trim_space text)
    × (valid_string text ≡ true)
    × (contains 0 text ≡ false)
    × (is_empty t ≡ false)
    × (rune_count t ≤ max_text_length)

check_text-Checks : (text : Text) → Checks text (check_text text)
unfolding check_text
check_text-Checks text = ground arith

insert_checked-AddsOne :
    (user text id : Text) (now : ℕ) (down : Bool) (ns : List Note) (o : Outcome Error Text)
    → Checks text o
    → AddsOne user text ns (insert_checked user id now down ns o).1
unfolding insert
insert_checked-AddsOne user text id now down ns (err e) h = inl refl
insert_checked-AddsOne user text id now true ns (ok t) h = inl refl
insert_checked-AddsOne user text id now false ns (ok t) h = inr (
  record { id = id; user_id = user; text = t; created_at = now; updated_at = now },
  refl,
  refl,
  h.0,
  h.1,
  h.2,
  h.3,
  h.4,
)

add-AddsOne :
    (user text id : Text) (now : ℕ) (down : Bool) (ns : List Note)
    → AddsOne user text ns (add user text id now down ns).1
unfolding add
add-AddsOne user text id now down ns =
    insert_checked-AddsOne user text id now down ns (check_text text) (check_text-Checks text)

module _ (format_time : ℕ → Text) (parse_time : Text → Option ℕ) where
  answer_delete_left :
      (is_htmx : Bool) (user : Text) (after : Cursor) (down : Bool)
      (r : Outcome {0, 0} Error Unit × List Note)
      → (answer_delete format_time parse_time is_htmx user after down r).1 ≡ r.1
  answer_delete_left is_htmx user after down (ok _, ns) = refl
  answer_delete_left is_htmx user after down (err Error.not_found, ns) = refl
  answer_delete_left is_htmx user after down (err Error.storage, ns) = refl
  answer_delete_left is_htmx user after down (err (Error.validation_error m), ns) = refl

  answer_again :
      (is_htmx : Bool) (user id : Text) (after : Cursor) (down : Bool) (ns : List Note)
      → answer_delete format_time parse_time is_htmx user after down (delete user id false ns) ≡ (
        notes_changed format_time parse_time is_htmx user after down
            (keep (λ n. not (is_row user id n)) ns),
        keep (λ n. not (is_row user id n)) ns,
      )
  unfolding delete
  answer_again is_htmx user id after down ns = elim (Bool-cases (any (is_row user id) ns)) [
    | inl e ↦ rw e refl
    | inr e ↦ rw (e, keep_none (is_row user id) ns e) refl
  ]

  delete_from_again :
      (list_down is_htmx : Bool) (user id : Text) (ns : List Note) (o : Option Cursor)
      → delete_from format_time parse_time false list_down is_htmx user id
          (delete_from format_time parse_time false list_down is_htmx user id ns o).1
          o
        ≡ delete_from format_time parse_time false list_down is_htmx user id ns o
  delete_from_again list_down is_htmx user id ns none = refl
  delete_from_again list_down is_htmx user id ns (some after) = elim (Bool-cases (is_uuid id)) [
    | inl e ↦ rw (e, answer_again is_htmx user id after list_down ns, delete_gone user id ns) refl
    | inr e ↦ rw e refl
  ]

  delete_from_others :
      (delete_down list_down is_htmx : Bool) (user id : Text) (ns : List Note) (o : Option Cursor)
      → keep
          (λ n. not (of_user user n))
          (delete_from format_time parse_time delete_down list_down is_htmx user id ns o).1
        ≡ keep (λ n. not (of_user user n)) ns
  delete_from_others delete_down list_down is_htmx user id ns none = refl
  delete_from_others delete_down list_down is_htmx user id ns (some after) =
      elim (Bool-cases (is_uuid id)) [
        | inl e ↦
            rw (e, answer_delete_left is_htmx user after list_down (delete user id delete_down ns))
              (delete_others user id delete_down ns)
        | inr e ↦ rw e refl
      ]

  answer_add_left :
      (is_htmx : Bool) (user text : Text) (down : Bool) (r : Outcome Error Note × List Note)
      → (answer_add format_time parse_time is_htmx user text down r).1 ≡ r.1
  answer_add_left is_htmx user text down (ok n, ns) = refl
  answer_add_left is_htmx user text down (err (Error.validation_error m), ns) = refl
  answer_add_left is_htmx user text down (err Error.not_found, ns) = refl
  answer_add_left is_htmx user text down (err Error.storage, ns) = refl

  -- A repeated request to delete a note gets the same answer and changes nothing more, when the
  -- DELETE does not fail.
  pub handle_note_delete_again :
      (malformed list_down is_htmx : Bool) (user after id : Text) (ns : List Note)
      → handle_note_delete format_time parse_time malformed false list_down is_htmx user after id
          (handle_note_delete format_time parse_time malformed false list_down is_htmx user after id
            ns).1
        ≡ handle_note_delete format_time parse_time malformed false list_down is_htmx user after id
            ns
  unfolding handle_note_delete
  handle_note_delete_again malformed list_down is_htmx user after id ns = ground (
    arith,
    delete_from_again list_down is_htmx user id ns (parse_cursor format_time parse_time after),
  )

  -- Whatever fails, a request to delete leaves the notes of all other users as they were.
  pub handle_note_delete-others :
      (malformed delete_down list_down is_htmx : Bool) (user after id : Text) (ns : List Note)
      → keep
          (λ n. not (of_user user n))
          (handle_note_delete format_time parse_time malformed delete_down list_down is_htmx user
            after id ns).1
        ≡ keep (λ n. not (of_user user n)) ns
  unfolding handle_note_delete
  handle_note_delete-others malformed delete_down list_down is_htmx user after id ns = ground (
    arith,
    delete_from_others delete_down list_down is_htmx user id ns
        (parse_cursor format_time parse_time after),
  )

  -- Whatever fails, a request to add a note leaves the table as it was, or adds one note of its user,
  -- for a text of valid UTF-8 without NUL: the note has the trimmed text, not empty and of at most
  -- max_text_length characters.
  pub handle_note_add_lem :
      (malformed insert_down list_down is_htmx : Bool) (user text id : Text) (now : ℕ)
      (ns : List Note)
      → AddsOne user text ns
          (handle_note_add format_time parse_time malformed insert_down list_down is_htmx user text
            id now ns).1
  unfolding handle_note_add
  handle_note_add_lem true insert_down list_down is_htmx user text id now ns = inl refl
  handle_note_add_lem false insert_down list_down is_htmx user text id now ns =
      rw (answer_add_left is_htmx user text list_down (add user text id now insert_down ns))
        (add-AddsOne user text id now insert_down ns)
