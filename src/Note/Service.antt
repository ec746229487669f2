-- ===== src/Note/Service.antt =====
-- internal/note/service.go: the rules of the notes.
use yet_another_go_boilerpla.Base.{
  ℕ, ◌+◌, Bool, not, ◌||◌, List, [], ◌∷◌, ltb, if◌then◌else◌, Text, lit, contains, is_empty,
  valid_string, rune_count, trim_space, length, take, Outcome, ok, err,
}
use yet_another_go_boilerpla.Note.Table.{
  Note, Cursor, zero_cursor, Error, insert, list_by_user, delete,
}

abbrev pub max_text_length : ℕ
max_text_length = 10000

abbrev pub page_size : ℕ
page_size = 20

abbrev pub invalid_text : Error
invalid_text = Error.validation_error (lit "text must contain valid text")

abbrev pub empty_text : Error
empty_text = Error.validation_error (lit "text must not be empty")

abbrev pub long_text : Error
long_text = Error.validation_error (lit "text must be at most 10000 characters")

-- The checks of Service.Add, which gives the text to store.
unfoldable pub check_text : Text → Outcome Error Text
check_text text =
    let trimmed = trim_space text in
    if not (valid_string text) || contains 0 text
    then err invalid_text
    else if is_empty trimmed
    then err empty_text
    else if ltb max_text_length (rune_count trimmed)
    then err long_text
    else ok trimmed

abbrev pub insert_checked :
    Text → Text → ℕ → Bool → List Note → Outcome Error Text → Outcome Error Note × List Note
insert_checked user id now down ns (err e) = (err e, ns)
insert_checked user id now down ns (ok text) = insert user text id now down ns

-- Service.Add
unfoldable pub add : Text → Text → Text → ℕ → Bool → List Note → Outcome Error Note × List Note
add user text id now down ns = insert_checked user id now down ns (check_text text)

abbrev pub cursor_of : List Note → Cursor
cursor_of [] = zero_cursor
cursor_of (n ∷ []) = record { created_at = n.created_at; id = n.id }
cursor_of (n ∷ m ∷ ns) = cursor_of (m ∷ ns)

-- The page and the cursor of the next one, from the rows of the statement.
abbrev pub page_of : Outcome Error (List Note) → Outcome Error (List Note × Cursor)
page_of (err e) = err e
page_of (ok notes) =
    if ltb page_size (length notes)
    then ok (take page_size notes, cursor_of (take page_size notes))
    else ok (notes, zero_cursor)

-- Service.List
unfoldable pub list : Text → Cursor → Bool → List Note → Outcome Error (List Note × Cursor)
list user after down ns = page_of (list_by_user user after (page_size + 1) down ns)

-- Service.Delete is the statement.
abbrev pub delete_note : Text → Text → Bool → List Note → Outcome {0, 0} Error Unit × List Note
delete_note user id down ns = delete user id down ns
