-- ===== src/Note/Http.antt =====
-- internal/note/http.go: the handlers. A handler runs behind auth.RequireIdentity, for the user of the
-- identity. What a request sends is an argument, and what the handler answers a value.
use yet_another_go_boilerpla.Base.{
  ℕ, ◌+◌, ◌/◌, ◌%◌, Bool, ◌&&◌, ◌||◌, Option, none, some, List, [], ◌∷◌, ◌++◌, leb, ◌==◌,
  if◌then◌else◌, Text, lit, Outcome, ok, err,
}
use yet_another_go_boilerpla.Note.Table.{Note, Cursor, is_zero, zero_cursor, Error}
use yet_another_go_boilerpla.Note.Service.{add, list, delete_note}
use yet_another_go_boilerpla.Note.Cursors.{is_uuid, format_cursor, parse_cursor}

pub record NotesData : Type 0 where
  pub notes : List Note
  pub form_text : Text
  pub error : Text
  pub after : Text
  pub older : Text

-- The notes section or the full page, with a status; a redirect; or the error that goes to web.E.
pub data Answer : Type 0 where
  fragment page : ℕ → NotesData → Answer
  redirect : Text → Answer
  bad_request : Text → Answer
  fails : Error → Answer

abbrev hex_digit : ℕ → ℕ
hex_digit n = if leb n 9 then 48 + n else 55 + n

abbrev is_unreserved : ℕ → Bool
is_unreserved c =
    leb 97 c && leb c 122
    || leb 65 c && leb c 90
    || leb 48 c && leb c 57
    || c == 45
    || c == 46
    || c == 95
    || c == 126

-- url.QueryEscape
abbrev pub query_escape : Text → Text
query_escape [] = []
query_escape (c ∷ s) =
    if is_unreserved c
    then c ∷ query_escape s
    else if c == 32
    then 43 ∷ query_escape s
    else 37 ∷ hex_digit (c / 16) ∷ hex_digit (c % 16) ∷ query_escape s

-- renderNotes
abbrev pub render_notes : Bool → ℕ → NotesData → Answer
render_notes is_htmx status data_ = if is_htmx then fragment status data_ else page status data_

abbrev pub render_loaded : Bool → Outcome Error NotesData → Answer
render_loaded is_htmx (err e) = fails e
render_loaded is_htmx (ok data_) = render_notes is_htmx 200 data_

-- The form of POST /notes that a ValidationError rejects.
abbrev pub render_rejected : Bool → Text → Text → Outcome Error NotesData → Answer
render_rejected is_htmx text message (err e) = fails e
render_rejected is_htmx text message (ok data_) =
    render_notes is_htmx 422 (record data_ { form_text = text; error = message })

module _ (format_time : ℕ → Text) (parse_time : Text → Option ℕ) where
  abbrev pub notes_data : Cursor → Outcome Error (List Note × Cursor) → Outcome Error NotesData
  notes_data after (err e) = err e
  notes_data after (ok (notes, next)) = ok (record {
    notes = notes;
    form_text = [];
    error = [];
    after = format_cursor format_time parse_time after;
    older = format_cursor format_time parse_time next;
  })

  -- loadNotes
  unfoldable pub load_notes : Text → Cursor → Bool → List Note → Outcome Error NotesData
  load_notes user after down ns = notes_data after (list user after down ns)

  -- notesChanged
  unfoldable pub notes_changed : Bool → Text → Cursor → Bool → List Note → Answer
  notes_changed is_htmx user after down ns =
      if is_htmx
      then render_loaded is_htmx (load_notes user after down ns)
      else redirect (
          lit "/notes"
          ++ (if is_zero after
              then []
              else lit "?after=" ++ query_escape (format_cursor format_time parse_time after)))

  abbrev pub notes_from : Bool → Text → Bool → List Note → Option Cursor → Answer
  notes_from is_htmx user down ns none = bad_request (lit "invalid page cursor")
  notes_from is_htmx user down ns (some after) =
      render_loaded is_htmx (load_notes user after down ns)

  -- handleNotes
  unfoldable pub handle_notes : Bool → Text → Text → Bool → List Note → Answer
  handle_notes is_htmx user after down ns =
      notes_from is_htmx user down ns (parse_cursor format_time parse_time after)

  abbrev pub answer_add :
      Bool → Text → Text → Bool → Outcome Error Note × List Note → Answer × List Note
  answer_add is_htmx user text down (ok n, ns) =
      (notes_changed is_htmx user zero_cursor down ns, ns)
  answer_add is_htmx user text down (err (Error.validation_error message), ns) =
      (render_rejected is_htmx text message (load_notes user zero_cursor down ns), ns)
  answer_add is_htmx user text down (err Error.not_found, ns) = (fails Error.not_found, ns)
  answer_add is_htmx user text down (err Error.storage, ns) = (fails Error.storage, ns)

  -- handleNoteAdd; the flags say that ParseForm, the INSERT and the SELECT fail.
  unfoldable pub handle_note_add :
      Bool → Bool → Bool → Bool → Text → Text → Text → ℕ → List Note → Answer × List Note
  handle_note_add malformed insert_down list_down is_htmx user text id now ns =
      if malformed
      then (bad_request (lit "invalid form data"), ns)
      else answer_add is_htmx user text list_down (add user text id now insert_down ns)

  abbrev pub answer_delete :
      Bool → Text → Cursor → Bool → Outcome {0, 0} Error Unit × List Note → Answer × List Note
  answer_delete is_htmx user after down (ok _, ns) = (notes_changed is_htmx user after down ns, ns)
  answer_delete is_htmx user after down (err Error.not_found, ns) =
      (notes_changed is_htmx user after down ns, ns)
  answer_delete is_htmx user after down (err Error.storage, ns) = (fails Error.storage, ns)
  answer_delete is_htmx user after down (err (Error.validation_error m), ns) =
      (fails (Error.validation_error m), ns)

  abbrev pub delete_from :
      Bool → Bool → Bool → Text → Text → List Note → Option Cursor → Answer × List Note
  delete_from delete_down list_down is_htmx user id ns none =
      (bad_request (lit "invalid page cursor"), ns)
  delete_from delete_down list_down is_htmx user id ns (some after) =
      if is_uuid id
      then answer_delete is_htmx user after list_down (delete_note user id delete_down ns)
      else (notes_changed is_htmx user after list_down ns, ns)

  -- handleNoteDelete
  unfoldable pub handle_note_delete :
      Bool → Bool → Bool → Bool → Text → Text → Text → List Note → Answer × List Note
  handle_note_delete malformed delete_down list_down is_htmx user after id ns =
      if malformed
      then (bad_request (lit "invalid form data"), ns)
      else delete_from delete_down list_down is_htmx user id ns
          (parse_cursor format_time parse_time after)
