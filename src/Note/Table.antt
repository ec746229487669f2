-- ===== src/Note/Table.antt =====
-- internal/note/note.go, postgres.go: the notes table and its statements. A `down` flag says that the
-- statement of the call fails. A time is a number of nanoseconds of the database clock.
use yet_another_go_boilerpla.Base.{
  ℕ, ◌+◌, leb, map, Bool, true, false, not, ◌&&◌, ◌||◌, List, [], ◌∷◌, ltb, ◌==◌, if◌then◌else◌,
  Text, eq_text, text_lt, is_empty, take, keep, any, Outcome, ok, err,
}

pub record Note : Type 0 where
  pub id : Text
  pub user_id : Text
  pub text : Text
  pub created_at : ℕ
  pub updated_at : ℕ

pub record Cursor : Type 0 where
  pub created_at : ℕ
  pub id : Text

-- Cursor.IsZero
abbrev pub is_zero : Cursor → Bool
is_zero c = is_empty c.id

abbrev pub zero_cursor : Cursor
zero_cursor = record { created_at = 0; id = [] }

-- ErrNotFound; ValidationError with its text; a statement that fails.
pub data Error : Type 0 where
  not_found : Error
  validation_error : Text → Error
  storage : Error

-- `(created_at, id) < (@after_created_at, @after_id)`: a row value compares by its parts in turn. On
-- ids in the canonical form of the database, the order of uuid is that of the bytes of the text.
abbrev pub key_lt : ℕ → Text → ℕ → Text → Bool
key_lt t i u j = ltb t u || t == u && text_lt i j

abbrev pub newer : Note → Note → Bool
newer n m = key_lt m.created_at m.id n.created_at n.id

abbrev pub place : Note → List Note → List Note
place n [] = n ∷ []
place n (m ∷ ms) = if newer n m then n ∷ m ∷ ms else m ∷ place n ms

-- `ORDER BY created_at DESC, id DESC`
abbrev pub newest_first : List Note → List Note
newest_first [] = []
newest_first (n ∷ ns) = place n (newest_first ns)

abbrev pub of_user : Text → Note → Bool
of_user user n = eq_text n.user_id user

abbrev pub after_cursor : Cursor → Note → Bool
after_cursor c n = key_lt n.created_at n.id c.created_at c.id

abbrev pub is_selected : Text → Cursor → Note → Bool
is_selected user after n = of_user user n && (is_zero after || after_cursor after n)

-- Repo.Insert; `id` and `now` are what the database generates for the new row.
unfoldable pub insert : Text → Text → Text → ℕ → Bool → List Note → Outcome Error Note × List Note
insert user text id now true ns = (err storage, ns)
insert user text id now false ns =
    let n : Note = record {
      id = id;
      user_id = user;
      text = text;
      created_at = now;
      updated_at = now;
    } in
    (ok n, n ∷ ns)

-- Repo.ListByUser
unfoldable pub list_by_user : Text → Cursor → ℕ → Bool → List Note → Outcome Error (List Note)
list_by_user user after limit true ns = err storage
list_by_user user after limit false ns =
    ok (take limit (keep (is_selected user after) (newest_first ns)))

-- A uuid as the database writes it: the case of its letters does not matter.
abbrev pub canonical : Text → Text
canonical id = map (λ c. if leb 65 c && leb c 90 then c + 32 else c) id

abbrev pub is_row : Text → Text → Note → Bool
is_row user id n = eq_text n.id (canonical id) && of_user user n

-- Repo.Delete
unfoldable pub delete : Text → Text → Bool → List Note → Outcome {0, 0} Error Unit × List Note
delete user id true ns = (err storage, ns)
delete user id false ns =
    if any (is_row user id) ns
    then (ok tt, keep (λ n. not (is_row user id n)) ns)
    else (err not_found, ns)
