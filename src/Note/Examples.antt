-- ===== src/Note/Examples.antt =====
-- Tests of the notes, and their theorems at concrete tables.
use yet_another_go_boilerpla.Base.{
  ℕ, zero, suc, ◌≡◌, refl, ap, true, false, Option, some, List, [], ◌∷◌, ◌++◌, Text, lit, length,
  contains, trim_space,
}
use yet_another_go_boilerpla.Note.Table.{Note, zero_cursor}
use yet_another_go_boilerpla.Note.Cursors.{
  is_uuid, format_cursor, parse_cursor, parse_cursor-format_cursor,
}
use yet_another_go_boilerpla.Note.Pages.{notes_of}
use yet_another_go_boilerpla.Note.Walk.{walk, walk-notes_of}
use yet_another_go_boilerpla.Note.Http.{handle_note_add}
use yet_another_go_boilerpla.Note.Owners.{AddsOne, handle_note_add_lem}

-- A time as that many digits 1.
abbrev format_time : ℕ → Text
format_time zero = []
format_time (suc n) = 49 ∷ format_time n

abbrev parse_time : Text → Option ℕ
parse_time s = some (length s)

length-format_time : (t : ℕ) → length (format_time t) ≡ t
length-format_time zero = refl
length-format_time (suc t) = ap suc (length-format_time t)

format_time_plain : (t : ℕ) → contains 95 (format_time t) ≡ false
format_time_plain zero = refl
format_time_plain (suc t) = format_time_plain t

abbrev uuid : Text
uuid = lit "019a2b3c-4d5e-7f60-8a9b-0c1d2e3f4a5b"

abbrev uuid_2 : Text
uuid_2 = lit "019a2b3c-4d5e-7f60-8a9b-0c1d2e3f4a5c"

abbrev note : Text → Text → ℕ → Note
note id user t = record { id = id; user_id = user; text = lit "x"; created_at = t; updated_at = t }

abbrev ann : Text
ann = lit "ann"

abbrev table : List Note
table = note uuid ann 5 ∷ note uuid_2 ann 5 ∷ note (lit "z") (lit "joe") 7 ∷ []

uuid_valid : is_uuid uuid ≡ true
unfolding is_uuid
uuid_valid = refl

uuid_without_dash : is_uuid (lit "019a2b3c+4d5e-7f60-8a9b-0c1d2e3f4a5b") ≡ false
unfolding is_uuid
uuid_without_dash = refl

trimmed : trim_space (9 ∷ lit " a b " ++ 0xC2 ∷ 0xA0 ∷ []) ≡ lit "a b"
unfolding trim_space
trimmed = refl

ann_notes : notes_of ann table ≡ note uuid_2 ann 5 ∷ note uuid ann 5 ∷ []
ann_notes = refl

parse_cursor-format_cursor_example :
    (parse_cursor format_time parse_time
        (format_cursor format_time parse_time (record { created_at = 7; id = uuid }))
      ≡ some (record { created_at = 7; id = uuid }))
    × (parse_cursor format_time parse_time (format_cursor format_time parse_time zero_cursor)
        ≡ some zero_cursor)
parse_cursor-format_cursor_example =
    parse_cursor-format_cursor format_time parse_time (λ t. ap some (length-format_time t))
      format_time_plain (record { created_at = 7; id = uuid }) uuid_valid

walk-notes_of_example :
    walk (suc (length (notes_of ann table))) ann zero_cursor table ≡ some (notes_of ann table)
walk-notes_of_example =
    walk-notes_of ann table ((refl, (refl, tt)), ((refl, tt), (tt, tt))) (refl, (refl, (refl, tt)))

handle_note_add_lem_example :
    AddsOne ann
      (lit " hi ")
      table
      (handle_note_add format_time parse_time false false false true ann
        (lit " hi ")
        uuid
        9
        table).1
handle_note_add_lem_example =
    handle_note_add_lem format_time parse_time false false false true ann (lit " hi ") uuid 9 table
