-- ===== src/Note/Cursors.antt =====
-- internal/note/http.go: page cursors as texts. The functions of package time for time.RFC3339Nano
-- are parameters: `format_time`, and `parse_time` with `none` for an error.
use yet_another_go_boilerpla.Base.{
  ℕ, zero, suc, ◌≡◌, refl, inl, inr, Bool, true, false, not, ◌&&◌, ◌||◌, Option, none, some, [],
  ◌∷◌, ◌++◌, leb, ◌==◌, arith, if◌then◌else◌, Text, contains, cut, cut-append, is_empty, length,
  all, keep, Bool-cases,
}
use yet_another_go_boilerpla.Note.Table.{Cursor, is_zero, zero_cursor}

abbrev dash : ℕ
dash = 45

abbrev underscore : ℕ
underscore = 95

-- s[i], inside of the bounds
abbrev byte_at : ℕ → Text → ℕ
byte_at i [] = 0
byte_at zero (c ∷ s) = c
byte_at (suc i) (c ∷ s) = byte_at i s

-- hex.DecodeString gives an error at a byte that is no hexadecimal digit, and at an odd length.
abbrev pub is_hex_digit : ℕ → Bool
is_hex_digit c = leb 48 c && leb c 57 || leb 97 c && leb c 102 || leb 65 c && leb c 70

-- isUUID; 16 bytes are 32 digits.
unfoldable pub is_uuid : Text → Bool
is_uuid s =
    let digits = keep (λ c. not (c == dash)) s in
    length s == 36
    && (byte_at 8 s == dash && byte_at 13 s == dash && byte_at 18 s == dash && byte_at 23 s == dash)
    && (all is_hex_digit digits && length digits == 32)

module _ (format_time : ℕ → Text) (parse_time : Text → Option ℕ) where
  -- formatCursor
  unfoldable pub format_cursor : Cursor → Text
  format_cursor c = if is_zero c then [] else format_time c.created_at ++ underscore ∷ c.id

  abbrev pub timed : Text → Option ℕ → Option Cursor
  timed id none = none
  timed id (some t) = some (record { created_at = t; id = id })

  abbrev pub parse_parts : Option (Text × Text) → Option Cursor
  parse_parts none = none
  parse_parts (some (created_at, id)) =
      if is_uuid id then timed id (parse_time created_at) else none

  -- parseCursor; `none` stands for an error.
  unfoldable pub parse_cursor : Text → Option Cursor
  parse_cursor s = if is_empty s then some zero_cursor else parse_parts (cut underscore s)

  append_full : (s : Text) (c : ℕ) (t : Text) → is_empty (s ++ c ∷ t) ≡ false
  append_full [] c t = refl
  append_full (x ∷ s) c t = refl

  uuid_full : (s : Text) → is_uuid s ≡ true → is_empty s ≡ false
  unfolding is_uuid
  uuid_full [] h = absurd (ground (arith, h))
  uuid_full (x ∷ s) h = refl

  -- When package time parses what it formats, and formats no underscore, parseCursor gives back the
  -- cursor of each note, whose id is a UUID, from its text; and the start of the list from its own.
  pub parse_cursor-format_cursor :
      ((t : ℕ) → parse_time (format_time t) ≡ some t)
      → ((t : ℕ) → contains underscore (format_time t) ≡ false)
      → (c : Cursor) → is_uuid c.id ≡ true
      → (parse_cursor (format_cursor c) ≡ some c)
        × (parse_cursor (format_cursor zero_cursor) ≡ some zero_cursor)
  unfolding parse_cursor format_cursor
  parse_cursor-format_cursor parses plain c u = (
    ground (
      arith,
      uuid_full c.id u,
      append_full (format_time c.created_at) underscore c.id,
      cut-append underscore (format_time c.created_at) c.id (plain c.created_at),
      parses c.created_at,
      u,
    ),
    refl,
  )

  timed_id : (id : Text) (o : Option ℕ) (c : Cursor) → timed id o ≡ some c → c.id ≡ id
  timed_id id none c h = absurd (ground (arith, h))
  timed_id id (some t) c h = ground (arith, h)

  parse_parts-is_uuid :
      (o : Option (Text × Text)) (c : Cursor) → parse_parts o ≡ some c → is_uuid c.id ≡ true
  parse_parts-is_uuid none c h = absurd (ground (arith, h))
  parse_parts-is_uuid (some (t, id)) c h = elim (Bool-cases (is_uuid id)) [
    | inl e ↦ ground (arith, timed_id id (parse_time t) c, e, h)
    | inr e ↦ absurd (ground (arith, e, h))
  ]

  -- A text of a client that parseCursor takes is empty or has an id in the form of a UUID.
  pub parse_cursor-is_uuid :
      (s : Text) (c : Cursor) → parse_cursor s ≡ some c → is_zero c ≡ false → is_uuid c.id ≡ true
  unfolding parse_cursor
  parse_cursor-is_uuid s c h full = elim (Bool-cases (is_empty s)) [
    | inl e ↦ absurd (ground (arith, e, h, full))
    | inr e ↦ parse_parts-is_uuid (cut underscore s) c (ground (arith, e, h))
  ]
