-- ===== src/Queue/Names/Defs.antt =====
-- internal/platform/queue/queue.go: the names of queues, consumers and message types, and the error
-- text of the dead letter queue.
use yet_another_go_boilerpla.Base.{
  ℕ, zero, suc, Bool, false, not, ◌&&◌, ◌||◌, leb, ltb, ◌==◌, if◌then◌else◌, length, take, all,
  keep, Text, is_empty, valid_string, to_valid_utf8,
}

abbrev pub max_name_length : ℕ
max_name_length = 57

abbrev pub max_error_bytes : ℕ
max_error_bytes = 2000

abbrev pub name_byte : ℕ → Bool
name_byte c = leb b'a' c && leb c b'z' || leb b'0' c && leb c b'9' || c == b'_' || c == b'.'

-- `range` decodes runes; a rune of several bytes is above b'z', and so are its bytes.
unfoldable pub valid_name : Text → Bool
valid_name name =
    if is_empty name || ltb max_name_length (length name) then false else all name_byte name

-- `for !utf8.ValidString(s) { s = s[:len(s)-1] }`, with the length as the loop's variable.
unfoldable pub cut_back : ℕ → Text → Text
unfolding valid_string
cut_back zero s = take zero s
cut_back (suc n) s =
    let shorter = cut_back n s in if valid_string (take (suc n) s) then take (suc n) s else shorter

-- errorText, of the text `err.Error()`
unfoldable pub error_text : Text → Text
unfolding to_valid_utf8 cut_back
error_text message =
    let s = keep (λ c. not (c == 0)) (to_valid_utf8 message) in
    if leb (length s) max_error_bytes then s else cut_back max_error_bytes s
