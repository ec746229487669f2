-- ===== src/Llm/Lines.antt =====
-- The lines of a response body, as bufio.Scanner gives them to the adapters
-- internal/platform/llm/anthropic and internal/platform/llm/chatcompletions.
use yet_another_go_boilerpla.Base.{
  ℕ, ◌^◌, ◌≡◌, refl, Bool, true, false, Option, none, some, List, [], ◌∷◌, ◌++◌, leb, ◌==◌, arith,
  if◌then◌else◌, Text, lit, contains, cut_prefix, trim_prefix, trim_suffix, length,
}

-- The errors of an adapter.
pub data ProviderError : Type 0 where
  unknown_role request_failed reading_failed bad_data error_event on_text_failed : ProviderError
  no_stop_reason unexpected_stop_reason : ProviderError
  bad_status : ℕ → ProviderError

-- A body, as its reader gives it: the bytes of the reads that succeed, up to the end of the body or to
-- a read that fails; and for a read that fails, the bytes that it gives together with its error.
pub record Body : Type 0 where
  pub bytes : Text
  pub failing : Option Text

abbrev pub is_broken : Option Text → Bool
is_broken none = false
is_broken (some last) = true

abbrev pub last_bytes : Option Text → Text
last_bytes none = []
last_bytes (some last) = last

-- maxLineBytes
abbrev pub max_line_bytes : ℕ
max_line_bytes = 2 ^ 20

abbrev push : ℕ → List (Text × Bool) → List (Text × Bool)
push c [] = (c ∷ [], false) ∷ []
push c ((l, early) ∷ ls) = (c ∷ l, early) ∷ ls

-- The lines that the scanner finds in the bytes of the last read, or at the end of the body.
unfoldable pub scan_last : Text → List (Text × Bool)
scan_last [] = []
scan_last (c ∷ s) = if c == 10 then ([], false) ∷ scan_last s else push c (scan_last s)

-- The lines with their bytes before the line feed. The scanner reads on only where it has no line
-- feed: the flag of a line says that its line feed is in the bytes before the failing read, so the
-- scanner gives it without an error. With a later line it has the error of that read.
unfoldable pub scan : Text → Text → List (Text × Bool)
unfolding scan_last
scan [] last = scan_last last
scan (c ∷ s) last = if c == 10 then ([], true) ∷ scan s last else push c (scan s last)

-- scanner.Scan over a body
abbrev pub lines : Body → List (Text × Bool)
lines body = scan body.bytes (last_bytes body.failing)

-- A line that fills the buffer of the scanner ends the scan with ErrTooLong. (The end of a body that
-- comes with the last byte of a full buffer, in one read, is seen only with the next read here.)
abbrev pub is_too_long : Text → Bool
is_too_long l = leb max_line_bytes (length l)

abbrev pub without_space : Option Text → Option Text
without_space none = none
without_space (some d) = some (trim_prefix (lit " ") d)

-- What a data line carries; `none` for another line. The scanner drops a carriage return at the end.
abbrev pub data_of : Text → Option Text
data_of l = without_space (cut_prefix (lit "data:") (trim_suffix 13 l))

pub scan-line :
    (l s last : Text) → contains 10 l ≡ false → scan (l ++ 10 ∷ s) last ≡ (l, true) ∷ scan s last
unfolding scan
scan-line [] s last h = refl
scan-line (c ∷ l) s last h = ground (arith, scan-line l s last)
