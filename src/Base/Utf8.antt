-- ===== src/Base/Utf8.antt =====
-- Package unicode/utf8 and strings.ToValidUTF8 on bytes: the encodings of RFC 3629.
pub mod Laws
use Prim.Native.Nat.{ℕ, zero, suc}
use mathlib.Core.Path.{◌≡◌, refl}
use mathlib.Core.Bool.{Bool, true, false, ◌&&◌, ◌||◌, not}
use mathlib.Core.List.{List, [], ◌∷◌, ◌++◌}
use mathlib.Core.Option.{Option, none, some}
use yet_another_go_boilerpla.Base.Tests.{ltb, leb, ◌==◌, if◌then◌else◌}
use yet_another_go_boilerpla.Base.Strings.{Text}

abbrev pub within : ℕ → ℕ → ℕ → Bool
within lo hi c = leb lo c && leb c hi

-- For the first byte of a rune of several bytes: how many bytes follow, and the range of the first
-- of them.
abbrev lead : ℕ → Option (ℕ × ℕ × ℕ)
lead c =
    if within 0xC2 0xDF c
    then some (1, 0x80, 0xBF)
    else if c == 0xE0
    then some (2, 0xA0, 0xBF)
    else if c == 0xED
    then some (2, 0x80, 0x9F)
    else if within 0xE1 0xEF c
    then some (2, 0x80, 0xBF)
    else if c == 0xF0
    then some (3, 0x90, 0xBF)
    else if within 0xF1 0xF3 c
    then some (3, 0x80, 0xBF)
    else if c == 0xF4
    then some (3, 0x80, 0x8F)
    else none

abbrev follows : ℕ → ℕ → ℕ → Text → Bool
follows zero lo hi s = true
follows (suc n) lo hi [] = false
follows (suc n) lo hi (c ∷ s) = within lo hi c && follows n 0x80 0xBF s

abbrev tail_of : Option (ℕ × ℕ × ℕ) → Text → Option ℕ
tail_of none s = none
tail_of (some (n, lo, hi)) s = if follows n lo hi s then some n else none

-- utf8.DecodeRuneInString at a byte `c` before `s`: how many bytes of `s` belong to the rune of `c`,
-- or `none` where no valid rune stands.
unfoldable pub tail_width : ℕ → Text → Option ℕ
tail_width c s = if ltb c 0x80 then some 0 else tail_of (lead c) s

-- `skip` bytes are known to belong to the rune before.
unfoldable pub valid_from : ℕ → Text → Bool
unfolding tail_width
valid_from skip [] = skip == 0
valid_from zero (c ∷ s) = elim (tail_width c s) [ none ↦ false | some n ↦ valid_from n s ]
valid_from (suc k) (c ∷ s) = valid_from k s

-- utf8.ValidString
unfoldable pub valid_string : Text → Bool
unfolding valid_from
valid_string s = valid_from 0 s

-- utf8.RuneCountInString of a valid text: the bytes that continue no rune.
unfoldable pub rune_count : Text → ℕ
rune_count [] = 0
rune_count (c ∷ s) = if within 0x80 0xBF c then rune_count s else suc (rune_count s)

-- The bytes of U+FFFD.
abbrev pub replacement : Text
replacement = 0xEF ∷ 0xBF ∷ 0xBD ∷ []

-- strings.ToValidUTF8 with U+FFFD: one replacement for each run of bytes that are no rune.
unfoldable pub to_valid_from : ℕ → Bool → Text → Text
unfolding tail_width
to_valid_from skip bad [] = []
to_valid_from zero bad (c ∷ s) = elim (tail_width c s) [
  | none ↦ (if bad then [] else replacement) ++ to_valid_from zero true s
  | some n ↦ c ∷ to_valid_from n false s
]
to_valid_from (suc k) bad (c ∷ s) = c ∷ to_valid_from k bad s

unfoldable pub to_valid_utf8 : Text → Text
unfolding to_valid_from
to_valid_utf8 s = to_valid_from 0 false s
