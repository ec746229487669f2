-- ===== src/Base/Spaces.antt =====
-- strings.TrimSpace on valid UTF-8: the characters with the property White_Space, as bytes.
use Prim.Native.Nat.{ℕ, zero, suc}
use mathlib.Core.Bool.{Bool, ◌&&◌, ◌||◌}
use mathlib.Core.List.{[], ◌∷◌}
use yet_another_go_boilerpla.Base.Tests.{leb, ◌==◌, if◌then◌else◌}
use yet_another_go_boilerpla.Base.Strings.{Text}
use yet_another_go_boilerpla.Base.Lists.{length, drop}

-- Is there a white space of one, two or three bytes?
abbrev is_space_1 : ℕ → Bool
is_space_1 a = leb 9 a && leb a 13 || a == 32

abbrev is_space_2 : ℕ → ℕ → Bool
is_space_2 a b = a == 0xC2 && (b == 0x85 || b == 0xA0)

abbrev is_space_3 : ℕ → ℕ → ℕ → Bool
is_space_3 a b c =
    a == 0xE1 && b == 0x9A && c == 0x80
    || a == 0xE2 && b == 0x80 && (leb 0x80 c && leb c 0x8A || c == 0xA8 || c == 0xA9 || c == 0xAF)
    || a == 0xE2 && b == 0x81 && c == 0x9F
    || a == 0xE3 && b == 0x80 && c == 0x80

abbrev reverse_on : Text → Text → Text
reverse_on [] r = r
reverse_on (c ∷ s) r = reverse_on s (c ∷ r)

-- The number of bytes of the white space at the start of a text, 0 if there is none.
abbrev pub space_width : Text → ℕ
space_width [] = 0
space_width (a ∷ []) = if is_space_1 a then 1 else 0
space_width (a ∷ b ∷ []) = if is_space_1 a then 1 else if is_space_2 a b then 2 else 0
space_width (a ∷ b ∷ c ∷ s) =
    if is_space_1 a then 1 else if is_space_2 a b then 2 else if is_space_3 a b c then 3 else 0

-- The same at the end, on the reversed text.
abbrev space_width_back : Text → ℕ
space_width_back [] = 0
space_width_back (a ∷ []) = if is_space_1 a then 1 else 0
space_width_back (b ∷ a ∷ []) = if is_space_1 b then 1 else if is_space_2 a b then 2 else 0
space_width_back (c ∷ b ∷ a ∷ s) =
    if is_space_1 c then 1 else if is_space_2 b c then 2 else if is_space_3 a b c then 3 else 0

abbrev strip : (Text → ℕ) → ℕ → Text → Text
strip width zero s = s
strip width (suc fuel) s =
    let rest = strip width fuel (drop (width s) s) in if width s == 0 then s else rest

-- A step of `strip` drops a byte at least, so the length of the text is fuel enough.
unfoldable pub trim_space : Text → Text
trim_space s =
    let left = strip space_width (length s) s in
    reverse_on (strip space_width_back (length left) (reverse_on left [])) []
