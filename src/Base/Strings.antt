-- ===== src/Base/Strings.antt =====
-- Go strings as lists of bytes, with the functions of package strings that the service calls.
use Prim.Native.Nat.{ℕ}
use Prim.Native.Char.{code}
use Prim.Native.String.{String}
use mathlib.Core.Path.{◌≡◌, refl}
use mathlib.Core.Bool.{Bool, true, false, ◌&&◌, ◌||◌}
use mathlib.Core.List.{List, [], ◌∷◌, ◌++◌}
use mathlib.Core.Option.{Option, none, some}
use native.Mathlib.Omega.{arith}
use yet_another_go_boilerpla.Base.Tests.{◌==◌, if◌then◌else◌}

abbrev pub Text : Type 0
Text = List ℕ

-- A literal of the source. All those used here are ASCII.
abbrev pub lit : String → Text
lit String.[] = []
lit (String.◌∷◌ c s) = code c ∷ lit s

abbrev pub eq_text : Text → Text → Bool
eq_text [] [] = true
eq_text [] (y ∷ ys) = false
eq_text (x ∷ xs) [] = false
eq_text (x ∷ xs) (y ∷ ys) = x == y && eq_text xs ys

pub eq_text→eq : (s t : Text) → eq_text s t ≡ true → s ≡ t
eq_text→eq [] [] h = refl
eq_text→eq [] (y ∷ ys) h = ground arith
eq_text→eq (x ∷ xs) [] h = ground arith
eq_text→eq (x ∷ xs) (y ∷ ys) h = ground (arith, eq_text→eq xs ys)

pub eq_text_refl : (s : Text) → eq_text s s ≡ true
eq_text_refl [] = refl
eq_text_refl (x ∷ xs) = ground (arith, eq_text_refl xs)

pub eq_text_comm : (s t : Text) → eq_text s t ≡ eq_text t s
eq_text_comm [] [] = refl
eq_text_comm [] (y ∷ ys) = refl
eq_text_comm (x ∷ xs) [] = refl
eq_text_comm (x ∷ xs) (y ∷ ys) = ground (arith, eq_text_comm xs ys)

abbrev pub is_empty : Text → Bool
is_empty [] = true
is_empty (x ∷ xs) = false

-- strings.ContainsRune for an ASCII rune
abbrev pub contains : ℕ → Text → Bool
contains c [] = false
contains c (x ∷ xs) = x == c || contains c xs

abbrev push_front : ℕ → Option (Text × Text) → Option (Text × Text)
push_front c none = none
push_front c (some (a, b)) = some (c ∷ a, b)

-- strings.Cut at a separator of one byte; `none` where the separator is missing
abbrev pub cut : ℕ → Text → Option (Text × Text)
cut sep [] = none
cut sep (c ∷ s) = if c == sep then some ([], s) else push_front c (cut sep s)

pub cut-append :
    (sep : ℕ) (a b : Text) → contains sep a ≡ false → cut sep (a ++ sep ∷ b) ≡ some (a, b)
cut-append sep [] b h = ground arith
cut-append sep (c ∷ a) b h = ground (arith, cut-append sep a b)

-- strings.CutPrefix; `none` where the prefix is missing
abbrev pub cut_prefix : Text → Text → Option Text
cut_prefix [] s = some s
cut_prefix (p ∷ ps) [] = none
cut_prefix (p ∷ ps) (c ∷ s) = if c == p then cut_prefix ps s else none

abbrev pub or_else {ℓ} : {A : Type ℓ} → A → Option A → A
or_else a none = a
or_else a (some b) = b

-- strings.TrimPrefix
abbrev pub trim_prefix : Text → Text → Text
trim_prefix p s = or_else s (cut_prefix p s)

-- strings.TrimSuffix at a suffix of one byte
abbrev pub trim_suffix : ℕ → Text → Text
trim_suffix x [] = []
trim_suffix x (c ∷ []) = if c == x then [] else c ∷ []
trim_suffix x (c ∷ d ∷ s) = c ∷ trim_suffix x (d ∷ s)

pub cut_prefix-append : (p s : Text) → cut_prefix p (p ++ s) ≡ some s
cut_prefix-append [] s = refl
cut_prefix-append (c ∷ p) s = ground (arith, cut_prefix-append p s)

abbrev pub push_head : ℕ → List Text → List Text
push_head c [] = (c ∷ []) ∷ []
push_head c (t ∷ ts) = (c ∷ t) ∷ ts

-- strings.Split at a separator of one byte
abbrev pub split : ℕ → Text → List Text
split sep [] = [] ∷ []
split sep (c ∷ s) = if c == sep then [] ∷ split sep s else push_head c (split sep s)

-- strings.Trim by a set of ASCII bytes, from the left and from the right
abbrev pub trim_left : (ℕ → Bool) → Text → Text
trim_left p [] = []
trim_left p (c ∷ s) = if p c then trim_left p s else c ∷ s

abbrev drop_last : (ℕ → Bool) → ℕ → Text → Text
drop_last p c [] = if p c then [] else c ∷ []
drop_last p c (d ∷ s) = c ∷ d ∷ s

abbrev pub trim_right : (ℕ → Bool) → Text → Text
trim_right p [] = []
trim_right p (c ∷ s) = drop_last p c (trim_right p s)

abbrev pub is_in : Text → ℕ → Bool
is_in set c = contains c set

abbrev pub trim : Text → Text → Text
trim set s = trim_right (is_in set) (trim_left (is_in set) s)
