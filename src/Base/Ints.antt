-- ===== src/Base/Ints.antt =====
-- Signed integers: `negsuc n` is -(n + 1).
use Prim.Native.Nat.{ℕ, zero, suc}
use mathlib.Core.Path.{◌≡◌, refl}
use mathlib.Core.Bool.{Bool, false}
use yet_another_go_boilerpla.Base.Tests.{leb}

pub data ℤ : Type 0 where
  pos : ℕ → ℤ
  negsuc : ℕ → ℤ

abbrev pub add_one : ℤ → ℤ
add_one (pos n) = pos (suc n)
add_one (negsuc zero) = pos zero
add_one (negsuc (suc n)) = negsuc n

abbrev pub sub_one : ℤ → ℤ
sub_one (pos zero) = negsuc zero
sub_one (pos (suc n)) = pos n
sub_one (negsuc n) = negsuc (suc n)

-- k ≤ z
abbrev pub at_least : ℕ → ℤ → Bool
at_least k (pos n) = leb k n
at_least k (negsuc n) = false

pub add_one-sub_one : (z : ℤ) → add_one (sub_one z) ≡ z
add_one-sub_one (pos zero) = refl
add_one-sub_one (pos (suc n)) = refl
add_one-sub_one (negsuc n) = refl
