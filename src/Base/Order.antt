-- ===== src/Base/Order.antt =====
-- The order of texts by bytes, and lists sorted by a strict order.
use mathlib.Core.Path.{◌≡◌, refl}
use mathlib.Core.Bool.{Bool, true, false, ◌&&◌, ◌||◌}
use mathlib.Core.List.{List, [], ◌∷◌}
use native.Mathlib.Omega.{arith}
use yet_another_go_boilerpla.Base.Tests.{ltb, ◌==◌}
use yet_another_go_boilerpla.Base.Lists.{All, All-keep, keep}
use yet_another_go_boilerpla.Base.Strings.{Text, eq_text}

abbrev pub text_lt : Text → Text → Bool
text_lt [] [] = false
text_lt [] (y ∷ t) = true
text_lt (x ∷ s) [] = false
text_lt (x ∷ s) (y ∷ t) = ltb x y || x == y && text_lt s t

pub text_lt_irrefl : (s : Text) → text_lt s s ≡ false
text_lt_irrefl [] = refl
text_lt_irrefl (x ∷ s) = ground (arith, text_lt_irrefl s)

pub text_lt_trans : (s t u : Text) → text_lt s t ≡ true → text_lt t u ≡ true → text_lt s u ≡ true
text_lt_trans [] [] u h g = ground arith
text_lt_trans [] (y ∷ t) [] h g = ground arith
text_lt_trans [] (y ∷ t) (z ∷ u) h g = refl
text_lt_trans (x ∷ s) [] u h g = ground arith
text_lt_trans (x ∷ s) (y ∷ t) [] h g = ground arith
text_lt_trans (x ∷ s) (y ∷ t) (z ∷ u) h g = ground (arith, text_lt_trans s t u)

pub text_lt_total : (s t : Text) → eq_text s t ≡ false → text_lt s t ≡ false → text_lt t s ≡ true
text_lt_total [] [] n h = ground arith
text_lt_total [] (y ∷ t) n h = ground arith
text_lt_total (x ∷ s) [] n h = refl
text_lt_total (x ∷ s) (y ∷ t) n h = ground (arith, text_lt_total s t)

module _ {ℓ} {A : Type ℓ} (before : A → A → Bool) where
  -- Each element stands strictly before all that follow it.
  abbrev pub IsSorted : List A → Type ℓ
  IsSorted [] = Unit
  IsSorted (x ∷ xs) = All (λ y. before x y ≡ true) xs × IsSorted xs

  pub IsSorted-keep : (p : A → Bool) (xs : List A) → IsSorted xs → IsSorted (keep p xs)
  IsSorted-keep p [] h = tt
  IsSorted-keep p (x ∷ xs) h =
      ground (arith, IsSorted-keep p xs h.1, All-keep (λ y. before x y ≡ true) p xs h.0)
