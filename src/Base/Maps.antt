-- ===== src/Base/Maps.antt =====
-- A Go map from strings, as an association list.
use Prim.Native.Nat.{suc, ◌≤◌}
use mathlib.Core.Path.{◌≡◌, refl}
use mathlib.Core.Bool.{Bool, true, false}
use mathlib.Core.List.{List, [], ◌∷◌}
use mathlib.Core.Option.{Option, none, some}
use native.Mathlib.Omega.{arith}
use yet_another_go_boilerpla.Base.Tests.{if◌then◌else◌}
use yet_another_go_boilerpla.Base.Lists.{length, keep}
use yet_another_go_boilerpla.Base.Strings.{Text, eq_text, eq_text→eq, eq_text_refl}

abbrev pub Dict {ℓ} : Type ℓ → Type ℓ
Dict V = List (Text × V)

module _ {ℓ} {V : Type ℓ} where
  abbrev pub lookup : Text → Dict V → Option V
  lookup k [] = none
  lookup k ((j, v) ∷ m) = if eq_text j k then some v else lookup k m

  abbrev pub insert : Text → V → Dict V → Dict V
  insert k v [] = (k, v) ∷ []
  insert k v ((j, w) ∷ m) = if eq_text j k then (j, v) ∷ m else (j, w) ∷ insert k v m

  abbrev pub has_key : Text → Dict V → Bool
  has_key k [] = false
  has_key k ((j, v) ∷ m) = if eq_text j k then true else has_key k m

  -- No key stands twice, as in a Go map.
  abbrev pub IsMap : Dict V → Type 0
  IsMap [] = Unit
  IsMap ((k, v) ∷ m) = (has_key k m ≡ false) × IsMap m

  -- What a test on the values keeps of the value of a key.
  abbrev pub keep_value : (V → Bool) → Option V → Option V
  keep_value p none = none
  keep_value p (some v) = if p v then some v else none

  abbrev pub keep_values : (V → Bool) → Dict V → Dict V
  keep_values p = keep (λ e. p e.1)

pub eq_text_trans : (i j k : Text) → eq_text i k ≡ true → eq_text i j ≡ true → eq_text k j ≡ true
eq_text_trans i j k h g = ground (arith, eq_text→eq i k h)

pub eq_text_sym : (j k : Text) → eq_text j k ≡ false → eq_text k j ≡ false
eq_text_sym j k h = ground (arith, eq_text→eq k j, eq_text_refl j)

module _ {ℓ} {V : Type ℓ} where
  pub lookup-none : (k : Text) (m : Dict V) → has_key k m ≡ false → lookup k m ≡ none
  lookup-none k [] h = refl
  lookup-none k ((j, v) ∷ m) h = ground (arith, lookup-none k m)

  pub lookup-insert_self : (k : Text) (v : V) (m : Dict V) → lookup k (insert k v m) ≡ some v
  lookup-insert_self k v [] = ground (arith, eq_text_refl k)
  lookup-insert_self k v ((j, w) ∷ m) = ground (arith, eq_text_refl k, lookup-insert_self k v m)

  pub lookup-insert_ne :
      (k j : Text) (v : V) (m : Dict V) → eq_text k j ≡ false → lookup j (insert k v m) ≡ lookup j m
  lookup-insert_ne k j v [] h = ground arith
  lookup-insert_ne k j v ((i, w) ∷ m) h =
      ground (arith, eq_text_trans i j k, lookup-insert_ne k j v m h)

  pub has_key-insert :
      (k j : Text) (v : V) (m : Dict V)
      → has_key j m ≡ false
      → eq_text k j ≡ false
      → has_key j (insert k v m) ≡ false
  has_key-insert k j v [] h n = ground arith
  has_key-insert k j v ((i, w) ∷ m) h n = ground (arith, has_key-insert k j v m)

  pub insert-IsMap : (k : Text) (v : V) (m : Dict V) → IsMap m → IsMap (insert k v m)
  insert-IsMap k v [] h = (refl, tt)
  insert-IsMap k v ((j, w) ∷ m) h =
      ground (arith, insert-IsMap k v m h.1, has_key-insert k j v m h.0, eq_text_sym j k)

  pub has_key-keep :
      (p : V → Bool) (k : Text) (m : Dict V)
      → has_key k m ≡ false
      → has_key k (keep_values p m) ≡ false
  has_key-keep p k [] h = refl
  has_key-keep p k ((j, w) ∷ m) h = ground (arith, has_key-keep p k m)

  pub keep-IsMap : (p : V → Bool) (m : Dict V) → IsMap m → IsMap (keep_values p m)
  keep-IsMap p [] h = tt
  keep-IsMap p ((j, w) ∷ m) h = ground (arith, keep-IsMap p m h.1, has_key-keep p j m h.0)

  pub lookup-keep :
      (p : V → Bool) (k : Text) (m : Dict V)
      → IsMap m
      → lookup k (keep_values p m) ≡ keep_value p (lookup k m)
  lookup-keep p k [] h = refl
  lookup-keep p k ((j, w) ∷ m) h = ground (
    arith,
    lookup-keep p k m h.1,
    eq_text→eq j k,
    lookup-none j m h.0,
    lookup-none j (keep_values p m) (has_key-keep p j m h.0),
  )

  pub length-insert-le : (k : Text) (v : V) (m : Dict V) → length (insert k v m) ≤ suc (length m)
  length-insert-le k v [] = omega arith
  length-insert-le k v ((j, w) ∷ m) = ground (arith, length-insert-le k v m)

  pub length-insert_known :
      (k : Text) (v w : V) (m : Dict V) → lookup k m ≡ some w → length (insert k v m) ≡ length m
  length-insert_known k v w [] h = ground arith
  length-insert_known k v w ((j, u) ∷ m) h = ground (arith, length-insert_known k v w m)
