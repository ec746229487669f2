-- ===== src/Config/Regions.antt =====
-- internal/platform/config/config.go: what isRegion says of the bytes of a region.
use yet_another_go_boilerpla.Base.{
  ℕ, ◌≡◌, refl, Bool, true, ◌||◌, List, [], ◌∷◌, arith, ◌==◌, ==_iff, Bool-cases, all, Text,
  contains, is_empty, split, is_in, push_head, &&-true, trim_left, trim_right, inl, inr, ◌⊎◌,
}
use yet_another_go_boilerpla.Config.Defs.{
  lowercase, digits, is_made_of, are_region_parts, is_region,
}

-- What a region becomes a part of a host name with: lowercase letters, digits and dashes.
unfoldable pub is_host_byte : ℕ → Bool
is_host_byte c = contains c lowercase || contains c digits || c == 45

Text-cases : (s : Text) → (s ≡ []) ⊎ ((c : ℕ) × (t : Text) × (s ≡ c ∷ t))
Text-cases [] = inl refl
Text-cases (c ∷ t) = inr (c, t, refl)

module _ (p : ℕ → Bool) where
  trim_right-all : (s : Text) → is_empty (trim_right p s) ≡ true → all p s ≡ true
  trim_right-all [] h = refl
  trim_right-all (c ∷ s) h = elim (Text-cases (trim_right p s)) [
    | inl e ↦ ground (arith, e, h, trim_right-all s)
    | inr (d, t, e) ↦ absurd (ground (arith, e, h))
  ]

  trim-all : (s : Text) → is_empty (trim_right p (trim_left p s)) ≡ true → all p s ≡ true
  trim-all [] h = refl
  trim-all (c ∷ s) h = elim (Bool-cases (p c)) [
    | inl e ↦ ground (arith, e, trim-all s (rw e at h))
    | inr e ↦ trim_right-all (c ∷ s) (rw e at h)
  ]

  push_head-all :
      (c : ℕ) (ts : List Text)
      → all (all p) (push_head c ts) ≡ true
      → (p c ≡ true) × (all (all p) ts ≡ true)
  push_head-all c [] h = ground (arith, h)
  push_head-all c (t ∷ ts) h = ground (arith, h)

  all-split : (s : Text) → p 45 ≡ true → all (all p) (split 45 s) ≡ true → all p s ≡ true
  all-split [] dash h = refl
  all-split (c ∷ s) dash h = elim (Bool-cases (c == 45)) [
    | inl e ↦ ground (arith, ==_iff c 45, e, dash, all-split s dash (rw e at h))
    | inr e ↦
        let (first, rest) = push_head-all c (split 45 s) (rw e at h) in
        ground (arith, first, all-split s dash rest)
  ]

all-weaken :
    (p q : ℕ → Bool) (s : Text)
    → ((c : ℕ) → p c ≡ true → q c ≡ true)
    → all p s ≡ true
    → all q s ≡ true
all-weaken p q [] f h = refl
all-weaken p q (c ∷ s) f h = ground (arith, f c, all-weaken p q s f)

or_middle : (a b c : Bool) → b ≡ true → (a || b || c) ≡ true
or_middle a b c h = ground (arith, h)

word_byte : (c : ℕ) → is_in lowercase c ≡ true → is_host_byte c ≡ true
unfolding is_host_byte
word_byte c h = rw h refl

number_byte : (c : ℕ) → is_in digits c ≡ true → is_host_byte c ≡ true
unfolding is_host_byte
number_byte c h = or_middle (contains c lowercase) (contains c digits) (c == 45) h

is_made_of-all :
    (set part : Text)
    → ((c : ℕ) → is_in set c ≡ true → is_host_byte c ≡ true)
    → is_made_of set part ≡ true
    → all is_host_byte part ≡ true
is_made_of-all set part f h =
    all-weaken (is_in set) is_host_byte part f (trim-all (is_in set) part (&&-true _ _ h).1)

parts_all :
    (parts : List Text) → are_region_parts parts ≡ true → all (all is_host_byte) parts ≡ true
parts_all [] h = refl
parts_all (part ∷ []) h = rw (is_made_of-all digits part number_byte h) refl
parts_all (part ∷ next ∷ parts) h =
    let (word, rest) = &&-true _ _ h in
    rw (is_made_of-all lowercase part word_byte word, parts_all (next ∷ parts) rest) refl

-- A region has only lowercase letters, digits and dashes.
pub is_region-all : (s : Text) → is_region s ≡ true → all is_host_byte s ≡ true
unfolding is_region is_host_byte
is_region-all s h = all-split is_host_byte s refl (parts_all (split 45 s) (&&-true _ _ h).1)
