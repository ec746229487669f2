-- ===== src/Base/Utf8/Laws.antt =====
-- strings.ToValidUTF8 gives valid text, and the loss of NUL bytes keeps text valid.
use Prim.Native.Nat.{ℕ, zero, suc, ◌≤◌}
use mathlib.Core.Path.{◌≡◌, refl, ◌∙◌}
use mathlib.Core.Logic.{inl, inr}
use mathlib.Core.Bool.{Bool, true, false, not, ◌&&◌}
use mathlib.Core.List.{[], ◌∷◌, ◌++◌}
use mathlib.Core.Option.{Option, none, some}
use native.Mathlib.Omega.{arith}
use yet_another_go_boilerpla.Base.Tests.{◌==◌, if◌then◌else◌, Option-cases}
use yet_another_go_boilerpla.Base.Lists.{length, keep}
use yet_another_go_boilerpla.Base.Strings.{Text}
use yet_another_go_boilerpla.Base.Utf8.{
  follows, lead, tail_of, tail_width, valid_from, valid_string, to_valid_from, to_valid_utf8,
  replacement,
}

follows-to_valid :
    (n lo hi : ℕ) (bad : Bool) (s : Text)
    → follows n lo hi s ≡ true
    → follows n lo hi (to_valid_from n bad s) ≡ true
unfolding to_valid_from
follows-to_valid zero lo hi bad s h = refl
follows-to_valid (suc n) lo hi bad [] h = h
follows-to_valid (suc n) lo hi bad (c ∷ s) h = ground (arith, follows-to_valid n 0x80 0xBF bad s)

follows-length : (n lo hi : ℕ) (s : Text) → follows n lo hi s ≡ true → n ≤ length s
follows-length zero lo hi s h = omega arith
follows-length (suc n) lo hi [] h = ground arith
follows-length (suc n) lo hi (c ∷ s) h = ground (arith, follows-length n 0x80 0xBF s)

lead_low : (c m lo hi : ℕ) → lead c ≡ some (m, lo, hi) → 0x80 ≤ lo
lead_low c m lo hi h = ground arith

tail_of-carry :
    (o : Option (ℕ × ℕ × ℕ)) (n : ℕ) (s t : Text)
    → ((lo hi : ℕ) (m : ℕ)
        → o ≡ some (m, lo, hi)
        → m ≡ n
        → follows m lo hi s ≡ true
        → follows m lo hi t ≡ true)
    → tail_of o s ≡ some n
    → tail_of o t ≡ some n
tail_of-carry none n s t carry h = h
tail_of-carry (some (m, lo, hi)) n s t carry h = ground (arith, carry lo hi m refl)

tail_width-to_valid :
    (c n : ℕ) (bad : Bool) (s : Text)
    → tail_width c s ≡ some n
    → tail_width c (to_valid_from n bad s) ≡ some n
unfolding tail_width
tail_width-to_valid c n bad s h = ground (
  arith,
  tail_of-carry (lead c) n s (to_valid_from n bad s)
      (λ lo hi m e same f. rw (← same) (follows-to_valid m lo hi bad s f)),
)

tail_of-length : (o : Option (ℕ × ℕ × ℕ)) (n : ℕ) (s : Text) → tail_of o s ≡ some n → n ≤ length s
tail_of-length none n s h = ground arith
tail_of-length (some (m, lo, hi)) n s h = ground (arith, follows-length m lo hi s)

tail_width-length : (c n : ℕ) (s : Text) → tail_width c s ≡ some n → n ≤ length s
unfolding tail_width
tail_width-length c n s h = ground (arith, tail_of-length (lead c) n s)

valid-replacement : (t : Text) → valid_from 0 (replacement ++ t) ≡ valid_from 0 t
unfolding valid_from
valid-replacement t = refl

after_invalid :
    (bad : Bool) (t : Text)
    → valid_from 0 t ≡ true
    → valid_from 0 ((if bad then [] else replacement) ++ t) ≡ true
after_invalid true t h = h
after_invalid false t h = valid-replacement t ∙ h

to_valid_from-valid :
    (s : Text) (k : ℕ) (bad : Bool) → k ≤ length s → valid_from k (to_valid_from k bad s) ≡ true
unfolding valid_from to_valid_from
to_valid_from-valid [] zero bad h = refl
to_valid_from-valid [] (suc k) bad h = elim h [ ]
to_valid_from-valid (c ∷ s) (suc k) bad h = to_valid_from-valid s k bad (omega arith)
to_valid_from-valid (c ∷ s) zero bad h = elim (Option-cases (tail_width c s)) [
  | inl e ↦
      let rest = to_valid_from-valid s zero true (omega arith) in
      rw (e, to_valid_from) (after_invalid bad _ rest)
  | inr (n, e) ↦
      let rest = to_valid_from-valid s n false (tail_width-length c n s e) in
      rw (e, to_valid_from) (rw (tail_width-to_valid c n false s e, valid_from) rest)
]

-- strings.ToValidUTF8 gives valid text.
pub to_valid_utf8-valid : (s : Text) → valid_string (to_valid_utf8 s) ≡ true
unfolding valid_string to_valid_utf8
to_valid_utf8-valid s = to_valid_from-valid s 0 false (omega arith)

-- Text without NUL bytes.
abbrev pub drop_nul : Text → Text
drop_nul = keep (λ c. not (c == 0))

-- None of the first `n` bytes is NUL.
abbrev solid : ℕ → Text → Bool
solid zero s = true
solid (suc n) [] = true
solid (suc n) (c ∷ s) = not (c == 0) && solid n s

follows-drop_nul :
    (n lo hi : ℕ) (s : Text)
    → 1 ≤ lo
    → follows n lo hi s ≡ true
    → (follows n lo hi (drop_nul s) ≡ true) × (solid n s ≡ true)
follows-drop_nul zero lo hi s l h = (refl, refl)
follows-drop_nul (suc n) lo hi [] l h = (h, refl)
follows-drop_nul (suc n) lo hi (c ∷ s) l h =
    ground (arith, follows-drop_nul n 0x80 0xBF s (omega arith))

tail_of-solid :
    (o : Option (ℕ × ℕ × ℕ)) (n : ℕ) (s : Text)
    → ((m lo hi : ℕ) → o ≡ some (m, lo, hi) → 0x80 ≤ lo)
    → tail_of o s ≡ some n
    → solid n s ≡ true
tail_of-solid none n s low h = ground arith
tail_of-solid (some (m, lo, hi)) n s low h =
    let l = low m lo hi refl in ground (arith, follows-drop_nul m lo hi s (omega arith))

tail_width-drop_nul :
    (c n : ℕ) (s : Text)
    → tail_width c s ≡ some n
    → (tail_width c (drop_nul s) ≡ some n) × (solid n s ≡ true)
unfolding tail_width
tail_width-drop_nul c n s h = ground (
  arith,
  tail_of-carry (lead c) n s (drop_nul s)
      (λ lo hi m e same f. (follows-drop_nul m lo hi s (omega (arith, lead_low c m lo hi e)) f).0),
  tail_of-solid (lead c) n s (lead_low c),
)

valid-drop_nul :
    (s : Text) (k : ℕ) → valid_from k s ≡ true → solid k s ≡ true → valid_from k (drop_nul s) ≡ true
unfolding valid_from
valid-drop_nul [] k v d = v
valid-drop_nul (c ∷ s) (suc k) v d = ground (arith, valid-drop_nul s k)
valid-drop_nul (c ∷ s) zero v d = elim (Option-cases (tail_width c s)) [
  | inl e ↦ ground arith
  | inr (n, e) ↦ ground (arith, tail_width-drop_nul c n s e, valid-drop_nul s n, valid-drop_nul s 0)
]

-- The loss of its NUL bytes keeps a text valid.
pub valid_string-drop_nul : (s : Text) → valid_string s ≡ true → valid_string (drop_nul s) ≡ true
unfolding valid_string
valid_string-drop_nul s h = valid-drop_nul s 0 h refl
