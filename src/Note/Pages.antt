-- ===== src/Note/Pages.antt =====
-- The pages of the notes: they walk through the notes of the user, newest first, with no gap.
use yet_another_go_boilerpla.Base.{
  ◌≡◌, refl, inl, inr, Bool, true, false, List, [], ◌∷◌, ◌++◌, arith, Text, eq_text, eq_text_comm,
  text_lt_irrefl, text_lt_trans, text_lt_total, is_empty, keep, All, All-map, IsSorted, Bool-cases,
}
use yet_another_go_boilerpla.Note.Table.{Note, newer, place, newest_first, of_user, after_cursor}
use yet_another_go_boilerpla.Note.Service.{cursor_of}

-- The primary key of the table.
abbrev pub HasDistinctIds : List Note → Type 0
HasDistinctIds [] = Unit
HasDistinctIds (n ∷ ns) = All (λ m. eq_text n.id m.id ≡ false) ns × HasDistinctIds ns

abbrev pub HasIds : List Note → Type 0
HasIds = All (λ n. is_empty n.id ≡ false)

newer_trans : (a b c : Note) → newer a b ≡ true → newer b c ≡ true → newer a c ≡ true
newer_trans a b c h g = ground (arith, text_lt_trans c.id b.id a.id)

newer_total : (a b : Note) → eq_text a.id b.id ≡ false → newer a b ≡ false → newer b a ≡ true
newer_total a b n h = ground (arith, text_lt_total b.id a.id, eq_text_comm a.id b.id)

newer_irrefl : (a : Note) → newer a a ≡ false
newer_irrefl a = ground (arith, text_lt_irrefl a.id)

newer_asym : (a b : Note) → newer a b ≡ true → newer b a ≡ false
newer_asym a b h = ground (arith, newer_trans a b a, newer_irrefl a)

All-place {κ} :
    (P : Note → Type κ) (n : Note) (ms : List Note) → P n → All P ms → All P (place n ms)
All-place P n [] p h = (p, tt)
All-place P n (m ∷ ms) p h = elim (Bool-cases (newer n m)) [
  | inl e ↦ ground (arith, e, p, h)
  | inr e ↦ ground (arith, e, h, All-place P n ms p h.1)
]

pub All-newest_first {κ} : (P : Note → Type κ) (ns : List Note) → All P ns → All P (newest_first ns)
All-newest_first P [] h = tt
All-newest_first P (n ∷ ns) h = All-place P n (newest_first ns) h.0 (All-newest_first P ns h.1)

place-IsSorted :
    (n : Note) (ms : List Note)
    → All (λ m. eq_text n.id m.id ≡ false) ms
    → IsSorted newer ms
    → IsSorted newer (place n ms)
place-IsSorted n [] d s = (tt, tt)
place-IsSorted n (m ∷ ms) d s = elim (Bool-cases (newer n m)) [
  | inl e ↦
      let later =
        All-map (λ x. newer m x ≡ true) (λ x. newer n x ≡ true) ms (λ x h. newer_trans n m x e h)
          s.0 in
      ground (arith, e, s, later)
  | inr e ↦
      let first = All-place (λ x. newer m x ≡ true) n ms (newer_total n m d.0 e) s.0 in
      ground (arith, e, first, place-IsSorted n ms d.1 s.1)
]

pub newest_first-IsSorted : (ns : List Note) → HasDistinctIds ns → IsSorted newer (newest_first ns)
newest_first-IsSorted [] d = tt
newest_first-IsSorted (n ∷ ns) d =
    place-IsSorted n (newest_first ns) (All-newest_first (λ m. eq_text n.id m.id ≡ false) ns d.0)
      (newest_first-IsSorted ns d.1)

-- All notes of a user, newest first: what the pages show together.
abbrev pub notes_of : Text → List Note → List Note
notes_of user ns = keep (of_user user) (newest_first ns)

keep-All {ℓ} : {A : Type ℓ} (p : A → Bool) (xs : List A) → All (λ x. p x ≡ true) xs → keep p xs ≡ xs
keep-All p [] h = refl
keep-All p (x ∷ xs) h = ground (arith, keep-All p xs h.1)

-- The cursor of a page comes before none of the notes above its last one.
not_after :
    (x y : Note) (ys : List Note)
    → All (λ z. newer x z ≡ true) (y ∷ ys)
    → after_cursor (cursor_of (y ∷ ys)) x ≡ false
not_after x y [] h = newer_asym x y h.0
not_after x y (z ∷ zs) h = not_after x z zs h.1

pub All-append_left {ℓ κ} :
    {A : Type ℓ} (P : A → Type κ) (xs ys : List A) → All P (xs ++ ys) → All P xs
All-append_left P [] ys h = tt
All-append_left P (x ∷ xs) ys h = (h.0, All-append_left P xs ys h.1)

pub All-append_right {ℓ κ} :
    {A : Type ℓ} (P : A → Type κ) (xs ys : List A) → All P (xs ++ ys) → All P ys
All-append_right P [] ys h = h
All-append_right P (x ∷ xs) ys h = All-append_right P xs ys h.1

pub keep-after_cursor :
    (x : Note) (xs rest : List Note)
    → IsSorted newer (x ∷ xs ++ rest)
    → keep (after_cursor (cursor_of (x ∷ xs))) (x ∷ xs ++ rest) ≡ rest
keep-after_cursor x [] rest s = ground (arith, newer_irrefl x, keep-All (newer x) rest s.0)
keep-after_cursor x (y ∷ ys) rest s = ground (
  arith,
  not_after x y ys (All-append_left (λ z. newer x z ≡ true) (y ∷ ys) rest s.0),
  keep-after_cursor y ys rest s.1,
)
