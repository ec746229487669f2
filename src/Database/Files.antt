-- ===== src/Database/Files.antt =====
-- internal/platform/database/migrate.go: the names of migrations, sorted, and the table of those applied.
use yet_another_go_boilerpla.Base.{
  ◌≡◌, refl, sym, ◌∙◌, inl, inr, false, List, [], ◌∷◌, arith, Bool-cases, Text, eq_text,
  eq_text_comm, All,
}
use yet_another_go_boilerpla.Database.Migrate.{insert_sorted, text_le, sort, mem}

-- No file stands twice.
abbrev pub IsUnique : List Text → Type 0
IsUnique [] = Unit
IsUnique (f ∷ fs) = All (λ g. eq_text f g ≡ false) fs × IsUnique fs

-- Two tables of applied files that have the same ones of `files`.
abbrev pub Agree : List Text → List Text → List Text → Type 0
Agree a b files = All (λ f. mem f a ≡ mem f b) files

All-insert :
    (P : Text → Type 0) (f : Text) (fs : List Text) → P f → All P fs → All P (insert_sorted f fs)
All-insert P f [] p h = (p, tt)
All-insert P f (g ∷ gs) p h = elim (Bool-cases (text_le f g)) [
  | inl e ↦ rw e (p, h)
  | inr e ↦ rw e (h.0, All-insert P f gs p h.1)
]

insert_sorted-IsUnique :
    (f : Text) (fs : List Text)
    → All (λ g. eq_text f g ≡ false) fs
    → IsUnique fs
    → IsUnique (insert_sorted f fs)
insert_sorted-IsUnique f [] new h = (tt, tt)
insert_sorted-IsUnique f (g ∷ gs) new h = elim (Bool-cases (text_le f g)) [
  | inl e ↦ rw e (new, h)
  | inr e ↦ rw e (
    All-insert (λ j. eq_text g j ≡ false) f gs (eq_text_comm g f ∙ new.0) h.0,
    insert_sorted-IsUnique f gs new.1 h.1,
  )
]

All-sort : (P : Text → Type 0) (fs : List Text) → All P fs → All P (sort fs)
All-sort P [] h = tt
All-sort P (f ∷ fs) h = All-insert P f (sort fs) h.0 (All-sort P fs h.1)

pub sort-IsUnique : (fs : List Text) → IsUnique fs → IsUnique (sort fs)
sort-IsUnique [] h = tt
sort-IsUnique (f ∷ fs) h =
    insert_sorted-IsUnique f (sort fs) (All-sort (λ g. eq_text f g ≡ false) fs h.0)
      (sort-IsUnique fs h.1)

pub Agree-self : (a fs : List Text) → Agree a a fs
Agree-self a [] = tt
Agree-self a (f ∷ fs) = (refl, Agree-self a fs)

pub Agree-next :
    (f : Text) (a fs applied : List Text)
    → All (λ g. eq_text f g ≡ false) fs
    → Agree a applied fs
    → Agree a (f ∷ applied) fs
Agree-next f a [] applied other h = tt
Agree-next f a (g ∷ fs) applied other h =
    (ground (arith, other.0, h.0), Agree-next f a fs applied other.1 h.1)

pub Agree-trans : (a b c fs : List Text) → Agree a b fs → Agree c b fs → Agree a c fs
Agree-trans a b c [] h g = tt
Agree-trans a b c (f ∷ fs) h g = (h.0 ∙ sym g.0, Agree-trans a b c fs h.1 g.1)
