-- ===== src/Auth/Newest.antt =====
-- What `ORDER BY created_at DESC OFFSET n` selects, and what a DELETE of these rows leaves.
use yet_another_go_boilerpla.Base.{
  ℕ, zero, suc, ◌≡◌, refl, ap, ◌∙◌, inl, inr, Bool, true, false, List, [], ◌∷◌, arith, ltb,
  if◌then◌else◌, eq_text_comm, length, take, drop, keep, Bool-cases, All, All-map, All-keep,
}
use yet_another_go_boilerpla.Auth.Table.{Session, has_hash, place, newest}

-- The primary key: no two rows have the same token hash.
abbrev pub IsUnique : List Session → Type 0
IsUnique [] = Unit
IsUnique (s ∷ ss) = All (λ t. has_hash s.token_hash t ≡ false) ss × IsUnique ss

-- The session is not older than the other.
abbrev pub IsAtLeastAsNew : Session → Session → Type 0
IsAtLeastAsNew s t = ltb s.created_at t.created_at ≡ false

abbrev IsNewestFirst : List Session → Type 0
IsNewestFirst [] = Unit
IsNewestFirst (s ∷ ss) = All (IsAtLeastAsNew s) ss × IsNewestFirst ss

module _ (P : Session → Type 0) where
  All-place : (s : Session) (ss : List Session) → P s → All P ss → All P (place s ss)
  All-place s [] p h = (p, tt)
  All-place s (t ∷ ts) p h = elim (Bool-cases (ltb s.created_at t.created_at)) [
    | inl e ↦ rw e (h.0, All-place s ts p h.1)
    | inr e ↦ rw e (p, h)
  ]

  pub All-newest : (ss : List Session) → All P ss → All P (newest ss)
  All-newest [] h = tt
  All-newest (s ∷ ss) h = All-place s (newest ss) h.0 (All-newest ss h.1)

  placed-All :
      (s t : Session) (ts : List Session) (is_older : Bool)
      → (All P (place s ts) → P s × All P ts)
      → All P (if is_older then t ∷ place s ts else s ∷ t ∷ ts)
      → P s × All P (t ∷ ts)
  placed-All s t ts true rest h = let (p, all) = rest h.1 in (p, (h.0, all))
  placed-All s t ts false rest h = h

  place-All : (s : Session) (ss : List Session) → All P (place s ss) → P s × All P ss
  place-All s [] h = h
  place-All s (t ∷ ts) h = placed-All s t ts (ltb s.created_at t.created_at) (place-All s ts) h

  pub newest-All : (ss : List Session) → All P (newest ss) → All P ss
  newest-All [] h = tt
  newest-All (s ∷ ss) h = let (p, rest) = place-All s (newest ss) h in (p, newest-All ss rest)

  pub All-drop : (n : ℕ) (ss : List Session) → All P ss → All P (drop n ss)
  All-drop zero ss h = h
  All-drop (suc n) [] h = tt
  All-drop (suc n) (s ∷ ss) h = All-drop n ss h.1

  kept-All :
      (p : Session → Bool) (s : Session) (ss : List Session) (b : Bool)
      → p s ≡ b
      → (All P (keep p ss) → All (λ t. p t ≡ true → P t) ss)
      → All P (if b then s ∷ keep p ss else keep p ss)
      → (p s ≡ true → P s) × All (λ t. p t ≡ true → P t) ss
  kept-All p s ss true e rest h = ((λ _. h.0), rest h.1)
  kept-All p s ss false e rest h = ((λ k. absurd (ground (arith, k, e))), rest h)

  pub keep-All :
      (p : Session → Bool) (ss : List Session) → All P (keep p ss) → All (λ s. p s ≡ true → P s) ss
  keep-All p [] h = tt
  keep-All p (s ∷ ss) h = kept-All p s ss (p s) refl (keep-All p ss) h

  pub All-kept :
      (p : Session → Bool) (ss : List Session) → All (λ s. p s ≡ true → P s) ss → All P (keep p ss)
  All-kept p [] h = tt
  All-kept p (s ∷ ss) h = elim (Bool-cases (p s)) [
    | inl e ↦ rw e (h.0 e, All-kept p ss h.1)
    | inr e ↦ rw e (All-kept p ss h.1)
  ]

place-IsNewestFirst :
    (s : Session) (ss : List Session) → IsNewestFirst ss → IsNewestFirst (place s ss)
place-IsNewestFirst s [] h = (tt, tt)
place-IsNewestFirst s (t ∷ ts) h = elim (Bool-cases (ltb s.created_at t.created_at)) [
  | inl e ↦
      rw e (All-place (IsAtLeastAsNew t) s ts (ground (arith, e)) h.0, place-IsNewestFirst s ts h.1)
  | inr e ↦
      rw e
        ((e, All-map (IsAtLeastAsNew t) (IsAtLeastAsNew s) ts (λ x k. ground (arith, e, k)) h.0), h)
]

newest-IsNewestFirst : (ss : List Session) → IsNewestFirst (newest ss)
newest-IsNewestFirst [] = tt
newest-IsNewestFirst (s ∷ ss) = place-IsNewestFirst s (newest ss) (newest-IsNewestFirst ss)

place-IsUnique :
    (s : Session) (ss : List Session)
    → All (λ t. has_hash s.token_hash t ≡ false) ss
    → IsUnique ss
    → IsUnique (place s ss)
place-IsUnique s [] new h = (tt, tt)
place-IsUnique s (t ∷ ts) new h = elim (Bool-cases (ltb s.created_at t.created_at)) [
  | inl e ↦ rw e (
    All-place (λ x. has_hash t.token_hash x ≡ false) s ts
        (eq_text_comm s.token_hash t.token_hash ∙ new.0) h.0,
    place-IsUnique s ts new.1 h.1,
  )
  | inr e ↦ rw e (new, h)
]

pub newest-IsUnique : (ss : List Session) → IsUnique ss → IsUnique (newest ss)
newest-IsUnique [] h = tt
newest-IsUnique (s ∷ ss) h =
    place-IsUnique s (newest ss) (All-newest _ ss h.0) (newest-IsUnique ss h.1)

pub keep-IsUnique : (p : Session → Bool) (ss : List Session) → IsUnique ss → IsUnique (keep p ss)
keep-IsUnique p [] h = tt
keep-IsUnique p (s ∷ ss) h = elim (Bool-cases (p s)) [
  | inl e ↦ rw e (All-keep _ p ss h.0, keep-IsUnique p ss h.1)
  | inr e ↦ rw e (keep-IsUnique p ss h.1)
]

length-keep-place :
    (p : Session → Bool) (s : Session) (ss : List Session)
    → length (keep p (place s ss)) ≡ length (keep p (s ∷ ss))
length-keep-place p s [] = refl
length-keep-place p s (t ∷ ts) = ground (arith, length-keep-place p s ts)

pub length-keep-newest :
    (p : Session → Bool) (ss : List Session) → length (keep p (newest ss)) ≡ length (keep p ss)
length-keep-newest p [] = refl
length-keep-newest p (s ∷ ss) =
    length-keep-place p s (newest ss) ∙ ground (arith, length-keep-newest p ss)

length-place : (s : Session) (ss : List Session) → length (place s ss) ≡ suc (length ss)
length-place s [] = refl
length-place s (t ∷ ts) = ground (arith, length-place s ts)

pub length-newest : (ss : List Session) → length (newest ss) ≡ length ss
length-newest [] = refl
length-newest (s ∷ ss) = length-place s (newest ss) ∙ ap suc (length-newest ss)

-- In such an order, the first rows are not older than the rest.
abbrev pub AreNewer : List Session → List Session → Type 0
AreNewer new old = All (λ s. All (IsAtLeastAsNew s) old) new

first_newer : (n : ℕ) (ss : List Session) → IsNewestFirst ss → AreNewer (take n ss) (drop n ss)
first_newer zero ss h = tt
first_newer (suc n) [] h = tt
first_newer (suc n) (s ∷ ss) h = (All-drop (IsAtLeastAsNew s) n ss h.0, first_newer n ss h.1)

pub newest-AreNewer :
    (n : ℕ) (ss : List Session) → AreNewer (take n (newest ss)) (drop n (newest ss))
newest-AreNewer n ss = first_newer n (newest ss) (newest-IsNewestFirst ss)
