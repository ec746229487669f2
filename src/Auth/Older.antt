-- ===== src/Auth/Older.antt =====
-- internal/auth/postgres.go: what the DELETE of Insert leaves of the sessions.
use yet_another_go_boilerpla.Base.{
  ℕ, zero, suc, min, ◌≡◌, refl, sym, ap, subst, ◌∙◌, inl, inr, Bool, true, false, not, none, List,
  [], ◌∷◌, arith, Text, eq_text_refl, eq_text_comm, length, length-take, take, drop, keep, any,
  Bool-cases, All, All-map, All-keep,
}
use yet_another_go_boilerpla.Auth.Table.{
  Session, of_user, has_hash, find, newest, is_other_of, delete_older,
}
use yet_another_go_boilerpla.Auth.Newest.{
  IsUnique, IsAtLeastAsNew, AreNewer, All-newest, newest-All, All-drop, keep-All, All-kept,
  newest-IsUnique, length-keep-newest, length-newest, newest-AreNewer,
}

-- Is the row in the answer of the subquery?
abbrev pub is_in : List Session → Session → Bool
is_in old s = any (has_hash s.token_hash) old

none_in : (p : Session → Bool) (ss : List Session) → All (λ t. p t ≡ false) ss → any p ss ≡ false
none_in p [] h = refl
none_in p (s ∷ ss) h = ground (arith, h.0, none_in p ss h.1)

rows_in : (ss : List Session) → All (λ s. is_in ss s ≡ true) ss
rows_in [] = tt
rows_in (s ∷ ss) = (
  ground (arith, eq_text_refl s.token_hash),
  All-map _ _ ss (λ t h. ground (arith, h)) (rows_in ss),
)

keep_none : (p : Session → Bool) (ss : List Session) → All (λ s. p s ≡ false) ss → keep p ss ≡ []
keep_none p [] h = refl
keep_none p (s ∷ ss) h = ground (arith, h.0, keep_none p ss h.1)

keep_whole : (p : Session → Bool) (ss : List Session) → All (λ s. p s ≡ true) ss → keep p ss ≡ ss
keep_whole p [] h = refl
keep_whole p (s ∷ ss) h = ground (arith, h.0, keep_whole p ss h.1)

-- Of rows with different keys, just the first `n` are not among the rest.
keep-first :
    (n : ℕ) (ss : List Session) → IsUnique ss → keep (λ s. not (is_in (drop n ss) s)) ss ≡ take n ss
keep-first zero ss h =
    keep_none (λ s. not (is_in ss s)) ss (All-map _ _ ss (λ s k. ground (arith, k)) (rows_in ss))
keep-first (suc n) [] h = refl
keep-first (suc n) (s ∷ ss) h =
    let e = none_in (has_hash s.token_hash) (drop n ss) (All-drop _ n ss h.0) in
    rw (e, keep-first n ss h.1) refl

keep-rest : (n : ℕ) (ss : List Session) → IsUnique ss → keep (is_in (drop n ss)) ss ≡ drop n ss
keep-rest zero ss h = keep_whole (is_in ss) ss (rows_in ss)
keep-rest (suc n) [] h = refl
keep-rest (suc n) (s ∷ ss) h =
    let e = none_in (has_hash s.token_hash) (drop n ss) (All-drop _ n ss h.0) in
    rw (e, keep-rest n ss h.1) refl

kept_of_newest :
    (P : Session → Type 0) (p : Session → Bool) (ss : List Session)
    → All P (keep p (newest ss))
    → All P (keep p ss)
kept_of_newest P p ss h =
    All-kept P p ss (newest-All (λ s. p s ≡ true → P s) ss (keep-All P p (newest ss) h))

module _ (n : ℕ) (ss : List Session) (unique : IsUnique ss) where
  abbrev old : List Session
  old = drop n (newest ss)

  pub length-spared : length (keep (λ s. not (is_in old s)) ss) ≡ min n (length ss)
  length-spared =
      sym (length-keep-newest (λ s. not (is_in old s)) ss)
      ∙ ap length (keep-first n (newest ss) (newest-IsUnique ss unique))
      ∙ length-take n (newest ss)
      ∙ ap (min n) (length-newest ss)

  pub spared-AreNewer : AreNewer (keep (λ s. not (is_in old s)) ss) (keep (is_in old) ss)
  spared-AreNewer =
      let rest = keep-rest n (newest ss) (newest-IsUnique ss unique) in
      let first = keep-first n (newest ss) (newest-IsUnique ss unique) in
      kept_of_newest (λ s. All (IsAtLeastAsNew s) (keep (is_in old) ss)) (λ s. not (is_in old s)) ss
        (All-map _ _ (keep (λ s. not (is_in old s)) (newest ss))
          (λ s. kept_of_newest (IsAtLeastAsNew s) (is_in old) ss)
          (subst (λ l. All (λ s. All (IsAtLeastAsNew s) (keep (is_in old) (newest ss))) l)
            (sym first)
            (subst (λ l. All (λ s. All (IsAtLeastAsNew s) l) (take n (newest ss))) (sym rest)
              (newest-AreNewer n ss))))

-- Rows with the same hash are the same row, so they agree on every test.
abbrev Agrees : (Session → Bool) → List Session → Session → Type 0
Agrees mine ss s = All (λ t. has_hash s.token_hash t ≡ true → mine s ≡ mine t) ss

Agrees-cons :
    (mine : Session → Bool) (s : Session) (ss ts : List Session)
    → All (λ t. has_hash s.token_hash t ≡ false) ts
    → All (Agrees mine ss) ts
    → All (Agrees mine (s ∷ ss)) ts
Agrees-cons mine s ss [] new h = tt
Agrees-cons mine s ss (t ∷ ts) new h = (
  ((λ k. absurd (ground (arith, k, new.0, eq_text_comm s.token_hash t.token_hash))), h.0),
  Agrees-cons mine s ss ts new.1 h.1,
)

rows_agree : (mine : Session → Bool) (ss : List Session) → IsUnique ss → All (Agrees mine ss) ss
rows_agree mine [] h = tt
rows_agree mine (s ∷ ss) h = (
  ((λ _. refl), All-map _ _ ss (λ t e k. absurd (ground (arith, e, k))) h.0),
  Agrees-cons mine s ss ss h.0 (rows_agree mine ss h.1),
)

other_spared :
    (mine : Session → Bool) (n : ℕ) (ss : List Session) (s : Session)
    → Agrees mine ss s
    → mine s ≡ false
    → is_in (drop n (newest (keep mine ss))) s ≡ false
other_spared mine n ss s h other =
    none_in (has_hash s.token_hash) (drop n (newest (keep mine ss))) (
      All-drop _ n (newest (keep mine ss)) (
        All-newest _ (keep mine ss) (
          All-kept (λ t. has_hash s.token_hash t ≡ false) mine ss
            (All-map _ _ ss
              (λ t k m. elim (Bool-cases (has_hash s.token_hash t)) [
                | inl e ↦ absurd (ground (arith, k e, m, other))
                | inr e ↦ e
              ])
              h))))

keep-keep :
    (p q : Session → Bool) (ss : List Session)
    → All (λ s. p s ≡ true → q s ≡ true) ss
    → keep p (keep q ss) ≡ keep p ss
keep-keep p q [] h = refl
keep-keep p q (s ∷ ss) h = elim (Bool-cases (p s)) [
  | inl e ↦ ground (arith, e, h.0 e, keep-keep p q ss h.1)
  | inr e ↦ elim (Bool-cases (q s)) [
    | inl f ↦ ground (arith, e, f, keep-keep p q ss h.1)
    | inr f ↦ ground (arith, e, f, keep-keep p q ss h.1)
  ]
]

-- The rows of other users stay.
pub others_stay :
    (mine : Session → Bool) (n : ℕ) (ss : List Session)
    → IsUnique ss
    → keep (λ s. not (mine s)) (keep (λ s. not (is_in (drop n (newest (keep mine ss))) s)) ss)
      ≡ keep (λ s. not (mine s)) ss
others_stay mine n ss unique =
    keep-keep (λ s. not (mine s)) (λ s. not (is_in (drop n (newest (keep mine ss))) s)) ss
      (All-map _ _ ss
        (λ s agrees other. ap not (other_spared mine n ss s agrees (ground (arith, other))))
        (rows_agree mine ss unique))

-- No row of the table has the hash.
fresh_rows :
    (hash : Text) (ss : List Session) → find hash ss ≡ none → All (λ t. has_hash hash t ≡ false) ss
unfolding find
fresh_rows hash [] h = tt
fresh_rows hash (s ∷ ss) h = elim (Bool-cases (has_hash hash s)) [
  | inl e ↦ absurd (ground (arith, e, h))
  | inr e ↦ (e, fresh_rows hash ss (ground (arith, e, h)))
]

keep-is_other_of :
    (user hash : Text) (ss : List Session)
    → All (λ t. has_hash hash t ≡ false) ss
    → keep (is_other_of user hash) ss ≡ keep (of_user user) ss
keep-is_other_of user hash [] h = refl
keep-is_other_of user hash (s ∷ ss) h = ground (arith, h.0, keep-is_other_of user hash ss h.1)

keep-cons_false :
    (p : Session → Bool) (s : Session) (ss : List Session)
    → p s ≡ false
    → keep p (s ∷ ss) ≡ keep p ss
keep-cons_false p s ss h = rw h refl

keep-cons_true :
    (p : Session → Bool) (s : Session) (ss : List Session)
    → p s ≡ true
    → keep p (s ∷ ss) ≡ s ∷ keep p ss
keep-cons_true p s ss h = rw h refl

-- The DELETE of Insert leaves the new row, and of the others all but the older ones of the user.
pub delete_older-new :
    (user : Text) (n : ℕ) (row : Session) (ss : List Session)
    → find row.token_hash ss ≡ none
    → delete_older user row.token_hash n (row ∷ ss)
      ≡ row ∷ keep (λ s. not (is_in (drop n (newest (keep (of_user user) ss))) s)) ss
unfolding delete_older
delete_older-new user n row ss fresh =
    let hash = row.token_hash in
    let new = fresh_rows hash ss fresh in
    let mine = keep (of_user user) ss in
    let selected =
      keep-cons_false (is_other_of user hash) row ss (ground (arith, eq_text_refl hash))
      ∙ keep-is_other_of user hash ss new in
    let spared =
      none_in (has_hash hash) (drop n (newest mine))
        (All-drop _ n (newest mine) (All-newest _ mine (All-keep _ (of_user user) ss new))) in
    ap (λ l. keep (λ s. not (is_in (drop n (newest l)) s)) (row ∷ ss)) selected
    ∙ keep-cons_true (λ s. not (is_in (drop n (newest mine)) s)) row ss (ap not spared)
