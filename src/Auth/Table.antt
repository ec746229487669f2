-- ===== src/Auth/Table.antt =====
-- internal/auth/postgres.go, auth.go: the sessions table and its statements. The rows are in any
-- order. `now()` stamps each transaction, and Insert runs in one. A time is a number of nanoseconds of
-- the database clock.
use yet_another_go_boilerpla.Base.{
  ℕ, zero, suc, ◌+◌, ◌-◌, Bool, true, false, not, Option, none, some, List, [], ◌∷◌, ltb, leb,
  if◌then◌else◌, max, Text, eq_text, keep, drop, any, ◌&&◌,
}

pub record Session : Type 0 where
  pub token_hash : Text
  pub user_id : Text
  pub created_at : ℕ
  pub expires_at : ℕ

abbrev pub of_user : Text → Session → Bool
of_user user s = eq_text s.user_id user

abbrev pub has_hash : Text → Session → Bool
has_hash hash s = eq_text s.token_hash hash

abbrev pub place : Session → List Session → List Session
place s [] = s ∷ []
place s (t ∷ ts) = if ltb s.created_at t.created_at then t ∷ place s ts else s ∷ t ∷ ts

-- `ORDER BY created_at DESC`; rows with the same stamp can come in any order, here in that of the list.
abbrev pub newest : List Session → List Session
newest [] = []
newest (s ∷ ss) = place s (newest ss)

-- `user_id = @user_id AND token_hash <> @token_hash`
abbrev pub is_other_of : Text → Text → Session → Bool
is_other_of user hash s = of_user user s && not (has_hash hash s)

-- The rows that the subquery of Insert selects, with `n` for OFFSET.
abbrev pub older : Text → Text → ℕ → List Session → List Session
older user hash n ss = drop n (newest (keep (is_other_of user hash) ss))

-- `DELETE FROM sessions WHERE token_hash IN (...)`
unfoldable pub delete_older : Text → Text → ℕ → List Session → List Session
delete_older user hash n ss =
    keep (λ s. not (any (has_hash s.token_hash) (older user hash n ss))) ss

unfoldable pub find : Text → List Session → Option Session
find hash [] = none
find hash (s ∷ ss) = if has_hash hash s then some s else find hash ss

abbrev pub is_known : Option Session → Bool
is_known none = false
is_known (some s) = true

-- Repo.Insert, where no statement fails; `none` stands for the primary key violation, which rolls
-- the transaction back.
unfoldable pub insert : Text → Text → ℕ → ℕ → ℕ → List Session → Option (List Session)
unfolding find delete_older
insert user hash ttl keep_count now ss =
    let row : Session = record {
      token_hash = hash;
      user_id = user;
      created_at = now;
      expires_at = now + ttl;
    } in
    if is_known (find hash ss)
    then none
    else some (delete_older user hash (max (keep_count - 1) 0) (row ∷ ss))

abbrev pub unexpired : ℕ → Option Session → Option Session
unexpired now none = none
unexpired now (some s) = if ltb now s.expires_at then some s else none

-- Repo.Get; `none` stands for ErrNoSession
unfoldable pub get : Text → ℕ → List Session → Option Session
unfolding find
get hash now ss = unexpired now (find hash ss)

-- Repo.Delete
unfoldable pub delete : Text → List Session → List Session
delete hash ss = keep (λ s. not (has_hash hash s)) ss

abbrev pub is_expired : ℕ → Session → Bool
is_expired now s = leb s.expires_at now

-- The session that `ORDER BY expires_at LIMIT 1` picks of the expired ones, and the other rows.
abbrev pub pick :
    Session
    → List Session
    → Bool
    → Option (Session × List Session)
    → Option (Session × List Session)
pick s ss false none = none
pick s ss false (some (e, rest)) = some (e, s ∷ rest)
pick s ss true none = some (s, ss)
pick s ss true (some (e, rest)) =
    if ltb e.expires_at s.expires_at then some (e, s ∷ rest) else some (s, ss)

unfoldable pub extract : ℕ → List Session → Option (Session × List Session)
extract now [] = none
extract now (s ∷ ss) = pick s ss (is_expired now s) (extract now ss)

-- Repo.DeleteExpired: the `limit` expired sessions that expired first go away; their number.
unfoldable pub delete_expired : ℕ → ℕ → List Session → List Session × ℕ
unfolding extract
delete_expired now zero ss = (ss, 0)
delete_expired now (suc limit) ss = elim (extract now ss) [
  | none ↦ (ss, 0)
  | some (e, rest) ↦ ((delete_expired now limit rest).0, suc (delete_expired now limit rest).1)
]
