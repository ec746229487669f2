-- ===== src/Auth/Kept.antt =====
-- Which sessions stay in the table: at a login, at a logout, and at the hourly cleanup.
use yet_another_go_boilerpla.Base.{
  ℕ, zero, suc, ◌+◌, ◌<◌, min, ◌≡◌, refl, subst, inl, inr, Bool, false, not, Option, none, some,
  List, [], ◌∷◌, arith, ltb, Text, length, drop, ◌∙◌, keep, Bool-cases, Option-cases,
}
use yet_another_go_boilerpla.Auth.Table.{
  Session, newest, delete_older, of_user, find, insert, is_expired, pick, extract, delete_expired,
}
use yet_another_go_boilerpla.Auth.Newest.{IsUnique, AreNewer, keep-IsUnique}
use yet_another_go_boilerpla.Auth.Older.{
  is_in, length-spared, spared-AreNewer, others_stay, delete_older-new,
}
use yet_another_go_boilerpla.Auth.Service.{
  Service, start, expired_batch, delete_expired_from, delete_all_expired,
}

-- The row that a login adds.
abbrev pub new_session : (Text → Text) → Service → Text → Text → ℕ → Session
new_session hash s token user now = record {
  token_hash = hash token;
  user_id = user;
  created_at = now;
  expires_at = now + s.ttl;
}

pub start-delete_older :
    (hash : Text → Text) (s : Service) (token user : Text) (now : ℕ) (ss : List Session)
    → find (hash token) ss ≡ none
    → (start hash s token user now false ss).1
      ≡ delete_older user (hash token) 9 (new_session hash s token user now ∷ ss)
unfolding start insert
start-delete_older hash s token user now ss fresh = ground (arith, fresh)

-- When no statement fails, the hash of the token is new, and no two rows have the same hash, a login
-- adds its session and removes sessions: of the earlier ones of the user, 9 stay, or all where there
-- are fewer, and none of those that stay is older than one that goes; all those of other users stay.
pub start_keeps_newest :
    (hash : Text → Text) (s : Service) (token user : Text) (now : ℕ) (ss : List Session)
    → find (hash token) ss ≡ none
    → IsUnique ss
    → (goes : Session → Bool) × ((start hash s token user now false ss).1
        ≡ new_session hash s token user now ∷ keep (λ o. not (goes o)) ss)
      × (length (keep (λ o. not (goes o)) (keep (of_user user) ss))
          ≡ min 9 (length (keep (of_user user) ss)))
      × AreNewer
          (keep (λ o. not (goes o)) (keep (of_user user) ss))
          (keep goes (keep (of_user user) ss))
      × (keep (λ o. not (of_user user o)) (keep (λ o. not (goes o)) ss)
          ≡ keep (λ o. not (of_user user o)) ss)
start_keeps_newest hash s token user now ss fresh unique =
    let mine = keep (of_user user) ss in
    let unique' = keep-IsUnique (of_user user) ss unique in
    (
      is_in (drop 9 (newest mine)),
      start-delete_older hash s token user now ss fresh
          ∙ delete_older-new user 9 (new_session hash s token user now) ss fresh,
      length-spared 9 mine unique',
      spared-AreNewer 9 mine unique',
      others_stay (of_user user) 9 ss unique,
    )

module _ (now : ℕ) where
  abbrev pub live : List Session → List Session
  live = keep (λ s. not (is_expired now s))

  abbrev pub expired_count : List Session → ℕ
  expired_count ss = length (keep (is_expired now) ss)

  -- What `extract` promises: an expired session if there is one, and the rest without it.
  abbrev Extracts : List Session → Option (Session × List Session) → Type 0
  Extracts ss none = (expired_count ss ≡ 0) × (live ss ≡ ss)
  Extracts ss (some (e, rest)) =
      (expired_count ss ≡ suc (expired_count rest)) × (live rest ≡ live ss)

  pick-Extracts :
      (s : Session) (ss : List Session) (o : Option (Session × List Session))
      → Extracts ss o
      → Extracts (s ∷ ss) (pick s ss (is_expired now s) o)
  pick-Extracts s ss none h = ground arith
  pick-Extracts s ss (some (e, rest)) h = elim (Bool-cases (is_expired now s)) [
    | inl x ↦ elim (Bool-cases (ltb e.expires_at s.expires_at)) [
      | inl y ↦ ground arith
      | inr y ↦ ground arith
    ]
    | inr x ↦ ground arith
  ]

  extract-Extracts : (ss : List Session) → Extracts ss (extract now ss)
  unfolding extract
  extract-Extracts [] = (refl, refl)
  extract-Extracts (s ∷ ss) = pick-Extracts s ss (extract now ss) (extract-Extracts ss)

  -- What a cleanup statement with a limit leaves, and counts.
  abbrev Deletes : ℕ → List Session → List Session × ℕ → Type 0
  Deletes limit ss (left, n) =
      (n ≡ min limit (expired_count ss))
      × (expired_count ss ≡ n + expired_count left)
      × (live left ≡ live ss)

  Deletes-none :
      (limit : ℕ) (ss : List Session)
      → Extracts ss none
      → extract now ss ≡ none
      → Deletes limit ss (delete_expired now limit ss)
  unfolding delete_expired
  Deletes-none zero ss h e = ground arith
  Deletes-none (suc limit) ss h e = ground (arith, e)

  Deletes-some :
      (limit : ℕ) (ss : List Session) (s : Session) (rest : List Session)
      → extract now ss ≡ some (s, rest)
      → Deletes limit rest (delete_expired now limit rest)
      → Deletes (suc limit) ss (delete_expired now (suc limit) ss)
  unfolding delete_expired
  Deletes-some limit ss s rest e h =
      let x = subst (Extracts ss) e (extract-Extracts ss) in ground (arith, x, h, e)

  delete_expired-Deletes :
      (limit : ℕ) (ss : List Session) → Deletes limit ss (delete_expired now limit ss)
  unfolding delete_expired
  delete_expired-Deletes zero ss = ground arith
  delete_expired-Deletes (suc limit) ss = elim (Option-cases (extract now ss)) [
    | inl e ↦ Deletes-none (suc limit) ss (subst (Extracts ss) e (extract-Extracts ss)) e
    | inr ((s, rest), e) ↦ Deletes-some limit ss s rest e (delete_expired-Deletes limit rest)
  ]

  live_all : (ss : List Session) → expired_count ss ≡ 0 → live ss ≡ ss
  live_all [] h = refl
  live_all (s ∷ ss) h = ground (arith, live_all ss)

  -- With fuel above the number of expired sessions, the loop ends where no statement fails.
  delete_expired_from_ends :
      (fuel total : ℕ) (ss : List Session)
      → expired_count ss < fuel
      → delete_expired_from fuel now [] ss total
        ≡ some (record { total = total + expired_count ss; failed = false; left = live ss })
  unfolding delete_expired_from
  delete_expired_from_ends zero total ss lt = ground arith
  delete_expired_from_ends (suc fuel) total ss lt =
      let (counted, split, same) = delete_expired-Deletes expired_batch ss in
      let (left, n) = delete_expired now expired_batch ss in
      elim (Bool-cases (ltb n expired_batch)) [
        | inl e ↦ ground (arith, live_all left)
        | inr e ↦ ground (arith, delete_expired_from_ends fuel (total + n) left)
      ]

-- Where no statement fails, the cleanup ends after at most as many statements as sessions are
-- expired, and one more: it removes just the expired sessions, and returns their number.
pub delete_all_expired_lem :
    (now : ℕ) (ss : List Session)
    → delete_all_expired (suc (expired_count now ss)) now [] ss
      ≡ some (record { total = expired_count now ss; failed = false; left = live now ss })
unfolding delete_all_expired
delete_all_expired_lem now ss =
    ground (arith, delete_expired_from_ends now (suc (expired_count now ss)) 0 ss)
