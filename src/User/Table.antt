-- ===== src/User/Table.antt =====
-- internal/user/user.go, postgres.go: the users table and its statements. A `down` flag says that the
-- statement of the call fails for another reason than the unique index on lower(email), which the
-- database checks (migrations/0001_create_users.sql) and the two INSERT and UPDATE report. `lower` stands
-- for the function of PostgreSQL.
use yet_another_go_boilerpla.Base.{
  ℕ, Bool, true, false, not, ◌&&◌, Option, none, some, List, [], ◌∷◌, map, if◌then◌else◌, Text,
  eq_text, any, Outcome, ok, err,
}

pub record User : Type 0 where
  pub id : Text
  pub email : Text
  pub name : Text
  pub password_hash : Text
  pub created_at : ℕ
  pub updated_at : ℕ

-- ErrNotFound, ErrEmailTaken, ErrInvalidCredentials; ValidationError with its text; another failure.
pub data Error : Type 0 where
  not_found email_taken invalid_credentials storage : Error
  validation_error : Text → Error

abbrev pub Answer : Type 0
Answer = Outcome Error User

abbrev pub or_not_found : Option User → Answer
or_not_found none = err not_found
or_not_found (some u) = ok u

abbrev pub first : (User → Bool) → List User → Option User
first p [] = none
first p (u ∷ us) = if p u then some u else first p us

abbrev pub has_id : Text → User → Bool
has_id id u = eq_text u.id id

module _ (lower : Text → Text) where
  abbrev pub has_email : Text → User → Bool
  has_email email u = eq_text (lower u.email) (lower email)

  -- Repo.Insert; `id` and `now` are what the database generates for the new row.
  unfoldable pub insert : Text → Text → Text → Text → ℕ → Bool → List User → Answer × List User
  insert email name password_hash id now true us = (err storage, us)
  insert email name password_hash id now false us =
      let u : User = record {
        id = id;
        email = email;
        name = name;
        password_hash = password_hash;
        created_at = now;
        updated_at = now;
      } in
      if any (has_email email) us then (err email_taken, us) else (ok u, u ∷ us)

  -- Repo.GetByID
  unfoldable pub get_by_id : Text → Bool → List User → Answer
  get_by_id id true us = err storage
  get_by_id id false us = or_not_found (first (has_id id) us)

  -- Repo.GetByEmail
  unfoldable pub get_by_email : Text → Bool → List User → Answer
  get_by_email email true us = err storage
  get_by_email email false us = or_not_found (first (has_email email) us)

  abbrev pub updated : Text → Text → Text → ℕ → User → User
  updated id email name now u =
      if has_id id u then record u { email = email; name = name; updated_at = now } else u

  abbrev pub is_taken : Text → Text → User → Bool
  is_taken id email u = has_email email u && not (has_id id u)

  abbrev pub update_found : Text → Text → Text → ℕ → List User → Option User → Answer × List User
  update_found id email name now us none = (err not_found, us)
  update_found id email name now us (some u) =
      if any (is_taken id email) us
      then (err email_taken, us)
      else (ok (updated id email name now u), map (updated id email name now) us)

  -- Repo.Update: no row, so no change and no violation; or one row.
  unfoldable pub update : Text → Text → Text → ℕ → Bool → List User → Answer × List User
  update id email name now true us = (err storage, us)
  update id email name now false us = update_found id email name now us (first (has_id id) us)
