-- ===== src/User/Service.antt =====
-- internal/user/service.go: the rules of the accounts.
use yet_another_go_boilerpla.Base.{
  ℕ, Bool, false, not, ◌||◌, Option, none, some, List, ltb, if◌then◌else◌, Text, lit, eq_text,
  is_empty, contains, valid_string, rune_count, trim_space, length, Outcome, ok, err, ◌>>=◌,
}
use yet_another_go_boilerpla.User.Table.{
  User, Error, Answer, insert, get_by_id, get_by_email, update,
}
use yet_another_go_boilerpla.User.Password.{hash_password, verify_password}

-- The functions outside of the repository: lower(email) of PostgreSQL; strings.ToLower;
-- mail.ParseAddress with the Address that it gives, `none` for an error; pbkdf2.Key; and
-- base64.RawURLEncoding.
pub record Library : Type 0 where
  pub lower : Text → Text
  pub to_lower : Text → Text
  pub parse_address : Text → Option Text
  pub key : Text → Text → ℕ → ℕ → Option Text
  pub encode : Text → Text
  pub decode : Text → Option Text

abbrev pub min_password_length : ℕ
min_password_length = 8

abbrev pub max_password_length : ℕ
max_password_length = 512

abbrev pub max_name_length : ℕ
max_name_length = 100

abbrev pub invalid_email : Error
invalid_email = Error.validation_error (lit "enter a valid email address")

abbrev pub is_bare : Text → Option Text → Bool
is_bare email none = false
is_bare email (some address) = eq_text address email

-- normalizeName
unfoldable pub normalize_name : Text → Outcome Error Text
normalize_name name =
    let trimmed = trim_space name in
    if not (valid_string name) || contains 0 name
    then err (Error.validation_error (lit "name must contain valid text"))
    else if is_empty trimmed
    then err (Error.validation_error (lit "name must not be empty"))
    else if ltb max_name_length (rune_count trimmed)
    then err (Error.validation_error (lit "name must be at most 100 characters"))
    else ok trimmed

-- validatePassword
unfoldable pub validate_password : Text → Outcome {0, 0} Error Unit
validate_password password =
    if not (valid_string password)
    then err (Error.validation_error (lit "password must contain valid text"))
    else if ltb (rune_count password) min_password_length
    then err (Error.validation_error (lit "password must be at least 8 characters"))
    else if ltb max_password_length (length password)
    then err (Error.validation_error (lit "password must be at most 512 bytes"))
    else ok tt

abbrev pub or_storage : Option Text → Outcome Error Text
or_storage none = err Error.storage
or_storage (some hash) = ok hash

module _ (lib : Library) where
  open lib use {lower, to_lower, parse_address, key, encode, decode}

  -- normalizeEmail
  unfoldable pub normalize_email : Text → Outcome Error Text
  normalize_email email =
      let email' = to_lower (trim_space email) in
      if not (valid_string email) || contains 0 email
      then err invalid_email
      else if is_empty email' || ltb 254 (length email')
      then err invalid_email
      else if is_bare email' (parse_address email')
      then ok email'
      else err invalid_email

  -- What Register stores: the email, the name and the hash of the password.
  unfoldable pub prepare : Text → Text → Text → Text → Outcome Error (Text × Text × Text)
  prepare email name password salt = do
    email' ← normalize_email email
    name' ← normalize_name name
    checked ← validate_password password
    hash ← or_storage (hash_password key encode decode salt password)
    ok (email', name', hash)

  abbrev pub insert_prepared :
      Text → ℕ → Bool → List User → Outcome Error (Text × Text × Text) → Answer × List User
  insert_prepared id now down us (err e) = (err e, us)
  insert_prepared id now down us (ok (email, name, hash)) =
      insert lower email name hash id now down us

  -- Register, with the salt of the hash, and the id and the time of the row
  unfoldable pub register :
      Text → Text → Text → Text → Text → ℕ → Bool → List User → Answer × List User
  register email name password salt id now down us =
      insert_prepared id now down us (prepare email name password salt)

  -- Where the email is unknown, a hash is computed all the same.
  abbrev pub burn : Option Text → Answer
  burn none = err Error.storage
  burn (some hash) = err Error.invalid_credentials

  abbrev pub check_password : Text → Text → Answer → Answer
  check_password password salt (err Error.not_found) =
      burn (hash_password key encode decode salt password)
  check_password password salt (err e) = err e
  check_password password salt (ok u) =
      if verify_password key encode decode u.password_hash password
      then ok u
      else err Error.invalid_credentials

  abbrev pub authenticate_normal : Text → Text → Bool → List User → Outcome Error Text → Answer
  authenticate_normal password salt down us (err e) = err Error.invalid_credentials
  authenticate_normal password salt down us (ok email) =
      check_password password salt (get_by_email lower email down us)

  -- Authenticate, with the salt of the hash that it computes for an unknown email
  unfoldable pub authenticate : Text → Text → Text → Bool → List User → Answer
  authenticate email password salt down us =
      if ltb max_password_length (length password)
      then err Error.invalid_credentials
      else authenticate_normal password salt down us (normalize_email email)

  -- Get is the statement.
  abbrev pub get_user : Text → Bool → List User → Answer
  get_user id down us = get_by_id lower id down us

  abbrev pub update_prepared :
      Text → ℕ → Bool → List User → Outcome Error (Text × Text) → Answer × List User
  update_prepared id now down us (err e) = (err e, us)
  update_prepared id now down us (ok (email, name)) = update lower id email name now down us

  abbrev pub prepare_profile : Text → Text → Outcome Error (Text × Text)
  prepare_profile email name = do
    email' ← normalize_email email
    name' ← normalize_name name
    ok (email', name')

  -- UpdateProfile
  unfoldable pub update_profile : Text → Text → Text → ℕ → Bool → List User → Answer × List User
  update_profile id email name now down us =
      update_prepared id now down us (prepare_profile email name)
