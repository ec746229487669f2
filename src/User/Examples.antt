-- ===== src/User/Examples.antt =====
-- Tests of the accounts, and their theorems at concrete tables.
use yet_another_go_boilerpla.Base.{
  ℕ, suc, ◌-◌, ◌≡◌, ◌⊎◌, refl, true, false, Option, some, [], ◌∷◌, ◌++◌, map, arith, ltb,
  if◌then◌else◌, Text, lit, contains, length, take, trim_space, valid_string, rune_count, ok, All,
}
use yet_another_go_boilerpla.Auth.Service.{Service, start}
use yet_another_go_boilerpla.User.Table.{User, insert, get_by_email}
use yet_another_go_boilerpla.User.Password.{dollar, hash_password, verify_password}
use yet_another_go_boilerpla.User.Service.{
  Library, max_password_length, normalize_email, normalize_name, validate_password, prepare,
  register, authenticate, update_profile,
}
use yet_another_go_boilerpla.User.Accounts.{IsAccount, register-IsAccount}
use yet_another_go_boilerpla.User.Login.{authenticate_ok, register-authenticate}
use yet_another_go_boilerpla.User.Http.{
  handle_login, started, StartsNone, handle_login-authenticate,
}

-- An encoding that writes no dollar.
abbrev encode : Text → Text
encode [] = []
encode (c ∷ s) = (if ltb c dollar then c else suc c) ∷ encode s

abbrev decode_byte : ℕ → ℕ
decode_byte c = if ltb c dollar then c else c - 1

abbrev decode : Text → Option Text
decode s = some (map decode_byte s)

decode-encode : (s : Text) → map decode_byte (encode s) ≡ s
decode-encode [] = refl
decode-encode (c ∷ s) = ground (arith, decode-encode s)

decodes : (s : Text) → decode (encode s) ≡ some s
decodes s = ground (arith, decode-encode s)

plain : (s : Text) → contains dollar (encode s) ≡ false
plain [] = refl
plain (c ∷ s) = ground (arith, plain s)

abbrev zeros : Text
zeros = 0 ∷ 0 ∷ 0 ∷ 0 ∷ 0 ∷ 0 ∷ 0 ∷ 0 ∷ 0 ∷ 0 ∷ 0 ∷ 0 ∷ 0 ∷ 0 ∷ 0 ∷ 0 ∷ []

-- A derived key of the first bytes of the password and the salt.
abbrev lib : Library
lib = record {
  lower = λ s. s;
  to_lower = λ s. s;
  parse_address = some;
  key = λ password salt n len. some (take len (password ++ salt ++ zeros ++ zeros));
  encode = encode;
  decode = decode;
}

abbrev password : Text
password = lit "pass word"

abbrev made : User
made = record {
  id = lit "u1";
  email = lit "a@b.c";
  name = lit "Al";
  password_hash =
      lit "pbkdf2-sha256"
      ++ dollar ∷ lit "600000"
      ++ dollar ∷ encode zeros
      ++ dollar ∷ encode (take 32 (password ++ zeros ++ zeros ++ zeros));
  created_at = 7;
  updated_at = 7;
}

registered :
    register lib (lit " a@b.c") (lit "Al ") password zeros (lit "u1") 7 false []
    ≡ (ok made, made ∷ [])
unfolding register prepare normalize_email normalize_name validate_password hash_password insert
    trim_space valid_string rune_count
registered = refl

register-authenticate_example :
    authenticate lib (lit " a@b.c") password zeros false (made ∷ []) ≡ ok made
register-authenticate_example =
    register-authenticate lib decodes plain (lit " a@b.c") (lit "Al ") password zeros zeros
      (lit "u1") 7 false [] (made ∷ []) made (take 32 (password ++ zeros ++ zeros ++ zeros)) refl
      refl refl registered

authenticate_ok_example :
    (ltb max_password_length (length password) ≡ false)
    × ((e : Text) × (normalize_email lib (lit " a@b.c") ≡ ok e)
        × (get_by_email (λ s. s) e false (made ∷ []) ≡ ok made)
        × (verify_password lib.key encode decode made.password_hash password ≡ true))
authenticate_ok_example =
    authenticate_ok lib (lit " a@b.c") password zeros false (made ∷ []) made
      register-authenticate_example

made-IsAccount : IsAccount lib made
unfolding hash_password trim_space valid_string rune_count
made-IsAccount = (
  (lit "a@b.c", refl, refl, refl, refl, refl, refl),
  (lit "Al", refl, refl, refl, refl, refl),
  (password, zeros, (refl, refl, refl), refl),
)

register-IsAccount_example :
    All
      (IsAccount lib)
      (register lib (lit "d@b.c") (lit "Di") password zeros (lit "u2") 8 false (made ∷ [])).1
    × ((id' : Text)
        → All
            (IsAccount lib)
            (update_profile lib id' (lit "d@b.c") (lit "Di") 8 false (made ∷ [])).1)
register-IsAccount_example =
    register-IsAccount lib (lit "d@b.c") (lit "Di") password zeros (lit "u2") 8 false (made ∷ [])
      (made-IsAccount, tt)

abbrev sessions : Service
sessions = record { ttl = 100; secure = true; cookie_name = lit "__Host-session_id" }

handle_login-authenticate_example :
    let r =
      handle_login lib
        (λ t. t)
        sessions
        false
        false
        false
        (lit " a@b.c")
        password
        zeros
        (lit "t")
        9
        (made ∷ [])
        [] in
    ((u : User) × (false ≡ false)
      × (authenticate lib (lit " a@b.c") password zeros false (made ∷ []) ≡ ok u)
      × (r ≡ started (start (λ t. t) sessions (lit "t") u.id 9 false [])))
    ⊎ StartsNone lib (λ t. t) sessions [] r
handle_login-authenticate_example =
    handle_login-authenticate lib (λ t. t) sessions false false false (lit " a@b.c") password zeros
      (lit "t") 9 (made ∷ []) []
