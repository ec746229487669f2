-- ===== src/User/Password.antt =====
-- internal/user/password.go: the stored form of a password. `key` stands for pbkdf2.Key with
-- HMAC-SHA256 (`none` for an error), and `encode`, `decode` for base64.RawURLEncoding.
use yet_another_go_boilerpla.Base.{
  ℕ, ◌+◌, ◌-◌, ◌*◌, ◌^◌, ◌≡◌, refl, ap, ◌∙◌, Bool, true, false, not, ◌&&◌, ◌||◌, Option, none, some,
  List, [], ◌∷◌, ◌++◌, ltb, leb, ◌==◌, arith, if◌then◌else◌, Text, lit, eq_text, eq_text_refl,
  contains, length,
}

abbrev pub pbkdf2_iterations : ℕ
pbkdf2_iterations = 600_000

abbrev pub max_pbkdf2_iterations : ℕ
max_pbkdf2_iterations = 1_200_000

abbrev pub salt_length : ℕ
salt_length = 16

abbrev pub key_length : ℕ
key_length = 32

abbrev pub dollar : ℕ
dollar = 36

abbrev push_head : ℕ → List Text → List Text
push_head c [] = (c ∷ []) ∷ []
push_head c (s ∷ ss) = (c ∷ s) ∷ ss

-- strings.Split at a separator of one byte
abbrev pub split : ℕ → Text → List Text
split sep [] = [] ∷ []
split sep (c ∷ s) = if c == sep then [] ∷ split sep s else push_head c (split sep s)

abbrev digits_value : ℕ → Text → Option ℕ
digits_value n [] = some n
digits_value n (c ∷ s) =
    let rest = digits_value (n * 10 + (c - 48)) s in if leb 48 c && leb c 57 then rest else none

abbrev in_range : Option ℕ → Option ℕ
in_range none = none
in_range (some n) = if ltb n (2 ^ 63) then some n else none

abbrev unsigned : Text → Option ℕ
unsigned [] = none
unsigned (c ∷ s) = in_range (digits_value 0 (c ∷ s))

-- strconv.Atoi, where no value below 0 matters: `none` stands for it and for an error.
abbrev pub atoi : Text → Option ℕ
atoi [] = none
atoi (c ∷ s) = if c == 43 then unsigned s else if c == 45 then none else unsigned (c ∷ s)

-- hmac.Equal of the derived key, if there is one, and the stored one
abbrev pub same : Text → Option Text → Bool
same want none = false
same want (some got) = eq_text got want

module _ (key : Text → Text → ℕ → ℕ → Option Text) (encode : Text → Text)
    (decode : Text → Option Text) where
  abbrev pub stored : Text → Option Text → Option Text
  stored salt none = none
  stored salt (some k) =
      some
        (lit "pbkdf2-sha256" ++ dollar ∷ lit "600000" ++ dollar ∷ encode salt ++ dollar ∷ encode k)

  -- hashPassword, for the salt that rand.Read gave; `none` stands for an error.
  unfoldable pub hash_password : Text → Text → Option Text
  hash_password salt password = stored salt (key password salt pbkdf2_iterations key_length)

  abbrev pub verify_key : Text → Text → ℕ → Option Text → Bool
  verify_key password salt iterations none = false
  verify_key password salt iterations (some want) =
      length want == key_length && same want (key password salt iterations (length want))

  abbrev pub verify_salt : Text → ℕ → Text → Option Text → Bool
  verify_salt password iterations k none = false
  verify_salt password iterations k (some salt) =
      length salt == salt_length && verify_key password salt iterations (decode k)

  abbrev pub verify_iterations : Text → Text → Text → Option ℕ → Bool
  verify_iterations password salt k none = false
  verify_iterations password salt k (some iterations) =
      not (ltb iterations 1 || ltb max_pbkdf2_iterations iterations)
      && verify_salt password iterations k (decode salt)

  abbrev pub verify_parts : Text → List Text → Bool
  verify_parts password (scheme ∷ iterations ∷ salt ∷ k ∷ []) =
      eq_text scheme (lit "pbkdf2-sha256") && verify_iterations password salt k (atoi iterations)
  verify_parts password _ = false

  -- verifyPassword
  unfoldable pub verify_password : Text → Text → Bool
  verify_password hash password = verify_parts password (split dollar hash)

split_plain : (s : Text) → contains dollar s ≡ false → split dollar s ≡ s ∷ []
split_plain [] h = refl
split_plain (c ∷ s) h = ground (arith, split_plain s)

split-append :
    (s t : Text) → contains dollar s ≡ false → split dollar (s ++ dollar ∷ t) ≡ s ∷ split dollar t
split-append [] t h = refl
split-append (c ∷ s) t h = ground (arith, split-append s t)

module _ (key : Text → Text → ℕ → ℕ → Option Text) (encode : Text → Text)
    (decode : Text → Option Text) (decodes : (s : Text) → decode (encode s) ≡ some s)
    (plain : (s : Text) → contains dollar (encode s) ≡ false) where
  verify_stored :
      (salt other k : Text)
      → length salt ≡ salt_length
      → length k ≡ key_length
      → verify_password key encode decode
          (lit "pbkdf2-sha256"
            ++ dollar ∷ lit "600000"
            ++ dollar ∷ encode salt
            ++ dollar ∷ encode k)
          other
        ≡ same k (key other salt pbkdf2_iterations key_length)
  unfolding verify_password
  verify_stored salt other k salted keyed =
      rw
        (
          split-append (encode salt) (encode k) (plain salt),
          split_plain (encode k) (plain k),
          decodes salt,
          salted,
          decodes k,
          keyed,
        )
        refl

  -- When base64 decodes what it encodes and writes no dollar: of the password that a stored form of a
  -- 16-byte salt is made for, with a derived key of 32 bytes, verifyPassword asks whether the other
  -- password derives the same key from the same salt. So it accepts that password itself.
  pub verify_password-hash_password :
      (salt password other k : Text)
      → length salt ≡ salt_length
      → length k ≡ key_length
      → key password salt pbkdf2_iterations key_length ≡ some k
      → (hash : Text) × (hash_password key encode decode salt password ≡ some hash)
        × (verify_password key encode decode hash other
            ≡ same k (key other salt pbkdf2_iterations key_length))
        × (verify_password key encode decode hash password ≡ true)
  unfolding hash_password
  verify_password-hash_password salt password other k salted keyed derives = (
    lit "pbkdf2-sha256" ++ dollar ∷ lit "600000" ++ dollar ∷ encode salt ++ dollar ∷ encode k,
    rw derives refl,
    verify_stored salt other k salted keyed,
    verify_stored salt password k salted keyed ∙ ap (same k) derives ∙ eq_text_refl k,
  )
