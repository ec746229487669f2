-- ===== src/User/Login.antt =====
-- Login with the password of the registration, and with no other proof.
use yet_another_go_boilerpla.Base.{
  ℕ, ◌≡◌, refl, ap, subst, inl, inr, Bool, true, false, Option, none, some, List, ◌∷◌, arith, ltb,
  if◌then◌else◌, Text, eq_text_refl, contains, length, any, Bool-cases, Option-cases, Outcome, ok,
  err, ◌>>=◌,
}
use yet_another_go_boilerpla.User.Table.{User, Error, Answer, has_email, insert, get_by_email}
use yet_another_go_boilerpla.User.Password.{
  dollar, salt_length, key_length, pbkdf2_iterations, hash_password, verify_password,
  verify_password-hash_password,
}
use yet_another_go_boilerpla.User.Service.{
  Library, max_password_length, normalize_email, normalize_name, validate_password, prepare,
  insert_prepared, register, authenticate, authenticate_normal, check_password, or_storage,
}

bind_ok {ℓ κ μ} :
    {E : Type ℓ} {A : Type κ} {B : Type μ} (o : Outcome E A) (f : A → Outcome E B) (b : B)
    → o >>= f ≡ ok b
    → (a : A) × (o ≡ ok a) × (f a ≡ ok b)
bind_ok (ok a) f b h = (a, refl, h)
bind_ok (err e) f b h = absurd (ground (arith, h))

or_storage_ok : (o : Option Text) (h : Text) → or_storage o ≡ ok h → o ≡ some h
or_storage_ok none h e = absurd (ground (arith, e))
or_storage_ok (some g) h e = ground (arith, e)

validate_password_ok :
    (password : Text)
    → validate_password password ≡ ok tt
    → ltb max_password_length (length password) ≡ false
unfolding validate_password
validate_password_ok password h = ground (arith, h)

then_ok :
    (b : Bool) (v u : User)
    → b ≡ true
    → (if b then ok v else err Error.invalid_credentials) ≡ ok u
    → v ≡ u
then_ok true v u e h = ground (arith, h)
then_ok false v u e h = absurd (ground (arith, e))

module _ (lib : Library) where
  open lib use {lower, key, encode, decode}

  prepare_ok :
      (email name password salt e n h : Text)
      → prepare lib email name password salt ≡ ok (e, n, h)
      → (normalize_email lib email ≡ ok e)
        × (ltb max_password_length (length password) ≡ false)
        × (hash_password key encode decode salt password ≡ some h)
  unfolding prepare
  prepare_ok email name password salt e n h p =
      let (e', normal, rest) = bind_ok (normalize_email lib email) _ (e, n, h) p in
      let (n', named, rest) = bind_ok (normalize_name name) _ (e, n, h) rest in
      let (_, checked, rest) = bind_ok (validate_password password) _ (e, n, h) rest in
      let (h', hashed, rest) =
        bind_ok (or_storage (hash_password key encode decode salt password)) _ (e, n, h) rest in
      let stored = or_storage_ok (hash_password key encode decode salt password) h' hashed in
      (
        ground (arith, normal, rest),
        validate_password_ok password checked,
        ground (arith, stored, rest),
      )

  insert_ok :
      (email name hash id : Text) (now : ℕ) (down : Bool) (us left : List User) (u : User)
      → insert lower email name hash id now down us ≡ (ok u, left)
      → (u.email ≡ email) × (u.password_hash ≡ hash) × (left ≡ u ∷ us)
  unfolding insert
  insert_ok email name hash id now true us left u h = absurd (ground (arith, h))
  insert_ok email name hash id now false us left u h =
      elim (Bool-cases (any (has_email lower email) us)) [
        | inl e ↦ absurd (ground (arith, e, h))
        | inr e ↦ ground (arith, e, h)
      ]

  check_password_ok :
      (password salt : Text) (a : Answer) (u : User)
      → check_password lib password salt a ≡ ok u
      → (a ≡ ok u) × (verify_password key encode decode u.password_hash password ≡ true)
  check_password_ok password salt (ok v) u h =
      elim (Bool-cases (verify_password key encode decode v.password_hash password)) [
        | inl e ↦
            let q = then_ok (verify_password key encode decode v.password_hash password) v u e h in
            (
              ap ok q,
              subst (λ w. verify_password key encode decode w.password_hash password ≡ true) q e,
            )
        | inr e ↦ absurd (ground (arith, e, h))
      ]
  check_password_ok password salt (err Error.not_found) u h =
      elim (Option-cases (hash_password key encode decode salt password)) [
        | inl e ↦ absurd (ground (arith, e, h))
        | inr (k, e) ↦ absurd (ground (arith, e, h))
      ]
  check_password_ok password salt (err Error.email_taken) u h = absurd (ground (arith, h))
  check_password_ok password salt (err Error.invalid_credentials) u h = absurd (ground (arith, h))
  check_password_ok password salt (err Error.storage) u h = absurd (ground (arith, h))
  check_password_ok password salt (err (Error.validation_error m)) u h = absurd (ground (arith, h))

  authenticate_normal_ok :
      (password salt : Text) (down : Bool) (us : List User) (o : Outcome Error Text) (u : User)
      → authenticate_normal lib password salt down us o ≡ ok u
      → (e : Text) × (o ≡ ok e)
        × (get_by_email lower e down us ≡ ok u)
        × (verify_password key encode decode u.password_hash password ≡ true)
  authenticate_normal_ok password salt down us (err e) u h = absurd (ground (arith, h))
  authenticate_normal_ok password salt down us (ok e) u h =
      let (found, verifies) = check_password_ok password salt (get_by_email lower e down us) u h in
      (e, refl, found, verifies)

  prepared_ok :
      (id : Text) (now : ℕ) (down : Bool) (us left : List User) (u : User)
      (o : Outcome Error (Text × Text × Text))
      → insert_prepared lib id now down us o ≡ (ok u, left)
      → (x : Text × Text × Text) × (o ≡ ok x)
        × (insert lower x.0 x.1 x.2 id now down us ≡ (ok u, left))
  prepared_ok id now down us left u (err e) h = absurd (ground (arith, h))
  prepared_ok id now down us left u (ok x) h = (x, refl, h)

  -- Authenticate gives a user only if the stored hash of the account that GetByEmail finds for the
  -- normalized email verifies the password, which has at most max_password_length bytes.
  pub authenticate_ok :
      (email password salt : Text) (down : Bool) (us : List User) (u : User)
      → authenticate lib email password salt down us ≡ ok u
      → (ltb max_password_length (length password) ≡ false)
        × ((e : Text) × (normalize_email lib email ≡ ok e)
            × (get_by_email lower e down us ≡ ok u)
            × (verify_password key encode decode u.password_hash password ≡ true))
  unfolding authenticate
  authenticate_ok email password salt down us u h =
      elim (Bool-cases (ltb max_password_length (length password))) [
        | inl e ↦ absurd (ground (arith, e, h))
        | inr e ↦ (
          e,
          authenticate_normal_ok password salt down us (normalize_email lib email) u
              (ground (arith, e, h)),
        )
      ]

  verified_hash :
      (o : Option Text) (made hash password : Text)
      → o ≡ some made
      → o ≡ some hash
      → verify_password key encode decode made password ≡ true
      → verify_password key encode decode hash password ≡ true
  verified_hash none made hash password f g h = absurd (ground (arith, f))
  verified_hash (some m) made hash password f g h = ground (arith, f, g, h)

  -- When base64 decodes what it encodes and writes no dollar, and the derived key has 32 bytes: the
  -- email and the password of a registration that succeeds log its user in afterwards.
  pub register-authenticate :
      ((s : Text) → decode (encode s) ≡ some s)
      → ((s : Text) → contains dollar (encode s) ≡ false)
      → (email name password salt other_salt id : Text) (now : ℕ) (down : Bool)
        (us left : List User) (u : User) (k : Text)
      → length salt ≡ salt_length
      → length k ≡ key_length
      → key password salt pbkdf2_iterations key_length ≡ some k
      → register lib email name password salt id now down us ≡ (ok u, left)
      → authenticate lib email password other_salt false left ≡ ok u
  unfolding register authenticate get_by_email
  register-authenticate decodes plain email name password salt other_salt id now down us left u k
        salted keyed derives h =
      let ((e, n, hash), p, i) =
        prepared_ok id now down us left u (prepare lib email name password salt) h in
      let (normal, short, hashed) = prepare_ok email name password salt e n hash p in
      let (email_is, hash_is, left_is) = insert_ok e n hash id now down us left u i in
      let (made, made_is, _, itself) =
        verify_password-hash_password key encode decode decodes plain salt password password k
          salted keyed derives in
      let verified =
        verified_hash (hash_password key encode decode salt password) made hash password made_is
          hashed itself in
      rw (short, normal, left_is, email_is, eq_text_refl (lower e), hash_is, verified) refl
