-- ===== src/User/Accounts.antt =====
-- What the service lets into the table of accounts.
use yet_another_go_boilerpla.Base.{
  ℕ, ◌≡◌, refl, sym, ap, subst, if◌then◌else◌, eq_text→eq, ◌>>=◌, inl, inr, Bool, true, false, not,
  ◌||◌, Option, none, some, List, [], ◌∷◌, map, arith, ltb, Text, is_empty, contains, valid_string,
  rune_count, trim_space, length, Bool-cases, Option-cases, Outcome, ok, err, any, All,
}
use yet_another_go_boilerpla.User.Table.{
  User, Error, has_id, has_email, is_taken, first, updated, insert, update,
}
use yet_another_go_boilerpla.User.Password.{hash_password}
use yet_another_go_boilerpla.User.Service.{
  Library, is_bare, or_storage, validate_password, normalize_name, normalize_email, invalid_email,
  prepare, insert_prepared, register, update_prepared, prepare_profile, update_profile,
}

-- A name of 1 to 100 characters without space around it, from a valid text without a NUL.
abbrev pub IsName : Text → Type 0
IsName name =
    (typed : Text) × (name ≡ trim_space typed)
    × (valid_string typed ≡ true)
    × (contains 0 typed ≡ false)
    × (is_empty name ≡ false)
    × (ltb 100 (rune_count name) ≡ false)

-- A password of at least 8 characters and at most 512 bytes.
abbrev pub IsPassword : Text → Type 0
IsPassword password =
    (valid_string password ≡ true)
    × (ltb (rune_count password) 8 ≡ false)
    × (ltb 512 (length password) ≡ false)

-- A check that lets a value pass.
check_passed {ℓ} :
    {A : Type ℓ} (b : Bool) (e : Error) (o : Outcome Error A) (a : A)
    → (if b then err e else o) ≡ ok a
    → (b ≡ false) × (o ≡ ok a)
check_passed true e o a h = absurd (ground (arith, h))
check_passed false e o a h = (refl, h)

checks_passed : (a b : Bool) → (not a || b) ≡ false → (a ≡ true) × (b ≡ false)
checks_passed true false h = (refl, refl)
checks_passed true true h = absurd (ground (arith, h))
checks_passed false b h = absurd (ground (arith, h))

ok_value : {A : Type 0} (a b : A) → Path (Outcome Error A) (ok a) (ok b) → b ≡ a
ok_value a b h = cc

bind_ok :
    {A B : Type 0} (o : Outcome Error A) (f : A → Outcome Error B) (b : B)
    → (o >>= f) ≡ ok b
    → (a : A) × (o ≡ ok a) × (f a ≡ ok b)
bind_ok (ok a) f b h = (a, refl, h)
bind_ok (err e) f b h = absurd (ground (arith, h))

normalize_name-IsName : (typed name : Text) → normalize_name typed ≡ ok name → IsName name
unfolding normalize_name
normalize_name-IsName typed name h =
    let (valid, h1) = check_passed (not (valid_string typed) || contains 0 typed) _ _ name h in
    let (full, h2) = check_passed (is_empty (trim_space typed)) _ _ name h1 in
    let (short, h3) = check_passed (ltb 100 (rune_count (trim_space typed))) _ _ name h2 in
    let (text, nul) = checks_passed (valid_string typed) (contains 0 typed) valid in
    let e = ok_value (trim_space typed) name h3 in
    (
      typed,
      e,
      text,
      nul,
      subst (λ n. is_empty n ≡ false) (sym e) full,
      subst (λ n. ltb 100 (rune_count n) ≡ false) (sym e) short,
    )

validate_password-IsPassword :
    (password : Text) → validate_password password ≡ ok tt → IsPassword password
unfolding validate_password
validate_password-IsPassword password h =
    let (valid, h1) = check_passed (not (valid_string password)) _ _ tt h in
    let (long, h2) = check_passed (ltb (rune_count password) 8) _ _ tt h1 in
    let (short, h3) = check_passed (ltb 512 (length password)) _ _ tt h2 in
    (ground (arith, valid), long, short)

hash_made : (o : Option Text) (hash : Text) → or_storage o ≡ ok hash → o ≡ some hash
hash_made none hash h = absurd (ground (arith, h))
hash_made (some t) hash h = ap some (sym (ok_value t hash h))

bare_address : (email : Text) (o : Option Text) → is_bare email o ≡ true → o ≡ some email
bare_address email none h = absurd (ground (arith, h))
bare_address email (some a) h = ap some (eq_text→eq a email h)

bare_passed :
    (made : Text) (b : Bool) (email : Text)
    → (if b then ok made else err invalid_email) ≡ ok email
    → (b ≡ true) × (email ≡ made)
bare_passed made true email h = (refl, ok_value made email h)
bare_passed made false email h = absurd (ground (arith, h))

module _ (lib : Library) where
  open lib use {lower, to_lower, parse_address, key, encode, decode}

  -- An email in lower case, without space around it, of at most 254 bytes, which is an address and
  -- nothing more.
  abbrev pub IsEmail : Text → Type 0
  IsEmail email =
      (typed : Text) × (email ≡ to_lower (trim_space typed))
      × (valid_string typed ≡ true)
      × (contains 0 typed ≡ false)
      × (is_empty email ≡ false)
      × (ltb 254 (length email) ≡ false)
      × (parse_address email ≡ some email)

  -- The hash of a password, with some salt.
  abbrev pub IsHash : Text → Type 0
  IsHash hash =
      (password : Text) × (salt : Text) × IsPassword password
      × (hash_password key encode decode salt password ≡ some hash)

  abbrev pub IsAccount : User → Type 0
  IsAccount u = IsEmail u.email × IsName u.name × IsHash u.password_hash

  normalize_email-IsEmail :
      (typed email : Text) → normalize_email lib typed ≡ ok email → IsEmail email
  unfolding normalize_email
  normalize_email-IsEmail typed email h =
      let made = to_lower (trim_space typed) in
      let (valid, h1) = check_passed (not (valid_string typed) || contains 0 typed) _ _ email h in
      let (sized, h2) = check_passed (is_empty made || ltb 254 (length made)) _ _ email h1 in
      let (text, nul) = checks_passed (valid_string typed) (contains 0 typed) valid in
      let (b, e) = bare_passed made (is_bare made (parse_address made)) email h2 in
      (
        typed,
        e,
        text,
        nul,
        subst (λ m. is_empty m ≡ false) (sym e) (ground (arith, sized)),
        subst (λ m. ltb 254 (length m) ≡ false) (sym e) (ground (arith, sized)),
        subst (λ m. parse_address m ≡ some m) (sym e) (bare_address made (parse_address made) b),
      )

  profile_checked :
      (email name e n : Text) → prepare_profile lib email name ≡ ok (e, n) → IsEmail e × IsName n
  profile_checked email name e n h =
      let (e', a, h1) = bind_ok (normalize_email lib email) _ (e, n) h in
      let (n', b, h2) = bind_ok (normalize_name name) _ (e, n) h1 in
      let same = ok_value (e', n') (e, n) h2 in
      (
        subst IsEmail (sym (ap (λ p. p.0) same)) (normalize_email-IsEmail email e' a),
        subst IsName (sym (ap (λ p. p.1) same)) (normalize_name-IsName name n' b),
      )

  -- What Register stores.
  prepare_checked :
      (email name password salt e n hash : Text)
      → prepare lib email name password salt ≡ ok (e, n, hash)
      → IsEmail e × IsName n × IsHash hash
  unfolding prepare
  prepare_checked email name password salt e n hash h =
      let (e', a, h1) = bind_ok (normalize_email lib email) _ (e, n, hash) h in
      let (n', b, h2) = bind_ok (normalize_name name) _ (e, n, hash) h1 in
      let (u, c, h3) = bind_ok (validate_password password) _ (e, n, hash) h2 in
      let (k, d, h4) =
        bind_ok (or_storage (hash_password key encode decode salt password)) _ (e, n, hash) h3 in
      let same = ok_value (e', n', k) (e, n, hash) h4 in
      let made = hash_made (hash_password key encode decode salt password) k d in
      (
        subst IsEmail (sym (ap (λ p. p.0) same)) (normalize_email-IsEmail email e' a),
        subst IsName (sym (ap (λ p. p.1) same)) (normalize_name-IsName name n' b),
        subst IsHash (sym (ap (λ p. p.2) same))
            (password, salt, validate_password-IsPassword password c, made),
      )

  insert_prepared-IsAccount :
      (id : Text) (now : ℕ) (down : Bool) (us : List User) (o : Outcome Error (Text × Text × Text))
      → ((e n hash : Text) → o ≡ ok (e, n, hash) → IsEmail e × IsName n × IsHash hash)
      → All IsAccount us
      → All IsAccount (insert_prepared lib id now down us o).1
  unfolding insert
  insert_prepared-IsAccount id now down us (err e) checked h = h
  insert_prepared-IsAccount id now true us (ok (e, n, hash)) checked h = h
  insert_prepared-IsAccount id now false us (ok (e, n, hash)) checked h =
      elim (Bool-cases (any (has_email lower e) us)) [
        | inl t ↦ rw t h
        | inr t ↦ rw t (checked e n hash refl, h)
      ]

  updated-IsAccount :
      (id email name : Text) (now : ℕ) (u : User)
      → IsEmail email
      → IsName name
      → IsAccount u
      → IsAccount (updated lower id email name now u)
  updated-IsAccount id email name now u e n (email', name', hash) =
      elim (Bool-cases (has_id id u)) [
        | inl t ↦ rw t (e, n, hash)
        | inr t ↦ rw t (email', name', hash)
      ]

  map-updated-IsAccount :
      (id email name : Text) (now : ℕ) (us : List User)
      → IsEmail email
      → IsName name
      → All IsAccount us
      → All IsAccount (map (updated lower id email name now) us)
  map-updated-IsAccount id email name now [] e n h = tt
  map-updated-IsAccount id email name now (u ∷ us) e n h =
      let (email', name', hash) = h.0 in
      (
        updated-IsAccount id email name now u e n (email', name', hash),
        map-updated-IsAccount id email name now us e n h.1,
      )

  update_prepared-IsAccount :
      (id : Text) (now : ℕ) (down : Bool) (us : List User) (o : Outcome Error (Text × Text))
      → ((e n : Text) → o ≡ ok (e, n) → IsEmail e × IsName n)
      → All IsAccount us
      → All IsAccount (update_prepared lib id now down us o).1
  unfolding update
  update_prepared-IsAccount id now down us (err e) checked h = h
  update_prepared-IsAccount id now true us (ok (e, n)) checked h = h
  update_prepared-IsAccount id now false us (ok (e, n)) checked h =
      let (good, named) = checked e n refl in
      elim (Option-cases (first (has_id id) us)) [
        | inl t ↦ rw t h
        | inr (u, t) ↦ elim (Bool-cases (any (is_taken lower id e) us)) [
          | inl k ↦ rw (t, k) h
          | inr k ↦ rw (t, k) (map-updated-IsAccount id e n now us good named h)
        ]
      ]

  -- Whatever is sent and fails, Register and UpdateProfile keep every account one with a checked email
  -- (lower case, at most 254 bytes, an address and nothing more), a checked name (1 to 100 characters,
  -- trimmed, without a NUL), and the hash of a checked password (at least 8 characters, at most 512
  -- bytes).
  pub register-IsAccount :
      (email name password salt id : Text) (now : ℕ) (down : Bool) (us : List User)
      → All IsAccount us
      → All IsAccount (register lib email name password salt id now down us).1
        × ((id' : Text) → All IsAccount (update_profile lib id' email name now down us).1)
  unfolding register update_profile
  register-IsAccount email name password salt id now down us h = (
    insert_prepared-IsAccount id now down us (prepare lib email name password salt)
        (prepare_checked email name password salt) h,
    λ id'.
        update_prepared-IsAccount id' now down us (prepare_profile lib email name)
          (profile_checked email name) h,
  )
