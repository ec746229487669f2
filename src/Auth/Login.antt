-- ===== src/Auth/Login.antt =====
-- A session from its login to its logout, as the requests see it.
use yet_another_go_boilerpla.Base.{
  ℕ, zero, suc, ◌+◌, ◌/◌, pos, ◌<◌, ◌≡◌, ◌∙◌, ap, refl, inl, inr, Bool, true, false, Option, none,
  some, List, [], ◌∷◌, arith, ltb, ltb→lt, negsuc, if◌then◌else◌, Text, eq_text, eq_text→eq,
  eq_text_refl, eq_text_trans, Bool-cases, Option-cases, Outcome, ok, err, lookup,
}
use yet_another_go_boilerpla.Auth.Table.{Session, has_hash, find, insert, get, delete, unexpired}
use yet_another_go_boilerpla.Auth.Older.{delete_older-new}
use yet_another_go_boilerpla.Auth.Kept.{new_session, start-delete_older}
use yet_another_go_boilerpla.Auth.Service.{
  Service, Identity, SessionError, Cookies, Cookie, cookie, max_age_of, start, identify,
  identity_of, end, Loaded, loaded, load_identity, Admission, require_identity,
}

find-delete : (hash : Text) (ss : List Session) → find hash (delete hash ss) ≡ none
unfolding find delete
find-delete hash [] = refl
find-delete hash (s ∷ ss) = elim (Bool-cases (has_hash hash s)) [
  | inl e ↦ ground (arith, find-delete hash ss)
  | inr e ↦ ground (arith, find-delete hash ss)
]

find-delete_other :
    (gone hash : Text) (ss : List Session)
    → eq_text gone hash ≡ false
    → find hash (delete gone ss) ≡ find hash ss
unfolding find delete
find-delete_other gone hash [] ne = refl
find-delete_other gone hash (s ∷ ss) ne = elim (Bool-cases (has_hash gone s)) [
  | inl e ↦ ground (
    arith,
    find-delete_other gone hash ss ne,
    eq_text_trans s.token_hash hash gone,
    eq_text→eq s.token_hash gone e,
  )
  | inr e ↦ ground (arith, find-delete_other gone hash ss ne)
]

max_age_of_pos : (ttl : ℕ) → 0 < ttl → max_age_of (pos ttl) ≡ pos (ttl / 1_000_000_000)
max_age_of_pos zero h = absurd (omega (arith, h))
max_age_of_pos (suc n) h = refl

loaded_ok :
    (o : Outcome SessionError Identity) (i : Identity) (clear c : Option Cookie)
    → loaded o clear ≡ Loaded.proceeds (some i) c
    → o ≡ ok i
loaded_ok (ok identity) i clear c h = ground (arith, h)
loaded_ok (err SessionError.no_session) i clear c h = absurd (ground (arith, h))
loaded_ok (err SessionError.storage) i clear c h = absurd (ground (arith, h))

module _ (hash : Text → Text) (s : Service) where
  -- The session that the cookie of a request names and that has not expired, is in the table.
  abbrev pub HasSession : Cookies → ℕ → List Session → Identity → Type 0
  HasSession cookies now ss i =
      (value : Text) × (session : Session) × (lookup s.cookie_name cookies ≡ some value)
      × (find (hash value) ss ≡ some session)
      × (now < session.expires_at)
      × (session.user_id ≡ i.user_id)

  identify-new :
      (token user : Text) (now later : ℕ) (cookies : Cookies) (rest : List Session)
      → identify hash s
          ((s.cookie_name, token) ∷ cookies)
          later
          false
          (new_session hash s token user now ∷ rest)
        ≡ (if ltb later (now + s.ttl)
            then ok (record { user_id = user })
            else err SessionError.no_session)
  unfolding identify get find
  identify-new token user now later cookies rest =
      ground (arith, eq_text_refl s.cookie_name, eq_text_refl (hash token))

  -- When no statement fails, the hash of the token is new and the time to live is not 0, a login sets a
  -- cookie that scripts cannot read and that lives for the whole seconds of the time to live; and a
  -- request with the name and the value of this cookie is one of its user until the time to live is
  -- over, and has no session from then on.
  pub identify-start :
      (token user : Text) (now later : ℕ) (cookies : Cookies) (ss : List Session)
      → find (hash token) ss ≡ none
      → 0 < s.ttl
      → (c : Cookie) × ((start hash s token user now false ss).0 ≡ ok c)
        × (c.http_only ≡ true)
        × (c.secure ≡ s.secure)
        × (c.max_age ≡ pos (s.ttl / 1_000_000_000))
        × (identify hash s
              ((c.name, c.value) ∷ cookies)
              later
              false
              (start hash s token user now false ss).1
            ≡ (if ltb later (now + s.ttl)
                then ok (record { user_id = user })
                else err SessionError.no_session))
  unfolding cookie start insert identify get find
  identify-start token user now later cookies ss fresh lasts =
      let row = new_session hash s token user now in
      let left = delete_older-new user 9 row ss fresh in
      (
        cookie s token (pos s.ttl),
        ground (arith, fresh),
        refl,
        refl,
        max_age_of_pos s.ttl lasts,
        ap (λ l. identify hash s ((s.cookie_name, token) ∷ cookies) later false l)
              (start-delete_older hash s token user now ss fresh ∙ left)
            ∙ identify-new token user now later cookies _,
      )

  -- A logout where the statement does not fail clears the cookie; its session does not come back, and
  -- a request whose cookie has another hash sees the same as before.
  pub end-identify :
      (cookies : Cookies) (now : ℕ) (ss : List Session)
      → ((end hash s cookies false ss).0 ≡ ok (cookie s [] (negsuc 0)))
        × (identify hash s cookies now false (end hash s cookies false ss).1
            ≡ err SessionError.no_session)
        × ((other : Cookies) (a b : Text)
            → lookup s.cookie_name cookies ≡ some a
            → lookup s.cookie_name other ≡ some b
            → eq_text (hash a) (hash b) ≡ false
            → identify hash s other now false (end hash s cookies false ss).1
              ≡ identify hash s other now false ss)
  unfolding end identify get
  end-identify cookies now ss = elim (Option-cases (lookup s.cookie_name cookies)) [
    | inl e ↦ (ground (arith, e), ground (arith, e), λ other a b f g ne. ground (arith, e, f))
    | inr (v, e) ↦ (
      ground (arith, e),
      ground (arith, e, find-delete (hash v) ss),
      λ other a b f g ne. ground (arith, e, f, g, find-delete_other (hash a) (hash b) ss ne),
    )
  ]

  get_live :
      (now : ℕ) (o : Option Session) (i : Identity)
      → identity_of (unexpired now o) ≡ ok i
      → (session : Session) × (o ≡ some session)
        × (now < session.expires_at)
        × (session.user_id ≡ i.user_id)
  get_live now none i h = absurd (ground (arith, h))
  get_live now (some session) i h = elim (Bool-cases (ltb now session.expires_at)) [
    | inl e ↦ (session, refl, ltb→lt now session.expires_at e, ground (arith, e, h))
    | inr e ↦ absurd (ground (arith, e, h))
  ]

  identify-HasSession :
      (cookies : Cookies) (now : ℕ) (down : Bool) (ss : List Session) (i : Identity)
      → identify hash s cookies now down ss ≡ ok i
      → HasSession cookies now ss i
  unfolding identify get
  identify-HasSession cookies now true ss i h = elim (Option-cases (lookup s.cookie_name cookies)) [
    | inl e ↦ absurd (ground (arith, e, h))
    | inr (v, e) ↦ absurd (ground (arith, e, h))
  ]
  identify-HasSession cookies now false ss i h =
      elim (Option-cases (lookup s.cookie_name cookies)) [
        | inl e ↦ absurd (ground (arith, e, h))
        | inr (v, e) ↦
            let (session, f, l, u) = get_live now (find (hash v) ss) i (ground (arith, e, h)) in
            (v, session, e, f, l, u)
      ]

  proceeds_identified :
      (cookies : Cookies) (now : ℕ) (down : Bool) (ss : List Session) (i : Identity)
      (c : Option Cookie)
      → load_identity hash s cookies now down ss ≡ Loaded.proceeds (some i) c
      → identify hash s cookies now down ss ≡ ok i
  unfolding load_identity
  proceeds_identified cookies now down ss i c h =
      loaded_ok (identify hash s cookies now down ss) i _ c h

  -- A request passes LoadIdentity and RequireIdentity only with a cookie whose session is in the
  -- table, has not expired, and is of the user that the handler sees.
  pub admitted-HasSession :
      (cookies : Cookies) (now : ℕ) (down is_htmx : Bool) (ss : List Session) (o : Option Identity)
      (c : Option Cookie)
      → load_identity hash s cookies now down ss ≡ Loaded.proceeds o c
      → require_identity o is_htmx ≡ Admission.admitted
      → (i : Identity) × (o ≡ some i) × HasSession cookies now ss i
  unfolding load_identity identify get require_identity
  admitted-HasSession cookies now down is_htmx ss none c loads admits = absurd (ground arith)
  admitted-HasSession cookies now down is_htmx ss (some i) c loads admits = (
    i,
    refl,
    identify-HasSession cookies now down ss i (proceeds_identified cookies now down ss i c loads),
  )
