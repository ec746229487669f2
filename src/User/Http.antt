-- ===== src/User/Http.antt =====
-- internal/user/http.go: the handlers. What a request sends is an argument, and what the handler
-- answers a value; those of /me run behind auth.RequireIdentity.
use yet_another_go_boilerpla.Base.{
  ℕ, ◌≡◌, ◌⊎◌, refl, inl, inr, Bool, true, false, Option, none, some, List, [], ◌==◌, if◌then◌else◌,
  Text, lit, Outcome, ok, err,
}
use yet_another_go_boilerpla.Auth.Table.{Session}
use yet_another_go_boilerpla.Auth.Service.{Cookie, Identity, Service, SessionError, start}
use yet_another_go_boilerpla.User.Table.{User, Error, Answer}
use yet_another_go_boilerpla.User.Service.{Library, authenticate, get_user, update_profile}

pub record ProfileForm : Type 0 where
  pub email : Text
  pub name : Text

pub record MeData : Type 0 where
  pub user : User
  pub form : ProfileForm
  pub error : Text
  pub saved : Bool

-- A redirect with a cookie to set, if any; a page of /login or of /me; the fragment of /me; or the
-- error that goes to web.E.
pub data Response : Type 0 where
  redirect : Text → Option Cookie → Response
  login_page : ℕ → Text → Text → Response
  me_page me_fragment : ℕ → MeData → Response
  bad_request : Text → Response
  fails : Error → Response

-- handleHome
unfoldable pub handle_home : Option Identity → Response
handle_home (some identity) = redirect (lit "/me") none
handle_home none = redirect (lit "/login") none

-- handleLoginPage
unfoldable pub handle_login_page : Option Identity → Response
handle_login_page (some identity) = redirect (lit "/me") none
handle_login_page none = login_page 200 [] []

abbrev pub started : Outcome SessionError Cookie × List Session → Response × List Session
started (ok cookie, ss) = (redirect (lit "/me") (some cookie), ss)
started (err e, ss) = (fails Error.storage, ss)

-- respondProfile
unfoldable pub respond_profile : Bool → ℕ → MeData → Response
respond_profile is_htmx status data_ =
    if is_htmx
    then me_fragment status data_
    else if status == 200
    then redirect (lit "/me?saved=1") none
    else me_page status data_

-- formError
unfoldable pub form_error : Error → Option Text
form_error (Error.validation_error message) = some message
form_error Error.email_taken = some (lit "email already registered")
form_error Error.not_found = none
form_error Error.invalid_credentials = none
form_error Error.storage = none

abbrev pub form_of : User → ProfileForm
form_of u = record { email = u.email; name = u.name }

-- handleMe, from the answer of Service.Get
abbrev pub show_me : Bool → Answer → Response
show_me saved (err e) = fails e
show_me saved (ok u) =
    me_page 200 (record { user = u; form = form_of u; error = []; saved = saved })

abbrev pub show_rejected : Bool → ProfileForm → Text → Answer → Response
show_rejected is_htmx form message (err e) = fails e
show_rejected is_htmx form message (ok current) =
    respond_profile is_htmx 422
      (record { user = current; form = form; error = message; saved = false })

abbrev pub explain : Bool → ProfileForm → Error → Answer → Option Text → Response
explain is_htmx form e current none = fails e
explain is_htmx form e current (some message) = show_rejected is_htmx form message current

module _ (lib : Library) (hash : Text → Text) (sessions : Service) where
  abbrev pub answer_login : Text → Text → ℕ → Bool → List Session → Answer → Response × List Session
  answer_login email token now down ss (ok u) = started (start hash sessions token u.id now down ss)
  answer_login email token now down ss (err Error.invalid_credentials) =
      (login_page 401 email (lit "invalid email or password"), ss)
  answer_login email token now down ss (err Error.not_found) = (fails Error.not_found, ss)
  answer_login email token now down ss (err Error.email_taken) = (fails Error.email_taken, ss)
  answer_login email token now down ss (err Error.storage) = (fails Error.storage, ss)
  answer_login email token now down ss (err (Error.validation_error m)) =
      (fails (Error.validation_error m), ss)

  -- handleLogin: `salt` for the hash of an unknown email, `token` for the new session; the flags say that
  -- ParseForm, the SELECT and the INSERT fail.
  unfoldable pub handle_login :
      Bool
      → Bool
      → Bool
      → Text
      → Text
      → Text
      → Text
      → ℕ
      → List User
      → List Session
      → Response × List Session
  handle_login malformed users_down sessions_down email password salt token now us ss =
      if malformed
      then (bad_request (lit "invalid form data"), ss)
      else answer_login email token now sessions_down ss
          (authenticate lib email password salt users_down us)

  -- handleMe
  unfoldable pub handle_me : Text → Bool → Bool → List User → Response
  handle_me user saved down us = show_me saved (get_user lib user down us)

  abbrev pub answer_update :
      Bool → Text → ProfileForm → Bool → Answer × List User → Response × List User
  answer_update is_htmx user form get_down (ok u, us) = (
    respond_profile is_htmx 200 (record { user = u; form = form_of u; error = []; saved = true }),
    us,
  )
  answer_update is_htmx user form get_down (err e, us) =
      (explain is_htmx form e (get_user lib user get_down us) (form_error e), us)

  -- handleMeUpdate
  unfoldable pub handle_me_update :
      Bool → Bool → Bool → Bool → Text → ProfileForm → ℕ → List User → Response × List User
  handle_me_update malformed update_down get_down is_htmx user form now us =
      if malformed
      then (bad_request (lit "invalid form data"), us)
      else answer_update is_htmx user form get_down
          (update_profile lib user form.email form.name now update_down us)

  -- The cookie that a response sets.
  abbrev pub set_cookie : Response → Option Cookie
  set_cookie (redirect path c) = c
  set_cookie (login_page status email message) = none
  set_cookie (me_page status data_) = none
  set_cookie (me_fragment status data_) = none
  set_cookie (bad_request message) = none
  set_cookie (fails e) = none

  -- A response without a cookie, and the table as it was.
  abbrev pub StartsNone : List Session → Response × List Session → Type 0
  StartsNone ss (r, left) = (set_cookie r ≡ none) × (left ≡ ss)

  answer_login_lem :
      (email token : Text) (now : ℕ) (down : Bool) (ss : List Session) (a : Answer)
      → (((u : User) × (a ≡ ok u)
            × (answer_login email token now down ss a
                ≡ started (start hash sessions token u.id now down ss)))
          ⊎ StartsNone ss (answer_login email token now down ss a))
  answer_login_lem email token now down ss (ok u) = inl (u, refl, refl)
  answer_login_lem email token now down ss (err Error.invalid_credentials) = inr (refl, refl)
  answer_login_lem email token now down ss (err Error.not_found) = inr (refl, refl)
  answer_login_lem email token now down ss (err Error.email_taken) = inr (refl, refl)
  answer_login_lem email token now down ss (err Error.storage) = inr (refl, refl)
  answer_login_lem email token now down ss (err (Error.validation_error m)) = inr (refl, refl)

  -- A login sets a cookie, or changes the table of sessions, only where the form is well formed and
  -- Authenticate gave a user, for whom it then starts a session; every other answer sets no cookie and
  -- leaves the table as it was.
  pub handle_login-authenticate :
      (malformed users_down sessions_down : Bool) (email password salt token : Text) (now : ℕ)
      (us : List User) (ss : List Session)
      → let r =
          handle_login malformed users_down sessions_down email password salt token now us ss in
        ((u : User) × (malformed ≡ false)
          × (authenticate lib email password salt users_down us ≡ ok u)
          × (r ≡ started (start hash sessions token u.id now sessions_down ss)))
        ⊎ StartsNone ss r
  unfolding handle_login
  handle_login-authenticate true users_down sessions_down email password salt token now us ss =
      inr (refl, refl)
  handle_login-authenticate false users_down sessions_down email password salt token now us ss =
      elim (answer_login_lem email token now sessions_down ss
        (authenticate lib email password salt users_down us)) [
          | inl (u, a, r) ↦ inl (u, refl, a, r)
          | inr n ↦ inr n
        ]
