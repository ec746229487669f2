-- ===== src/Auth/Service.antt =====
-- internal/auth/service.go, middleware.go, http.go: the session service, and what it does with a
-- request. `hash` stands for hashToken (SHA-256 in hex) and a token for the value of newToken.
use yet_another_go_boilerpla.Base.{
  ℕ, zero, suc, ◌+◌, ◌/◌, ℤ, pos, negsuc, Bool, true, false, Option, none, some, List, [], ◌∷◌,
  Outcome, ok, err, ltb, if◌then◌else◌, Text, lit, Dict, lookup,
}
use yet_another_go_boilerpla.Auth.Table.{Session, insert, get, delete, delete_expired}

abbrev pub second : ℕ
second = 1_000_000_000

abbrev pub secure_cookie_name : Text
secure_cookie_name = lit "__Host-session_id"

abbrev pub dev_cookie_name : Text
dev_cookie_name = lit "session_id"

abbrev pub max_sessions_per_user : ℕ
max_sessions_per_user = 10

abbrev pub expired_batch : ℕ
expired_batch = 1000

-- ErrNoSession, or a statement that fails.
pub data SessionError : Type 0 where
  no_session storage : SessionError

pub record Identity : Type 0 where
  pub user_id : Text

pub record Service : Type 0 where
  pub ttl : ℕ
  pub secure : Bool
  pub cookie_name : Text

-- NewService
unfoldable pub new_service : ℕ → Bool → Service
new_service ttl secure = record {
  ttl = ttl;
  secure = secure;
  cookie_name = if secure then secure_cookie_name else dev_cookie_name;
}

-- http.Cookie; every cookie has SameSite=Lax.
pub record Cookie : Type 0 where
  pub name : Text
  pub value : Text
  pub path : Text
  pub max_age : ℤ
  pub http_only : Bool
  pub secure : Bool

abbrev pub max_age_of : ℤ → ℤ
max_age_of (pos zero) = negsuc 0
max_age_of (pos (suc n)) = pos (suc n / second)
max_age_of (negsuc n) = negsuc 0

-- Service.cookie
unfoldable pub cookie : Service → Text → ℤ → Cookie
cookie s value ttl = record {
  name = s.cookie_name;
  value = value;
  path = lit "/";
  max_age = max_age_of ttl;
  http_only = true;
  secure = s.secure;
}

-- The cookies of a request, by name.
abbrev pub Cookies : Type 0
Cookies = Dict Text

abbrev pub identity_of : Option Session → Outcome SessionError Identity
identity_of none = err no_session
identity_of (some session) = ok (record { user_id = session.user_id })

-- What LoadIdentity does: the next handler runs, with an identity or without, and with a cookie to
-- set if any; or the error response goes out.
pub data Loaded : Type 0 where
  proceeds : Option Identity → Option Cookie → Loaded
  responds_error : Loaded

-- What LoadIdentity makes of the answer of Identify, with the cookie that clears a stale one.
abbrev pub loaded : Outcome SessionError Identity → Option Cookie → Loaded
loaded (ok identity) clear = proceeds (some identity) none
loaded (err no_session) clear = proceeds none clear
loaded (err storage) clear = responds_error

-- A `down` flag says that the statement of the call fails.
module _ (hash : Text → Text) (s : Service) where
  -- Start: the cookie to set, and the table
  unfoldable pub start :
      Text → Text → ℕ → Bool → List Session → Outcome SessionError Cookie × List Session
  unfolding cookie
  start token user now true ss = (err storage, ss)
  start token user now false ss =
      elim (insert user (hash token) s.ttl max_sessions_per_user now ss) [
        | none ↦ (err storage, ss)
        | some ss' ↦ (ok (cookie s token (pos s.ttl)), ss')
      ]

  -- Identify
  unfoldable pub identify : Cookies → ℕ → Bool → List Session → Outcome SessionError Identity
  identify cookies now down ss = elim (lookup s.cookie_name cookies) [
    | none ↦ err no_session
    | some value ↦ if down then err storage else identity_of (get (hash value) now ss)
  ]

  -- End: the cookie to set, and the table
  unfoldable pub end : Cookies → Bool → List Session → Outcome SessionError Cookie × List Session
  unfolding cookie
  end cookies down ss = elim (lookup s.cookie_name cookies) [
    | none ↦ (ok (cookie s [] (negsuc 0)), ss)
    | some value ↦
        if down then (err storage, ss) else (ok (cookie s [] (negsuc 0)), delete (hash value) ss)
  ]

  abbrev pub stale : Option Text → Option Cookie
  stale none = none
  stale (some value) = some (cookie s [] (negsuc 0))

  -- LoadIdentity
  unfoldable pub load_identity : Cookies → ℕ → Bool → List Session → Loaded
  unfolding identify cookie
  load_identity cookies now down ss =
      loaded (identify cookies now down ss) (stale (lookup s.cookie_name cookies))

-- What RequireIdentity does: the next handler runs; 401 with HX-Redirect; or the redirect to /login.
pub data Admission : Type 0 where
  admitted hx_redirect redirect : Admission

-- RequireIdentity
unfoldable pub require_identity : Option Identity → Bool → Admission
require_identity (some identity) is_htmx = admitted
require_identity none is_htmx = if is_htmx then hx_redirect else redirect

abbrev pub next_down : List Bool → Bool
next_down [] = false
next_down (b ∷ bs) = b

abbrev pub later_down : List Bool → List Bool
later_down [] = []
later_down (b ∷ bs) = bs

-- What Service.DeleteExpired returns and leaves: the total, whether there was an error, the table.
pub record Cleaned : Type 0 where
  pub total : ℕ
  pub failed : Bool
  pub left : List Session

-- Service.DeleteExpired on fuel, from a point of its loop; `none` means that the fuel ran out. The
-- list says which of the next statements fail. The clock of the database stands meanwhile.
unfoldable pub delete_expired_from : ℕ → ℕ → List Bool → List Session → ℕ → Option Cleaned
delete_expired_from zero now down ss total = none
delete_expired_from (suc fuel) now down ss total =
    let (left, n) = delete_expired now expired_batch ss in
    let rest = delete_expired_from fuel now (later_down down) left (total + n) in
    if next_down down
    then some (record { total = total; failed = true; left = ss })
    else if ltb n expired_batch
    then some (record { total = total + n; failed = false; left = left })
    else rest

unfoldable pub delete_all_expired : ℕ → ℕ → List Bool → List Session → Option Cleaned
unfolding delete_expired_from
delete_all_expired fuel now down ss = delete_expired_from fuel now down ss 0
