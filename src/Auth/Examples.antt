-- ===== src/Auth/Examples.antt =====
-- Tests of the sessions, and their theorems at concrete tables.
use yet_another_go_boilerpla.Base.{
  ℕ, suc, ◌+◌, ◌≡◌, refl, true, false, not, arith, none, some, List, [], ◌∷◌, negsuc, pos, ◌/◌, ltb,
  if◌then◌else◌, eq_text, Text, lit, lookup, map, Bool, length, keep, ok, err,
}
use yet_another_go_boilerpla.Auth.Table.{Session, of_user, find, get, insert}
use yet_another_go_boilerpla.Auth.Newest.{AreNewer}
use yet_another_go_boilerpla.Auth.Service.{
  Service, Identity, SessionError, Cookies, Cookie, cookie, new_service, start, identify, end,
  load_identity, require_identity, delete_all_expired,
}
use yet_another_go_boilerpla.Auth.Kept.{
  new_session, start_keeps_newest, live, expired_count, delete_all_expired_lem,
}
use yet_another_go_boilerpla.Auth.Login.{
  identify-start, end-identify, HasSession, admitted-HasSession,
}

-- A hash without collisions.
abbrev tag : Text → Text
tag t = 35 ∷ t

abbrev service : Service
service = record { ttl = 100; secure = true; cookie_name = lit "__Host-session_id" }

abbrev long_service : Service
long_service = record service { ttl = 1_500_000_000 }

abbrev ann : Text
ann = lit "ann"

abbrev joe : Text
joe = lit "joe"

abbrev row : Text → Text → ℕ → Session
row token user now = record {
  token_hash = tag token;
  user_id = user;
  created_at = now;
  expires_at = now + 100;
}

abbrev table : List Session
table = row (lit "b") ann 30 ∷ row (lit "a") joe 20 ∷ row (lit "z") ann 10 ∷ []

abbrev with_cookie : Text → Cookies
with_cookie token = (lit "__Host-session_id", token) ∷ []

service_made : new_service 100 true ≡ service
unfolding new_service
service_made = refl

row_found : find (tag (lit "a")) table ≡ some (row (lit "a") joe 20)
unfolding find
row_found = refl

-- Of twelve sessions, in another order than that of their creation, the two oldest of the user go.
abbrev ann_rows : List ℕ → List Session
ann_rows [] = []
ann_rows (n ∷ ns) = row (n ∷ []) ann n ∷ ann_rows ns

abbrev crowded : List Session
crowded = row (lit "z") joe 1 ∷ ann_rows (15 ∷ 11 ∷ 19 ∷ 12 ∷ 13 ∷ 20 ∷ 14 ∷ 16 ∷ 10 ∷ 17 ∷ 18 ∷ [])

oldest_go :
    map (λ s. s.created_at) (start tag service (lit "c") ann 40 false crowded).1
    ≡ 40 ∷ 1 ∷ 15 ∷ 19 ∷ 12 ∷ 13 ∷ 20 ∷ 14 ∷ 16 ∷ 17 ∷ 18 ∷ []
unfolding start insert
oldest_go = refl

start_keeps_newest_example :
    (goes : Session → Bool) × ((start tag service (lit "c") ann 40 false table).1
      ≡ new_session tag service (lit "c") ann 40 ∷ keep (λ o. not (goes o)) table)
    × (length (keep (λ o. not (goes o)) (keep (of_user ann) table)) ≡ 2)
    × AreNewer
        (keep (λ o. not (goes o)) (keep (of_user ann) table))
        (keep goes (keep (of_user ann) table))
    × (keep (λ o. not (of_user ann o)) (keep (λ o. not (goes o)) table)
        ≡ keep (λ o. not (of_user ann o)) table)
unfolding find
start_keeps_newest_example =
    start_keeps_newest tag service (lit "c") ann 40 table refl
      ((refl, (refl, tt)), ((refl, tt), (tt, tt)))

delete_all_expired_lem_example :
    delete_all_expired (suc (expired_count 120 table)) 120 [] table
    ≡ some (record { total = expired_count 120 table; failed = false; left = live 120 table })
delete_all_expired_lem_example = delete_all_expired_lem 120 table

identify-start_example :
    (c : Cookie) × ((start tag long_service (lit "c") ann 40 false table).0 ≡ ok c)
    × (c.http_only ≡ true)
    × (c.secure ≡ true)
    × (c.max_age ≡ pos (1_500_000_000 / 1_000_000_000))
    × (identify tag long_service
          ((c.name, c.value) ∷ [])
          139
          false
          (start tag long_service (lit "c") ann 40 false table).1
        ≡ (if ltb 139 (40 + 1_500_000_000)
            then ok (record { user_id = ann })
            else err SessionError.no_session))
unfolding find
identify-start_example =
    identify-start tag long_service (lit "c") ann 40 139 [] table refl (omega arith)

end-identify_example :
    ((end tag service (with_cookie (lit "a")) false table).0 ≡ ok (cookie service [] (negsuc 0)))
    × (identify tag service
          (with_cookie (lit "a"))
          50
          false
          (end tag service (with_cookie (lit "a")) false table).1
        ≡ err SessionError.no_session)
    × ((other : Cookies) (a b : Text)
        → lookup service.cookie_name (with_cookie (lit "a")) ≡ some a
        → lookup service.cookie_name other ≡ some b
        → eq_text (tag a) (tag b) ≡ false
        → identify tag service other 50 false
            (end tag service (with_cookie (lit "a")) false table).1
          ≡ identify tag service other 50 false table)
end-identify_example = end-identify tag service (with_cookie (lit "a")) 50 table

admitted-HasSession_example :
    (i : Identity) × (some (record { user_id = joe }) ≡ some i)
    × HasSession tag service (with_cookie (lit "a")) 50 table i
unfolding load_identity identify find require_identity get
admitted-HasSession_example =
    admitted-HasSession tag service (with_cookie (lit "a")) 50 false true table
      (some (record { user_id = joe })) none refl refl
