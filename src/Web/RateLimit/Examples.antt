-- ===== src/Web/RateLimit/Examples.antt =====
-- Tests of the rate limiter, and its theorems at concrete requests.
use yet_another_go_boilerpla.Base.{
  ℕ, ◌+◌, ◌-◌, ◌*◌, ◌≤◌, ◌≡◌, refl, none, some, [], ◌∷◌, arith, leb, Text, lit, if◌then◌else◌, ◌++◌,
  is_empty, contains, take,
}
use yet_another_go_boilerpla.Web.RateLimit.Defs.{
  RateLimiter, new_rate_limiter, sweep, allow, limit, second,
}
use yet_another_go_boilerpla.Web.RateLimit.Table.{IsValid, allow-IsValid, standing, standing-sweep}
use yet_another_go_boilerpla.Web.RateLimit.Rate.{
  Requests, admissions, after, admissions-after_bound,
}
use yet_another_go_boilerpla.Web.RateLimit.Address.{Netip, client_key, client_key_unforged}
use yet_another_go_boilerpla.Web.RateLimit.Clients.{allow-retry, limit-retry}

abbrev alice : Text
alice = lit "192.0.2.1"

abbrev bob : Text
bob = lit "192.0.2.2"

-- One request at once, then one every 10 seconds.
login : RateLimiter
login = new_rate_limiter (10 * second) 1 []

login-IsValid : IsValid login
unfolding login new_rate_limiter
login-IsValid = record { distinct = tt; capped = omega arith }

abbrev opening : ℕ
opening = 100 * second

-- After one request of alice, at `opening`.
used : RateLimiter
unfolding login new_rate_limiter allow
used = (allow login alice opening).0

used-IsValid : IsValid used
unfolding used
used-IsValid = allow-IsValid login alice opening login-IsValid

refused_for_ten : (limit used alice (opening + second)).1 ≡ some 9
unfolding used limit
refused_for_ten = refl

allow-IsValid_example : IsValid (allow used bob (opening + second)).0
allow-IsValid_example = allow-IsValid used bob (opening + second) used-IsValid

standing-sweep_example :
    standing (sweep used (opening + second)) alice (opening + second)
    ≡ standing used alice (opening + second)
standing-sweep_example = standing-sweep used alice (opening + second) used-IsValid

abbrev flood : Requests
flood =
    (alice, opening)
    ∷ (alice, opening + 1)
    ∷ (bob, opening + 2)
    ∷ (alice, opening + 10 * second)
    ∷ []

flood_admits_two : admissions login alice flood ≡ 2
unfolding admissions allow login new_rate_limiter
flood_admits_two = refl

admissions-after_bound_example :
    10 * second * admissions (after (new_rate_limiter (10 * second) 1 []) flood) alice flood
    ≤ opening + 10 * second - opening + 10 * second * 1
admissions-after_bound_example =
    admissions-after_bound (10 * second) 1 [] flood alice opening (opening + 10 * second) flood
      (omega arith)

allow-retry_example :
    (allow (allow used alice (opening + second)).0 alice (opening + 10 * second)).1.admitted
    ≡ leb (opening + second + (allow used alice (opening + second)).1.wait) (opening + 10 * second)
unfolding used allow
allow-retry_example =
    allow-retry used alice (opening + second) (opening + 10 * second) used-IsValid (omega arith)
      (omega arith) refl

limit-retry_example :
    (limit (limit used alice (opening + second)).0 alice (opening + 10 * second)).1 ≡ none
unfolding used
limit-retry_example =
    limit-retry used alice (opening + second) (opening + 10 * second) used-IsValid (omega arith)
      refused_for_ten (omega arith)

-- Addresses are texts here, and one with a colon is of IPv6.
abbrev netip : Netip
netip = record {
  Addr = Text;
  parse_addr = λ s. if is_empty s then none else some s;
  parse_addr_port = λ s. s;
  unmap = λ a. a;
  is6 = λ a. contains 58 a;
  text = λ a. a;
  prefix64 = λ a. take 3 a;
}

client_key_unforged_example :
    (client_key netip
        (lit "X-Forwarded-For")
        (lit "8.8.8.8" ∷ (lit "1.1.1.1" ++ 44 ∷ lit " 9.9.9.9") ∷ [])
        (lit "127.0.0.1")
      ≡ client_key netip (lit "X-Forwarded-For") (lit " 9.9.9.9" ∷ []) (lit "127.0.0.1"))
    × (client_key netip
          (lit "X-Forwarded-For")
          (lit "8.8.8.8" ∷ lit " 9.9.9.9" ∷ [])
          (lit "127.0.0.1")
        ≡ client_key netip (lit "X-Forwarded-For") (lit " 9.9.9.9" ∷ []) (lit "127.0.0.1"))
client_key_unforged_example =
    client_key_unforged netip (lit "X-Forwarded-For") (lit "8.8.8.8" ∷ []) (lit "1.1.1.1")
      (lit " 9.9.9.9") (lit "127.0.0.1") refl
