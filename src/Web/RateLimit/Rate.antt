-- ===== src/Web/RateLimit/Rate.antt =====
-- How often a rate limiter admits one client, over any sequence of requests of any clients.
use yet_another_go_boilerpla.Base.{
  ℕ, zero, suc, ◌+◌, ◌-◌, ◌*◌, ◌≤◌, ◌≡◌, refl, ◌∙◌, inl, inr, Bool, true, false, ◌&&◌, List, [],
  ◌∷◌, arith, max, Text, eq_text, eq_text→eq, lookup, lookup-insert_self, lookup-insert_ne,
  Bool-cases,
}
use yet_another_go_boilerpla.Web.RateLimit.Defs.{
  RateLimiter, new_rate_limiter, sweep, decide, allow, tat_or_zero, not_before,
}
use yet_another_go_boilerpla.Web.RateLimit.Table.{IsValid, allow-IsValid, standing, standing-sweep}

-- The requests that the limiter gets, each with its client and its time.
abbrev pub Requests : Type 0
Requests = List (Text × ℕ)

abbrev pub tally : Bool → ℕ → ℕ
tally true n = suc n
tally false n = n

-- How many requests of `key` are admitted.
unfoldable pub admissions : RateLimiter → Text → Requests → ℕ
admissions l key [] = 0
admissions l key ((k, now) ∷ rs) =
    let (l', v) = allow l k now in tally (eq_text k key && v.admitted) (admissions l' key rs)

-- The times do not fall, and lie between `start` and `end`.
abbrev pub Between : ℕ → ℕ → Requests → Type 0
Between start end [] = start ≤ end
Between start end ((k, now) ∷ rs) = (start ≤ now) × Between now end rs

Between-le : (start end : ℕ) (rs : Requests) → Between start end rs → start ≤ end
Between-le start end [] h = h
Between-le start end ((k, now) ∷ rs) h = omega (arith, Between-le now end rs h.1)

pub sweep_config :
    (l : RateLimiter) (now : ℕ)
    → ((sweep l now).interval ≡ l.interval) × ((sweep l now).tolerance ≡ l.tolerance)
unfolding sweep
sweep_config l now = ground arith

decide_config :
    (l : RateLimiter) (k : Text) (now : ℕ)
    → ((decide l k now).0.interval ≡ l.interval) × ((decide l k now).0.tolerance ≡ l.tolerance)
unfolding decide
decide_config l k now = ground arith

pub decide_refused :
    (l : RateLimiter) (k : Text) (now : ℕ)
    → (decide l k now).1.admitted ≡ false
    → (decide l k now).0 ≡ l
unfolding decide
decide_refused l k now h = ground arith

decide_other :
    (l : RateLimiter) (k key : Text) (now : ℕ)
    → eq_text k key ≡ false
    → lookup key (decide l k now).0.tat ≡ lookup key l.tat
unfolding decide
decide_other l k key now h = ground (
  arith,
  lookup-insert_ne k key (not_before (tat_or_zero (lookup k l.tat)) now + l.interval) l.tat h,
)

decide_own :
    (l : RateLimiter) (k : Text) (now : ℕ)
    → (decide l k now).1.admitted ≡ true
    → (standing (decide l k now).0 k now ≡ standing l k now + l.interval)
      × (standing l k now ≤ now + l.tolerance)
unfolding decide
decide_own l k now h =
    ground (
      arith,
      lookup-insert_self k (not_before (tat_or_zero (lookup k l.tat)) now + l.interval) l.tat,
    )

pub allow_config :
    (l : RateLimiter) (k : Text) (now : ℕ)
    → ((allow l k now).0.interval ≡ l.interval) × ((allow l k now).0.tolerance ≡ l.tolerance)
unfolding allow
allow_config l k now = omega (arith, decide_config (sweep l now) k now, sweep_config l now)

-- One request moves the standing of its own client by one interval if it is admitted, and no
-- standing otherwise.
pub allow_moves :
    (l : RateLimiter) (k key : Text) (now : ℕ)
    → IsValid l
    → let (l', v) = allow l k now in
      ((eq_text k key && v.admitted) ≡ true
        → (standing l' key now ≡ standing l key now + l.interval)
          × (standing l key now ≤ now + l.tolerance))
      × ((eq_text k key && v.admitted) ≡ false → standing l' key now ≡ standing l key now)
unfolding allow
allow_moves l k key now valid = (
  (λ h.
      let own = decide_own (sweep l now) k now in
      let same = eq_text→eq k key in
      ground (arith, own, same, standing-sweep l k now valid, sweep_config l now)),
  (λ h.
      let kept = decide_refused (sweep l now) k now in
      let other = decide_other (sweep l now) k key now in
      ground (arith, kept, other, standing-sweep l key now valid)),
)

later_standing :
    (l : RateLimiter) (key : Text) (start now : ℕ)
    → start ≤ now
    → standing l key start ≤ standing l key now
later_standing l key start now h = ground arith

-- The budget argument, with the configuration named, so that it stays fixed along the requests.
budget :
    (interval tolerance : ℕ) (l : RateLimiter) (key : Text) (start end : ℕ) (rs : Requests)
    → IsValid l
    → l.interval ≡ interval
    → l.tolerance ≡ tolerance
    → Between start end rs
    → interval * admissions l key rs ≤ (end + tolerance + interval) - standing l key start
unfolding admissions
budget i t l key start end [] valid ei et b = omega arith
budget i t l key start end ((k, now) ∷ rs) valid ei et b =
    let l' = (allow l k now).0 in
    let c = allow_config l k now in
    let rest =
      budget i t l' key now end rs (allow-IsValid l k now valid) (c.0 ∙ ei) (c.1 ∙ et) b.1 in
    let moves = allow_moves l k key now valid in
    let later = later_standing l key start now b.0 in
    let bound = Between-le now end rs b.1 in
    elim (Bool-cases (eq_text k key && (allow l k now).1.admitted)) [
      | inl e ↦ rw e (omega (arith, rest, moves.0 e, later, bound, ei, et))
      | inr e ↦ rw e (omega (arith, rest, moves.1 e, later))
    ]

-- The limiter after a list of requests.
pub after : RateLimiter → Requests → RateLimiter
after l [] = l
after l ((k, now) ∷ rs) = after (allow l k now).0 rs

after_kept :
    (l : RateLimiter) (rs : Requests)
    → IsValid l
    → IsValid (after l rs)
      × ((after l rs).interval ≡ l.interval)
      × ((after l rs).tolerance ≡ l.tolerance)
unfolding after
after_kept l [] v = (v, refl, refl)
after_kept l ((k, now) ∷ rs) v =
    let (v', i, t) = after_kept (allow l k now).0 rs (allow-IsValid l k now v) in
    let c = allow_config l k now in (v', i ∙ c.0, t ∙ c.1)

tolerance_room : (i burst : ℕ) → i * (max burst 1 - 1) + i ≡ i * max burst 1
tolerance_room i zero = omega arith
tolerance_room i (suc b) =
    let e : max (suc b) 1 ≡ suc b = omega arith in
    let d : suc b - 1 ≡ b = omega arith in rw (e, d) (omega arith)

-- For a limiter made by NewRateLimiter, after any earlier requests: among requests at times
-- between `start` and `end`, of any clients, those of one client that are admitted, times the
-- interval, are at most `end - start` plus the interval times the burst (or times 1 for burst 0).
pub admissions-after_bound :
    (interval burst : ℕ) (header : Text) (earlier : Requests) (key : Text) (start end : ℕ)
    (rs : Requests)
    → Between start end rs
    → interval * admissions (after (new_rate_limiter interval burst header) earlier) key rs
      ≤ (end - start) + interval * max burst 1
unfolding new_rate_limiter
admissions-after_bound i burst header earlier key start end rs b =
    let l = new_rate_limiter i burst header in
    let (v, ei, et) = after_kept l earlier (record { distinct = tt; capped = omega arith }) in
    let least : start ≤ standing (after l earlier) key start = ground arith in
    omega (
      arith,
      budget i (i * (max burst 1 - 1)) (after l earlier) key start end rs v ei et b,
      tolerance_room i burst,
      Between-le start end rs b,
      least,
    )
