-- ===== src/Web/RateLimit/Clients.antt =====
-- What one client sees of a rate limiter: the wait is exact, and other clients do not matter while
-- the table has room.
use yet_another_go_boilerpla.Base.{
  ℕ, suc, ◌+◌, ◌-◌, ◌*◌, ◌≤◌, ◌<◌, ◌≡◌, sym, ap, ◌∙◌, inl, inr, true, false, none, some, arith, ltb,
  leb, le→leb, if◌then◌else◌, length, length-keep-le, length-insert-le, Text, eq_text, lookup,
  Bool-cases,
}
use yet_another_go_boilerpla.Web.RateLimit.Defs.{
  RateLimiter, Verdict, max_limiter_keys, second, sweep, decide, allow, limit, retry_after,
  tat_or_zero, not_before,
}
use yet_another_go_boilerpla.Web.RateLimit.Table.{
  IsValid, sweep-IsValid, allow-IsValid, standing, standing-sweep,
}
use yet_another_go_boilerpla.Web.RateLimit.Rate.{
  decide_refused, sweep_config, allow_config, allow_moves,
}

-- The verdict on a request with this standing, while the table has room.
abbrev judge : ℕ → ℕ → ℕ → Verdict
judge tolerance tat now =
    if ltb now (tat - tolerance)
    then record { wait = tat - tolerance - now; admitted = false }
    else record { wait = 0; admitted = true }

decide-judge :
    (l : RateLimiter) (k : Text) (now : ℕ)
    → length l.tat < max_limiter_keys
    → (decide l k now).1 ≡ judge l.tolerance (standing l k now) now
unfolding decide
decide-judge l k now room = ground arith

sweep_room : (l : RateLimiter) (now : ℕ) → length (sweep l now).tat ≤ length l.tat
unfolding sweep
sweep_room l now = ground (arith, length-keep-le (λ (e : Text × ℕ). ltb now e.1) l.tat)

decide_room :
    (l : RateLimiter) (k : Text) (now : ℕ) → length (decide l k now).0.tat ≤ suc (length l.tat)
unfolding decide
decide_room l k now =
    ground
      (arith, length-insert-le k (not_before (tat_or_zero (lookup k l.tat)) now + l.interval) l.tat)

allow-judge :
    (l : RateLimiter) (k : Text) (now : ℕ)
    → IsValid l
    → length l.tat < max_limiter_keys
    → (allow l k now).1 ≡ judge l.tolerance (standing l k now) now
unfolding allow
allow-judge l k now v room =
    decide-judge (sweep l now) k now (omega (arith, sweep_room l now))
    ∙ ground (arith, standing-sweep l k now v, sweep_config l now)

allow_refused :
    (l : RateLimiter) (k : Text) (now : ℕ)
    → (allow l k now).1.admitted ≡ false
    → (allow l k now).0 ≡ sweep l now
unfolding allow
allow_refused l k now h = decide_refused (sweep l now) k now h

-- Let the table have room, and a client be refused at `now`. Then at any later time, if the client
-- has sent nothing in between, it is admitted exactly from `now + wait` on.
pub allow-retry :
    (l : RateLimiter) (key : Text) (now later : ℕ)
    → IsValid l
    → length l.tat < max_limiter_keys
    → now ≤ later
    → (allow l key now).1.admitted ≡ false
    → (allow (allow l key now).0 key later).1.admitted ≡ leb (now + (allow l key now).1.wait) later
allow-retry l key now later v room h refused =
    let s = sweep l now in
    let same = standing-sweep l key now v in
    let tol = (sweep_config l now).1 in
    let first = allow-judge l key now v room in
    let second =
      allow-judge s key later (sweep-IsValid l now v) (omega (arith, sweep_room l now)) in
    rw (allow_refused l key now refused, second, first) (ground (arith, same, tol, first, refused))

retry_after_enough : (wait : ℕ) → wait ≤ retry_after wait * second
unfolding retry_after
retry_after_enough wait = omega arith

-- While the table has room, a client that gets 429 from Limit and waits for at least the seconds of
-- its Retry-After header, sending nothing in between, gets through.
pub limit-retry :
    (l : RateLimiter) (key : Text) (now later : ℕ) {seconds : ℕ}
    → IsValid l
    → length l.tat < max_limiter_keys
    → (limit l key now).1 ≡ some seconds
    → now + seconds * second ≤ later
    → (limit (limit l key now).0 key later).1 ≡ none
unfolding limit
limit-retry l key now later {seconds} v room refused h =
    elim (Bool-cases (allow l key now).1.admitted) [
      | inl e ↦ ground arith
      | inr e ↦
          let enough = retry_after_enough (allow l key now).1.wait in
          let again = allow-retry l key now later v room (omega arith) e in
          let sec : retry_after (allow l key now).1.wait ≡ seconds = ground arith in
          let due = le→leb (now + (allow l key now).1.wait) later (omega (arith, sec, enough)) in
          rw (again ∙ due)
    ]

allow_room :
    (l : RateLimiter) (k : Text) (now : ℕ) → length (allow l k now).0.tat ≤ suc (length l.tat)
unfolding allow
allow_room l k now = omega (arith, decide_room (sweep l now) k now, sweep_room l now)

standing_later :
    (l : RateLimiter) (key : Text) (now later : ℕ)
    → now ≤ later
    → standing l key later ≡ not_before (standing l key now) later
standing_later l key now later h = ground arith

-- While the table has room for one more client, a request of one client changes nothing for
-- another: the verdict on the other's next request, its wait included, is the same.
pub allow-isolation :
    (l : RateLimiter) (k key : Text) (now later : ℕ)
    → IsValid l
    → suc (length l.tat) < max_limiter_keys
    → now ≤ later
    → eq_text k key ≡ false
    → (allow (allow l k now).0 key later).1 ≡ (allow l key later).1
allow-isolation l k key now later v room h other =
    let l' = (allow l k now).0 in
    let small = allow_room l k now in
    let moved = (allow_moves l k key now v).1 (rw other) in
    let first = allow-judge l' key later (allow-IsValid l k now v) (omega (arith, small)) in
    let alone = allow-judge l key later v (omega arith) in
    let kept =
      standing_later l' key now later h
      ∙ ap (λ t. not_before t later) moved
      ∙ sym (standing_later l key now later h) in
    first ∙ rw (kept, (allow_config l k now).1) (sym alone)
