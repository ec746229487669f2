-- ===== src/Web/RateLimit/Table.antt =====
-- The table of a rate limiter: it stays a map of at most `max_limiter_keys` keys, and a sweep
-- changes no client's standing.
use yet_another_go_boilerpla.Base.{
  ℕ, ◌+◌, ◌≤◌, ◌≡◌, refl, inl, inr, Option, none, some, arith, ltb, length, length-keep-le, Text,
  IsMap, lookup, insert-IsMap, keep-IsMap, lookup-keep, keep_value, length-insert-le,
  length-insert_known, Option-cases,
}
use yet_another_go_boilerpla.Web.RateLimit.Defs.{
  RateLimiter, max_limiter_keys, sweep, decide, allow, tat_or_zero, not_before,
}

pub record IsValid (l : RateLimiter) : Type 0 where
  pub distinct : IsMap l.tat
  pub capped : length l.tat ≤ max_limiter_keys

pub sweep-IsValid : (l : RateLimiter) (now : ℕ) → IsValid l → IsValid (sweep l now)
unfolding sweep
sweep-IsValid l now v = ground (
  arith,
  keep-IsMap (λ t. ltb now t) l.tat v.distinct,
  length-keep-le (λ (e : Text × ℕ). ltb now e.1) l.tat,
)

pub decide-IsValid :
    (l : RateLimiter) (key : Text) (now : ℕ) → IsValid l → IsValid (decide l key now).0
unfolding decide
decide-IsValid l key now v = elim (Option-cases (lookup key l.tat)) [
  | inl e ↦ ground (
    arith,
    insert-IsMap key (not_before 0 now + l.interval) l.tat v.distinct,
    length-insert-le key (not_before 0 now + l.interval) l.tat,
  )
  | inr (t, e) ↦ ground (
    arith,
    insert-IsMap key (not_before t now + l.interval) l.tat v.distinct,
    length-insert_known key (not_before t now + l.interval) t l.tat e,
  )
]

-- Every request keeps the table a map with at most `max_limiter_keys` keys.
pub allow-IsValid :
    (l : RateLimiter) (key : Text) (now : ℕ) → IsValid l → IsValid (allow l key now).0
unfolding allow
allow-IsValid l key now v = decide-IsValid (sweep l now) key now (sweep-IsValid l now v)

-- The theoretical arrival time by which a request of `key` at `now` is judged.
abbrev pub standing : RateLimiter → Text → ℕ → ℕ
standing l key now = not_before (tat_or_zero (lookup key l.tat)) now

kept_standing :
    (now : ℕ) (o : Option ℕ)
    → not_before (tat_or_zero (keep_value (λ t. ltb now t) o)) now ≡ not_before (tat_or_zero o) now
kept_standing now none = refl
kept_standing now (some t) = ground arith

pub standing-sweep :
    (l : RateLimiter) (key : Text) (now : ℕ)
    → IsValid l
    → standing (sweep l now) key now ≡ standing l key now
unfolding sweep
standing-sweep l key now v =
    ground (
      arith,
      lookup-keep (λ t. ltb now t) key l.tat v.distinct,
      kept_standing now (lookup key l.tat),
    )
