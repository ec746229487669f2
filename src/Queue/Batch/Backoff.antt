-- ===== src/Queue/Batch/Backoff.antt =====
-- internal/platform/queue/worker_batch.go: backoff. `rand_n` stands for rand.N of math/rand/v2.
use yet_another_go_boilerpla.Base.{
  ℕ, zero, suc, ◌+◌, ◌*◌, ◌/◌, ◌^◌, ◌≤◌, ◌<◌, ◌≡◌, refl, min, max, arith, dec_lt,
}
use native.Mathlib.Nat.{pow-suc}

abbrev pub second : ℕ
second = 1_000_000_000

abbrev pub hour : ℕ
hour = 3600 * second

-- The delay before the jitter.
unfoldable pub base_delay : ℕ → ℕ
base_delay retries = min (15 * second * 2 ^ min (max retries 0) 10) hour

unfoldable pub backoff : (ℕ → ℕ) → ℕ → ℕ
unfolding base_delay
backoff rand_n retries = let d = base_delay retries in d + rand_n (d / 4)

power_pos : (k : ℕ) → 1 ≤ 2 ^ k
power_pos zero = omega arith
power_pos (suc k) = rw pow-suc (omega (arith, power_pos k))

-- The exponent of the shift.
abbrev shift : ℕ → ℕ
shift retries = min (max retries 0) 10

base_delay_bounds : (retries : ℕ) → (15 * second ≤ base_delay retries) × (base_delay retries ≤ hour)
unfolding base_delay
base_delay_bounds retries = omega (arith, power_pos (shift retries))

-- The delay is at least 15 seconds and less than 75 minutes.
pub backoff_bounds :
    (rand_n : ℕ → ℕ) (retries : ℕ)
    → ((n : ℕ) → 0 < n → rand_n n < n)
    → (15 * second ≤ backoff rand_n retries) × (backoff rand_n retries < hour + hour / 4)
unfolding backoff
backoff_bounds rand_n retries draws =
    let b = base_delay_bounds retries in
    let d = draws (base_delay retries / 4) (omega (arith, b)) in omega (arith, b, d)

-- Each failed delivery doubles the delay before the jitter, up to one hour.
pub base_delay-suc : (retries : ℕ) → base_delay (suc retries) ≡ min (2 * base_delay retries) hour
unfolding base_delay
base_delay-suc retries = elim (dec_lt retries 10) [
  | yes h ↦
      let now : shift retries ≡ retries = omega arith in
      let next : shift (suc retries) ≡ suc retries = omega arith in
      rw (now, next, pow-suc) (omega arith)
  | no h ↦
      let now : shift retries ≡ 10 = omega arith in
      let next : shift (suc retries) ≡ 10 = omega arith in rw (now, next) refl
]
