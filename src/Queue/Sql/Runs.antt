-- ===== src/Queue/Sql/Runs.antt =====
-- The table queue_batch_runs: how often the run of a batch did not finish.
use yet_another_go_boilerpla.Base.{
  ℕ, ℤ, pos, negsuc, add_one, sub_one, add_one-sub_one, ◌≡◌, ap, ◌∙◌, not, List, [], ◌∷◌, arith,
  ◌==◌, if◌then◌else◌, keep,
}

-- INSERT … VALUES (batch, first) ON CONFLICT (batch_id) DO UPDATE SET runs = change runs
abbrev pub upsert_runs : (ℤ → ℤ) → ℤ → ℕ → List (ℕ × ℤ) → List (ℕ × ℤ)
upsert_runs change first batch [] = (batch, first) ∷ []
upsert_runs change first batch ((b, n) ∷ rows) =
    if b == batch then (b, change n) ∷ rows else (b, n) ∷ upsert_runs change first batch rows

-- The runs of a batch; a batch without a row has none.
abbrev pub runs_of : ℕ → List (ℕ × ℤ) → ℤ
runs_of batch [] = pos 0
runs_of batch ((b, n) ∷ rows) = if b == batch then n else runs_of batch rows

abbrev pub delete_runs : ℕ → List (ℕ × ℤ) → List (ℕ × ℤ)
delete_runs batch = keep (λ row. not (row.0 == batch))

pub runs_of-upsert :
    (change : ℤ → ℤ) (batch : ℕ) (rows : List (ℕ × ℤ))
    → runs_of batch (upsert_runs change (change (pos 0)) batch rows) ≡ change (runs_of batch rows)
runs_of-upsert change batch [] = ground arith
runs_of-upsert change batch ((b, n) ∷ rows) = ground (arith, runs_of-upsert change batch rows)

-- A count that is taken back first leaves the count as it was.
pub runs_of-uncount_count :
    (batch : ℕ) (rows : List (ℕ × ℤ))
    → runs_of batch (upsert_runs add_one (pos 1) batch (upsert_runs sub_one (negsuc 0) batch rows))
      ≡ runs_of batch rows
runs_of-uncount_count batch rows =
    runs_of-upsert add_one batch (upsert_runs sub_one (negsuc 0) batch rows)
    ∙ ap add_one (runs_of-upsert sub_one batch rows)
    ∙ add_one-sub_one (runs_of batch rows)
