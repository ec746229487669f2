-- ===== src/Queue/Sql/Transactions.antt =====
-- internal/platform/queue/postgres.go: what a transaction leaves behind, whatever fails in it.
use yet_another_go_boilerpla.Base.{
  ℕ, ◌≡◌, refl, ◌⊎◌, inl, inr, Bool, true, false, List, [], Outcome, ok, err, arith, if◌then◌else◌,
  any, Text, ◌==◌, length,
}
use yet_another_go_boilerpla.Queue.Batch.Message.{HandlerError, Result, failed}
use yet_another_go_boilerpla.Queue.Sql.World.{
  PgQue, Fault, works, fails, lost, Error, not_in_batch, not_open, Tables, World, Sql, ◌>>=◌,
  return, fail, next_fault, later_faults, execute, settle, commit, no_change, resume, statement,
  begin_func,
}
use yet_another_go_boilerpla.Queue.Sql.Statements.{
  Failures, collect_failures, read_max_retries, exec_failures, store_failures, close_batch,
  finish_body, finish_batch,
}

-- The world in which no statement fails.
abbrev pub calm : {Q : Type 0} → Tables Q → World Q
calm t = record { tables = t; faults = [] }

-- A success under faults is the success without them.
abbrev pub IsHonest : {Q A : Type 0} → Sql Q A → Type 0
IsHonest {Q} {A} m =
    (w : World Q) (a : A) → (m w).0 ≡ ok a → m (calm w.tables) ≡ (ok a, calm (m w).1.tables)

pub Outcome-cases :
    {E A : Type 0} (o : Outcome E A) → ((a : A) × (o ≡ ok a)) ⊎ ((e : E) × (o ≡ err e))
Outcome-cases (ok a) = inl (a, refl)
Outcome-cases (err e) = inr (e, refl)

pub statement-IsHonest :
    {Q A : Type 0} (f : Tables Q → Outcome Error A × Tables Q) → IsHonest (statement f)
unfolding statement
statement-IsHonest f w a h = ground arith

pub return-IsHonest : {Q A : Type 0} (a : A) → IsHonest (return {Q = Q} a)
return-IsHonest a w b h = ground arith

pub fail-IsHonest : {Q A : Type 0} (e : Error) → IsHonest (fail {Q = Q} {A = A} e)
fail-IsHonest e w b h = ground arith

pub bind-IsHonest :
    {Q A B : Type 0} (m : Sql Q A) (f : A → Sql Q B)
    → IsHonest m
    → ((a : A) → IsHonest (f a))
    → IsHonest (m >>= f)
bind-IsHonest m f hm hf w b h = elim (Outcome-cases (m w).0) [
  | inl (a, e) ↦ rw (hm w a e, e) (hf a (m w).1 b (rw e at h))
  | inr (x, e) ↦ absurd (not_ok (rw e at h))
]
  where
    not_ok : {x : Error} → err x ≡ ok b → ⊥
    not_ok h = cc

pub if-IsHonest :
    {Q A : Type 0} (c : Bool) (m n : Sql Q A)
    → IsHonest m
    → IsHonest n
    → IsHonest (if c then m else n)
if-IsHonest true m n hm hn = hm
if-IsHonest false m n hm hn = hn

-- The tables are as before or as the whole body leaves them; and they are the latter, with the
-- result of the body, after a success.
abbrev pub IsAtomic : {Q A : Type 0} → Sql Q A → Tables Q → Outcome Error A × World Q → Type 0
IsAtomic {Q} {A} body before (r, w) =
    ((w.tables ≡ before) ⊎ ((a : A) × (body (calm before) ≡ (ok a, calm w.tables))))
    × ((a : A) → r ≡ ok a → body (calm before) ≡ (ok a, calm w.tables))

settle-IsAtomic :
    {Q A : Type 0} (body : Sql Q A) (f : Fault) (before : Tables Q) (a : A) (w : World Q)
    → body (calm before) ≡ (ok a, calm w.tables)
    → IsAtomic body before (settle f before a w)
settle-IsAtomic body works before a w h =
    (inr (a, h), λ b e. let same : a ≡ b = cc in rw (← same) h)
settle-IsAtomic body fails before a w h = (inl refl, λ b e. cc)
settle-IsAtomic body lost before a w h = (inr (a, h), λ b e. cc)

commit-IsAtomic :
    {Q A : Type 0} (body : Sql Q A) (before : Tables Q) (r : Outcome Error A) (w : World Q)
    → ((a : A) → r ≡ ok a → body (calm before) ≡ (ok a, calm w.tables))
    → IsAtomic body before (commit before r w)
commit-IsAtomic body before (ok a) w h =
    settle-IsAtomic body (next_fault w.faults) before a
      (record w { faults = later_faults w.faults }) (h a refl)
commit-IsAtomic body before (err e) w h = (inl refl, λ b g. cc)

begin_from :
    {Q A : Type 0} (body : Sql Q A) (w : World Q) (f : Fault)
    → IsHonest body
    → IsAtomic body w.tables (
        resume
          (execute f no_change w.tables).0
          (λ _ v. commit v.tables (body v).0 (body v).1)
          (record { tables = (execute f no_change w.tables).1; faults = later_faults w.faults }))
begin_from body w works honest =
    let v = record w { faults = later_faults w.faults } in
    commit-IsAtomic body w.tables (body v).0 (body v).1 (honest v)
begin_from body w fails honest = (inl refl, λ b g. cc)
begin_from body w lost honest = (inl refl, λ b g. cc)

-- A transaction over an honest body is atomic.
pub begin_func-IsAtomic :
    {Q A : Type 0} (body : Sql Q A) (w : World Q)
    → IsHonest body
    → IsAtomic body w.tables (begin_func body w)
unfolding begin_func
begin_func-IsAtomic body w honest = begin_from body w (next_fault w.faults) honest

module _ (pg : PgQue) where
  read_max_retries-IsHonest : (queue : Text) → IsHonest (read_max_retries pg queue)
  unfolding read_max_retries
  read_max_retries-IsHonest queue = statement-IsHonest _

  exec_failures-IsHonest :
      (queue consumer : Text) (batch : ℕ) (f : Failures)
      → IsHonest (exec_failures pg queue consumer batch f)
  unfolding exec_failures
  exec_failures-IsHonest queue consumer batch f =
      bind-IsHonest (statement _) _ (statement-IsHonest _) λ n.
        if-IsHonest (n == length f.ids) (return tt) (fail not_in_batch) (return-IsHonest tt)
          (fail-IsHonest not_in_batch)

  store_failures-IsHonest :
      (text : HandlerError → Text) (queue consumer : Text) (batch : ℕ) (results : List Result)
      → IsHonest (store_failures pg text queue consumer batch results)
  unfolding store_failures
  store_failures-IsHonest text queue consumer batch results =
      if-IsHonest (any failed results) _ (return results)
        (bind-IsHonest (read_max_retries pg queue) _ (read_max_retries-IsHonest queue) λ n.
          bind-IsHonest (exec_failures pg queue consumer batch (collect_failures text results n).0)
            _ (exec_failures-IsHonest queue consumer batch (collect_failures text results n).0)
            λ _. return-IsHonest _)
        (return-IsHonest results)

  close_batch-IsHonest : (batch : ℕ) → IsHonest (close_batch pg batch)
  unfolding close_batch
  close_batch-IsHonest batch = bind-IsHonest (statement _) _ (statement-IsHonest _) λ _.
      bind-IsHonest (statement _) _ (statement-IsHonest _) λ n.
        if-IsHonest (n == 1) (return tt) (fail not_open) (return-IsHonest tt)
          (fail-IsHonest not_open)

  pub finish_body-IsHonest :
      (text : HandlerError → Text) (queue consumer : Text) (batch : ℕ) (results : List Result)
      → IsHonest (finish_body pg text queue consumer batch results)
  unfolding finish_body
  finish_body-IsHonest text queue consumer batch results =
      bind-IsHonest (store_failures pg text queue consumer batch results) _
        (store_failures-IsHonest text queue consumer batch results)
        λ rs.
          bind-IsHonest (close_batch pg batch) _ (close_batch-IsHonest batch)
            λ _. return-IsHonest rs

  -- Whatever statements fail or lose their answer, finishBatch leaves the tables as they were or
  -- stores the whole result of the batch: the failed messages, the removal of the run count, and the
  -- end of the batch. If it returns no error, it stored the whole result.
  pub finish_batch-IsAtomic :
      (text : HandlerError → Text) (queue consumer : Text) (batch : ℕ) (results : List Result)
      (w : World pg.State)
      → IsAtomic
          (finish_body pg text queue consumer batch results)
          w.tables
          (finish_batch pg text queue consumer batch results w)
  unfolding finish_batch
  finish_batch-IsAtomic text queue consumer batch results w =
      begin_func-IsAtomic (finish_body pg text queue consumer batch results) w
        (finish_body-IsHonest text queue consumer batch results)
