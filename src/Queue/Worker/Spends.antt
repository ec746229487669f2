-- ===== src/Queue/Worker/Spends.antt =====
-- internal/platform/queue/postgres.go: a batch that finishBatch closed does not come back, by a count of
-- the batches that are ready or open.
use yet_another_go_boilerpla.Base.{
  ℕ, suc, ◌+◌, ◌≤◌, ◌<◌, ◌≡◌, refl, ap, inl, inr, Bool, true, false, Option, some, List, [], ◌∷◌,
  arith, Outcome, ok, err, ◌==◌, ==_iff, Bool-cases, if◌then◌else◌, any, length, Text,
}
use yet_another_go_boilerpla.Queue.Batch.Message.{Message, HandlerError, Result, failed}
use yet_another_go_boilerpla.Queue.Sql.World.{
  PgQue, Fault, Error, Tables, World, Sql, ◌>>=◌, return, fail, statement, not_in_batch, not_open,
  resume, next_fault, later_faults, works, fails, lost, execute,
}
use yet_another_go_boilerpla.Queue.Sql.Statements.{
  Failures, FailedRow, store_event, join_row, join_rows, exec_failures, unnest, store_failures,
  read_max_retries, close_batch, finish_body, finish_batch,
}
use yet_another_go_boilerpla.Queue.Sql.Transactions.{calm, Outcome-cases, finish_batch-IsAtomic}

-- What PgQue documents, for a count of the batches that are ready or open: opening a batch and the
-- outcome of a message do not raise it, and an acknowledgement of an open batch lowers it.
pub record Counts (pg : PgQue) (ready : pg.State → ℕ) : Type 0 where
  pub opens :
      (q q' : pg.State) (queue consumer : Text) (id : Option ℕ)
      → pg.next_batch q queue consumer ≡ some (q', id)
      → ready q' ≤ ready q
  pub buries :
      (q : pg.State) (batch : ℕ) (m : Message) (reason : Text)
      → ready (pg.event_dead q batch m reason) ≤ ready q
  pub retries :
      (q : pg.State) (queue consumer : Text) (delay n : ℕ) (m : Message)
      → ready (pg.event_retry q queue consumer delay n m) ≤ ready q
  pub closes :
      (q : pg.State) (batch : ℕ) → (pg.ack q batch).1 ≡ 1 → ready (pg.ack q batch).0 < ready q

module _ (pg : PgQue) (ready : pg.State → ℕ) (counts : Counts pg ready) where
  -- A success lowers the count by k at least.
  abbrev pub Spends : {A : Type 0} → ℕ → Sql pg.State A → Type 0
  Spends {A} k m =
      (w : World pg.State) (a : A)
      → (m w).0 ≡ ok a
      → k + ready (m w).1.tables.queue ≤ ready w.tables.queue

  execute-spends :
      {A : Type 0} (k : ℕ) (x : Fault) (f : Tables pg.State → Outcome Error A × Tables pg.State)
      (t : Tables pg.State) (a : A)
      → ((b : A) → (f t).0 ≡ ok b → k + ready (f t).1.queue ≤ ready t.queue)
      → (execute x f t).0 ≡ ok a
      → k + ready (execute x f t).1.queue ≤ ready t.queue
  execute-spends k works f t a h e = h a e
  execute-spends k fails f t a h e = absurd cc
  execute-spends k lost f t a h e = absurd cc

  pub statement-Spends :
      {A : Type 0} (k : ℕ) (f : Tables pg.State → Outcome Error A × Tables pg.State)
      → ((t : Tables pg.State) (a : A) → (f t).0 ≡ ok a → k + ready (f t).1.queue ≤ ready t.queue)
      → Spends k (statement f)
  unfolding statement
  statement-Spends k f h w a e = execute-spends k (next_fault w.faults) f w.tables a (h w.tables) e

  pub statement-keeps :
      {A : Type 0} (f : Tables pg.State → Outcome Error A × Tables pg.State)
      → ((t : Tables pg.State) → ready (f t).1.queue ≤ ready t.queue)
      → Spends 0 (statement f)
  statement-keeps f h = statement-Spends 0 f λ t a e. omega (arith, h t)

  pub bind-Spends :
      {A B : Type 0} (m : Sql pg.State A) (f : A → Sql pg.State B) (j k : ℕ)
      → Spends j m
      → ((a : A) → Spends k (f a))
      → Spends (j + k) (m >>= f)
  bind-Spends m f j k hm hf w b e = elim (Outcome-cases (m w).0) [
    | inl (a, g) ↦
        let low = hm w a g in
        let rest = hf a (m w).1 b (rw g at e) in rw g (omega (arith, low, rest))
    | inr (x, g) ↦ absurd (let same : err x ≡ ok b = rw g at e in cc)
  ]

  pub return-Spends : {A : Type 0} (a : A) → Spends 0 (return a)
  return-Spends a w b e = omega arith

  pub fail-Spends : {A : Type 0} (k : ℕ) (x : Error) → Spends {A = A} k (fail x)
  fail-Spends k x w b e = absurd cc

  pub if-Spends :
      {A : Type 0} (k : ℕ) (c : Bool) (m n : Sql pg.State A)
      → Spends k m
      → Spends k n
      → Spends k (if c then m else n)
  if-Spends k true m n hm hn = hm
  if-Spends k false m n hm hn = hn

  store_event-ready :
      (queue consumer : Text) (batch : ℕ) (row : FailedRow) (e : Message) (q : pg.State)
      → ready (store_event pg queue consumer batch row e q) ≤ ready q
  store_event-ready queue consumer batch row e q = elim (Bool-cases row.dead) [
    | inl g ↦ rw g (counts.buries q batch e row.reason)
    | inr g ↦ rw g (counts.retries q queue consumer row.delay (suc e.retries) e)
  ]

  if-ready :
      (c : Bool) (x y : pg.State × ℕ) (n : ℕ)
      → ready x.0 ≤ n
      → ready y.0 ≤ n
      → ready (if c then x else y).0 ≤ n
  if-ready true x y n hx hy = hx
  if-ready false x y n hx hy = hy

  join_row-ready :
      (queue consumer : Text) (batch : ℕ) (row : FailedRow) (es : List Message) (acc : pg.State × ℕ)
      → ready (join_row pg queue consumer batch row es acc).0 ≤ ready acc.0
  unfolding join_row
  join_row-ready queue consumer batch row [] acc = omega arith
  join_row-ready queue consumer batch row (e ∷ es) acc =
      let stored : pg.State × ℕ = (store_event pg queue consumer batch row e acc.0, suc acc.1) in
      omega (
        arith,
        if-ready (e.id == row.id) stored acc (ready acc.0)
            (store_event-ready queue consumer batch row e acc.0) (omega arith),
        join_row-ready queue consumer batch row es (if e.id == row.id then stored else acc),
      )

  join_rows-ready :
      (queue consumer : Text) (batch : ℕ) (rows : List FailedRow) (es : List Message)
      (acc : pg.State × ℕ)
      → ready (join_rows pg queue consumer batch rows es acc).0 ≤ ready acc.0
  unfolding join_rows
  join_rows-ready queue consumer batch [] es acc = omega arith
  join_rows-ready queue consumer batch (row ∷ rows) es acc = omega (
    arith,
    join_row-ready queue consumer batch row es acc,
    join_rows-ready queue consumer batch rows es (join_row pg queue consumer batch row es acc),
  )

  read_max_retries-Spends : (queue : Text) → Spends 0 (read_max_retries pg queue)
  unfolding read_max_retries
  read_max_retries-Spends queue = statement-keeps _ λ t. ground arith

  exec_failures-Spends :
      (queue consumer : Text) (batch : ℕ) (f : Failures)
      → Spends 0 (exec_failures pg queue consumer batch f)
  unfolding exec_failures
  exec_failures-Spends queue consumer batch f =
      bind-Spends (statement _) _ 0 0
        (statement-keeps
          (λ t.
            let (q, n) =
              join_rows pg queue consumer batch (unnest f.ids f.delays f.reasons f.dead)
                (pg.batch_events t.queue batch) (t.queue, 0) in
            (ok n, record t { queue = q }))
          λ t.
            join_rows-ready queue consumer batch (unnest f.ids f.delays f.reasons f.dead)
              (pg.batch_events t.queue batch) (t.queue, 0))
        λ k.
          if-Spends 0 (k == length f.ids) (return tt) (fail not_in_batch) (return-Spends tt)
            (fail-Spends 0 not_in_batch)

  store_failures-Spends :
      (text : HandlerError → Text) (queue consumer : Text) (batch : ℕ) (rs : List Result)
      → Spends 0 (store_failures pg text queue consumer batch rs)
  unfolding store_failures
  store_failures-Spends text queue consumer batch rs =
      if-Spends 0 (any failed rs) _ (return rs)
        (bind-Spends (read_max_retries pg queue) _ 0 0 (read_max_retries-Spends queue) λ n.
          bind-Spends (exec_failures pg queue consumer batch _) _ 0 0
            (exec_failures-Spends queue consumer batch _) λ _. return-Spends _)
        (return-Spends rs)

  abbrev ack_statement : ℕ → Tables pg.State → Outcome Error ℕ × Tables pg.State
  ack_statement batch t = let (q, n) = pg.ack t.queue batch in (ok n, record t { queue = q })

  abbrev confirm : ℕ → Sql pg.State (Unit {0})
  confirm n = if n == 1 then return tt else fail not_open

  confirm_one : (n : ℕ) (w : World pg.State) (a : Unit {0}) → (confirm n w).0 ≡ ok a → n ≡ 1
  confirm_one n w a e = elim (Bool-cases (n == 1)) [
    | inl g ↦ (==_iff n 1).0 g
    | inr g ↦ absurd (ground (arith, g, e))
  ]

  confirm_keeps : (n : ℕ) (w : World pg.State) → (confirm n w).1 ≡ w
  confirm_keeps n w = elim (Bool-cases (n == 1)) [ inl g ↦ rw g refl | inr g ↦ rw g refl ]

  abbrev acknowledged :
      ℕ → Fault → Tables pg.State → List Fault → Outcome Error (Unit {0}) × World pg.State
  acknowledged batch x t faults =
      resume (execute x (ack_statement batch) t).0 confirm
        (record { tables = (execute x (ack_statement batch) t).1; faults = faults })

  acknowledged_spends :
      (batch : ℕ) (x : Fault) (t : Tables pg.State) (faults : List Fault) (a : Unit {0})
      → (acknowledged batch x t faults).0 ≡ ok a
      → 1 + ready (acknowledged batch x t faults).1.tables.queue ≤ ready t.queue
  acknowledged_spends batch works t faults a e =
      let n = (pg.ack t.queue batch).1 in
      let w : World pg.State = record {
        tables = record t { queue = (pg.ack t.queue batch).0 };
        faults = faults;
      } in
      rw (confirm_keeps n w) (omega (arith, counts.closes t.queue batch (confirm_one n w a e)))
  acknowledged_spends batch fails t faults a e = absurd cc
  acknowledged_spends batch lost t faults a e = absurd cc

  acknowledge-Spends : (batch : ℕ) → Spends 1 (statement (ack_statement batch) >>= confirm)
  unfolding statement
  acknowledge-Spends batch w a e =
      acknowledged_spends batch (next_fault w.faults) w.tables (later_faults w.faults) a e

  close_batch-Spends : (batch : ℕ) → Spends 1 (close_batch pg batch)
  unfolding close_batch
  close_batch-Spends batch =
      bind-Spends (statement _) _ 0 1 (statement-keeps _ λ t. omega arith)
        λ _. acknowledge-Spends batch

  finish_body-Spends :
      (text : HandlerError → Text) (queue consumer : Text) (batch : ℕ) (rs : List Result)
      → Spends 1 (finish_body pg text queue consumer batch rs)
  unfolding finish_body
  finish_body-Spends text queue consumer batch rs =
      bind-Spends (store_failures pg text queue consumer batch rs) _ 0 1
        (store_failures-Spends text queue consumer batch rs)
        λ stored.
          bind-Spends (close_batch pg batch) _ 1 0 (close_batch-Spends batch)
            λ _. return-Spends stored

  pub finish_batch-Spends :
      (text : HandlerError → Text) (queue consumer : Text) (batch : ℕ) (rs : List Result)
      → Spends 1 (finish_batch pg text queue consumer batch rs)
  finish_batch-Spends text queue consumer batch rs w a e =
      let done = (finish_batch-IsAtomic pg text queue consumer batch rs w).1 a e in
      let spent =
        finish_body-Spends text queue consumer batch rs (calm w.tables) a (ap (λ p. p.0) done) in
      rw (ap (λ p. p.1.tables.queue) done) at spent
