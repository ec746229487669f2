-- ===== src/Queue/Sql/Stored.antt =====
-- internal/platform/queue/postgres.go: storeFailures against a plain walk over the results. Each
-- failed message goes once, by itself, to the retry queue or to the dead letter queue.
use yet_another_go_boilerpla.Base.{
  ℕ, suc, ◌+◌, ◌≡◌, refl, sym, ap, ◌∙◌, ◌⊎◌, inl, inr, Bool, true, false, List, [], ◌∷◌, Option,
  none, some, ok, arith, if◌then◌else◌, any, All, Text, ◌==◌, length, Bool-cases, Option-cases,
}
use yet_another_go_boilerpla.Queue.Names.Defs.{error_text}
use yet_another_go_boilerpla.Queue.Batch.Message.{Message, HandlerError, Result, failed}
use yet_another_go_boilerpla.Queue.Sql.World.{PgQue, Tables, statement}
use yet_another_go_boilerpla.Queue.Sql.Statements.{
  default_max_retries, FailedRow, gives_up, collect_failures, unnest, store_event, join_row,
  join_rows, exec_failures, read_max_retries, store_failures,
}
use yet_another_go_boilerpla.Queue.Sql.Transactions.{calm}

-- The events of a batch have different ids.
abbrev pub HasDistinctIds : List Message → Type 0
HasDistinctIds [] = Unit
HasDistinctIds (e ∷ es) = (any (λ x. x.id == e.id) es ≡ false) × HasDistinctIds es

abbrev pub Has : Message → List Message → Type 0
Has m [] = ⊥
Has m (e ∷ es) = (e ≡ m) ⊎ Has m es

Has-id : (m : Message) (es : List Message) → Has m es → any (λ x. x.id == m.id) es ≡ true
Has-id m [] h = absurd h
Has-id m (e ∷ es) (inl same) = rw same (ground arith)
Has-id m (e ∷ es) (inr h) = ground (arith, Has-id m es h)

module _ (pg : PgQue) (queue consumer : Text) (batch : ℕ) where
  open pg use {State}

  join_row-missing :
      (row : FailedRow) (es : List Message) (acc : State × ℕ)
      → any (λ x. x.id == row.id) es ≡ false
      → join_row pg queue consumer batch row es acc ≡ acc
  unfolding join_row
  join_row-missing row [] acc h = refl
  join_row-missing row (e ∷ es) acc h = ground (arith, join_row-missing row es acc)

  join_row-once :
      (row : FailedRow) (m : Message) (es : List Message) (acc : State × ℕ)
      → row.id ≡ m.id
      → HasDistinctIds es
      → Has m es
      → join_row pg queue consumer batch row es acc
        ≡ (store_event pg queue consumer batch row m acc.0, suc acc.1)
  unfolding join_row
  join_row-once row m [] acc i d h = absurd h
  join_row-once row m (e ∷ es) acc i d (inl same) =
      let here : row.id ≡ e.id = i ∙ ap (λ (x : Message). x.id) (sym same) in
      let missing : any (λ x. x.id == row.id) es ≡ false = rw here d.0 in
      let hit : (e.id == row.id) ≡ true = ground arith in
      rw hit (
        join_row-missing row es (store_event pg queue consumer batch row e acc.0, suc acc.1) missing
        ∙ ap (λ x. (store_event pg queue consumer batch row x acc.0, suc acc.1)) same)
  join_row-once row m (e ∷ es) acc i d (inr h) = elim (Bool-cases (e.id == row.id)) [
    | inl hit ↦
        let there : e.id ≡ m.id = ground arith in absurd (differ (rw there at d.0) (Has-id m es h))
    | inr other ↦ rw other (join_row-once row m es acc i d.1 h)
  ]
    where
      differ : {b : Bool} → b ≡ false → b ≡ true → ⊥
      differ f t = cc

  -- One result stored by itself.
  abbrev pub store_one : (HandlerError → Text) → ℕ → Result → Option HandlerError → State → State
  store_one text max_retries r none q = q
  store_one text max_retries r (some e) q =
      if gives_up max_retries r.msg e
      then pg.event_dead q batch r.msg (error_text (text e))
      else pg.event_retry q queue consumer r.delay (suc r.msg.retries) r.msg

  -- The results stored one after the other.
  abbrev pub store_each : (HandlerError → Text) → ℕ → List Result → State → State
  store_each text max_retries [] q = q
  store_each text max_retries (r ∷ rs) q =
      store_each text max_retries rs (store_one text max_retries r r.err q)

  join_collected :
      (text : HandlerError → Text) (n : ℕ) (es : List Message) (rs : List Result) (acc : State × ℕ)
      → HasDistinctIds es
      → All (λ r. Has r.msg es) rs
      → let f = (collect_failures text rs n).0 in
        join_rows pg queue consumer batch (unnest f.ids f.delays f.reasons f.dead) es acc
        ≡ (store_each text n rs acc.0, acc.1 + length f.ids)
  unfolding join_rows collect_failures unnest
  join_collected text n es [] acc d h = ground arith
  join_collected text n es (r ∷ rs) acc d h = elim (Option-cases r.err) [
    | inl e ↦ rw e (join_collected text n es rs acc d h.1)
    | inr (x, e) ↦
        let row : FailedRow = record {
          id = r.msg.id;
          delay = r.delay;
          reason = error_text (text x);
          dead = gives_up n r.msg x;
        } in
        let stored = store_event pg queue consumer batch row r.msg acc.0 in
        let rest = join_collected text n es rs (stored, suc acc.1) d h.1 in
        let once = join_row-once row r.msg es acc refl d h.0 in
        rw e (rw once (rest ∙ ap (λ (k : ℕ). (store_each text n rs stored, k)) (omega arith)))
  ]

  -- The result of a failed message says where the message went.
  abbrev pub mark : ℕ → Result → Option HandlerError → Result
  mark max_retries r none = r
  mark max_retries r (some e) = record r { dead = gives_up max_retries r.msg e }

  abbrev pub marks : ℕ → List Result → List Result
  marks max_retries [] = []
  marks max_retries (r ∷ rs) = mark max_retries r r.err ∷ marks max_retries rs

  collected_marks :
      (text : HandlerError → Text) (n : ℕ) (rs : List Result)
      → (collect_failures text rs n).1 ≡ marks n rs
  unfolding collect_failures
  collected_marks text n [] = refl
  collected_marks text n (r ∷ rs) = ground (arith, collected_marks text n rs)

  none_failed :
      (text : HandlerError → Text) (n : ℕ) (rs : List Result) (q : State)
      → any failed rs ≡ false
      → (marks n rs ≡ rs) × (store_each text n rs q ≡ q)
  none_failed text n [] q h = (refl, refl)
  none_failed text n (r ∷ rs) q h = ground (arith, none_failed text n rs q)

  -- The limit of the retries by the setting of the queue.
  abbrev pub limit_of : Option ℕ → ℕ
  limit_of none = default_max_retries
  limit_of (some n) = n

  read_calm :
      (setting : Option ℕ) (t : Tables State)
      → pg.queue_max_retries t.queue queue ≡ some setting
      → read_max_retries pg queue (calm t) ≡ (ok (limit_of setting), calm t)
  unfolding read_max_retries
  read_calm none t s = ground arith
  read_calm (some n) t s = ground arith

  exec_calm :
      (text : HandlerError → Text) (n : ℕ) (rs : List Result) (t : Tables State)
      → HasDistinctIds (pg.batch_events t.queue batch)
      → All (λ r. Has r.msg (pg.batch_events t.queue batch)) rs
      → exec_failures pg queue consumer batch (collect_failures text rs n).0 (calm t)
        ≡ (ok tt, calm (record t { queue = store_each text n rs t.queue }))
  unfolding exec_failures statement
  exec_calm text n rs t d h =
      ground (arith, join_collected text n (pg.batch_events t.queue batch) rs (t.queue, 0) d h)

  -- Let no statement fail, the queue have a row with this setting, the events of the batch have
  -- different ids, and every result be of one of them. Then storeFailures stores each failed
  -- message by itself: in the dead letter queue if its error is permanent or its retries have
  -- reached the limit of the queue (5 without a setting), else in the retry queue with one retry
  -- more. The other tables stay, and the results say which message is dead.
  pub store_failures-store_each :
      (text : HandlerError → Text) (rs : List Result) (setting : Option ℕ) (t : Tables State)
      → pg.queue_max_retries t.queue queue ≡ some setting
      → HasDistinctIds (pg.batch_events t.queue batch)
      → All (λ r. Has r.msg (pg.batch_events t.queue batch)) rs
      → store_failures pg text queue consumer batch rs (calm t) ≡ (
        ok (marks (limit_of setting) rs),
        calm (record t { queue = store_each text (limit_of setting) rs t.queue }),
      )
  unfolding store_failures
  store_failures-store_each text rs setting t s d h = elim (Bool-cases (any failed rs)) [
    | inl fails ↦
        rw (fails, read_calm setting t s, exec_calm text (limit_of setting) rs t d h)
          (ap
            (λ x. (ok x, calm (record t { queue = store_each text (limit_of setting) rs t.queue })))
            (collected_marks text (limit_of setting) rs))
    | inr passes ↦
        let (same, kept) = none_failed text (limit_of setting) rs t.queue passes in
        rw (passes, same, kept)
  ]
