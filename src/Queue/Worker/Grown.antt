-- ===== src/Queue/Worker/Grown.antt =====
-- The call of Handle on a consumer of a worker (worker.go).
use yet_another_go_boilerpla.Base.{
  ℕ, ◌<◌, ◌≡◌, refl, ◌∙◌, inl, inr, Bool, true, false, Option, none, some, List, [], ◌∷◌, arith,
  ◌==◌, if◌then◌else◌, any, All, Text, eq_text, Dict, insert, has_key, insert-IsMap, Bool-cases,
  Holds, All-map,
}
use yet_another_go_boilerpla.Queue.Names.Defs.{valid_name}
use yet_another_go_boilerpla.Queue.Batch.Run.{Handler, Registration, Consumer}
use yet_another_go_boilerpla.Queue.Worker.Defs.{
  Worker, is_named, handle, on_consumer, handle_in, handles,
}
use yet_another_go_boilerpla.Queue.Worker.Valid.{
  IsHandler, IsConsumer, AreDistinct, IsSchedule, IsWorker,
}

pub insert-handlers :
    {H : Type 0} (typ : Text) (r : Registration H) (m : Dict (Registration H))
    → valid_name typ ≡ true
    → 0 < r.timeout
    → All IsHandler m
    → All IsHandler (insert typ r m)
insert-handlers typ r [] t p h = ((t, p), tt)
insert-handlers typ r ((j, q) ∷ m) t p h = elim (Bool-cases (eq_text j typ)) [
  | inl e ↦ rw e ((h.0.0, p), h.1)
  | inr e ↦ rw e (h.0, insert-handlers typ r m t p h.1)
]

pub has_key-insert_mono :
    {V : Type 0} (j k : Text) (v : V) (m : Dict V)
    → has_key j m ≡ true
    → has_key j (insert k v m) ≡ true
has_key-insert_mono j k v [] h = cc
has_key-insert_mono j k v ((i, u) ∷ m) h = ground (arith, has_key-insert_mono j k v m)

-- What Handle does to a consumer.
abbrev pub IsGrown : {H : Type 0} → Consumer H → Consumer H → Type 0
IsGrown c d =
    (d.queue ≡ c.queue)
    × (d.name ≡ c.name)
    × (IsConsumer c → IsConsumer d)
    × ((queue typ : Text) → handles queue typ c ≡ true → handles queue typ d ≡ true)

pub handle-IsGrown :
    {H : Type 0} (typ : Text) (timeout : ℕ) (o : Option (Handler H)) (c : Consumer H)
    → Holds (IsGrown c) (handle typ timeout o c)
unfolding handle
handle-IsGrown typ timeout none c = tt
handle-IsGrown {H} typ timeout (some f) c = elim (Bool-cases (valid_name typ)) [
  | inr bad ↦ rw bad tt
  | inl good ↦ elim (Bool-cases (has_key typ c.handlers)) [
    | inl second ↦ rw (good, second) tt
    | inr first ↦ elim (Bool-cases (timeout == 0)) [
      | inl zero_timeout ↦ rw (good, first, zero_timeout) tt
      | inr positive ↦
          let r : Registration H = record { handler = f; timeout = timeout } in
          rw (good, first, positive)
            (
              refl,
              refl,
              (λ v. record {
                valid_queue = v.valid_queue;
                valid_consumer = v.valid_consumer;
                distinct = insert-IsMap typ r c.handlers v.distinct;
                handlers_valid =
                    insert-handlers typ r c.handlers good (ground arith) v.handlers_valid;
              }),
              λ queue t h. ground (arith, has_key-insert_mono t typ r c.handlers),
            )
    ]
  ]
]

abbrev pub AreGrown : {H : Type 0} → List (Consumer H) → List (Consumer H) → Type 0
AreGrown [] [] = Unit
AreGrown [] (d ∷ ds) = ⊥
AreGrown (c ∷ cs) [] = ⊥
AreGrown (c ∷ cs) (d ∷ ds) = IsGrown c d × AreGrown cs ds

pub IsGrown-refl : {H : Type 0} (c : Consumer H) → IsGrown c c
IsGrown-refl c = (refl, refl, (λ v. v), λ queue typ h. h)

pub on_consumer-AreGrown :
    {H : Type 0} (c : Consumer H) (cs : List (Consumer H)) (o : Option (Consumer H))
    (rest : Option (List (Consumer H)))
    → Holds (IsGrown c) o
    → Holds (AreGrown cs) rest
    → Holds (AreGrown (c ∷ cs)) (on_consumer c o rest)
on_consumer-AreGrown c cs none rest h hs = tt
on_consumer-AreGrown c cs (some d) none h hs = tt
on_consumer-AreGrown c cs (some d) (some ds) h hs = (h, hs)

pub handle_in-AreGrown :
    {H : Type 0} (queue name : Text) (f : Consumer H → Option (Consumer H)) (cs : List (Consumer H))
    → ((c : Consumer H) → Holds (IsGrown c) (f c))
    → Holds (AreGrown cs) (handle_in queue name f cs)
unfolding handle_in
handle_in-AreGrown queue name f [] g = tt
handle_in-AreGrown queue name f (c ∷ cs) g =
    on_consumer-AreGrown c cs (if is_named queue name c then f c else some c)
      (handle_in queue name f cs) (one (is_named queue name c))
      (handle_in-AreGrown queue name f cs g)
  where
    one : (b : Bool) → Holds (IsGrown c) (if b then f c else some c)
    one true = g c
    one false = IsGrown-refl c

pub grown-consumers :
    {H : Type 0} (cs ds : List (Consumer H))
    → AreGrown cs ds
    → All IsConsumer cs
    → All IsConsumer ds
grown-consumers [] [] g h = tt
grown-consumers [] (d ∷ ds) g h = absurd g
grown-consumers (c ∷ cs) [] g h = absurd g
grown-consumers (c ∷ cs) (d ∷ ds) g h = (g.0.2 h.0, grown-consumers cs ds g.1 h.1)

pub grown-named :
    {H : Type 0} (queue name : Text) (cs ds : List (Consumer H))
    → AreGrown cs ds
    → any (is_named queue name) ds ≡ any (is_named queue name) cs
grown-named queue name [] [] g = refl
grown-named queue name [] (d ∷ ds) g = absurd g
grown-named queue name (c ∷ cs) [] g = absurd g
grown-named queue name (c ∷ cs) (d ∷ ds) g =
    ground (arith, g.0.0, g.0.1, grown-named queue name cs ds g.1)

pub grown-distinct :
    {H : Type 0} (cs ds : List (Consumer H)) → AreGrown cs ds → AreDistinct cs → AreDistinct ds
grown-distinct [] [] g h = tt
grown-distinct [] (d ∷ ds) g h = absurd g
grown-distinct (c ∷ cs) [] g h = absurd g
grown-distinct (c ∷ cs) (d ∷ ds) g h =
    (rw (g.0.0, g.0.1) (grown-named c.queue c.name cs ds g.1 ∙ h.0), grown-distinct cs ds g.1 h.1)

pub grown-handles :
    {H : Type 0} (queue typ : Text) (cs ds : List (Consumer H))
    → AreGrown cs ds
    → any (handles queue typ) cs ≡ true
    → any (handles queue typ) ds ≡ true
grown-handles queue typ [] [] g h = h
grown-handles queue typ [] (d ∷ ds) g h = absurd g
grown-handles queue typ (c ∷ cs) [] g h = absurd g
grown-handles queue typ (c ∷ cs) (d ∷ ds) g h =
    ground (arith, g.0.3 queue typ, grown-handles queue typ cs ds g.1)

pub grown-IsWorker :
    {H : Type 0} (w : Worker H) (ds : List (Consumer H))
    → AreGrown w.consumers ds
    → IsWorker w
    → IsWorker (record w { consumers = ds })
grown-IsWorker w ds g v = record {
  consumers_valid = grown-consumers w.consumers ds g v.consumers_valid;
  consumers_distinct = grown-distinct w.consumers ds g v.consumers_distinct;
  schedules_valid =
      All-map (IsSchedule w.consumers) (IsSchedule ds) w.schedules
        (λ s is. record {
          handled = grown-handles s.queue s.typ w.consumers ds g is.handled;
          long_enough = is.long_enough;
          within = is.within;
        })
        v.schedules_valid;
  types_distinct = v.types_distinct;
}
