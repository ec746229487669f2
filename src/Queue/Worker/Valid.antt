-- ===== src/Queue/Worker/Valid.antt =====
-- What holds of a worker after its registrations (worker.go), and the calls of Consumer and Schedule.
use yet_another_go_boilerpla.Base.{
  ℕ, ◌≤◌, ◌<◌, ◌≡◌, refl, inl, inr, ℤ, pos, negsuc, true, false, not, ◌||◌, List, [], ◌∷◌, ◌++◌,
  ltb, leb, arith, any, All, Text, eq_text, IsMap, Bool-cases, Holds, All-snoc, any-snoc, All-map,
  eq_text_comm,
}
use yet_another_go_boilerpla.Queue.Names.Defs.{valid_name}
use yet_another_go_boilerpla.Queue.Batch.Run.{Registration, Consumer}
use yet_another_go_boilerpla.Queue.Schedule.Defs.{Schedule}
use yet_another_go_boilerpla.Queue.Worker.Defs.{
  minute, Worker, is_named, consumer, handles, add_schedule, schedule,
}

abbrev pub IsHandler : {H : Type 0} → Text × Registration H → Type 0
IsHandler (typ, r) = (valid_name typ ≡ true) × (0 < r.timeout)

pub record IsConsumer {H : Type 0} (c : Consumer H) : Type 0 where
  pub valid_queue : valid_name c.queue ≡ true
  pub valid_consumer : valid_name c.name ≡ true
  pub distinct : IsMap c.handlers
  pub handlers_valid : All IsHandler c.handlers

-- No two consumers have the same queue and name.
abbrev pub AreDistinct : {H : Type 0} → List (Consumer H) → Type 0
AreDistinct [] = Unit
AreDistinct (c ∷ cs) = (any (is_named c.queue c.name) cs ≡ false) × AreDistinct cs

pub record IsSchedule {H : Type 0} (cs : List (Consumer H)) (s : Schedule) : Type 0 where
  pub handled : any (handles s.queue s.typ) cs ≡ true
  pub long_enough : minute ≤ s.every
  pub within : s.offset < s.every

abbrev pub AreDistinctTypes : List Schedule → Type 0
AreDistinctTypes [] = Unit
AreDistinctTypes (s ∷ ss) = (any (λ r. eq_text r.typ s.typ) ss ≡ false) × AreDistinctTypes ss

pub record IsWorker {H : Type 0} (w : Worker H) : Type 0 where
  pub consumers_valid : All IsConsumer w.consumers
  pub consumers_distinct : AreDistinct w.consumers
  pub schedules_valid : All (IsSchedule w.consumers) w.schedules
  pub types_distinct : AreDistinctTypes w.schedules

pub distinct-snoc :
    {H : Type 0} (cs : List (Consumer H)) (new : Consumer H)
    → AreDistinct cs
    → any (is_named new.queue new.name) cs ≡ false
    → AreDistinct (cs ++ new ∷ [])
distinct-snoc [] new d h = (refl, tt)
distinct-snoc (c ∷ cs) new d h =
    let rest = distinct-snoc cs new d.1 in
    let snoc = any-snoc (is_named c.queue c.name) cs new in
    ground (arith, rest, snoc, eq_text_comm c.queue new.queue, eq_text_comm c.name new.name)

pub handles-snoc :
    {H : Type 0} (queue typ : Text) (cs : List (Consumer H)) (new : Consumer H)
    → any (handles queue typ) cs ≡ true
    → any (handles queue typ) (cs ++ new ∷ []) ≡ true
handles-snoc queue typ cs new h = rw (any-snoc (handles queue typ) cs new, h)

pub schedule-snoc :
    {H : Type 0} (cs : List (Consumer H)) (new : Consumer H) (s : Schedule)
    → IsSchedule cs s
    → IsSchedule (cs ++ new ∷ []) s
schedule-snoc cs new s v = record {
  handled = handles-snoc s.queue s.typ cs new v.handled;
  long_enough = v.long_enough;
  within = v.within;
}

pub add_consumer :
    {H : Type 0} (w : Worker H) (new : Consumer H)
    → IsWorker w
    → IsConsumer new
    → any (is_named new.queue new.name) w.consumers ≡ false
    → IsWorker (record w { consumers = w.consumers ++ new ∷ [] })
add_consumer w new v c h = record {
  consumers_valid = All-snoc IsConsumer w.consumers v.consumers_valid c;
  consumers_distinct = distinct-snoc w.consumers new v.consumers_distinct h;
  schedules_valid =
      All-map (IsSchedule w.consumers) (IsSchedule (w.consumers ++ new ∷ [])) w.schedules
        (schedule-snoc w.consumers new) v.schedules_valid;
  types_distinct = v.types_distinct;
}

pub consumer-IsWorker :
    {H : Type 0} (queue name : Text) (w : Worker H)
    → IsWorker w
    → Holds IsWorker (consumer queue name w)
unfolding consumer
consumer-IsWorker queue name w v =
    elim (Bool-cases (not (valid_name queue) || not (valid_name name))) [
      | inl bad ↦ rw bad tt
      | inr good ↦ elim (Bool-cases (any (is_named queue name) w.consumers)) [
        | inl second ↦ rw (good, second) tt
        | inr first ↦
            let new : IsConsumer (record { queue = queue; name = name; handlers = [] }) = record {
              valid_queue = ground arith;
              valid_consumer = ground arith;
              distinct = tt;
              handlers_valid = tt;
            } in
            rw (good, first) (add_consumer w _ v new first)
      ]
    ]

pub types-snoc :
    (ss : List Schedule) (new : Schedule)
    → AreDistinctTypes ss
    → any (λ s. eq_text s.typ new.typ) ss ≡ false
    → AreDistinctTypes (ss ++ new ∷ [])
types-snoc [] new d h = (refl, tt)
types-snoc (s ∷ ss) new d h =
    let snoc = any-snoc (λ (r : Schedule). eq_text r.typ s.typ) ss new in
    ground (arith, types-snoc ss new d.1, snoc, eq_text_comm s.typ new.typ)

pub add_schedule-IsWorker :
    {H : Type 0} (queue typ : Text) (every : ℕ) (offset : ℤ) (w : Worker H)
    → IsWorker w
    → any (handles queue typ) w.consumers ≡ true
    → Holds IsWorker (add_schedule queue typ every offset w)
add_schedule-IsWorker queue typ every (negsuc n) w v h = tt
add_schedule-IsWorker queue typ every (pos offset) w v h =
    elim (Bool-cases (ltb every minute || leb every offset)) [
      | inl bad ↦ rw bad tt
      | inr good ↦ elim (Bool-cases (any (λ s. eq_text s.typ typ) w.schedules)) [
        | inl second ↦ rw (good, second) tt
        | inr first ↦
            let new : Schedule = record {
              queue = queue;
              typ = typ;
              every = every;
              offset = offset;
              last = 0;
            } in
            let valid : IsSchedule w.consumers new = record {
              handled = h;
              long_enough = ground arith;
              within = ground arith;
            } in
            rw (good, first)
              (record {
                consumers_valid = v.consumers_valid;
                consumers_distinct = v.consumers_distinct;
                schedules_valid =
                    All-snoc (IsSchedule w.consumers) w.schedules v.schedules_valid valid;
                types_distinct = types-snoc w.schedules new v.types_distinct first;
              })
      ]
    ]

pub schedule-IsWorker :
    {H : Type 0} (queue typ : Text) (every : ℕ) (offset : ℤ) (w : Worker H)
    → IsWorker w
    → Holds IsWorker (schedule queue typ every offset w)
unfolding schedule
schedule-IsWorker queue typ every offset w v =
    elim (Bool-cases (any (handles queue typ) w.consumers)) [
      | inl h ↦ rw h (add_schedule-IsWorker queue typ every offset w v h)
      | inr h ↦ rw h tt
    ]
