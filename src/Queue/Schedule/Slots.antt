-- ===== src/Queue/Schedule/Slots.antt =====
-- The slots of the schedules: where they lie, and that each is sent once.
use yet_another_go_boilerpla.Base.{
  ℕ, ◌+◌, ◌-◌, ◌*◌, ◌/◌, ◌≤◌, ◌<◌, ◌≡◌, refl, ◌⊎◌, inl, inr, Bool, true, false, Option, none, some,
  List, [], ◌∷◌, Outcome, ok, arith, Text, Dict, eq_text, eq_text→eq, lookup, insert,
  lookup-insert_self, lookup-insert_ne, Bool-cases,
}
use yet_another_go_boilerpla.Queue.Sql.World.{PgQue, Tables, Error, World}
use yet_another_go_boilerpla.Queue.Schedule.Defs.{Schedule, slot_at, claims, send_slot}

-- The slot of a schedule at a time is the last time of the form `k * every + offset` up to then.
pub slot_at_lem :
    (s : Schedule) (now : ℕ)
    → 0 < s.every
    → s.offset ≤ now
    → (slot_at s now ≤ now)
      × (now < slot_at s now + s.every)
      × ((k : ℕ) × (slot_at s now ≡ k * s.every + s.offset))
unfolding slot_at
slot_at_lem s now pos le = (grind arith, grind arith, ((now - s.offset) / s.every, refl))

-- The table job_schedules has reached a slot of a type.
abbrev pub HasReached : Text → ℕ → Option ℕ → Type 0
HasReached typ slot none = ⊥
HasReached typ slot (some last) = slot ≤ last

reached-insert :
    (typ k : Text) (slot later : ℕ) (m : Dict ℕ)
    → claims (lookup k m) later ≡ true
    → HasReached typ slot (lookup typ m)
    → HasReached typ slot (lookup typ (insert k later m))
reached-insert typ k slot later m c h = elim (Bool-cases (eq_text k typ)) [
  | inl e ↦ ground (arith, eq_text→eq k typ e, lookup-insert_self k later m)
  | inr e ↦ rw (lookup-insert_ne k typ later m e) h
]

reached_unclaimed :
    (slot due : ℕ) (o : Option ℕ) → HasReached [] slot o → due ≤ slot → claims o due ≡ false
reached_unclaimed slot due none h le = absurd h
reached_unclaimed slot due (some last) h le = ground arith

-- A call of sendSlot by some worker.
pub record Call : Type 0 where
  pub queue : Text
  pub typ : Text
  pub slot : ℕ
  pub payload : Text

module _ (pg : PgQue) where
  open pg use {State}

  -- The tables after the message of a slot is sent.
  abbrev pub sent : Call → Tables State → Tables State
  sent c t = record t {
    queue = (pg.send t.queue c.queue c.typ c.payload).0;
    slots = insert c.typ c.slot t.slots;
  }

  abbrev pub call : Call → World State → Outcome Error Bool × World State
  call c w = send_slot pg c.queue c.typ c.slot c.payload w

  -- Whatever happens to its statement, sendSlot changes nothing, or it sends one message and stores
  -- the slot, which is then later than the stored slot of the type; and it reports true only then.
  pub send_slot_lem :
      (c : Call) (w : World State)
      → let (r, w') = call c w in
        ((w'.tables ≡ w.tables)
          ⊎ ((w'.tables ≡ sent c w.tables) × (claims (lookup c.typ w.tables.slots) c.slot ≡ true)))
        × (r ≡ ok true → w'.tables ≡ sent c w.tables)
  unfolding send_slot
  send_slot_lem c w = ground arith

  pub calls : List Call → World State → World State
  calls [] w = w
  calls (c ∷ cs) w = calls cs (call c w).1

  reached-call :
      (typ : Text) (slot : ℕ) (c : Call) (w : World State)
      → HasReached typ slot (lookup typ w.tables.slots)
      → HasReached typ slot (lookup typ (call c w).1.tables.slots)
  reached-call typ slot c w h = elim (send_slot_lem c w).0 [
    | inl same ↦ rw same h
    | inr (new, claimed) ↦ rw new (reached-insert typ c.typ slot c.slot w.tables.slots claimed h)
  ]

  reached-calls :
      (typ : Text) (slot : ℕ) (cs : List Call) (w : World State)
      → HasReached typ slot (lookup typ w.tables.slots)
      → HasReached typ slot (lookup typ (calls cs w).tables.slots)
  unfolding calls
  reached-calls typ slot [] w h = h
  reached-calls typ slot (c ∷ cs) w h =
      reached-calls typ slot cs (call c w).1 (reached-call typ slot c w h)

  unclaimed-call :
      (c : Call) (w : World State)
      → claims (lookup c.typ w.tables.slots) c.slot ≡ false
      → (call c w).1.tables ≡ w.tables
  unfolding send_slot
  unclaimed-call c w h = ground arith

  -- Once a call of sendSlot has sent the message of a slot, also if its answer was lost, no later
  -- call for the same type and the same or an earlier slot changes anything, whatever calls of any
  -- workers stand in between and whatever happens to their statements.
  pub send_slot_once :
      (c d : Call) (cs : List Call) (w : World State)
      → (call c w).1.tables ≡ sent c w.tables
      → d.typ ≡ c.typ
      → d.slot ≤ c.slot
      → let w' = calls cs (call c w).1 in (call d w').1.tables ≡ w'.tables
  send_slot_once c d cs w first same le =
      let w' = calls cs (call c w).1 in
      let stored : HasReached c.typ c.slot (lookup c.typ (call c w).1.tables.slots) =
        rw (first, lookup-insert_self c.typ c.slot w.tables.slots) (omega arith) in
      let reached = reached-calls c.typ c.slot cs (call c w).1 stored in
      unclaimed-call d w'
        (rw same (reached_unclaimed c.slot d.slot (lookup c.typ w'.tables.slots) reached le))
