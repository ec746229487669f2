-- ===== src/Queue/Lead/Invariant.antt =====
-- internal/platform/queue: which worker has which connection, and which connection the lock.
use yet_another_go_boilerpla.Base.{
  ℕ, ◌<◌, ◌≡◌, sym, subst, inl, inr, Bool, true, false, Option, none, some, ◌==◌, ==_iff,
  Bool-cases, arith,
}
use yet_another_go_boilerpla.Queue.Lead.System.{
  Phase, checking, idle, stopped, asking, granted, leading, draining, unlocking, closing, Process,
  System, with_process,
}

-- The connection of a phase.
abbrev pub conn : Phase → Option ℕ
conn checking = none
conn idle = none
conn stopped = none
conn (asking c) = some c
conn (granted c) = some c
conn (leading c) = some c
conn (draining c) = some c
conn (unlocking c) = some c
conn (closing c) = some c

-- The connection to which the server granted the lock.
abbrev pub lock : Phase → Option ℕ
lock checking = none
lock idle = none
lock stopped = none
lock (asking c) = none
lock (granted c) = some c
lock (leading c) = some c
lock (draining c) = some c
lock (unlocking c) = some c
lock (closing c) = none

abbrev pub works : Phase → Bool
works (leading c) = true
works (draining c) = true
works checking = false
works idle = false
works stopped = false
works (asking c) = false
works (granted c) = false
works (unlocking c) = false
works (closing c) = false

pub record Inv (s : System) : Type 0 where
  -- each connection came from Acquire, and is that of one worker
  pub fresh : (i c : ℕ) → conn (s.workers i).phase ≡ some c → c < s.server.next
  pub apart :
      (i j c : ℕ) → conn (s.workers i).phase ≡ some c → conn (s.workers j).phase ≡ some c → i ≡ j
  -- a lock of a session that has not ended is held
  pub held :
      (i c : ℕ)
      → lock (s.workers i).phase ≡ some c
      → s.server.ended c ≡ false
      → s.server.holder ≡ some c
  -- goroutines run in tickLoop and drain only
  pub working : (i : ℕ) → 0 < (s.workers i).running → works (s.workers i).phase ≡ true

pub lock-conn : (p : Phase) (c : ℕ) → lock p ≡ some c → conn p ≡ some c
lock-conn checking c h = absurd (ground (arith, h))
lock-conn idle c h = absurd (ground (arith, h))
lock-conn stopped c h = absurd (ground (arith, h))
lock-conn (asking d) c h = absurd (ground (arith, h))
lock-conn (granted d) c h = h
lock-conn (leading d) c h = h
lock-conn (draining d) c h = h
lock-conn (unlocking d) c h = h
lock-conn (closing d) c h = absurd (ground (arith, h))

-- What holds of the changed worker, and of every other one, holds of each.
pub update_all :
    (P : ℕ → Process → Type 0) (ws : ℕ → Process) (i : ℕ) (w : Process)
    → P i w
    → ((j : ℕ) → (j == i) ≡ false → P j (ws j))
    → (j : ℕ) → P j (with_process ws i w j)
update_all P ws i w new old j = elim (Bool-cases (j == i)) [
  | inl e ↦ rw e (subst (λ k. P k w) (sym ((==_iff j i).0 e)) new)
  | inr e ↦ rw e (old j e)
]

-- A step of a worker that takes no connection and no lock, and starts no goroutine outside of
-- tickLoop and drain.
pub record Local (old new : Process) : Type 0 where
  pub same_conn : (c : ℕ) → conn new.phase ≡ some c → conn old.phase ≡ some c
  pub same_lock : (c : ℕ) → lock new.phase ≡ some c → lock old.phase ≡ some c
  pub in_lead :
      (0 < old.running → works old.phase ≡ true) → 0 < new.running → works new.phase ≡ true

module _ {s : System} (inv : Inv s) (i : ℕ) (w : Process) where
  pub conn-with_process :
      ((c : ℕ) → conn w.phase ≡ some c → conn (s.workers i).phase ≡ some c)
      → (j c : ℕ) → conn (with_process s.workers i w j).phase ≡ some c
      → conn (s.workers j).phase ≡ some c
  conn-with_process same =
      update_all (λ j v. (c : ℕ) → conn v.phase ≡ some c → conn (s.workers j).phase ≡ some c)
        s.workers i w same λ j ne c e. e

  pub Local-Inv :
      Local (s.workers i) w
      → Inv (record { server = s.server; workers = with_process s.workers i w })
  Local-Inv local = record {
    fresh = λ j c e. inv.fresh j c (conn-with_process local.same_conn j c e);
    apart = λ j k c e f.
        inv.apart j k c (conn-with_process local.same_conn j c e)
          (conn-with_process local.same_conn k c f);
    held =
        update_all
          (λ j v.
            (c : ℕ) → lock v.phase ≡ some c → s.server.ended c ≡ false → s.server.holder ≡ some c)
          s.workers i w (λ c e. inv.held i c (local.same_lock c e)) λ j ne. inv.held j;
    working =
        update_all (λ j v. 0 < v.running → works v.phase ≡ true) s.workers i w
          (local.in_lead (inv.working i)) λ j ne. inv.working j;
  }

pub none_of : {A : Type 0} {c : ℕ} → none ≡ some c → A
none_of h = absurd (ground (arith, h))
