-- ===== src/Queue/Lead/Exclusion.antt =====
-- internal/platform/queue: of the workers that run handlers, one has a live worker lock.
use yet_another_go_boilerpla.Base.{
  ℕ, ◌<◌, ◌≡◌, refl, sym, ◌∙◌, inl, inr, true, false, none, some, arith,
}
use yet_another_go_boilerpla.Queue.Lead.System.{
  Server, Phase, checking, idle, stopped, asking, granted, leading, draining, unlocking, closing,
  Process, RunMove, LockMove, LeadMove, DrainMove, cancel, check_passes, check_fails, stop, acquire,
  grant, refuse, lock_fails, lead, finish_ticks, lose, leave, leave_late, drained, grace_ends,
  abandon, unlock, unlock_lost, unlock_fails, close, System, with_process, runs, locks, leads,
  drains, drop, Reach, opening, later,
}
use yet_another_go_boilerpla.Queue.Lead.Invariant.{
  conn, lock, works, Inv, lock-conn, Local, Local-Inv, none_of,
}
use yet_another_go_boilerpla.Queue.Lead.Locks.{acquire-Inv, grant-Inv, unlock-Inv, drop-Inv}

-- A worker without a connection and without goroutines.
quits-Local :
    (old new : Process)
    → conn new.phase ≡ none
    → lock new.phase ≡ none
    → works old.phase ≡ false
    → new.running ≡ old.running
    → Local old new
quits-Local old new no_conn no_lock quiet same = record {
  same_conn = λ c e. none_of (sym no_conn ∙ e);
  same_lock = λ c e. none_of (sym no_lock ∙ e);
  in_lead = λ g r. absurd (ground (arith, quiet, g (rw (← same) r)));
}

-- A worker that keeps its connection and gives up its lock, without goroutines.
closes-Local :
    (old new : Process)
    → conn new.phase ≡ conn old.phase
    → lock new.phase ≡ none
    → works old.phase ≡ false
    → new.running ≡ old.running
    → Local old new
closes-Local old new same_conn no_lock quiet same = record {
  same_conn = λ c e. sym same_conn ∙ e;
  same_lock = λ c e. none_of (sym no_lock ∙ e);
  in_lead = λ g r. absurd (ground (arith, quiet, g (rw (← same) r)));
}

-- A worker that keeps its connection and its lock.
keeps-Local :
    (old new : Process)
    → conn new.phase ≡ conn old.phase
    → lock new.phase ≡ lock old.phase
    → ((0 < old.running → works old.phase ≡ true) → 0 < new.running → works new.phase ≡ true)
    → Local old new
keeps-Local old new same_conn same_lock in_lead = record {
  same_conn = λ c e. sym same_conn ∙ e;
  same_lock = λ c e. sym same_lock ∙ e;
  in_lead = in_lead;
}

RunMove-Inv :
    {s : System} (inv : Inv s) (i : ℕ) {w : Process}
    → RunMove (s.workers i) w
    → Inv (record s { workers = with_process s.workers i w })
RunMove-Inv inv i cancel = Local-Inv inv i _ (keeps-Local _ _ refl refl λ g r. g r)
RunMove-Inv inv i (check_passes h) = Local-Inv inv i _ (quits-Local _ _ refl refl (rw h refl) refl)
RunMove-Inv inv i (check_fails h) = Local-Inv inv i _ (quits-Local _ _ refl refl (rw h refl) refl)
RunMove-Inv inv i (stop h e) = Local-Inv inv i _ (quits-Local _ _ refl refl (rw h refl) refl)

LockMove-Inv :
    {s : System} (inv : Inv s) (i : ℕ) {t : Server} {w : Process}
    → LockMove s.server (s.workers i) t w
    → Inv (record { server = t; workers = with_process s.workers i w })
LockMove-Inv inv i (acquire h e) = acquire-Inv inv i _ h refl refl
LockMove-Inv inv i (grant c h empty live) = grant-Inv inv i _ c h empty refl refl
LockMove-Inv inv i (refuse c d h e) = Local-Inv inv i _ (quits-Local _ _ refl refl (rw h refl) refl)
LockMove-Inv inv i (lock_fails c (inl h)) =
    Local-Inv inv i _ (closes-Local _ _ (rw h refl) refl (rw h refl) refl)
LockMove-Inv inv i (lock_fails c (inr h)) =
    Local-Inv inv i _ (closes-Local _ _ (rw h refl) refl (rw h refl) refl)
LockMove-Inv inv i (unlock c h e) = unlock-Inv inv i _ c h e (λ d e. none_of e) refl refl
LockMove-Inv inv i (unlock_lost c h e) = unlock-Inv inv i _ c h e (λ d e. e) refl refl
LockMove-Inv inv i (unlock_fails c h) =
    Local-Inv inv i _ (closes-Local _ _ (rw h refl) refl (rw h refl) refl)
LockMove-Inv inv i (close c h) = Local-Inv inv i _ (quits-Local _ _ refl refl (rw h refl) refl)

LeadMove-Inv :
    {n : ℕ} {s : System} (inv : Inv s) (i : ℕ) {w : Process}
    → LeadMove n (s.workers i) w
    → Inv (record s { workers = with_process s.workers i w })
LeadMove-Inv inv i (lead c h) =
    Local-Inv inv i _ (keeps-Local _ _ (rw h refl) (rw h refl) λ g r. refl)
LeadMove-Inv inv i (finish_ticks c h e) =
    Local-Inv inv i _ (keeps-Local _ _ (rw h refl) (rw h refl) λ g r. refl)
LeadMove-Inv inv i (lose c h) =
    Local-Inv inv i _ (keeps-Local _ _ (rw h refl) (rw h refl) λ g r. refl)
LeadMove-Inv inv i (leave c n h e) =
    Local-Inv inv i _ (keeps-Local _ _ refl refl λ g r. g (omega (arith, e, r)))
LeadMove-Inv inv i (leave_late n e) = Local-Inv inv i _ (keeps-Local _ _ refl refl λ g r. g r)

DrainMove-Inv :
    {s : System} (inv : Inv s) (i : ℕ) {w : Process}
    → DrainMove (s.workers i) w
    → Inv (record s { workers = with_process s.workers i w })
DrainMove-Inv inv i (drained c h e) =
    Local-Inv inv i _ (keeps-Local _ _ (rw h refl) (rw h refl) λ g r. absurd (omega (arith, e, r)))
DrainMove-Inv inv i (grace_ends c h) = Local-Inv inv i _ (keeps-Local _ _ refl refl λ g r. g r)
DrainMove-Inv inv i (abandon c h e) =
    Local-Inv inv i _ (keeps-Local _ _ (rw h refl) (rw h refl) λ g r. absurd (omega (arith, r)))

reach-Inv : {n : ℕ} {s : System} → Reach n s → Inv s
reach-Inv opening = record {
  fresh = λ i c e. none_of e;
  apart = λ i j c e f. none_of e;
  held = λ i c e live. none_of e;
  working = λ i r. absurd (omega (arith, r));
}
reach-Inv (later run (runs i step)) = RunMove-Inv (reach-Inv run) i step
reach-Inv (later run (locks i step)) = LockMove-Inv (reach-Inv run) i step
reach-Inv (later run (leads i step)) = LeadMove-Inv (reach-Inv run) i step
reach-Inv (later run (drains i step)) = DrainMove-Inv (reach-Inv run) i step
reach-Inv (later run (drop c lt)) = drop-Inv (reach-Inv run) c

works-lock : (p : Phase) → works p ≡ true → (c : ℕ) × (lock p ≡ some c)
works-lock (leading c) h = (c, refl)
works-lock (draining c) h = (c, refl)
works-lock checking h = absurd (ground (arith, h))
works-lock idle h = absurd (ground (arith, h))
works-lock stopped h = absurd (ground (arith, h))
works-lock (asking c) h = absurd (ground (arith, h))
works-lock (granted c) h = absurd (ground (arith, h))
works-lock (unlocking c) h = absurd (ground (arith, h))
works-lock (closing c) h = absurd (ground (arith, h))

-- The server sees the session of the lock of a worker.
abbrev pub IsLive : System → ℕ → Type 0
IsLive s i = (c : ℕ) → lock (s.workers i).phase ≡ some c → s.server.ended c ≡ false

-- However the steps of any workers and the ends of sessions interleave: when two workers have running
-- goroutines, those not counted that drain gave up after its hard limit, and the server has ended the
-- session of neither lock, they are one worker, and it holds the worker lock.
pub reach-exclusion :
    (n : ℕ) (s : System) (i j : ℕ)
    → Reach n s
    → 0 < (s.workers i).running
    → 0 < (s.workers j).running
    → IsLive s i
    → IsLive s j
    → (i ≡ j) × (c : ℕ) × (lock (s.workers i).phase ≡ some c) × (s.server.holder ≡ some c)
reach-exclusion n s i j run busy_i busy_j live_i live_j =
    let inv = reach-Inv run in
    let (c, ci) = works-lock _ (inv.working i busy_i) in
    let (d, dj) = works-lock _ (inv.working j busy_j) in
    let held = inv.held i c ci (live_i c ci) in
    let same : some c ≡ some d = sym held ∙ inv.held j d dj (live_j d dj) in
    (inv.apart i j d (lock-conn _ d (ci ∙ same)) (lock-conn _ d dj), c, ci, held)
