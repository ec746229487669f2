-- ===== src/Queue/Lead/System.antt =====
-- internal/platform/queue: Run (worker.go), lead, tickLoop and drain (worker_lead.go), tryLock, unlock
-- and closeConn (postgres.go), as the steps of several workers on one database. A goroutine of a worker
-- is its maintenance or a consumer. A connection is numbered by its Acquire; the server can end its
-- session at any time, and drops its lock then. Waiting and the steps without a change are left out.
use yet_another_go_boilerpla.Base.{
  ℕ, suc, ◌+◌, ◌<◌, ◌≡◌, ◌⊎◌, Bool, true, false, Option, none, some, ◌==◌, if◌then◌else◌,
}

-- The server's side: the connection that holds the worker lock, the ended sessions, and the number of
-- the next connection.
pub record Server : Type 0 where
  pub holder : Option ℕ
  pub ended : ℕ → Bool
  pub next : ℕ

-- Where the code of Run stands.
pub data Phase : Type 0 where
  -- in waitForCheck; at the head of the loop; after its end
  checking idle stopped : Phase
  -- in tryLock: before and after the server granted the lock to the connection
  asking granted : ℕ → Phase
  -- in tickLoop, in drain, in unlock, in closeConn
  leading draining unlocking closing : ℕ → Phase

pub record Process : Type 0 where
  pub phase : Phase
  -- ctx has ended
  pub ending : Bool
  -- handlerCtx has ended
  pub told : Bool
  -- the goroutines of the current lead, and those that drain gave up
  pub running : ℕ
  pub strays : ℕ

abbrev new_process : Process
new_process = record { phase = checking; ending = false; told = false; running = 0; strays = 0 }

abbrev pub free : Option ℕ → ℕ → Option ℕ
free none c = none
free (some d) c = if d == c then none else some d

abbrev pub end_session : ℕ → Server → Server
end_session c s = record s {
  holder = free s.holder c;
  ended = λ d. if d == c then true else s.ended d;
}

-- Run, waitForCheck, and the end of the context of a worker.
pub data RunMove (w : Process) : Process → Type 0 where
  -- the end of ctx
  cancel : RunMove w (record w { ending = true })
  -- waitForCheck
  check_passes : w.phase ≡ checking → RunMove w (record w { phase = idle })
  -- waitForCheck returns an error, or ctx has ended
  check_fails : w.phase ≡ checking → RunMove w (record w { phase = stopped })
  -- the test of the loop of Run
  stop : w.phase ≡ idle → w.ending ≡ true → RunMove w (record w { phase = stopped })

-- tryLock, unlock and closeConn, and what they do to the server.
pub data LockMove (s : Server) (w : Process) : Server → Process → Type 0 where
  -- tryLock: Acquire, and the query with its outcomes
  acquire :
      w.phase ≡ idle
      → w.ending ≡ false
      → LockMove s w (record s { next = suc s.next }) (record w { phase = asking s.next })
  grant :
      (c : ℕ)
      → w.phase ≡ asking c
      → s.holder ≡ none
      → s.ended c ≡ false
      → LockMove s w (record s { holder = some c }) (record w { phase = granted c })
  refuse :
      (c d : ℕ)
      → w.phase ≡ asking c
      → s.holder ≡ some d
      → LockMove s w s (record w { phase = idle })
  lock_fails :
      (c : ℕ)
      → (w.phase ≡ asking c) ⊎ (w.phase ≡ granted c)
      → LockMove s w s (record w { phase = closing c })
  -- unlock: it works; it fails, whether the server unlocked or not
  unlock :
      (c : ℕ)
      → w.phase ≡ unlocking c
      → s.holder ≡ some c
      → LockMove s w (record s { holder = none }) (record w { phase = idle })
  unlock_lost :
      (c : ℕ)
      → w.phase ≡ unlocking c
      → s.holder ≡ some c
      → LockMove s w (record s { holder = none }) (record w { phase = closing c })
  unlock_fails : (c : ℕ) → w.phase ≡ unlocking c → LockMove s w s (record w { phase = closing c })
  -- closeConn returns; the server may see it later
  close : (c : ℕ) → w.phase ≡ closing c → LockMove s w s (record w { phase = idle })

-- lead and tickLoop of a worker with `consumers` consumers.
pub data LeadMove (consumers : ℕ) (w : Process) : Process → Type 0 where
  -- lead: its goroutines opening
  lead :
      (c : ℕ)
      → w.phase ≡ granted c
      → LeadMove consumers w (record w { phase = leading c; told = false; running = suc consumers })
  -- tickLoop returns: ctx has ended, or the lock connection failed
  finish_ticks :
      (c : ℕ)
      → w.phase ≡ leading c
      → w.ending ≡ true
      → LeadMove consumers w (record w { phase = draining c })
  lose :
      (c : ℕ)
      → w.phase ≡ leading c
      → LeadMove consumers w (record w { phase = draining c; told = true })
  -- a goroutine returns, once runCtx has ended; or one that drain gave up
  leave :
      (c n : ℕ)
      → (w.ending ≡ true) ⊎ (w.phase ≡ draining c)
      → w.running ≡ suc n
      → LeadMove consumers w (record w { running = n })
  leave_late : (n : ℕ) → w.strays ≡ suc n → LeadMove consumers w (record w { strays = n })

-- drain
pub data DrainMove (w : Process) : Process → Type 0 where
  -- all goroutines returned; the grace period ends; the hard limit ends
  drained :
      (c : ℕ)
      → w.phase ≡ draining c
      → w.running ≡ 0
      → DrainMove w (record w { phase = unlocking c })
  grace_ends : (c : ℕ) → w.phase ≡ draining c → DrainMove w (record w { told = true })
  abandon :
      (c : ℕ)
      → w.phase ≡ draining c
      → w.told ≡ true
      → DrainMove w (record w { phase = unlocking c; running = 0; strays = w.strays + w.running })

-- Workers on one database; each index is a process.
pub record System : Type 0 where
  pub server : Server
  pub workers : ℕ → Process

abbrev pub with_process : (ℕ → Process) → ℕ → Process → ℕ → Process
with_process ws i w j = if j == i then w else ws j

pub data Step (consumers : ℕ) (s : System) : System → Type 0 where
  runs :
      (i : ℕ) {w : Process}
      → RunMove (s.workers i) w
      → Step consumers s (record s { workers = with_process s.workers i w })
  locks :
      (i : ℕ) {t : Server} {w : Process}
      → LockMove s.server (s.workers i) t w
      → Step consumers s (record { server = t; workers = with_process s.workers i w })
  leads :
      (i : ℕ) {w : Process}
      → LeadMove consumers (s.workers i) w
      → Step consumers s (record s { workers = with_process s.workers i w })
  drains :
      (i : ℕ) {w : Process}
      → DrainMove (s.workers i) w
      → Step consumers s (record s { workers = with_process s.workers i w })
  -- a session ends: after closeConn, in a crash, or when the network fails
  drop :
      (c : ℕ) → c < s.server.next → Step consumers s (record s { server = end_session c s.server })

abbrev pub initial : System
initial = record {
  server = record { holder = none; ended = λ c. false; next = 0 };
  workers = λ i. new_process;
}

pub data Reach (consumers : ℕ) : System → Type 0 where
  opening : Reach consumers initial
  later : {s t : System} → Reach consumers s → Step consumers s t → Reach consumers t
