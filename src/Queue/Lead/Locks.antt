-- ===== src/Queue/Lead/Locks.antt =====
-- internal/platform/queue/postgres.go: the steps of tryLock and unlock, and the ends of sessions, keep the
-- invariant of the leadership.
use yet_another_go_boilerpla.Base.{
  ℕ, suc, ◌<◌, ◌≡◌, refl, sym, ◌∙◌, inl, inr, Bool, true, false, Option, none, some, ◌==◌,
  Bool-cases, if◌then◌else◌, arith,
}
use yet_another_go_boilerpla.Queue.Lead.System.{
  idle, asking, granted, unlocking, Process, free, end_session, System, with_process,
}
use yet_another_go_boilerpla.Queue.Lead.Invariant.{
  conn, lock, works, Inv, lock-conn, update_all, conn-with_process, none_of,
}

-- The lock of a changed worker, where another one cannot hold the same.
module _ {s : System} (inv : Inv s) (i : ℕ) (w : Process) where
  quiet_in :
      works (s.workers i).phase ≡ false
      → w.running ≡ (s.workers i).running
      → 0 < w.running
      → works w.phase ≡ true
  quiet_in quiet same r = absurd (ground (arith, quiet, inv.working i (rw (← same) r)))

  -- Two workers with one connection are one, if the changed one has it from before or from `next`.
  apart-with_process :
      ((c j : ℕ) → (j == i) ≡ false → conn w.phase ≡ some c → conn (s.workers j).phase ≡ some c → ⊥)
      → (j k c : ℕ) → conn (with_process s.workers i w j).phase ≡ some c
      → conn (with_process s.workers i w k).phase ≡ some c
      → j ≡ k
  apart-with_process new =
      update_all
        (λ j v.
          (k c : ℕ)
          → conn v.phase ≡ some c
          → conn (with_process s.workers i w k).phase ≡ some c
          → j ≡ k)
        s.workers i w
        (update_all (λ k v. (c : ℕ) → conn w.phase ≡ some c → conn v.phase ≡ some c → i ≡ k)
          s.workers i w (λ c e f. refl) λ k ne c e f. absurd (new c k ne e f))
        λ j ne.
          update_all
            (λ k v. (c : ℕ) → conn (s.workers j).phase ≡ some c → conn v.phase ≡ some c → j ≡ k)
            s.workers i w (λ c e f. absurd (new c j ne f e)) λ k other. inv.apart j k

  pub acquire-Inv :
      (s.workers i).phase ≡ idle
      → w.phase ≡ asking s.server.next
      → w.running ≡ (s.workers i).running
      → Inv (record {
        server = record s.server { next = suc s.server.next };
        workers = with_process s.workers i w;
      })
  acquire-Inv was now same = record {
    fresh =
        update_all (λ j v. (c : ℕ) → conn v.phase ≡ some c → c < suc s.server.next) s.workers i w
          (λ c e. let at : some s.server.next ≡ some c = rw now at e in ground (arith, at))
          λ j ne c e. omega (arith, inv.fresh j c e);
    apart = apart-with_process λ c j ne e f.
        let at : some s.server.next ≡ some c = rw now at e in
        let old = inv.fresh j c f in ground (arith, at, old);
    held =
        update_all
          (λ j v.
            (c : ℕ) → lock v.phase ≡ some c → s.server.ended c ≡ false → s.server.holder ≡ some c)
          s.workers i w (λ c e. none_of (rw now at e)) λ j ne. inv.held j;
    working =
        update_all (λ j v. 0 < v.running → works v.phase ≡ true) s.workers i w
          (quiet_in (rw was refl) same) λ j ne. inv.working j;
  }

  pub grant-Inv :
      (c : ℕ)
      → (s.workers i).phase ≡ asking c
      → s.server.holder ≡ none
      → w.phase ≡ granted c
      → w.running ≡ (s.workers i).running
      → Inv (record {
        server = record s.server { holder = some c };
        workers = with_process s.workers i w;
      })
  grant-Inv c was empty now same = record {
    fresh = λ j d e. inv.fresh j d (conn-with_process inv i w (λ d e. rw was (rw now at e)) j d e);
    apart = λ j k d e f.
        let before = conn-with_process inv i w (λ d e. rw was (rw now at e)) in
        inv.apart j k d (before j d e) (before k d f);
    held =
        update_all
          (λ j v. (d : ℕ) → lock v.phase ≡ some d → s.server.ended d ≡ false → some c ≡ some d)
          s.workers i w (λ d e live. rw now at e)
          λ j ne d e live. none_of (sym empty ∙ inv.held j d e live);
    working =
        update_all (λ j v. 0 < v.running → works v.phase ≡ true) s.workers i w
          (quiet_in (rw was refl) same) λ j ne. inv.working j;
  }

  pub unlock-Inv :
      (c : ℕ)
      → (s.workers i).phase ≡ unlocking c
      → s.server.holder ≡ some c
      → ((d : ℕ) → conn w.phase ≡ some d → some c ≡ some d)
      → lock w.phase ≡ none
      → w.running ≡ (s.workers i).running
      → Inv (record {
        server = record s.server { holder = none };
        workers = with_process s.workers i w;
      })
  unlock-Inv c was holds same_conn no_lock same = record {
    fresh =
        λ j d e. inv.fresh j d (conn-with_process inv i w (λ d e. rw was (same_conn d e)) j d e);
    apart = λ j k d e f.
        let before = conn-with_process inv i w (λ d e. rw was (same_conn d e)) in
        inv.apart j k d (before j d e) (before k d f);
    held =
        update_all
          (λ j v. (d : ℕ) → lock v.phase ≡ some d → s.server.ended d ≡ false → none ≡ some d)
          s.workers i w (λ d e live. none_of (sym no_lock ∙ e))
          λ j ne d e live.
            let one : some c ≡ some d = sym holds ∙ inv.held j d e live in
            let equal = inv.apart j i d (lock-conn _ d e) (rw was one) in
            absurd (ground (arith, ne, equal));
    working =
        update_all (λ j v. 0 < v.running → works v.phase ≡ true) s.workers i w
          (quiet_in (rw was refl) same) λ j ne. inv.working j;
  }

still_held :
    (c d : ℕ) (holder : Option ℕ) (ended : Bool)
    → (if d == c then true else ended) ≡ false
    → (ended ≡ false → holder ≡ some d)
    → free holder c ≡ some d
still_held c d holder ended live held = elim (Bool-cases (d == c)) [
  | inl e ↦ absurd (ground (arith, e, live))
  | inr e ↦ ground (arith, e, held (rw e at live))
]

pub drop-Inv :
    {s : System} (inv : Inv s) (c : ℕ) → Inv (record s { server = end_session c s.server })
drop-Inv {s} inv c = record {
  fresh = inv.fresh;
  apart = inv.apart;
  held = λ i d e live. still_held c d s.server.holder (s.server.ended d) live (inv.held i d e);
  working = inv.working;
}
