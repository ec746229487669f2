-- ===== src/Queue/Lead/Examples.antt =====
-- A worker takes the lock, drains and stops, and the next one takes over.
use yet_another_go_boilerpla.Base.{ℕ, suc, ◌<◌, ◌≡◌, refl, inl, some, arith}
use yet_another_go_boilerpla.Queue.Lead.System.{
  cancel, check_passes, acquire, grant, lead, finish_ticks, leave, drained, unlock, System, runs,
  locks, leads, drains, Reach, opening, later,
}
use yet_another_go_boilerpla.Queue.Lead.Invariant.{lock}
use yet_another_go_boilerpla.Queue.Lead.Exclusion.{IsLive, reach-exclusion}

suc_positive : (n : ℕ) → 0 < suc n
suc_positive n = omega arith

-- Process 0 with one consumer leads, and stops; worker 1 leads then.
take_over : (s : System) × Reach 1 s × (0 < (s.workers 1).running) × IsLive s 1
take_over = (
  _,
  later
      (later
        (later
          (later
            (later
              (later
                (later
                  (later
                    (later
                      (later
                        (later
                          (later
                            (later (later opening (runs 0 (check_passes refl)))
                              (locks 0 (acquire refl refl)))
                            (locks 0 (grant 0 refl refl refl)))
                          (leads 0 (lead 0 refl)))
                        (runs 1 (check_passes refl)))
                      (runs 0 cancel))
                    (leads 0 (finish_ticks 0 refl refl)))
                  (leads 0 (leave 0 1 (inl refl) refl)))
                (leads 0 (leave 0 0 (inl refl) refl)))
              (drains 0 (drained 0 refl refl)))
            (locks 0 (unlock 0 refl refl)))
          (locks 1 (acquire refl refl)))
        (locks 1 (grant 1 refl refl refl)))
      (leads 1 (lead 1 refl)),
  suc_positive 1,
  λ c e. refl,
)

reach-exclusion_example :
    (◌≡◌ {A = ℕ} 1 1)
    × (c : ℕ) × (lock (take_over.0.workers 1).phase ≡ some c)
    × (take_over.0.server.holder ≡ some c)
reach-exclusion_example =
    reach-exclusion 1 take_over.0 1 1 take_over.1 take_over.2 take_over.2 take_over.3 take_over.3
