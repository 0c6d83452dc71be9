-- ===== src/GrLock/Tests.antt =====
-- Runs of the granular lock, and the properties at concrete states.
use numstore.Prelude.{◌+◌, ◌<◌, true, [], ◌≡◌, refl, arith, ◌-◌}
use numstore.GrLock.{
  LockMode, lm_is, lm_s, lm_x, compatible, GrLock, gr_lock_init, is_compatible, compatible_from,
  change_count, gr_lock_test, gr_unlock, wake_waiters, woken,
}
use numstore.GrLock.Threads.{waiting, holding, System, lock, unlock, Reach, start, later}
use numstore.GrLock.Safety.{no_conflict, no_lost_wakeup}

-- Thread 0 takes S, thread 1 takes IS, thread 2 waits for X.
contended :
    (s : System) × Reach 3 s
    × (s.pc 0 ≡ holding lm_s)
    × (s.pc 1 ≡ holding lm_is)
    × (s.pc 2 ≡ waiting lm_x)
unfolding gr_lock_init gr_lock_test is_compatible compatible_from change_count
contended = (
  _,
  later
      (later (later start (lock 0 lm_s true (omega arith) refl))
        (lock 1 lm_is true (omega arith) refl))
      (lock 2 lm_x true (omega arith) refl),
  refl,
  refl,
  refl,
)

no_conflict_example : compatible lm_s lm_is ≡ true
no_conflict_example =
    no_conflict contended.1 0 1 lm_s lm_is (omega arith) (omega arith) (omega arith) contended.2
      contended.3

-- Thread 0 takes S, thread 1 waits for X, and thread 0 releases.
released :
    (s : System) × Reach 2 s
    × (s.pc 1 ≡ waiting lm_x)
    × ((k : LockMode) → 0 < s.lock.holder_counts k → compatible lm_x k ≡ true)
unfolding gr_lock_init gr_lock_test is_compatible compatible_from change_count gr_unlock
    wake_waiters woken
released = (
  _,
  later
      (later (later start (lock 0 lm_s true (omega arith) refl))
        (lock 1 lm_x true (omega arith) refl))
      (unlock 0 lm_s (omega arith) refl),
  refl,
  λ k p. no_holder k p,
)
  where
    no_holder :
        (k : LockMode)
        → 0
          < (change_count
                (λ c. c - 1)
                lm_s
                (change_count (λ c. c + 1) lm_s gr_lock_init)).holder_counts
              k
        → compatible lm_x k ≡ true
    no_holder lm_is p = ground arith
    no_holder k p = ground arith

no_lost_wakeup_example : released.0.signalled 1 ≡ true
no_lost_wakeup_example = no_lost_wakeup released.1 1 lm_x released.2 released.3

abbrev one_reader : GrLock
one_reader = record { holder_counts = λ m. elim m [ lm_is ↦ 1 | _ ↦ 0 ]; waiters = [] }
