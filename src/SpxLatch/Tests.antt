-- ===== src/SpxLatch/Tests.antt =====
-- Two threads at a latch.
use numstore.Prelude.{[], ◌∷◌, some, ◌≡◌, refl, arith}
use numstore.SpxLatch.{
  out, exclusive, s_load, x_load, drain_load, x_swap, drain_swap, lock_s, lock_x, go, act, load,
  swap, x_lock,
}
use numstore.SpxLatch.Threads.{s_of, x_of}
use numstore.SpxLatch.Safety.{
  steps, Reach, start, later, spx_latch_init, spx_latch-exclusion, spx_latch-progress,
}

-- Thread 0 has set the pending bit.
one_waits : Reach (spx_latch_init 2) (record { word = 2147483648; threads = drain_load ∷ out ∷ [] })
unfolding act load swap
one_waits =
    later
      (later (later start (steps 0 lock_x out x_load 0 refl refl))
        (steps 0 go x_load (x_swap 0) 0 refl refl))
      (steps 0 go (x_swap 0) drain_load 2147483648 refl refl)

-- Thread 0 holds the latch exclusively, and thread 1 wants it shared.
one_holds : Reach (spx_latch_init 2) (record { word = x_lock; threads = exclusive ∷ s_load ∷ [] })
unfolding act load swap
one_holds =
    later
      (later (later one_waits (steps 0 go drain_load (drain_swap 2147483648) 2147483648 refl refl))
        (steps 0 go (drain_swap 2147483648) exclusive x_lock refl refl))
      (steps 1 lock_s out s_load x_lock refl refl)

spx_latch-exclusion_example : (x_of s_load ≡ 0) × (s_of s_load ≡ 0)
spx_latch-exclusion_example =
    spx_latch-exclusion 2 0 1 exclusive s_load (omega arith) one_holds (omega arith) refl refl refl

spx_latch-progress_example :
    (act go drain_load 2147483648 ≡ some (2147483648, drain_swap 2147483648))
    × (act go (drain_swap 2147483648) 2147483648 ≡ some (x_lock, exclusive))
    × (act go s_load 2147483648 ≡ some (2147483648, s_load))
spx_latch-progress_example = spx_latch-progress 2 0 (omega arith) one_waits refl refl
