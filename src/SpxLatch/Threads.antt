-- ===== src/SpxLatch/Threads.antt =====
-- Threads that share a latch of libs/nscore/spx_latch.c, and what one step of one of them does to the
-- numbers of threads that hold the latch or wait for it.
use numstore.Prelude.{
  ℕ, ◌+◌, ◌*◌, ◌≤◌, ◌<◌, Bool, true, false, ◌||◌, Option, some, ◌≡◌, ◌⊎◌, inl, inr, refl, arith,
  ◌==◌, Bool-cases, if◌then◌else◌, subst, ap, some_inj,
}
use numstore.SpxLatch.{
  pending_bit, is_pending, x_lock, is_exclusive, no_s_left, Pc, out, shared, exclusive, s_load,
  x_load, up_load, drain_load, s_swap, x_swap, up_swap, drain_swap, Action, lock_s, unlock_s,
  lock_x, unlock_x, upgrade, downgrade, go, fail, load, swap, retry, act,
}

-- The thread holds the latch shared.
abbrev pub s_of : Pc → ℕ
s_of shared = 1
s_of up_load = 1
s_of (up_swap _) = 1
s_of _ = 0

-- The thread has set the pending bit and waits.
abbrev pub p_of : Pc → ℕ
p_of drain_load = 1
p_of (drain_swap _) = 1
p_of _ = 0

-- The thread holds the latch exclusively.
abbrev pub x_of : Pc → ℕ
x_of exclusive = 1
x_of _ = 0

-- A value that a thread has loaded has passed the test behind the load.
abbrev pub Tested : Pc → Type 0
Tested (s_swap e) = is_pending e ≡ false
Tested (x_swap e) = is_pending e ≡ false
Tested (up_swap e) = is_pending e ≡ false
Tested (drain_swap e) = no_s_left e ≡ true
Tested _ = Unit

-- The word counts the threads: `s` hold the latch shared and `p` wait for it, or `x` hold it exclusively.
abbrev pub Counts : (w s p x : ℕ) → Type 0
Counts w s p x =
    ((x ≡ 0) × (p ≤ 1) × (w ≡ s + pending_bit * p)) ⊎ ((x ≡ 1) × (p ≡ 0) × (s ≡ 0) × (w ≡ x_lock))

s_load_case : (w : ℕ) (b x : Bool) → is_pending w ≡ b → Tested (if b || x then s_load else s_swap w)
s_load_case w true x e = tt
s_load_case w false true e = tt
s_load_case w false false e = e

load-Tested : (p : Pc) (w : ℕ) → Tested p → Tested (load p w)
unfolding load
load-Tested s_load w h = s_load_case w (is_pending w) (is_exclusive w) refl
load-Tested x_load w h = elim (Bool-cases (is_pending w)) [ inl b ↦ rw b tt | inr b ↦ rw b b ]
load-Tested up_load w h = elim (Bool-cases (is_pending w)) [ inl b ↦ rw b tt | inr b ↦ rw b b ]
load-Tested drain_load w h = elim (Bool-cases (no_s_left w)) [ inl b ↦ rw b b | inr b ↦ rw b tt ]
load-Tested p w h = h

-- One step of a thread in the place `p`, of the numbers of threads with it.
pub act-Counts :
    (a : Action) (p p' : Pc) (w w' s s' n n' x x' : ℕ)
    → act a p w ≡ some (w', p')
    → Tested p
    → Counts w s n x
    → s < 2147483647
    → s_of p ≤ s
    → p_of p ≤ n
    → x_of p ≤ x
    → s' + s_of p ≡ s + s_of p'
    → n' + p_of p ≡ n + p_of p'
    → x' + x_of p ≡ x + x_of p'
    → Counts w' s' n' x'
unfolding act load swap retry
act-Counts unlock_s shared p' w w' s s' n n' x x' e t c lt hs hn hx es en ex = ground arith
act-Counts go (s_swap v) p' w w' s s' n n' x x' e t c lt hs hn hx es en ex = ground arith
act-Counts a p p' w w' s s' n n' x x' e t c lt hs hn hx es en ex = ground arith

swap-Tested : (p : Pc) (w : ℕ) → Tested p → Tested (swap p w).1
unfolding swap
swap-Tested (s_swap v) w h = elim (Bool-cases (w == v)) [ inl b ↦ rw b tt | inr b ↦ rw b tt ]
swap-Tested (x_swap v) w h = elim (Bool-cases (w == v)) [ inl b ↦ rw b tt | inr b ↦ rw b tt ]
swap-Tested (up_swap v) w h = elim (Bool-cases (w == v)) [ inl b ↦ rw b tt | inr b ↦ rw b tt ]
swap-Tested (drain_swap v) w h = elim (Bool-cases (w == v)) [ inl b ↦ rw b tt | inr b ↦ rw b tt ]
swap-Tested p w h = h

retry-Tested : (p : Pc) → Tested p → Tested (retry p)
unfolding retry
retry-Tested (s_swap v) h = tt
retry-Tested (x_swap v) h = tt
retry-Tested (up_swap v) h = tt
retry-Tested (drain_swap v) h = tt
retry-Tested p h = h

-- A pair that is a result has its second part.
of_result :
    {w w' : ℕ} {p p' : Pc}
    → ◌≡◌ {A = Option (ℕ × Pc)} (some (w, p)) (some (w', p'))
    → Tested p
    → Tested p'
of_result e h = subst Tested (ap (λ r. r.1) (some_inj e)) h

pub act-Tested :
    (a : Action) (p p' : Pc) (w w' : ℕ) → act a p w ≡ some (w', p') → Tested p → Tested p'
unfolding act
act-Tested lock_s out p' w w' e h = of_result e tt
act-Tested lock_x out p' w w' e h = of_result e tt
act-Tested unlock_s shared p' w w' e h = of_result e tt
act-Tested upgrade shared p' w w' e h = of_result e tt
act-Tested unlock_x exclusive p' w w' e h = of_result e tt
act-Tested downgrade exclusive p' w w' e h = of_result e tt
act-Tested fail p p' w w' e h = of_result e (retry-Tested p h)
act-Tested go s_load p' w w' e h = of_result e (load-Tested s_load w h)
act-Tested go x_load p' w w' e h = of_result e (load-Tested x_load w h)
act-Tested go up_load p' w w' e h = of_result e (load-Tested up_load w h)
act-Tested go drain_load p' w w' e h = of_result e (load-Tested drain_load w h)
act-Tested go p p' w w' e h = of_result e (swap-Tested p w h)
act-Tested a p p' w w' e h = cc
