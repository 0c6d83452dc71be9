-- ===== src/GrLock/Invariant.antt =====
-- What holds between the lock of libs/nscore/gr_lock.c and the threads that use it.
use numstore.Prelude.{
  ℕ, zero, suc, ◌+◌, ◌<◌, ◌≤◌, Bool, true, false, List, [], ◌∷◌, ◌≡◌, refl, arith, if◌then◌else◌,
  ◌≢◌, ◌==◌,
}
use numstore.GrLock.{
  LockMode, lm_is, compatible, same_mode, Waiter, GrLock, is_compatible, remove_waiter, woken,
}
use numstore.GrLock.Threads.{Pc, waiting, holding, update, mark, System, holds, holders}

holders-update_out :
    (m : LockMode) (n i : ℕ) (pc : ℕ → Pc) (p : Pc)
    → n ≤ i
    → holders m n (update pc i p) ≡ holders m n pc
holders-update_out m zero i pc p h = refl
holders-update_out m (suc n) i pc p h = ground (arith, holders-update_out m n i pc p)

-- A thread that moves takes its own share of a count with it.
pub holders-update :
    (m : LockMode) (n i : ℕ) (pc : ℕ → Pc) (p : Pc)
    → i < n
    → holders m n (update pc i p) + holds m (pc i) ≡ holders m n pc + holds m p
holders-update m zero i pc p h = absurd (omega arith)
holders-update m (suc n) i pc p h =
    ground (arith, holders-update m n i pc p, holders-update_out m n i pc p)

pub holders_pos :
    (m : LockMode) (n i : ℕ) (pc : ℕ → Pc) → i < n → pc i ≡ holding m → 0 < holders m n pc
holders_pos m zero i pc h e = absurd (omega arith)
holders_pos lm_is (suc n) i pc h e = ground (arith, holders_pos lm_is n i pc)
holders_pos m (suc n) i pc h e = ground (arith, holders_pos m n i pc)

-- Whether a waiter of thread `i` with mode `m` is in the list.
abbrev pub is_listed : List Waiter → ℕ → LockMode → Bool
is_listed [] i m = false
is_listed (w ∷ ws) i m =
    if w.owner == i
    then (if same_mode w.mode m then true else is_listed ws i m)
    else is_listed ws i m

pub is_listed-remove :
    (ws : List Waiter) (i j : ℕ) (m : LockMode)
    → i ≢ j
    → is_listed (remove_waiter ws i) j m ≡ is_listed ws j m
unfolding remove_waiter
is_listed-remove [] i j m ne = refl
is_listed-remove (w ∷ ws) i j m ne = ground (arith, is_listed-remove ws i j m ne)

pub same_mode_eq : (a b : LockMode) → same_mode a b ≡ true → a ≡ b
same_mode_eq lm_is lm_is h = refl
same_mode_eq a b h = ground arith

-- A listed waiter whose mode is admitted is among those that `wake_waiters` signals.
pub mark-woken :
    (ws : List Waiter) (l : GrLock) (f : ℕ → Bool) (i : ℕ) (m : LockMode)
    → is_listed ws i m ≡ true
    → is_compatible l m ≡ true
    → mark (woken ws l) f i ≡ true
unfolding woken
mark-woken [] l f i m h c = cc
mark-woken (w ∷ ws) l f i m h c = ground (arith, mark-woken ws l f i m, same_mode_eq w.mode m)

pub record Inv (n : ℕ) (s : System) : Type 0 where
  -- Each count is the number of threads that hold the lock in its mode.
  pub counted : (m : LockMode) → s.lock.holder_counts m ≡ holders m n s.pc
  -- Two threads hold the lock in compatible modes only.
  pub apart :
      (i j : ℕ) (a b : LockMode)
      → i < n
      → j < n
      → i ≢ j
      → s.pc i ≡ holding a
      → s.pc j ≡ holding b
      → compatible a b ≡ true
  -- A thread that waits is in the list.
  pub listed : (i : ℕ) (m : LockMode) → s.pc i ≡ waiting m → is_listed s.lock.waiters i m ≡ true
  -- A thread that waits for a mode that is free by now has been signalled.
  pub alert :
      (i : ℕ) (m : LockMode)
      → s.pc i ≡ waiting m
      → is_compatible s.lock m ≡ true
      → s.signalled i ≡ true
