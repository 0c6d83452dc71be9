-- ===== src/GrLock/Threads.antt =====
-- `n` threads that call the operations of libs/nscore/gr_lock.c on one lock, in any order. A step is
-- one critical section of the lock's mutex. A wait may end without a signal, as pthread allows.
use numstore.Prelude.{
  ℕ, zero, suc, ◌+◌, ◌<◌, Bool, true, false, List, [], ◌∷◌, ◌==◌, ◌≡◌, if◌then◌else◌,
}
use numstore.GrLock.{
  LockMode, GrLock, Outcome, acquired, blocked, failed, gr_lock_init, gr_lock_test, gr_lock_resume,
  gr_trylock, Unlocked, gr_unlock, same_mode,
}

-- Where a thread stands.
pub data Pc : Type 0 where
  outside : Pc
  waiting : LockMode → Pc
  holding : LockMode → Pc

abbrev pub update {ℓ} : {A : Type ℓ} → (ℕ → A) → ℕ → A → ℕ → A
update f i v j = if i == j then v else f j

-- A signal to each thread of a list.
abbrev pub mark : List ℕ → (ℕ → Bool) → ℕ → Bool
mark [] f j = f j
mark (i ∷ is) f j = if i == j then true else mark is f j

pub record System : Type 0 where
  pub lock : GrLock
  pub pc : ℕ → Pc
  -- Whether the condition that a thread waits on has been signalled.
  pub signalled : ℕ → Bool

abbrev pub init : System
init = record { lock = gr_lock_init; pc = λ _. outside; signalled = λ _. false }

abbrev pub next_pc : LockMode → Outcome → Pc
next_pc m acquired = holding m
next_pc m blocked = waiting m
next_pc m failed = outside

-- The state behind a critical section of `gr_lock` in thread `i`.
abbrev pub after_lock : System → ℕ → LockMode → GrLock × Outcome → System
after_lock s i m r = record {
  lock = r.0;
  pc = update s.pc i (next_pc m r.1);
  signalled = update s.signalled i false;
}

abbrev pub after_trylock : System → ℕ → LockMode → GrLock × Bool → System
after_trylock s i m r = record s {
  lock = r.0;
  pc = update s.pc i (if r.1 then holding m else outside);
}

abbrev pub after_unlock : System → ℕ → Unlocked → System
after_unlock s i u = record {
  lock = u.lock;
  pc = update s.pc i outside;
  signalled = mark u.signalled s.signalled;
}

pub data Step (n : ℕ) (s : System) : System → Type 0 where
  lock :
      (i : ℕ) (m : LockMode) (cond_ok : Bool)
      → i < n
      → s.pc i ≡ outside
      → Step n s (after_lock s i m (gr_lock_test cond_ok s.lock (record { owner = i; mode = m })))
  wake :
      (i : ℕ) (m : LockMode) (cond_ok : Bool)
      → i < n
      → s.pc i ≡ waiting m
      → Step n s (after_lock s i m (gr_lock_resume cond_ok s.lock (record { owner = i; mode = m })))
  trylock :
      (i : ℕ) (m : LockMode) (free : Bool)
      → i < n
      → s.pc i ≡ outside
      → Step n s (after_trylock s i m (gr_trylock free s.lock m))
  unlock :
      (i : ℕ) (m : LockMode)
      → i < n
      → s.pc i ≡ holding m
      → Step n s (after_unlock s i (gr_unlock s.lock m))

pub data Reach (n : ℕ) : System → Type 0 where
  start : Reach n init
  later : {s t : System} → Reach n s → Step n s t → Reach n t

-- How many of the first `n` threads hold the lock in a mode.
abbrev pub holds : LockMode → Pc → ℕ
holds m outside = 0
holds m (waiting _) = 0
holds m (holding k) = if same_mode m k then 1 else 0

abbrev pub holders : LockMode → ℕ → (ℕ → Pc) → ℕ
holders m zero pc = 0
holders m (suc n) pc = holds m (pc n) + holders m n pc
