-- ===== src/GrLock.antt =====
-- libs/nscore/gr_lock.c and gr_lock.h: the granular lock with modes IS, IX, S, SIX and X.
-- A call of `gr_lock` that blocks is two critical sections of the lock's mutex, `gr_lock_test` up to
-- the wait and `gr_lock_resume` behind it. A waiter is named by the thread on whose stack it lies.
pub mod Compatible
pub mod Threads
pub mod Invariant
pub mod Preserve
pub mod Safety
mod Tests
use numstore.Prelude.{
  ℕ, ◌+◌, ◌-◌, Bool, true, false, not, ◌&&◌, List, [], ◌∷◌, ltb, ◌==◌, if◌then◌else◌, ◌≡◌,
}

-- `enum lock_mode`.
pub data LockMode : Type 0 where
  lm_is lm_ix lm_s lm_six lm_x : LockMode

-- The table `compatible`.
abbrev pub compatible : LockMode → LockMode → Bool
compatible lm_is lm_x = false
compatible lm_is _ = true
compatible lm_ix lm_is = true
compatible lm_ix lm_ix = true
compatible lm_ix _ = false
compatible lm_s lm_is = true
compatible lm_s lm_s = true
compatible lm_s _ = false
compatible lm_six lm_is = true
compatible lm_six _ = false
compatible lm_x _ = false

-- The order in which the loops over `LM_COUNT` go.
abbrev pub modes : List LockMode
modes = lm_is ∷ lm_ix ∷ lm_s ∷ lm_six ∷ lm_x ∷ []

abbrev pub same_mode : LockMode → LockMode → Bool
same_mode lm_is lm_is = true
same_mode lm_ix lm_ix = true
same_mode lm_s lm_s = true
same_mode lm_six lm_six = true
same_mode lm_x lm_x = true
same_mode _ _ = false

-- `struct gr_lock_waiter`.
pub record Waiter : Type 0 where
  pub owner : ℕ
  pub mode : LockMode

-- `struct gr_lock`, without its mutex: each operation below is one critical section.
pub record GrLock : Type 0 where
  pub holder_counts : LockMode → ℕ
  pub waiters : List Waiter

unfoldable pub gr_lock_init : GrLock
gr_lock_init = record { holder_counts = λ _. 0; waiters = [] }

-- The loop of `is_compatible` from one mode on.
unfoldable pub compatible_from : List LockMode → GrLock → LockMode → Bool
compatible_from [] l mode = true
compatible_from (i ∷ is) l mode =
    if ltb 0 (l.holder_counts i) && not (compatible mode i)
    then false
    else compatible_from is l mode

unfoldable pub is_compatible : GrLock → LockMode → Bool
is_compatible l mode = compatible_from modes l mode

-- `wake_waiters`: the threads whose condition is signalled.
unfoldable pub woken : List Waiter → GrLock → List ℕ
woken [] l = []
woken (w ∷ ws) l = if is_compatible l w.mode then w.owner ∷ woken ws l else woken ws l

unfoldable pub wake_waiters : GrLock → List ℕ
wake_waiters l = woken l.waiters l

-- `holder_counts[mode] = f (holder_counts[mode])`.
unfoldable pub change_count : (ℕ → ℕ) → LockMode → GrLock → GrLock
change_count f mode l = record l {
  holder_counts = λ m. if same_mode m mode then f (l.holder_counts m) else l.holder_counts m;
}

-- How a critical section of `gr_lock` ends: the lock is held, the caller waits on its condition, or
-- the condition could not be created.
pub data Outcome : Type 0 where
  acquired blocked failed : Outcome

-- The test of the loop in `gr_lock`, up to its exit or to `i_cond_wait`; `cond_ok` is the result of
-- `i_cond_create`.
unfoldable pub gr_lock_test : Bool → GrLock → Waiter → GrLock × Outcome
gr_lock_test cond_ok l w =
    if is_compatible l w.mode
    then (change_count (λ c. c + 1) w.mode l, acquired)
    else (if cond_ok then (record l { waiters = w ∷ l.waiters }, blocked) else (l, failed))

-- The walk by which a woken waiter leaves the list.
unfoldable pub remove_waiter : List Waiter → ℕ → List Waiter
remove_waiter [] owner = []
remove_waiter (w ∷ ws) owner = if w.owner == owner then ws else w ∷ remove_waiter ws owner

-- `gr_lock` from the return of `i_cond_wait`, up to its exit or to the next wait.
unfoldable pub gr_lock_resume : Bool → GrLock → Waiter → GrLock × Outcome
gr_lock_resume cond_ok l w =
    gr_lock_test cond_ok (record l { waiters = remove_waiter l.waiters w.owner }) w

-- `gr_trylock`; `free` is the result of `i_mutex_try_lock`.
unfoldable pub gr_trylock : Bool → GrLock → LockMode → GrLock × Bool
gr_trylock free l mode =
    if free
    then (if is_compatible l mode then (change_count (λ c. c + 1) mode l, true) else (l, false))
    else (l, false)

-- The loop over the counts in `gr_unlock`.
unfoldable pub any_holders : List LockMode → GrLock → Bool
any_holders [] l = false
any_holders (i ∷ is) l = if ltb 0 (l.holder_counts i) then true else any_holders is l

abbrev pub no_waiters : List Waiter → Bool
no_waiters [] = true
no_waiters (_ ∷ _) = false

-- What `gr_unlock` leaves: the lock, its result `is_last`, and the threads that it signals.
pub record Unlocked : Type 0 where
  pub lock : GrLock
  pub is_last : Bool
  pub signalled : List ℕ

unfoldable pub gr_unlock : GrLock → LockMode → Unlocked
gr_unlock l mode =
    if ltb 0 (l.holder_counts mode)
    then (let l' = change_count (λ c. c - 1) mode l in
        record {
          lock = l';
          is_last = not (any_holders modes l') && no_waiters l'.waiters;
          signalled = wake_waiters l';
        })
    else record { lock = l; is_last = false; signalled = [] }
