-- ===== src/GrLock/Safety.antt =====
-- The properties of the granular lock of libs/nscore/gr_lock.c.
use numstore.Prelude.{
  ℕ, ◌+◌, ◌-◌, ◌<◌, true, false, List, [], ◌∷◌, ◌≡◌, refl, arith, ◌≢◌, ◌↔◌, ◌&&◌, not, lt→ltb,
}
use numstore.GrLock.{
  LockMode, lm_is, lm_ix, lm_s, lm_six, lm_x, compatible, modes, Waiter, GrLock, change_count,
  gr_unlock, any_holders, no_waiters, same_mode,
}
use numstore.GrLock.Compatible.{Admits-is_compatible}
use numstore.GrLock.Threads.{waiting, holding, System, Reach}
use numstore.GrLock.Preserve.{Reach-Inv}

-- However `n` threads interleave their calls of `gr_lock`, `gr_trylock` and `gr_unlock`, two
-- different threads never hold the lock in modes that the table `compatible` forbids together.
pub no_conflict :
    {n : ℕ} {s : System}
    → Reach n s
    → (i j : ℕ) (a b : LockMode) → i < n
    → j < n
    → i ≢ j
    → s.pc i ≡ holding a
    → s.pc j ≡ holding b
    → compatible a b ≡ true
no_conflict r i j a b = (Reach-Inv r).apart i j a b

-- No wakeup is lost: in every reachable state a thread that waits for a mode which the current
-- holders admit has been signalled since it began to wait.
pub no_lost_wakeup :
    {n : ℕ} {s : System}
    → Reach n s
    → (i : ℕ) (m : LockMode) → s.pc i ≡ waiting m
    → ((k : LockMode) → 0 < s.lock.holder_counts k → compatible m k ≡ true)
    → s.signalled i ≡ true
no_lost_wakeup {s} r i m e h = (Reach-Inv r).alert i m e (Admits-is_compatible s.lock m h)

any_holders-false :
    (l : GrLock) → any_holders modes l ≡ false → (k : LockMode) → l.holder_counts k ≡ 0
unfolding any_holders
any_holders-false l h lm_is = ground arith
any_holders-false l h k = ground arith

any_holders_none :
    (l : GrLock) → ((k : LockMode) → l.holder_counts k ≡ 0) → any_holders modes l ≡ false
unfolding any_holders
any_holders_none l h = ground (arith, h lm_is, h lm_ix, h lm_s, h lm_six, h lm_x)

no_waiters-nil : (ws : List Waiter) → no_waiters ws ≡ true → ws ≡ []
no_waiters-nil [] h = refl
no_waiters-nil (w ∷ ws) h = cc

same_mode-ne : (k m : LockMode) → k ≢ m → same_mode k m ≡ false
same_mode-ne lm_is lm_is h = absurd (h refl)
same_mode-ne k m h = ground arith

same_mode_refl : (m : LockMode) → same_mode m m ≡ true
same_mode_refl lm_is = refl
same_mode_refl m = ground arith

last_iff :
    (l : GrLock)
    → ((not (any_holders modes l) && no_waiters l.waiters) ≡ true)
      ↔ (((k : LockMode) → l.holder_counts k ≡ 0) × (l.waiters ≡ []))
last_iff l = (
  λ h. (any_holders-false l (ground arith), no_waiters-nil l.waiters (ground arith)),
  λ p. rw (any_holders_none l p.0, p.1),
)

-- `gr_unlock` of a mode that is held takes one off its count, leaves the other counts and the
-- waiters, and reports the last release exactly when no mode is held any more and nobody waits.
pub gr_unlock_lem :
    (l : GrLock) (m : LockMode)
    → 0 < l.holder_counts m
    → let u = gr_unlock l m in
      (u.lock.holder_counts m + 1 ≡ l.holder_counts m)
      × ((k : LockMode) → k ≢ m → u.lock.holder_counts k ≡ l.holder_counts k)
      × (u.lock.waiters ≡ l.waiters)
      × ((u.is_last ≡ true) ↔ (((k : LockMode) → u.lock.holder_counts k ≡ 0) × (l.waiters ≡ [])))
unfolding gr_unlock change_count
gr_unlock_lem l m h = rw (lt→ltb _ _ h) (
  ground (arith, same_mode_refl m),
  λ k ne. ground (arith, same_mode-ne k m ne),
  refl,
  last_iff (change_count (λ c. c - 1) m l),
)
