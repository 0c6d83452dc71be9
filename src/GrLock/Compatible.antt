-- ===== src/GrLock/Compatible.antt =====
-- What `is_compatible` of libs/nscore/gr_lock.c decides, and how it moves with the counts.
use numstore.Prelude.{◌<◌, ◌≤◌, true, List, ◌≡◌, refl, arith, ◌↔◌}
use numstore.GrLock.{
  LockMode, lm_is, lm_ix, lm_s, lm_six, lm_x, compatible, Waiter, GrLock, compatible_from,
  is_compatible,
}

pub compatible_symm : (a b : LockMode) → compatible a b ≡ compatible b a
compatible_symm lm_is lm_is = refl
compatible_symm a b = ground arith

-- The mode asked for goes with every mode that is held.
abbrev pub Admits : GrLock → LockMode → Type 0
Admits l m = (i : LockMode) → 0 < l.holder_counts i → compatible m i ≡ true

pub is_compatible-Admits : (l : GrLock) (m : LockMode) → is_compatible l m ≡ true → Admits l m
unfolding is_compatible compatible_from
is_compatible-Admits l m h lm_is p = ground arith
is_compatible-Admits l m h lm_ix p = ground arith
is_compatible-Admits l m h lm_s p = ground arith
is_compatible-Admits l m h lm_six p = ground arith
is_compatible-Admits l m h lm_x p = ground arith

pub Admits-is_compatible : (l : GrLock) (m : LockMode) → Admits l m → is_compatible l m ≡ true
unfolding is_compatible compatible_from
Admits-is_compatible l m h = ground (arith, h lm_is, h lm_ix, h lm_s, h lm_six, h lm_x)

-- `is_compatible` answers true exactly when the mode goes with every mode that is held.
pub is_compatible_iff : (l : GrLock) (m : LockMode) → (is_compatible l m ≡ true) ↔ Admits l m
is_compatible_iff l m = (is_compatible-Admits l m, Admits-is_compatible l m)

-- Fewer holders admit no less.
pub is_compatible_mono :
    (l k : GrLock) (m : LockMode)
    → ((i : LockMode) → k.holder_counts i ≤ l.holder_counts i)
    → is_compatible l m ≡ true
    → is_compatible k m ≡ true
is_compatible_mono l k m le h =
    Admits-is_compatible k m (λ i p. is_compatible-Admits l m h i (grind (arith, le i)))

-- The waiters do not matter.
pub is_compatible_waiters :
    (l : GrLock) (ws : List Waiter) (m : LockMode)
    → is_compatible (record l { waiters = ws }) m ≡ is_compatible l m
unfolding is_compatible compatible_from
is_compatible_waiters l ws m = refl
