-- ===== src/GrLock/Preserve.antt =====
-- Every step of the threads on the lock of libs/nscore/gr_lock.c keeps the invariant.
use numstore.Prelude.{
  ℕ, zero, suc, ◌+◌, ◌<◌, Bool, true, false, List, ◌∷◌, ◌≡◌, refl, arith, if◌then◌else◌, Bool-cases,
  inl, inr, ◌≢◌, ℕ_discrete, sym, ◌∙◌, lt→ltb, ap,
}
use numstore.GrLock.{
  LockMode, lm_is, same_mode, Waiter, gr_lock_init, is_compatible, change_count, gr_lock_test,
  gr_lock_resume, gr_trylock, gr_unlock, remove_waiter, wake_waiters, blocked, failed,
}
use numstore.GrLock.Compatible.{
  compatible_symm, is_compatible-Admits, is_compatible_mono, is_compatible_waiters,
}
use numstore.GrLock.Threads.{
  Pc, outside, waiting, holding, update, System, after_lock, after_trylock, after_unlock, Step,
  lock, wake, trylock, unlock, Reach, start, later, holds, holders,
}
use numstore.GrLock.Invariant.{
  Inv, holders-update, holders_pos, is_listed, is_listed-remove, mark-woken,
}

abbrev IsIdle : Pc → Type 0
IsIdle p = (k : LockMode) → holds k p ≡ 0

same_mode_refl : (m : LockMode) → same_mode m m ≡ true
same_mode_refl lm_is = refl
same_mode_refl m = ground arith

idle-ne-holding : (p : Pc) (m : LockMode) → IsIdle p → p ≢ holding m
idle-ne-holding outside m h e = cc
idle-ne-holding (waiting k) m h e = cc
idle-ne-holding (holding k) m h e = ground (arith, h k, same_mode_refl k)

-- What the other threads see of a new list of waiters and of new signals.
abbrev Others : System → ℕ → List Waiter → (ℕ → Bool) → Type 0
Others s i ws sg =
    ((j : ℕ) (k : LockMode) → i ≢ j → is_listed ws j k ≡ is_listed s.lock.waiters j k)
    × ((j : ℕ) → i ≢ j → sg j ≡ s.signalled j)

module _ {n : ℕ} {s : System} (inv : Inv n s) (i : ℕ) (lt : i < n) (idle : IsIdle (s.pc i)) where
  open inv use {counted, apart, listed, alert}

  -- A thread that holds nothing takes the lock in a mode that is admitted.
  acquire_Inv :
      (m : LockMode) (ws : List Waiter) (sg : ℕ → Bool)
      → is_compatible s.lock m ≡ true
      → Others s i ws sg
      → Inv n (record {
        lock =
            change_count
              (λ c. c + 1)
              m
              (record { holder_counts = s.lock.holder_counts; waiters = ws });
        pc = update s.pc i (holding m);
        signalled = sg;
      })
  unfolding change_count
  acquire_Inv m ws sg c o = record {
    counted = λ k. ground (arith, counted k, holders-update k n i s.pc (holding m) lt, idle k);
    apart = λ j k a b hj hk ne ej ek. elim (ℕ_discrete i j) [
      | yes p ↦
          ground (arith, is_compatible-Admits s.lock m c b, counted b, holders_pos b n k s.pc hk)
      | no p ↦ elim (ℕ_discrete i k) [
        | yes q ↦ ground (
          arith,
          is_compatible-Admits s.lock m c a,
          counted a,
          holders_pos a n j s.pc hj,
          compatible_symm a m,
        )
        | no q ↦ ground (arith, apart j k a b hj hk ne)
      ]
    ];
    listed = λ j k e. ground (arith, o.0 j k, listed j k);
    alert = λ j k e h. ground (
      arith,
      o.1 j,
      alert j k,
      is_compatible_mono
          (record {
            holder_counts =
                λ x. if same_mode x m then s.lock.holder_counts x + 1 else s.lock.holder_counts x;
            waiters = ws;
          })
          s.lock k (λ x. ground arith) h,
    );
  }

  -- A thread that holds nothing goes on holding nothing.
  stay_Inv :
      (p : Pc) (ws : List Waiter) (sg : ℕ → Bool)
      → IsIdle p
      → Others s i ws sg
      → ((k : LockMode) → p ≡ waiting k → is_listed ws i k ≡ true)
      → ((k : LockMode) → p ≡ waiting k → is_compatible s.lock k ≡ false)
      → Inv n (record {
        lock = record { holder_counts = s.lock.holder_counts; waiters = ws };
        pc = update s.pc i p;
        signalled = sg;
      })
  stay_Inv p ws sg hp o hl hc = record {
    counted = λ k. omega (arith, counted k, holders-update k n i s.pc p lt, idle k, hp k);
    apart = λ j k a b hj hk ne ej ek.
        ground (arith, apart j k a b hj hk ne, idle-ne-holding p a hp, idle-ne-holding p b hp);
    listed = λ j k e. ground (arith, o.0 j k, listed j k, hl k);
    alert = λ j k e h. ground (arith, o.1 j, alert j k, hc k, is_compatible_waiters s.lock ws k);
  }

module _ {n : ℕ} {s : System} (inv : Inv n s) (i : ℕ) (m : LockMode) (lt : i < n)
    (e : s.pc i ≡ holding m) where
  open inv use {counted, apart, listed, alert}

  -- `gr_unlock` in a thread that holds the lock.
  release_Inv : Inv n (after_unlock s i (gr_unlock s.lock m))
  unfolding gr_unlock change_count wake_waiters
  release_Inv =
      let p : 0 < s.lock.holder_counts m = omega (arith, counted m, holders_pos m n i s.pc lt e) in
      rw (lt→ltb _ _ p) (record {
        counted =
            λ k. ground (arith, counted k, holders-update k n i s.pc outside lt, same_mode_refl k);
        apart = λ j k a b hj hk ne ej ek. ground (arith, apart j k a b hj hk ne);
        listed = λ j k w. ground (arith, listed j k);
        alert =
            λ j k w h. mark-woken s.lock.waiters _ s.signalled j k (ground (arith, listed j k)) h;
      })

module _ {n : ℕ} {s : System} (inv : Inv n s) (i : ℕ) (m : LockMode) (lt : i < n)
    (idle : IsIdle (s.pc i)) where
  abbrev caller : Waiter
  caller = record { owner = i; mode = m }

  -- The test in `gr_lock`, over a list in which the other waiters stand as before.
  test_Inv :
      (cond_ok : Bool) (ws : List Waiter)
      → ((j : ℕ) (k : LockMode) → i ≢ j → is_listed ws j k ≡ is_listed s.lock.waiters j k)
      → Inv n (after_lock s i m (gr_lock_test cond_ok (record s.lock { waiters = ws }) caller))
  unfolding gr_lock_test
  test_Inv cond_ok ws o = elim (Bool-cases (is_compatible s.lock m)) [
    | inl c ↦
        rw (is_compatible_waiters s.lock ws m, c)
          (acquire_Inv inv i lt idle m ws _ c (o, λ j ne. ground arith))
    | inr c ↦ rw (is_compatible_waiters s.lock ws m, c) (refused cond_ok c)
  ]
    where
      refused :
          (ok : Bool)
          → is_compatible s.lock m ≡ false
          → Inv n (
              after_lock s i m (
                if ok
                then (record s.lock { waiters = caller ∷ ws }, blocked)
                else (record s.lock { waiters = ws }, failed)))
      refused true c =
          stay_Inv inv i lt idle (waiting m) (caller ∷ ws) _ (λ k. refl)
            ((λ j k ne. ground (arith, o j k)), (λ j ne. ground arith))
            (λ k e. ground (arith, same_mode_refl k)) (λ k e. ground (arith, c))
      refused false c =
          stay_Inv inv i lt idle outside ws _ (λ k. refl) (o, λ j ne. ground arith) (λ k e. cc)
            (λ k e. cc)

  trylock_Inv : (free : Bool) → Inv n (after_trylock s i m (gr_trylock free s.lock m))
  unfolding gr_trylock
  trylock_Inv false =
      stay_Inv inv i lt idle outside s.lock.waiters s.signalled (λ k. refl)
        ((λ j k ne. refl), (λ j ne. refl)) (λ k e. cc) (λ k e. cc)
  trylock_Inv true = elim (Bool-cases (is_compatible s.lock m)) [
    | inl c ↦ rw c (
        acquire_Inv inv i lt idle m s.lock.waiters s.signalled c ((λ j k ne. refl), (λ j ne. refl)))
    | inr c ↦ rw c (
        stay_Inv inv i lt idle outside s.lock.waiters s.signalled (λ k. refl)
          ((λ j k ne. refl), (λ j ne. refl)) (λ k e. cc) (λ k e. cc))
  ]

IsIdle-of : (p q : Pc) → p ≡ q → IsIdle q → IsIdle p
IsIdle-of p q e h k = ap (holds k) e ∙ h k

pub Step-Inv : {n : ℕ} {s t : System} → Step n s t → Inv n s → Inv n t
unfolding gr_lock_resume
Step-Inv {s} (lock i m ok lt e) inv =
    test_Inv inv i m lt (IsIdle-of _ _ e (λ k. refl)) ok s.lock.waiters (λ j k ne. refl)
Step-Inv {s} (wake i m ok lt e) inv =
    test_Inv inv i m lt (IsIdle-of _ _ e (λ k. refl)) ok (remove_waiter s.lock.waiters i)
      (λ j k ne. is_listed-remove s.lock.waiters i j k ne)
Step-Inv (trylock i m free lt e) inv = trylock_Inv inv i m lt (IsIdle-of _ _ e (λ k. refl)) free
Step-Inv (unlock i m lt e) inv = release_Inv inv i m lt e

holders-outside : (m : LockMode) (n : ℕ) → holders m n (λ _. outside) ≡ 0
holders-outside m zero = refl
holders-outside m (suc n) = omega (arith, holders-outside m n)

pub Reach-Inv : {n : ℕ} {s : System} → Reach n s → Inv n s
unfolding gr_lock_init
Reach-Inv {n} start = record {
  counted = λ m. sym (holders-outside m n);
  apart = λ i j a b hi hj ne ei ej. cc;
  listed = λ i m e. cc;
  alert = λ i m e h. cc;
}
Reach-Inv (later r st) = Step-Inv st (Reach-Inv r)
