-- ===== src/SpxLatch/Safety.antt =====
-- The latch of libs/nscore/spx_latch.c under any interleaving of the steps of its threads.
use numstore.Prelude.{
  ℕ, zero, suc, ◌≤◌, ◌<◌, List, [], ◌∷◌, some, get_elem?, set, length, length-set, ◌≡◌, ◌≢◌, inl,
  refl, arith, All, replicate, length-replicate, some_inj, subst,
}
use numstore.SpxLatch.{
  Pc, out, shared, exclusive, s_load, drain_load, drain_swap, Action, go, act, load, swap, x_lock,
  pending_bit,
}
use numstore.SpxLatch.Totals.{total, total-set, le-total, add-le-total, total-le}
use numstore.SpxLatch.Threads.{s_of, p_of, x_of, Tested, Counts, act-Counts, act-Tested}

-- The word of the latch, and where each thread stands.
pub record System : Type 0 where
  pub word : ℕ
  pub threads : List Pc

-- Thread `i` does something.
pub data Step (c : System) : System → Type 0 where
  steps :
      (i : ℕ) (a : Action) (p p' : Pc) (w' : ℕ)
      → get_elem? c.threads i ≡ some p
      → act a p c.word ≡ some (w', p')
      → Step c (record { word = w'; threads = set c.threads i p' })

pub data Reach (c : System) : System → Type 0 where
  start : Reach c c
  later : {d e : System} → Reach c d → Step d e → Reach c e

-- `spx_latch_init`, and `n` threads that have not called the latch.
abbrev pub spx_latch_init : ℕ → System
spx_latch_init n = record { word = 0; threads = replicate n out }

-- What holds after every step.
record IsSound (c : System) : Type 0 where
  tested : All Tested c.threads
  counts : Counts c.word (total s_of c.threads) (total p_of c.threads) (total x_of c.threads)
  few : length c.threads < 2147483647

All-get {ℓ κ} :
    {A : Type ℓ} (P : A → Type κ) (xs : List A) (i : ℕ) (x : A)
    → All P xs
    → get_elem? xs i ≡ some x
    → P x
All-get P [] i x h e = cc
All-get P (y ∷ xs) zero x h e = subst P (some_inj e) h.0
All-get P (y ∷ xs) (suc i) x h e = All-get P xs i x h.1 e

All-set {ℓ κ} :
    {A : Type ℓ} (P : A → Type κ) (xs : List A) (i : ℕ) (x : A)
    → All P xs
    → P x
    → All P (set xs i x)
All-set P [] i x h k = tt
All-set P (y ∷ xs) zero x h k = (k, h.1)
All-set P (y ∷ xs) (suc i) x h k = (h.0, All-set P xs i x h.1 k)

s_of_le : (p : Pc) → s_of p ≤ 1
s_of_le shared = omega arith
s_of_le p = omega arith

Step-IsSound : {c d : System} → Step c d → IsSound c → IsSound d
Step-IsSound {c} (steps i a p p' w' at e) v =
    let ts = c.threads in
    let t = All-get Tested ts i p v.tested at in
    record {
      tested = All-set Tested ts i p' v.tested (act-Tested a p p' c.word w' e t);
      counts =
          act-Counts a p p' c.word w' (total s_of ts) _ (total p_of ts) _ (total x_of ts) _ e t
            v.counts (omega (arith, total-le s_of ts s_of_le, v.few)) (le-total s_of ts i p at)
            (le-total p_of ts i p at) (le-total x_of ts i p at) (total-set s_of ts i p p' at)
            (total-set p_of ts i p p' at) (total-set x_of ts i p p' at);
      few = omega (arith, v.few, length-set ts i p');
    }

init-IsSound : (n : ℕ) → n < 2147483647 → IsSound (spx_latch_init n)
init-IsSound n h = record {
  tested = all_out n;
  counts = inl (
    none_of x_of refl n,
    omega (arith, none_of p_of refl n),
    omega (arith, none_of s_of refl n, none_of p_of refl n),
  );
  few = omega (arith, length-replicate n out);
}
  where
    all_out : (n : ℕ) → All Tested (replicate n out)
    all_out zero = tt
    all_out (suc n) = (tt, all_out n)

    none_of : (f : Pc → ℕ) → f out ≡ 0 → (n : ℕ) → total f (replicate n out) ≡ 0
    none_of f z zero = refl
    none_of f z (suc n) = omega (arith, z, none_of f z n)

Reach-IsSound : {c d : System} → IsSound c → Reach c d → IsSound d
Reach-IsSound v start = v
Reach-IsSound v (later r st) = Step-IsSound st (Reach-IsSound v r)

-- An exclusive holder is alone: whatever fewer than 2 ^ 31 - 1 threads do from the new latch on, in any
-- interleaving and with compare-and-exchanges that fail for no reason, while one thread holds the latch
-- exclusively no other thread holds it, neither exclusively nor shared, also not within an upgrade.
pub spx_latch-exclusion :
    (n : ℕ) {c : System} (i j : ℕ) (p q : Pc)
    → n < 2147483647
    → Reach (spx_latch_init n) c
    → i ≢ j
    → get_elem? c.threads i ≡ some p
    → get_elem? c.threads j ≡ some q
    → x_of p ≡ 1
    → (x_of q ≡ 0) × (s_of q ≡ 0)
spx_latch-exclusion n {c} i j p q few r ne at_i at_j x =
    let v = Reach-IsSound (init-IsSound n few) r in
    ground (
      arith,
      v.counts,
      add-le-total x_of c.threads i j p q ne at_i at_j,
      le-total x_of c.threads i p at_i,
      le-total s_of c.threads j q at_j,
    )

-- A thread that waits is let in: while a thread has set the pending bit and no thread holds the latch
-- shared, its next two operations, undisturbed, give it the latch exclusively, and a thread that wants the
-- latch shared goes on waiting.
pub spx_latch-progress :
    (n : ℕ) {c : System} (i : ℕ)
    → n < 2147483647
    → Reach (spx_latch_init n) c
    → get_elem? c.threads i ≡ some drain_load
    → total s_of c.threads ≡ 0
    → (act go drain_load c.word ≡ some (c.word, drain_swap c.word))
      × (act go (drain_swap c.word) c.word ≡ some (x_lock, exclusive))
      × (act go s_load c.word ≡ some (c.word, s_load))
unfolding act load swap
spx_latch-progress n {c} i few r at_i drained =
    let v = Reach-IsSound (init-IsSound n few) r in
    let wait = le-total p_of c.threads i drain_load at_i in
    let word : c.word ≡ pending_bit = ground (arith, v.counts) in rw word (refl, refl, refl)
