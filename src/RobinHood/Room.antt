-- ===== src/RobinHood/Room.antt =====
-- `HT_INSERT` of libs/nscore/include/numstore/core/robin_hood_ht.h into a table with a free entry.
use mathlib.Core.Logic.{Lift}
use numstore.Prelude.{
  ==→eq, ℕ, zero, suc, ◌+◌, ◌%◌, ◌≤◌, ◌<◌, none, some, ltb, ◌==◌, ◌≡◌, ◌≢◌, sym, arith, ap, ◌∙◌,
  subst, Bool-cases, inl, inr, ltb→lt, ltb-false→le, none_is_not_some, Option-cases,
}
use numstore.RobinHood.{
  HData, HEntry, Elems, HtiRes, success, exists, full, probe, put, Round, stop, next, insert_at,
  insert_round, follow, insert_loop, ht_insert,
}
use numstore.RobinHood.Probe.{Small, shift, plain, way}
use numstore.RobinHood.Table.{At, IsTable, put_cases, put_other}

not_below : {n : ℕ} → n < 0 → ⊥
not_below h = omega arith

exists_is_not_full : exists ≢ full
exists_is_not_full e = cc

success_is_not_full : success ≢ full
success_is_not_full e = cc

module _ {ℓ} {A : Type ℓ} where
  -- Every entry stands at the index of its distance, and its sums do not wrap around.
  abbrev InPlace : ℕ → Elems A → Type ℓ
  InPlace nelem t =
      (j : ℕ) (e : HEntry A)
      → At t j e
      → (probe nelem e.data_of.key e.dib ≡ j) × Small nelem e.data_of.key

  put-InPlace :
      (nelem : ℕ) (t : Elems A) (x : HEntry A)
      → InPlace nelem t
      → Small nelem x.data_of.key
      → InPlace nelem (put t (probe nelem x.data_of.key x.dib) x)
  put-InPlace nelem t x ok s j e h =
      let i = probe nelem x.data_of.key x.dib in
      elim (put_cases t i j x e h) [
        | inl (eq, is) ↦
            subst (λ e'. (probe nelem e'.data_of.key e'.dib ≡ j) × Small nelem e'.data_of.key)
              (sym is) (sym eq, s)
        | inr (ne, old) ↦ ok j e old
      ]

  -- The free index lies `m` indices behind the next one that is probed.
  record Ahead (nelem k : ℕ) (t : Elems A) (item : HData A) (n m : ℕ) : Type ℓ where
    in_place : InPlace nelem t
    small : Small nelem item.key
    room : n + k ≤ nelem
    before_end : m < k
    free : t ((item.key + n + m) % nelem) ≡ none

  -- The index after a taken one.
  past :
      (nelem k : ℕ) (t : Elems A) (item : HData A) (n m : ℕ) (e : HEntry A)
      → Ahead nelem (suc k) t item n m
      → At t (probe nelem item.key n) e
      → 0 < m
  past nelem k t item n m e a h = elim (Bool-cases (ltb 0 m)) [
    | inl some_way ↦ ltb→lt 0 m some_way
    | inr here ↦
        let same : item.key + n + m ≡ item.key + n = omega (arith, ltb-false→le 0 m here) in
        elim (none_is_not_some (
          sym a.free
          ∙ ap (λ r. t (r % nelem)) same
          ∙ ap t (sym (plain nelem item.key n a.small (omega (arith, a.room))))
          ∙ h)) [ ]
  ]

  -- A write of a taken index leaves a free one free.
  still_free : (t : Elems A) (i f : ℕ) (x e : HEntry A) → At t i e → t f ≡ none → put t i x f ≡ none
  still_free t i f x e h free = elim (Bool-cases (f == i)) [
    | inl same ↦ elim (none_is_not_some (sym free ∙ ap t (==→eq f i same) ∙ h)) [ ]
    | inr ne ↦ put_other t i f x ne ∙ free
  ]

  swap-Ahead :
      (nelem k : ℕ) (t : Elems A) (item : HData A) (n m : ℕ) (e : HEntry A)
      → Ahead nelem (suc k) t item n (suc m)
      → At t (probe nelem item.key n) e
      → e.dib < n
      → Ahead nelem k
          (put t (probe nelem item.key n) (record { data_of = item; dib = n }))
          e.data_of
          (e.dib + 1)
          m
  swap-Ahead nelem k t item n m e a h lt =
      let i = probe nelem item.key n in
      let x : HEntry A = record { data_of = item; dib = n } in
      let room = a.room in
      let (at_i, small_e) = a.in_place i e h in
      let same : (e.data_of.key + e.dib) % nelem ≡ (item.key + n) % nelem =
        sym (plain nelem e.data_of.key e.dib small_e (omega arith))
        ∙ at_i
        ∙ plain nelem item.key n a.small (omega arith) in
      let on : e.data_of.key + (e.dib + 1) + m ≡ e.data_of.key + e.dib + suc m = omega arith in
      let free : t ((e.data_of.key + (e.dib + 1) + m) % nelem) ≡ none =
        ap (λ r. t (r % nelem)) on
        ∙ ap t (shift nelem (e.data_of.key + e.dib) (item.key + n) (suc m) same)
        ∙ a.free in
      record {
        in_place = put-InPlace nelem t x a.in_place a.small;
        small = small_e;
        room = omega arith;
        before_end = omega (arith, a.before_end);
        free = still_free t i ((e.data_of.key + (e.dib + 1) + m) % nelem) x e h free;
      }

  pass-Ahead :
      (nelem k : ℕ) (t : Elems A) (item : HData A) (n m : ℕ)
      → Ahead nelem (suc k) t item n (suc m)
      → Ahead nelem k t item (n + 1) m
  pass-Ahead nelem k t item n m a =
      let on : item.key + (n + 1) + m ≡ item.key + n + suc m = omega arith in
      record {
        in_place = a.in_place;
        small = a.small;
        room = omega (arith, a.room);
        before_end = omega (arith, a.before_end);
        free = ap (λ r. t (r % nelem)) on ∙ a.free;
      }

  -- What a round leads to: no full table, or a free index ahead.
  abbrev Goes : (nelem k : ℕ) → Round A → Type ℓ
  Goes nelem k (stop t r) = Lift {0, ℓ} (r ≢ full)
  Goes nelem k (next t item n) = (m : ℕ) × Ahead nelem k t item n m

  taken-Goes :
      (nelem k : ℕ) (t : Elems A) (item : HData A) (n m : ℕ) (e : HEntry A)
      → Ahead nelem (suc k) t item n m
      → 0 < m
      → At t (probe nelem item.key n) e
      → Goes nelem k (insert_at t item n (probe nelem item.key n) (some e))
  unfolding insert_at
  taken-Goes nelem k t item n zero e a pos h = elim (not_below pos) [ ]
  taken-Goes nelem k t item n (suc m) e a pos h = elim (Bool-cases (ltb e.dib n)) [
    | inl farther ↦ elim (Bool-cases (item.key == e.data_of.key)) [
      | inl eq ↦ rw (farther, eq) (record { lower = exists_is_not_full })
      | inr ne ↦ rw (farther, ne) (m, swap-Ahead nelem k t item n m e a h (ltb→lt e.dib n farther))
    ]
    | inr near ↦ elim (Bool-cases (e.data_of.key == item.key)) [
      | inl eq ↦ rw (near, eq) (record { lower = exists_is_not_full })
      | inr ne ↦ rw (near, ne) (m, pass-Ahead nelem k t item n m a)
    ]
  ]

  round-Goes :
      (nelem k : ℕ) (t : Elems A) (item : HData A) (n m : ℕ)
      → Ahead nelem (suc k) t item n m
      → Goes nelem k (insert_round nelem t item n)
  unfolding insert_round insert_at
  round-Goes nelem k t item n m a = elim (Option-cases (t (probe nelem item.key n))) [
    | inl free ↦ rw free (record { lower = success_is_not_full })
    | inr (e, h) ↦ rw h (taken-Goes nelem k t item n m e a (past nelem k t item n m e a h) h)
  ]

  follow-Goes :
      (nelem k : ℕ) (rest : Elems A → HData A → ℕ → Elems A × HtiRes)
      → ((t : Elems A) (item : HData A) (n m : ℕ)
          → Ahead nelem k t item n m
          → (rest t item n).1 ≢ full)
      → (r : Round A) → Goes nelem k r
      → (follow rest r).1 ≢ full
  unfolding follow
  follow-Goes nelem k rest ih (stop t r) g = g.lower
  follow-Goes nelem k rest ih (next t item n) (m, a) = ih t item n m a

  loop_room :
      (k nelem : ℕ) (t : Elems A) (item : HData A) (n m : ℕ)
      → Ahead nelem k t item n m
      → (insert_loop k nelem t item n).1 ≢ full
  unfolding insert_loop
  loop_room zero nelem t item n m a = elim (not_below a.before_end) [ ]
  loop_room (suc k) nelem t item n m a =
      follow-Goes nelem k (λ t' item' n'. insert_loop k nelem t' item' n') (loop_room k nelem)
        (insert_round nelem t item n) (round-Goes nelem k t item n m a)

  abbrev pub AllSmall : ℕ → Elems A → Type ℓ
  AllSmall nelem t = (j : ℕ) (e : HEntry A) → At t j e → Small nelem e.data_of.key

  -- A table with room takes an item: where one of the `nelem` entries is free and no key is so large that its sums wrap
  -- around 64 bits, `ht_insert` into a table in which every entry stands behind entries no nearer to their buckets does
  -- not end with HTIR_FULL.
  pub ht_insert_room :
      (nelem : ℕ) (t : Elems A) (item : HData A) (f : ℕ)
      → IsTable nelem t
      → AllSmall nelem t
      → Small nelem item.key
      → f < nelem
      → t f ≡ none
      → (ht_insert nelem t item).1 ≢ full
  unfolding ht_insert
  ht_insert_room nelem t item f ok small s lt free =
      let (m, before_end, there) = way nelem item.key f lt in
      loop_room nelem nelem t item 0 m (record {
        in_place = λ j e h. ((ok j e h).probed, small j e h);
        small = s;
        room = omega arith;
        before_end = before_end;
        free = ap t there ∙ free;
      })
