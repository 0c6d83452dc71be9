-- ===== src/HashTable/Rehash.antt =====
-- How libs/nscore/adptv_hash_table.c moves the nodes of its old table: no node is lost, and the loop
-- that moves all of them ends.
use numstore.Prelude.{
  ℕ, zero, suc, ◌+◌, ◌-◌, ◌^◌, ◌≤◌, ◌<◌, Bool, false, List, [], ◌∷◌, none, some, ◌==◌, length,
  get_elem?, set, ◌≡◌, refl, sym, arith, ap, ◌∙◌, Bool-cases, Option-cases, inl, inr, subst, ==→eq,
  ==-false→ne,
}
use numstore.HashTable.{
  Node, AdptvHtable, bucket, htable_insert, remove_at, node_at, htable_delete, move_node,
  rehash_step, rehash_loop, adptv_htable_help_rehashing, adptv_htable_finish_rehashing,
}
use numstore.HashTable.Count.{count, count_all}
use numstore.HashTable.Table.{
  every, count_in, total, IsHtable, htable_insert-count, htable_insert-IsHtable,
  htable_delete-count, htable_delete-IsHtable,
}

-- Both tables are well formed, the buckets that were passed are empty, and the nodes can be counted.
pub record IsAdptv {ℓ} {A : Type ℓ} (t : AdptvHtable A) : Type ℓ where
  pub current_ok : IsHtable t.current
  pub prev_ok : IsHtable t.prev
  pub passed : (i : ℕ) → i < t.migrate_pos → bucket t.prev.table i ≡ []
  pub in_range : t.migrate_pos ≤ t.prev.cap
  pub few : total t.current + total t.prev < 2 ^ 32

-- The nodes of both tables with a property.
abbrev pub items {ℓ} : {A : Type ℓ} → (Node A → Bool) → AdptvHtable A → ℕ
items p t = count_in p t.current + count_in p t.prev

-- The rounds that are left at most.
abbrev pub left {ℓ} : {A : Type ℓ} → AdptvHtable A → ℕ
left t = total t.prev + (t.prev.cap - t.migrate_pos)

size_pos : (n : ℕ) → (n == 0) ≡ false → 0 < n
size_pos n h = ground arith

module _ {ℓ} {A : Type ℓ} where
  count_all-empty :
      (p : Node A → Bool) (bs : List (List (Node A)))
      → ((i : ℕ) → i < length bs → bucket bs i ≡ [])
      → count_all p bs ≡ 0
  unfolding bucket
  count_all-empty p [] h = refl
  count_all-empty p (b ∷ bs) h =
      let first : count p b ≡ 0 = ap (count p) (h 0 (omega arith)) in
      omega (arith, first, count_all-empty p bs (λ i lt. h (suc i) (omega arith)))

  bucket-set_other :
      (bs : List (List (Node A))) (i k : ℕ) (b : List (Node A))
      → i < k
      → bucket (set bs k b) i ≡ bucket bs i
  unfolding bucket
  bucket-set_other [] i k b lt = refl
  bucket-set_other (c ∷ bs) i zero b lt = absurd (omega arith)
  bucket-set_other (c ∷ bs) zero (suc k) b lt = refl
  bucket-set_other (c ∷ bs) (suc i) (suc k) b lt = bucket-set_other bs i k b (omega arith)

  first_none : (xs : List (Node A)) → get_elem? xs 0 ≡ none → xs ≡ []
  first_none [] e = refl
  first_none (x ∷ xs) e = cc

  count-le : (p : Node A → Bool) (xs : List (Node A)) → count p xs ≤ count every xs
  count-le p [] = omega arith
  count-le p (x ∷ xs) = elim (Bool-cases (p x)) [
    | inl px ↦ rw px (omega (arith, count-le p xs))
    | inr px ↦ rw px (omega (arith, count-le p xs))
  ]

  count_all-le :
      (p : Node A → Bool) (bs : List (List (Node A))) → count_all p bs ≤ count_all every bs
  count_all-le p [] = omega arith
  count_all-le p (b ∷ bs) = omega (arith, count-le p b, count_all-le p bs)

  -- What a round of the loop does to a table with nodes to move.
  abbrev Moved : AdptvHtable A → AdptvHtable A → Type ℓ
  Moved t t' =
      IsAdptv t'
      × ((p : Node A → Bool) → items p t' ≡ items p t)
      × (left t' < left t)
      × (t'.current.cap ≡ t.current.cap)

  module _ (t : AdptvHtable A) (ok : IsAdptv t) (more : 0 < total t.prev) where
    pos_in_range : t.migrate_pos < t.prev.cap
    pos_in_range = elim (Bool-cases (t.migrate_pos == t.prev.cap)) [
      | inl at_end ↦
          let e : t.migrate_pos ≡ t.prev.cap = ==→eq t.migrate_pos t.prev.cap at_end in
          let nothing : total t.prev ≡ 0 =
            count_all-empty every t.prev.table
              (λ i lt. ok.passed i (omega (arith, e, ok.prev_ok.buckets))) in
          absurd (omega arith)
      | inr before ↦
          let ne = ==-false→ne t.migrate_pos t.prev.cap before in
          let le = ok.in_range in ground arith
    ]

    move_none : node_at t.prev (t.migrate_pos, 0) ≡ none → Moved t (move_node t none)
    unfolding node_at move_node
    move_none e =
        let lt = pos_in_range in
        let here = first_none (bucket t.prev.table t.migrate_pos) e in
        (
          record {
            current_ok = ok.current_ok;
            prev_ok = ok.prev_ok;
            passed = λ i h. elim (Bool-cases (i == t.migrate_pos)) [
              | inl same ↦
                  subst (λ k. bucket t.prev.table k ≡ []) (sym (==→eq i t.migrate_pos same)) here
              | inr other ↦
                  let ne = ==-false→ne i t.migrate_pos other in
                  let below : i < t.migrate_pos = ground arith in ok.passed i below
            ];
            in_range = omega arith;
            few = ok.few;
          },
          (λ p. refl),
          omega arith,
          refl,
        )

    still_empty :
        (i : ℕ) → i < t.migrate_pos → bucket (htable_delete t.prev (t.migrate_pos, 0)).table i ≡ []
    unfolding htable_delete
    still_empty i h =
        bucket-set_other t.prev.table i t.migrate_pos
          (remove_at (bucket t.prev.table t.migrate_pos) 0) h
        ∙ ok.passed i h

    delete_cap : (htable_delete t.prev (t.migrate_pos, 0)).cap ≡ t.prev.cap
    unfolding htable_delete
    delete_cap = refl

    insert_cap : (x : Node A) → (htable_insert t.current x).cap ≡ t.current.cap
    unfolding htable_insert
    insert_cap x = refl

    move_some :
        (x : Node A) → node_at t.prev (t.migrate_pos, 0) ≡ some x → Moved t (move_node t (some x))
    unfolding move_node
    move_some x e =
        let lt = pos_in_range in
        let gone = htable_delete-count t.prev ok.prev_ok (t.migrate_pos, 0) x e in
        let come = htable_insert-count t.current ok.current_ok x in
        (
          record {
            current_ok = htable_insert-IsHtable t.current ok.current_ok x (omega (arith, ok.few));
            prev_ok = htable_delete-IsHtable t.prev ok.prev_ok (t.migrate_pos, 0) x e;
            passed = still_empty;
            in_range = omega (arith, delete_cap);
            few = omega (arith, gone every, come every, ok.few);
          },
          (λ p. omega (arith, gone p, come p)),
          omega (arith, gone every, delete_cap),
          insert_cap x,
        )

    rehash_step-Moved : Moved t (rehash_step t)
    unfolding rehash_step
    rehash_step-Moved = elim (Option-cases (node_at t.prev (t.migrate_pos, 0))) [
      | inl e ↦ subst (λ o. Moved t (move_node t o)) (sym e) (move_none e)
      | inr (x, e) ↦ subst (λ o. Moved t (move_node t o)) (sym e) (move_some x e)
    ]

  -- The same nodes, well formed still.
  abbrev pub Kept : AdptvHtable A → AdptvHtable A → Type ℓ
  Kept t t' =
      IsAdptv t' × ((p : Node A → Bool) → items p t' ≡ items p t) × (t'.current.cap ≡ t.current.cap)

  pub rehash_loop-Kept : (work : ℕ) (t : AdptvHtable A) → IsAdptv t → Kept t (rehash_loop work t)
  unfolding rehash_loop
  rehash_loop-Kept zero t ok = (ok, (λ p. refl), refl)
  rehash_loop-Kept (suc work) t ok = elim (Bool-cases (t.prev.size == 0)) [
    | inl done ↦ rw done (ok, (λ p. refl), refl)
    | inr more ↦
        let pos : 0 < total t.prev = omega (arith, size_pos t.prev.size more, ok.prev_ok.counted) in
        let (ok1, same1, less, cap1) = rehash_step-Moved t ok pos in
        let (ok2, same2, cap2) = rehash_loop-Kept work (rehash_step t) ok1 in
        rw more (ok2, (λ p. same2 p ∙ same1 p), cap2 ∙ cap1)
  ]

  rehash_loop-empties :
      (work : ℕ) (t : AdptvHtable A)
      → IsAdptv t
      → left t ≤ work
      → total (rehash_loop work t).prev ≡ 0
  unfolding rehash_loop
  rehash_loop-empties zero t ok le = omega arith
  rehash_loop-empties (suc work) t ok le = elim (Bool-cases (t.prev.size == 0)) [
    | inl done ↦ rw done (omega (arith, ==→eq t.prev.size 0 done, ok.prev_ok.counted))
    | inr more ↦
        let pos : 0 < total t.prev = omega (arith, size_pos t.prev.size more, ok.prev_ok.counted) in
        let (ok1, same1, less, cap1) = rehash_step-Moved t ok pos in
        rw more (rehash_loop-empties work (rehash_step t) ok1 (omega arith))
  ]

  pub finish-Kept : (t : AdptvHtable A) → IsAdptv t → Kept t (adptv_htable_finish_rehashing t)
  unfolding adptv_htable_finish_rehashing
  finish-Kept t ok = rehash_loop-Kept (t.prev.size + t.prev.cap) t ok

  pub help-Kept : (t : AdptvHtable A) → IsAdptv t → Kept t (adptv_htable_help_rehashing t)
  unfolding adptv_htable_help_rehashing
  help-Kept t ok = rehash_loop-Kept t.settings.rehashing_work t ok

  -- `adptv_htable_finish_rehashing` ends with the old table empty: a round for each of its nodes and buckets is
  -- enough. Every node is in the new table then, and both tables are well formed.
  pub adptv_htable_finish_rehashing_lem :
      (t : AdptvHtable A)
      → IsAdptv t
      → IsAdptv (adptv_htable_finish_rehashing t)
        × ((p : Node A → Bool) → count_in p (adptv_htable_finish_rehashing t).current ≡ items p t)
        × (total (adptv_htable_finish_rehashing t).prev ≡ 0)
  unfolding adptv_htable_finish_rehashing
  adptv_htable_finish_rehashing_lem t ok =
      let work = t.prev.size + t.prev.cap in
      let (ok1, same, cap) = rehash_loop-Kept work t ok in
      let empty = rehash_loop-empties work t ok (omega (arith, ok.prev_ok.counted)) in
      (
        ok1,
        (λ p. omega (arith, same p, empty, count_all-le p (rehash_loop work t).prev.table)),
        empty,
      )
