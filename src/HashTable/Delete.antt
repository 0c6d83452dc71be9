-- ===== src/HashTable/Delete.antt =====
-- adptv_htable_delete of libs/nscore/adptv_hash_table.c on the collection of all nodes.
use numstore.Prelude.{
  ℕ, zero, suc, ◌+◌, ◌*◌, ◌/◌, ◌%◌, ◌^◌, ◌<◌, Bool, true, false, not, ◌&&◌, ◌||◌, List, [], ◌∷◌,
  Option, none, some, leb, if◌then◌else◌, set, ◌≡◌, refl, sym, arith, ap, ◌∙◌, Option-cases, inl,
  inr,
}
use numstore.HashTable.{
  Node, AdptvHtable, bucket, matches, htable_lookup, remove_at, node_at, htable_delete,
  adptv_htable_trigger_rehashing, delete_prev, delete_current, delete_found, delete_behind,
  adptv_htable_delete,
}
use numstore.HashTable.Count.{one_if}
use numstore.HashTable.Table.{
  every, htable_delete-count, htable_delete-IsHtable, htable_lookup-some, htable_lookup-none,
}
use numstore.HashTable.Rehash.{IsAdptv, items}
use numstore.HashTable.Adptv.{Resized, resize-Resized, resize_memory}

module _ {ℓ} {A : Type ℓ} where
  -- An empty bucket is empty still.
  bucket-remove :
      (bs : List (List (Node A))) (i k j : ℕ)
      → bucket bs i ≡ []
      → bucket (set bs k (remove_at (bucket bs k) j)) i ≡ []
  unfolding bucket remove_at
  bucket-remove [] i k j e = refl
  bucket-remove (b ∷ bs) zero zero j e = rw e refl
  bucket-remove (b ∷ bs) zero (suc k) j e = e
  bucket-remove (b ∷ bs) (suc i) zero j e = e
  bucket-remove (b ∷ bs) (suc i) (suc k) j e = bucket-remove bs i k j e

  -- What a deletion does: the node that it gives, which matches the key, is gone, or none matches it.
  abbrev pub Deleted :
      (Node A → Bool)
      → (Node A → Node A → Bool)
      → Node A
      → AdptvHtable A
      → AdptvHtable A
      → Bool
      → Option (Node A)
      → Type 0
  Deleted p eq key t t' false none = items p t' ≡ items p t
  Deleted p eq key t t' false (some x) = ⊥
  Deleted p eq key t t' true none = (items p t' ≡ items p t) × (items (matches eq key) t ≡ 0)
  Deleted p eq key t t' true (some x) =
      (items p t' + one_if (p x) ≡ items p t) × (matches eq key x ≡ true)

  module _ (p : Node A → Bool) (eq : Node A → Node A → Bool) (t : AdptvHtable A) (key : Node A)
      (ok : IsAdptv t) where
    passed_behind :
        (from : ℕ × ℕ) (i : ℕ) → i < t.migrate_pos → bucket (htable_delete t.prev from).table i ≡ []
    unfolding htable_delete
    passed_behind from i h = bucket-remove t.prev.table i from.0 from.1 (ok.passed i h)

    delete_cap : (from : ℕ × ℕ) → (htable_delete t.prev from).cap ≡ t.prev.cap
    unfolding htable_delete
    delete_cap from = refl

    prev_ok_behind :
        (from : ℕ × ℕ) (x : Node A)
        → node_at t.prev from ≡ some x
        → IsAdptv (record t { prev = htable_delete t.prev from })
    prev_ok_behind from x there = record {
      current_ok = ok.current_ok;
      prev_ok = htable_delete-IsHtable t.prev ok.prev_ok from x there;
      passed = passed_behind from;
      in_range = omega (arith, delete_cap from, ok.in_range);
      few = omega (arith, htable_delete-count t.prev ok.prev_ok from x there every, ok.few);
    }

    current_ok_behind :
        (from : ℕ × ℕ) (x : Node A)
        → node_at t.current from ≡ some x
        → IsAdptv (record t { current = htable_delete t.current from })
    current_ok_behind from x there = record {
      current_ok = htable_delete-IsHtable t.current ok.current_ok from x there;
      prev_ok = ok.prev_ok;
      passed = ok.passed;
      in_range = ok.in_range;
      few = omega (arith, htable_delete-count t.current ok.current_ok from x there every, ok.few);
    }

    delete_prev-Deleted :
        htable_lookup eq t.current key ≡ none
        → let (t', found) = delete_prev t (htable_lookup eq t.prev key) in
          IsAdptv t' × Deleted p eq key t t' true found
    unfolding delete_prev
    delete_prev-Deleted none_now = elim (Option-cases (htable_lookup eq t.prev key)) [
      | inl e ↦
          let old = htable_lookup-none eq t.prev key ok.prev_ok e in
          let new = htable_lookup-none eq t.current key ok.current_ok none_now in
          rw e (ok, (refl, omega (arith, old, new)))
      | inr (from, e) ↦
          let (x, there, m) = htable_lookup-some eq t.prev key from e in
          rw (e, there)
            (
              prev_ok_behind from x there,
              (omega (arith, htable_delete-count t.prev ok.prev_ok from x there p), m),
            )
    ]

    delete_found-Deleted :
        let (t', found) = delete_found eq t key in IsAdptv t' × Deleted p eq key t t' true found
    unfolding delete_found delete_current
    delete_found-Deleted = elim (Option-cases (htable_lookup eq t.current key)) [
      | inl e ↦ rw e (delete_prev-Deleted e)
      | inr (from, e) ↦
          let (x, there, m) = htable_lookup-some eq t.current key from e in
          rw (e, there)
            (
              current_ok_behind from x there,
              (omega (arith, htable_delete-count t.current ok.current_ok from x there p), m),
            )
    ]

  Deleted-same :
      (p : Node A → Bool) (eq : Node A → Node A → Bool) (key : Node A) (t t1 t2 : AdptvHtable A)
      (found : Option (Node A))
      → items p t1 ≡ items p t
      → items (matches eq key) t1 ≡ items (matches eq key) t
      → Deleted p eq key t1 t2 true found
      → Deleted p eq key t t2 true found
  Deleted-same p eq key t t1 t2 none e f (same, gone) = (same ∙ e, sym f ∙ gone)
  Deleted-same p eq key t t1 t2 (some x) e f (less, m) = (less ∙ e, m)

  delete_behind-Deleted :
      (p : Node A → Bool) (eq : Node A → Node A → Bool) (t : AdptvHtable A)
      (r : AdptvHtable A × Bool) (key : Node A)
      → Resized t r
      → let (t', success, found) = delete_behind eq r key in
        IsAdptv t' × Deleted p eq key t t' success found
  unfolding delete_behind
  delete_behind-Deleted p eq t (t1, false) key (ok1, same) = (ok1, same p)
  delete_behind-Deleted p eq t (t1, true) key (ok1, same) =
      let (ok2, d) = delete_found-Deleted p eq t1 key ok1 in
      (
        ok2,
        Deleted-same p eq key t t1 (delete_found eq t1 key).0 (delete_found eq t1 key).1 (same p)
            (same (matches eq key)) d,
      )

  delete_behind_success :
      (eq : Node A → Node A → Bool) (r : AdptvHtable A × Bool) (key : Node A)
      → (delete_behind eq r key).1 ≡ r.1
  unfolding delete_behind
  delete_behind_success eq (t1, true) key = refl
  delete_behind_success eq (t1, false) key = refl

  -- A deletion takes away the node that it gives, which matches the key, and keeps all others; it gives none where no
  -- node of the table matches the key, and where the memory for a smaller table is missing. The table stays well
  -- formed. The smallest size of a table is not 0.
  pub adptv_htable_delete_lem :
      (p : Node A → Bool) (memory : Bool) (eq : Node A → Node A → Bool) (t : AdptvHtable A)
      (key : Node A)
      → IsAdptv t
      → 0 < t.settings.min_size
      → let (t', success, found) = adptv_htable_delete memory eq t key in
        IsAdptv t' × Deleted p eq key t t' success found × ((success || not memory) ≡ true)
  unfolding adptv_htable_delete
  adptv_htable_delete_lem p memory eq t key ok pos =
      let size = (t.current.size + t.prev.size) % 2 ^ 32 in
      let threshold = (t.current.cap + 1) * t.settings.min_load_factor % 2 ^ 32 in
      let newcap = t.current.cap / 2 in
      let test = leb size ((threshold + 1) % 2 ^ 32) && leb t.settings.min_size newcap in
      let r = if test then adptv_htable_trigger_rehashing memory t newcap else (t, true) in
      let resized : Resized t r = resize-Resized test memory t newcap ok (λ e. ground arith) in
      let (ok2, d) = delete_behind-Deleted p eq t r key resized in
      (
        ok2,
        d,
        ap (λ b. b || not memory) (delete_behind_success eq r key)
            ∙ resize_memory test memory t newcap,
      )
