-- ===== src/HashTable/Table.antt =====
-- The operations of libs/nscore/hash_table.c, by what they do to the nodes of the table.
use numstore.Prelude.{
  none_is_not_some, ℕ, zero, suc, ◌+◌, ◌%◌, ◌^◌, ◌<◌, Bool, true, List, [], ◌∷◌, none, some, length,
  length-set, length-replicate, get_elem?, All, ◌≡◌, sym, arith, ap, ◌∙◌, Option-cases, inl, inr,
  some_inj, subst,
}
use numstore.HashTable.{
  Node, Htable, bucket, link_of, htable_create, htable_insert, matches, find_from, htable_lookup,
  remove_at, node_at, htable_delete,
}
use numstore.HashTable.Count.{
  one_if, count_all, count_all-set, count-remove_at, count_all-replicate, find_from-some,
  find_from-none, Placed, Placed-set, Placed-bucket, Placed-replicate, count_all-bucket,
}

abbrev pub every {ℓ} : {A : Type ℓ} → Node A → Bool
every x = true

-- The nodes of a table with a property, and all of them.
abbrev pub count_in {ℓ} : {A : Type ℓ} → (Node A → Bool) → Htable A → ℕ
count_in p t = count_all p t.table

abbrev pub total {ℓ} : {A : Type ℓ} → Htable A → ℕ
total t = count_in every t

-- A bucket for each number below `cap`, each node in the bucket of its hash code, and the right size.
pub record IsHtable {ℓ} {A : Type ℓ} (t : Htable A) : Type 0 where
  pub cap_pos : 0 < t.cap
  pub buckets : length t.table ≡ t.cap
  pub placed : Placed t.cap 0 t.table
  pub counted : t.size ≡ total t
  pub small : total t < 2 ^ 32

module _ {ℓ} {A : Type ℓ} where
  pub htable_create-IsHtable : (n : ℕ) → 0 < n → IsHtable (htable_create {A = A} n)
  unfolding htable_create
  htable_create-IsHtable n h = record {
    cap_pos = h;
    buckets = length-replicate n [];
    placed = Placed-replicate A n n 0;
    counted = sym (count_all-replicate (every {A = A}) n);
    small = omega (arith, count_all-replicate (every {A = A}) n);
  }

  pub htable_create-count : (p : Node A → Bool) (n : ℕ) → count_in p (htable_create n) ≡ 0
  unfolding htable_create
  htable_create-count p n = count_all-replicate p n

  module _ (t : Htable A) (ok : IsHtable t) (node : Node A) where
    pub htable_insert-count :
        (p : Node A → Bool) → count_in p (htable_insert t node) ≡ one_if (p node) + count_in p t
    unfolding htable_insert
    htable_insert-count p =
        let pos = node.hcode % t.cap in
        let within : pos < length t.table = grind (arith, ok.buckets, ok.cap_pos) in
        omega (arith, count_all-set p t.table pos (node ∷ bucket t.table pos) within)

    pub htable_insert-IsHtable : total t + 1 < 2 ^ 32 → IsHtable (htable_insert t node)
    unfolding htable_insert
    htable_insert-IsHtable room =
        let pos = node.hcode % t.cap in
        let more = htable_insert-count every in
        record {
          cap_pos = ok.cap_pos;
          buckets = length-set t.table pos (node ∷ bucket t.table pos) ∙ ok.buckets;
          placed = Placed-set t.cap t.table 0 pos (node ∷ bucket t.table pos) ok.placed (
            (let e : node.hcode % t.cap ≡ 0 + pos = omega arith in e),
            Placed-bucket t.cap t.table 0 pos ok.placed,
          );
          counted = omega (arith, more, ok.counted);
          small = omega (arith, more);
        }

  within_buckets :
      (bs : List (List (Node A))) (i k : ℕ) (x : Node A)
      → get_elem? (bucket bs i) k ≡ some x
      → i < length bs
  unfolding bucket
  within_buckets [] i k x e = cc
  within_buckets (b ∷ bs) zero k x e = omega arith
  within_buckets (b ∷ bs) (suc i) k x e = omega (arith, within_buckets bs i k x e)

  All-remove_at :
      (P : Node A → Type 0) (xs : List (Node A)) (i : ℕ) → All P xs → All P (remove_at xs i)
  unfolding remove_at
  All-remove_at P [] i h = tt
  All-remove_at P (x ∷ xs) zero (hx, h) = h
  All-remove_at P (x ∷ xs) (suc i) (hx, h) = (hx, All-remove_at P xs i h)

  module _ (t : Htable A) (ok : IsHtable t) (from : ℕ × ℕ) (x : Node A)
      (there : node_at t from ≡ some x) where
    pub htable_delete-count :
        (p : Node A → Bool) → count_in p (htable_delete t from) + one_if (p x) ≡ count_in p t
    unfolding htable_delete node_at
    htable_delete-count p =
        let b = bucket t.table from.0 in
        omega (
          arith,
          count_all-set p t.table from.0 (remove_at b from.1)
              (within_buckets t.table from.0 from.1 x there),
          count-remove_at p b from.1 x there,
        )

    pub htable_delete-IsHtable : IsHtable (htable_delete t from)
    unfolding htable_delete
    htable_delete-IsHtable =
        let fewer = htable_delete-count every in
        let b = bucket t.table from.0 in
        record {
          cap_pos = ok.cap_pos;
          buckets = length-set t.table from.0 (remove_at b from.1) ∙ ok.buckets;
          placed = Placed-set t.cap t.table 0 from.0 (remove_at b from.1) ok.placed (
              All-remove_at (λ y. y.hcode % t.cap ≡ 0 + from.0) b from.1
                (Placed-bucket t.cap t.table 0 from.0 ok.placed));
          counted = omega (arith, fewer, ok.counted, ok.small);
          small = omega (arith, fewer, ok.small);
        }

  module _ (eq : Node A → Node A → Bool) (t : Htable A) (key : Node A) where
    pub htable_lookup-some :
        (from : ℕ × ℕ)
        → htable_lookup eq t key ≡ some from
        → (x : Node A) × (node_at t from ≡ some x) × (matches eq key x ≡ true)
    unfolding htable_lookup link_of node_at
    htable_lookup-some from e =
        elim (Option-cases (find_from (matches eq key) 0 (bucket t.table (key.hcode % t.cap)))) [
          | inl nothing ↦ elim (none_is_not_some (rw nothing at e)) [ ]
          | inr (i, at_i) ↦
              let (k, x, off, at, m) =
                find_from-some (matches eq key) (bucket t.table (key.hcode % t.cap)) 0 i at_i in
              let here : (key.hcode % t.cap, k) ≡ from =
                ap (λ n. (key.hcode % t.cap, n)) (let f : k ≡ i = omega arith in f)
                ∙ some_inj (rw at_i at e) in
              (x, subst (λ f. get_elem? (bucket t.table f.0) f.1 ≡ some x) here at, m)
        ]

    matches-home : (x : Node A) → matches eq key x ≡ true → x.hcode % t.cap ≡ key.hcode % t.cap
    unfolding matches
    matches-home x m = ap (λ n. n % t.cap) (let e : x.hcode ≡ key.hcode = ground arith in e)

    pub htable_lookup-none :
        IsHtable t → htable_lookup eq t key ≡ none → count_in (matches eq key) t ≡ 0
    unfolding htable_lookup link_of
    htable_lookup-none ok e =
        let pos = key.hcode % t.cap in
        let b = bucket t.table pos in
        elim (Option-cases (find_from (matches eq key) 0 b)) [
          | inl nothing ↦
              count_all-bucket t.cap (matches eq key) pos matches-home t.table 0 pos ok.placed
                (omega arith)
              ∙ find_from-none (matches eq key) b 0 nothing
          | inr (i, at_i) ↦ elim (none_is_not_some (sym (rw at_i at e))) [ ]
        ]
