-- ===== src/InnerNode/Validate.antt =====
-- `in_validate_for_db` of libs/nspager/inner_node.c, with the table of robin_hood_ht.h for duplicates.
use numstore.Prelude.{
  ℕ, zero, suc, ◌+◌, ◌/◌, List, ◌≤◌, ◌<◌, Bool, Option, none, some, ◌↔◌, true, false, not, ◌&&◌,
  ltb, ◌==◌, if◌then◌else◌, ◌≡◌, ◌≢◌, refl, sym, arith, ap, ◌∙◌, subst, Bool-cases, inl, inr,
  ltb→lt, ltb-false→le, none_is_not_some,
}
use numstore.DataList.{pgno_null}
use numstore.InnerNode.{in_max_keys, InPair, InnerNode, at}
use numstore.RobinHood.{HData, Elems, HtiRes, success, exists, full, ht_init, ht_insert, ht_get}
use numstore.RobinHood.Table.{IsTable, Distinct, Holds, Both}
use numstore.RobinHood.Lookup.{AfterInsert, ht_get_lem, ht_insert_lem, ht_init-IsTable}

-- PG_INNER_NODE.
abbrev pub pg_inner_node : ℕ
pg_inner_node = 8

unfoldable pub is_success : HtiRes → Bool
is_success success = true
is_success exists = false
is_success full = false

-- The data of a leaf, with the value 0.
abbrev pub leaf_data : List InPair → ℕ → HData ℕ
leaf_data xs i = record { key = (at xs i).1; value = 0 }

-- The loop over the leaves, with `k` rounds left from `i` on: no leaf is in the table before it.
unfoldable pub leafs_loop : ℕ → ℕ → List InPair → Elems ℕ → Bool
leafs_loop zero i xs t = true
leafs_loop (suc k) i xs t =
    let r = ht_insert in_max_keys t (leaf_data xs i) in
    is_success r.1 && leafs_loop k (i + 1) xs r.0

-- `in_is_root`.
unfoldable pub in_is_root : InnerNode → Bool
in_is_root n = n.next == pgno_null && n.prev == pgno_null

-- `in_validate_for_db`, of the page's type and its contents: whether it returns SUCCESS and not ERR_CORRUPT.
unfoldable pub in_validate_for_db : ℕ → InnerNode → Bool
in_validate_for_db header n =
    if not (header == pg_inner_node)
    then false
    else if ltb in_max_keys n.len
    then false
    else if not (leafs_loop n.len 0 n.nodes (ht_init {A = ℕ}))
    then false
    else if in_is_root n
    then not (n.len == 0)
    else not (ltb n.len (in_max_keys / 2))

false_is_not_true : false ≡ true → ⊥
false_is_not_true e = cc

both_true : (a b : Bool) → (a && b) ≡ true → (a ≡ true) × (b ≡ true)
both_true true b h = (refl, h)
both_true false b h = absurd (false_is_not_true h)

-- A new item has gone into the table.
abbrev Added : Elems ℕ → HData ℕ → Elems ℕ → Type 0
Added t item t' =
    IsTable in_max_keys t' × Distinct t' × ((d : HData ℕ) → Holds t' d ↔ Both t item d)

added :
    (t : Elems ℕ) (item : HData ℕ) (before : Option (HData ℕ)) (r : Elems ℕ × HtiRes)
    → AfterInsert in_max_keys t item before r
    → is_success r.1 ≡ true
    → (before ≡ none) × Added t item r.0
unfolding is_success
added t item (some d) r a s = absurd (false_is_not_true (subst (λ r'. is_success r'.1 ≡ true) a s))
added t item none (t', success) a s = (refl, a)
added t item none (t', exists) a s = absurd (false_is_not_true s)
added t item none (t', full) a s = absurd (false_is_not_true s)

-- The leaves before `i` are in the table.
abbrev Seen : List InPair → ℕ → Elems ℕ → Type 0
Seen xs i t = (m : ℕ) → m < i → Holds t (leaf_data xs m)

Seen-next :
    (xs : List InPair) (i : ℕ) (t t' : Elems ℕ)
    → Seen xs i t
    → Added t (leaf_data xs i) t'
    → Seen xs (i + 1) t'
Seen-next xs i t t' seen (ok, distinct, same) m lt = elim (Bool-cases (ltb m i)) [
  | inl before ↦ (same (leaf_data xs m)).1 (inl (seen m (ltb→lt m i before)))
  | inr last ↦
      let eq : i ≡ m = omega (arith, ltb-false→le m i last) in
      (same (leaf_data xs m)).1 (inr (ap (leaf_data xs) eq))
]

loop-Distinct :
    (k i : ℕ) (xs : List InPair) (t : Elems ℕ) (m j : ℕ)
    → IsTable in_max_keys t
    → Distinct t
    → Seen xs i t
    → leafs_loop k i xs t ≡ true
    → m < j
    → i ≤ j
    → j < i + k
    → (at xs m).1 ≡ (at xs j).1
    → ⊥
unfolding leafs_loop
loop-Distinct zero i xs t m j ok distinct seen h lt le below eq = omega arith
loop-Distinct (suc k) i xs t m j ok distinct seen h lt le below eq =
    let item = leaf_data xs i in
    let r = ht_insert in_max_keys t item in
    let (s, rest) = both_true (is_success r.1) (leafs_loop k (i + 1) xs r.0) h in
    let (absent, put) =
      added t item (ht_get in_max_keys t item.key) r (ht_insert_lem in_max_keys t item ok distinct)
        s in
    elim (Bool-cases (ltb i j)) [
      | inl later ↦
          loop-Distinct k (i + 1) xs r.0 m j put.0 put.1 (Seen-next xs i t r.0 seen put) rest lt
            (omega (arith, ltb→lt i j later)) (omega arith) eq
      | inr now ↦
          let is : j ≡ i = omega (arith, ltb-false→le i j now) in
          let same_key : (at xs m).1 ≡ item.key = eq ∙ ap (λ j'. (at xs j').1) is in
          none_is_not_some (
            sym absent
            ∙ (ht_get_lem in_max_keys t item.key (leaf_data xs m) ok distinct).1
                (seen m (omega arith), same_key))
    ]

-- What holds of an inner node that may stand in the database file.
pub record IsSound (header : ℕ) (n : InnerNode) : Type 0 where
  pub is_inner : header ≡ pg_inner_node
  pub within : n.len ≤ in_max_keys
  pub no_duplicates : (i j : ℕ) → i < j → j < n.len → (at n.nodes i).1 ≢ (at n.nodes j).1
  pub some_keys : 0 < n.len
  pub enough : in_is_root n ≡ false → in_max_keys / 2 ≤ n.len

-- A page that in_validate_for_db accepts has the type of inner nodes, at least one and at most IN_MAX_KEYS keys, at
-- least half as many unless it is a root, and no leaf twice among its keys' leaves.
pub in_validate_for_db-IsSound :
    (header : ℕ) (n : InnerNode) → in_validate_for_db header n ≡ true → IsSound header n
unfolding in_validate_for_db
in_validate_for_db-IsSound header n h =
    let checked : leafs_loop n.len 0 n.nodes (ht_init {A = ℕ}) ≡ true = ground (arith, h) in
    let empty = ht_init-IsTable {A = ℕ} in_max_keys in
    record {
      is_inner = ground (arith, h);
      within = ground (arith, h);
      no_duplicates = λ i j lt below.
          loop-Distinct n.len 0 n.nodes (ht_init {A = ℕ}) i j empty.0 empty.1
            (λ m l. absurd (omega arith)) checked lt (omega arith) (omega arith);
      some_keys = ground (arith, h);
      enough = λ inner. ground (arith, h, inner);
    }
