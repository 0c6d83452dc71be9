-- ===== src/HashTable.antt =====
-- The hash tables of libs/nscore: hash_table.c, chains of nodes in buckets, and adptv_hash_table.c, which
-- moves the nodes of an old table to a new one a few at a time. A chain is the list of its nodes, and
-- a pointer to a link is the bucket and the index of the node that it points to. Numbers have 32 bits.
pub mod Count
pub mod Table
pub mod Rehash
pub mod Adptv
pub mod Delete
mod Tests
use numstore.Prelude.{
  ℕ, zero, suc, ◌+◌, ◌-◌, ◌*◌, ◌/◌, ◌%◌, ◌^◌, Bool, true, false, ◌&&◌, List, [], ◌∷◌, Option, none,
  some, ltb, leb, ◌==◌, if◌then◌else◌, replicate, get_elem?, set,
}

-- `struct hnode` with what it stands in.
pub record Node {ℓ} (A : Type ℓ) : Type ℓ where
  pub hcode : ℕ
  pub item : A

-- `struct htable`.
pub record Htable {ℓ} (A : Type ℓ) : Type ℓ where
  pub cap : ℕ
  pub size : ℕ
  pub table : List (List (Node A))

-- `struct adptv_htable_settings`.
pub record Settings : Type 0 where
  pub max_load_factor : ℕ
  pub min_load_factor : ℕ
  pub rehashing_work : ℕ
  pub max_size : ℕ
  pub min_size : ℕ

-- `struct adptv_htable`.
pub record AdptvHtable {ℓ} (A : Type ℓ) : Type ℓ where
  pub current : Htable A
  pub prev : Htable A
  pub migrate_pos : ℕ
  pub settings : Settings

-- A link of the bucket `pos`.
unfoldable pub link_of : ℕ → Option ℕ → Option (ℕ × ℕ)
link_of pos none = none
link_of pos (some i) = some (pos, i)

module _ {ℓ} {A : Type ℓ} where
  unfoldable pub htable_create : ℕ → Htable A
  htable_create n = record { cap = n; size = 0; table = replicate n [] }

  -- A bucket.
  unfoldable pub bucket : List (List (Node A)) → ℕ → List (Node A)
  bucket [] i = []
  bucket (b ∷ bs) zero = b
  bucket (b ∷ bs) (suc i) = bucket bs i

  unfoldable pub htable_insert : Htable A → Node A → Htable A
  htable_insert t node =
      let pos = node.hcode % t.cap in
      record t { table = set t.table pos (node ∷ bucket t.table pos); size = (t.size + 1) % 2 ^ 32 }

  -- The test of `htable_lookup`.
  unfoldable pub matches : (Node A → Node A → Bool) → Node A → Node A → Bool
  matches eq key cur = cur.hcode == key.hcode && eq cur key

  -- Its loop over a chain, from the index `i` on.
  unfoldable pub find_from : (Node A → Bool) → ℕ → List (Node A) → Option ℕ
  find_from test i [] = none
  find_from test i (cur ∷ chain) = if test cur then some i else find_from test (i + 1) chain

  -- `htable_lookup`: the bucket and the index of a link.
  unfoldable pub htable_lookup : (Node A → Node A → Bool) → Htable A → Node A → Option (ℕ × ℕ)
  htable_lookup eq t key =
      let pos = key.hcode % t.cap in link_of pos (find_from (matches eq key) 0 (bucket t.table pos))

  unfoldable pub remove_at : List (Node A) → ℕ → List (Node A)
  remove_at [] i = []
  remove_at (x ∷ xs) zero = xs
  remove_at (x ∷ xs) (suc i) = x ∷ remove_at xs i

  -- The node that a link points to.
  unfoldable pub node_at : Htable A → ℕ × ℕ → Option (Node A)
  node_at t from = get_elem? (bucket t.table from.0) from.1

  -- `htable_delete`, whose result is `node_at`.
  unfoldable pub htable_delete : Htable A → ℕ × ℕ → Htable A
  htable_delete t from = record t {
    table = set t.table from.0 (remove_at (bucket t.table from.0) from.1);
    size = (t.size + 2 ^ 32 - 1) % 2 ^ 32;
  }

  unfoldable pub adptv_htable_init : Settings → AdptvHtable A
  adptv_htable_init s = record {
    current = htable_create s.min_size;
    prev = htable_create s.min_size;
    migrate_pos = 0;
    settings = s;
  }

  -- A round of both loops that move nodes: the first node of a bucket, or on to the next bucket.
  unfoldable pub move_node : AdptvHtable A → Option (Node A) → AdptvHtable A
  move_node t none = record t { migrate_pos = t.migrate_pos + 1 }
  move_node t (some node) = record t {
    current = htable_insert t.current node;
    prev = htable_delete t.prev (t.migrate_pos, 0);
  }

  unfoldable pub rehash_step : AdptvHtable A → AdptvHtable A
  rehash_step t = move_node t (node_at t.prev (t.migrate_pos, 0))

  -- The loop of `adptv_htable_help_rehashing`, with the work that is left.
  unfoldable pub rehash_loop : ℕ → AdptvHtable A → AdptvHtable A
  rehash_loop zero t = t
  rehash_loop (suc work) t =
      let rest = rehash_loop work (rehash_step t) in if t.prev.size == 0 then t else rest

  unfoldable pub adptv_htable_help_rehashing : AdptvHtable A → AdptvHtable A
  adptv_htable_help_rehashing t = rehash_loop t.settings.rehashing_work t

  -- `adptv_htable_finish_rehashing`: a round for each node and for each bucket.
  unfoldable pub adptv_htable_finish_rehashing : AdptvHtable A → AdptvHtable A
  adptv_htable_finish_rehashing t = rehash_loop (t.prev.size + t.prev.cap) t

  -- The lookup in the old table.
  unfoldable pub lookup_prev : AdptvHtable A → Option (ℕ × ℕ) → Option (Node A)
  lookup_prev t none = none
  lookup_prev t (some from) = node_at t.prev from

  unfoldable pub lookup_current :
      (Node A → Node A → Bool) → AdptvHtable A → Node A → Option (ℕ × ℕ) → Option (Node A)
  lookup_current eq t key none = lookup_prev t (htable_lookup eq t.prev key)
  lookup_current eq t key (some from) = node_at t.current from

  unfoldable pub adptv_htable_lookup :
      (Node A → Node A → Bool) → AdptvHtable A → Node A → Option (Node A)
  adptv_htable_lookup eq t key = lookup_current eq t key (htable_lookup eq t.current key)

  -- The result of `htable_create` is an argument: whether its memory is there.
  unfoldable pub adptv_htable_trigger_rehashing : Bool → AdptvHtable A → ℕ → AdptvHtable A × Bool
  adptv_htable_trigger_rehashing memory t newcap =
      let t1 = adptv_htable_finish_rehashing t in
      if memory
      then (record t1 { prev = t1.current; current = htable_create newcap; migrate_pos = 0 }, true)
      else (t1, false)

  -- What `adptv_htable_insert` does behind the resizing; `true` is SUCCESS.
  unfoldable pub insert_behind : AdptvHtable A × Bool → Node A → AdptvHtable A × Bool
  insert_behind (t1, success) node =
      if success
      then (
        adptv_htable_help_rehashing (record t1 { current = htable_insert t1.current node }),
        true,
      )
      else (t1, false)

  unfoldable pub adptv_htable_insert : Bool → AdptvHtable A → Node A → AdptvHtable A × Bool
  adptv_htable_insert memory t node =
      let size = (t.current.size + t.prev.size) % 2 ^ 32 in
      let threshold = t.current.cap * t.settings.max_load_factor % 2 ^ 32 in
      let newcap = t.current.cap * 2 % 2 ^ 32 in
      let is_full = leb threshold ((size + 1) % 2 ^ 32) && leb newcap t.settings.max_size in
      insert_behind (if is_full then adptv_htable_trigger_rehashing memory t newcap else (t, true))
        node

  -- What `adptv_htable_delete` does behind the resizing.
  unfoldable pub delete_prev : AdptvHtable A → Option (ℕ × ℕ) → AdptvHtable A × Option (Node A)
  delete_prev t none = (t, none)
  delete_prev t (some from) = (record t { prev = htable_delete t.prev from }, node_at t.prev from)

  unfoldable pub delete_current :
      (Node A → Node A → Bool)
      → AdptvHtable A
      → Node A
      → Option (ℕ × ℕ)
      → AdptvHtable A × Option (Node A)
  delete_current eq t key none = delete_prev t (htable_lookup eq t.prev key)
  delete_current eq t key (some from) =
      (record t { current = htable_delete t.current from }, node_at t.current from)

  unfoldable pub delete_found :
      (Node A → Node A → Bool) → AdptvHtable A → Node A → AdptvHtable A × Option (Node A)
  delete_found eq t key = delete_current eq t key (htable_lookup eq t.current key)

  -- What is deleted is given beside the result.
  unfoldable pub delete_behind :
      (Node A → Node A → Bool)
      → AdptvHtable A × Bool
      → Node A
      → AdptvHtable A × Bool × Option (Node A)
  delete_behind eq (t1, success) key =
      if success
      then (let (t2, found) = delete_found eq t1 key in (t2, true, found))
      else (t1, false, none)

  unfoldable pub adptv_htable_delete :
      Bool
      → (Node A → Node A → Bool)
      → AdptvHtable A
      → Node A
      → AdptvHtable A × Bool × Option (Node A)
  adptv_htable_delete memory eq t key =
      let size = (t.current.size + t.prev.size) % 2 ^ 32 in
      let threshold = (t.current.cap + 1) * t.settings.min_load_factor % 2 ^ 32 in
      let newcap = t.current.cap / 2 in
      let is_sparse = leb size ((threshold + 1) % 2 ^ 32) && leb t.settings.min_size newcap in
      delete_behind eq
        (if is_sparse then adptv_htable_trigger_rehashing memory t newcap else (t, true)) key
