-- ===== src/HashTable/Adptv.antt =====
-- The operations of libs/nscore/adptv_hash_table.c as operations on one collection of nodes, wherever these
-- stand and whether or not the table is resized.
use numstore.Prelude.{
  ℕ, ◌+◌, ◌*◌, ◌%◌, ◌^◌, ◌≤◌, ◌<◌, Bool, true, false, not, ◌&&◌, ◌||◌, Option, none, some, leb,
  if◌then◌else◌, ◌≡◌, refl, arith, ap, ◌∙◌, Option-cases, inl, inr,
}
use numstore.HashTable.{
  Node, Settings, AdptvHtable, htable_insert, matches, htable_lookup, adptv_htable_init,
  lookup_prev, lookup_current, adptv_htable_lookup, adptv_htable_trigger_rehashing, insert_behind,
  adptv_htable_insert,
}
use numstore.HashTable.Count.{one_if}
use numstore.HashTable.Table.{
  every, htable_create-IsHtable, htable_create-count, htable_insert-count, htable_insert-IsHtable,
  htable_delete-count, htable_lookup-some, htable_lookup-none,
}
use numstore.HashTable.Rehash.{
  IsAdptv, items, finish-Kept, help-Kept, adptv_htable_finish_rehashing_lem,
}

module _ {ℓ} {A : Type ℓ} where
  -- A resizing that has ended well, or for which there was no memory, keeps the nodes.
  abbrev pub Resized : AdptvHtable A → AdptvHtable A × Bool → Type ℓ
  Resized t (t', success) = IsAdptv t' × ((p : Node A → Bool) → items p t' ≡ items p t)

  trigger-Resized :
      (memory : Bool) (t : AdptvHtable A) (newcap : ℕ)
      → IsAdptv t
      → 0 < newcap
      → Resized t (adptv_htable_trigger_rehashing memory t newcap)
  unfolding adptv_htable_trigger_rehashing
  trigger-Resized false t newcap ok pos = let (ok1, same, cap) = finish-Kept t ok in (ok1, same)
  trigger-Resized true t newcap ok pos =
      let (ok1, same, empty) = adptv_htable_finish_rehashing_lem t ok in
      (
        record {
          current_ok = htable_create-IsHtable newcap pos;
          prev_ok = ok1.current_ok;
          passed = λ i h. absurd (omega arith);
          in_range = omega arith;
          few = omega (arith, htable_create-count (every {A = A}) newcap, ok1.current_ok.small);
        },
        λ p. omega (arith, same p, htable_create-count p newcap),
      )

  -- `adptv_htable_init` gives a table with no nodes.
  pub adptv_htable_init-IsAdptv :
      (s : Settings)
      → 0 < s.min_size
      → IsAdptv (adptv_htable_init {A = A} s)
        × ((p : Node A → Bool) → items p (adptv_htable_init s) ≡ 0)
  unfolding adptv_htable_init
  adptv_htable_init-IsAdptv s pos =
      let ok = htable_create-IsHtable {A = A} s.min_size pos in
      let none_there = htable_create-count {A = A} in
      (
        record {
          current_ok = ok;
          prev_ok = ok;
          passed = λ i h. absurd (omega arith);
          in_range = omega arith;
          few = omega (arith, none_there every s.min_size);
        },
        λ p. omega (arith, none_there p s.min_size),
      )

  -- The resizing at the head of an insertion or a deletion.
  pub resize-Resized :
      (test memory : Bool) (t : AdptvHtable A) (newcap : ℕ)
      → IsAdptv t
      → (test ≡ true → 0 < newcap)
      → Resized t (if test then adptv_htable_trigger_rehashing memory t newcap else (t, true))
  resize-Resized true memory t newcap ok pos = trigger-Resized memory t newcap ok (pos refl)
  resize-Resized false memory t newcap ok pos = (ok, λ p. refl)

  pub resize_memory :
      (test memory : Bool) (t : AdptvHtable A) (newcap : ℕ)
      → ((if test then adptv_htable_trigger_rehashing memory t newcap else (t, true)).1
          || not memory)
        ≡ true
  unfolding adptv_htable_trigger_rehashing
  resize_memory true true t newcap = refl
  resize_memory true false t newcap = refl
  resize_memory false memory t newcap = refl

  insert_behind_success :
      (r : AdptvHtable A × Bool) (node : Node A) → (insert_behind r node).1 ≡ r.1
  unfolding insert_behind
  insert_behind_success (t1, true) node = refl
  insert_behind_success (t1, false) node = refl

  -- What an insertion does: all nodes with a property, and the new one if it succeeded.
  abbrev pub Inserted : (Node A → Bool) → Node A → AdptvHtable A → AdptvHtable A × Bool → Type ℓ
  Inserted p node t (t', success) =
      IsAdptv t' × (items p t' ≡ (if success then one_if (p node) else 0) + items p t)

  insert_behind-Inserted :
      (p : Node A → Bool) (t : AdptvHtable A) (r : AdptvHtable A × Bool) (node : Node A)
      → Resized t r
      → items every t + 1 < 2 ^ 32
      → Inserted p node t (insert_behind r node)
  unfolding insert_behind
  insert_behind-Inserted p t (t1, false) node (ok1, same) room = (ok1, omega (arith, same p))
  insert_behind-Inserted p t (t1, true) node (ok1, same) room =
      let come = htable_insert-count t1.current ok1.current_ok node in
      let t2 : AdptvHtable A = record t1 { current = htable_insert t1.current node } in
      let ok2 : IsAdptv t2 = record {
        current_ok =
            htable_insert-IsHtable t1.current ok1.current_ok node (omega (arith, same every));
        prev_ok = ok1.prev_ok;
        passed = ok1.passed;
        in_range = ok1.in_range;
        few = omega (arith, come every, same every);
      } in
      let (ok3, same3, cap3) = help-Kept t2 ok2 in (ok3, omega (arith, same3 p, come p, same p))

  -- An insertion adds the node and keeps all others, however many of them are moved between the tables, and with
  -- them the table stays well formed; where the memory for a larger table is missing it adds nothing. The nodes
  -- can be counted with 32 bits, and the capacity can be doubled.
  pub adptv_htable_insert_lem :
      (p : Node A → Bool) (memory : Bool) (t : AdptvHtable A) (node : Node A)
      → IsAdptv t
      → items every t + 1 < 2 ^ 32
      → t.current.cap < 2 ^ 31
      → Inserted p node t (adptv_htable_insert memory t node)
        × (((adptv_htable_insert memory t node).1 || not memory) ≡ true)
  unfolding adptv_htable_insert
  adptv_htable_insert_lem p memory t node ok room cap =
      let size = (t.current.size + t.prev.size) % 2 ^ 32 in
      let threshold = t.current.cap * t.settings.max_load_factor % 2 ^ 32 in
      let newcap = t.current.cap * 2 % 2 ^ 32 in
      let test = leb threshold ((size + 1) % 2 ^ 32) && leb newcap t.settings.max_size in
      let r = if test then adptv_htable_trigger_rehashing memory t newcap else (t, true) in
      let resized : Resized t r =
        resize-Resized test memory t newcap ok (λ e. omega (arith, ok.current_ok.cap_pos, cap)) in
      (
        insert_behind-Inserted p t r node resized room,
        ap (λ b. b || not memory) (insert_behind_success r node)
            ∙ resize_memory test memory t newcap,
      )

  -- What a lookup gives: a node of the table that matches the key, or that none does.
  abbrev pub LookedUp :
      (Node A → Bool) → (Node A → Node A → Bool) → Node A → AdptvHtable A → Option (Node A) → Type 0
  LookedUp p eq key t none = items (matches eq key) t ≡ 0
  LookedUp p eq key t (some x) = (matches eq key x ≡ true) × (one_if (p x) ≤ items p t)

  module _ (eq : Node A → Node A → Bool) (t : AdptvHtable A) (key : Node A) (ok : IsAdptv t) where
    lookup_prev-LookedUp :
        (p : Node A → Bool)
        → htable_lookup eq t.current key ≡ none
        → LookedUp p eq key t (lookup_prev t (htable_lookup eq t.prev key))
    unfolding lookup_prev
    lookup_prev-LookedUp p none_now = elim (Option-cases (htable_lookup eq t.prev key)) [
      | inl e ↦ rw e (
          omega (
            arith,
            htable_lookup-none eq t.current key ok.current_ok none_now,
            htable_lookup-none eq t.prev key ok.prev_ok e,
          ))
      | inr (from, e) ↦
          let (x, there, m) = htable_lookup-some eq t.prev key from e in
          let gone = htable_delete-count t.prev ok.prev_ok from x there p in
          rw (e, there) (m, omega (arith, gone))
    ]

    -- A lookup finds a node of the table, in whichever half it stands, that matches the key; where it finds
    -- nothing, no node of the table matches it.
    pub adptv_htable_lookup_lem :
        (p : Node A → Bool) → LookedUp p eq key t (adptv_htable_lookup eq t key)
    unfolding adptv_htable_lookup lookup_current
    adptv_htable_lookup_lem p = elim (Option-cases (htable_lookup eq t.current key)) [
      | inl e ↦ rw e (lookup_prev-LookedUp p e)
      | inr (from, e) ↦
          let (x, there, m) = htable_lookup-some eq t.current key from e in
          let gone = htable_delete-count t.current ok.current_ok from x there p in
          rw (e, there) (m, omega (arith, gone))
    ]
