-- ===== src/RobinHood/Tests.antt =====
-- The table of libs/nscore/include/numstore/core/robin_hood_ht.h at concrete keys.
use numstore.RobinHood.Room.{AllSmall, ht_insert_room}
use numstore.Prelude.{
  ap, arith, inl, inr, ◌⊎◌, ◌≢◌, none_is_not_some, ℕ, ◌≡◌, ◌↔◌, refl, none, some,
}
use numstore.RobinHood.{
  HData, Elems, full, probe, put, insert_at, insert_round, follow, insert_loop, ht_insert, get_at,
  get_loop, ht_get, ht_init,
}
use numstore.RobinHood.Table.{IsTable, Distinct, Holds}
use numstore.RobinHood.Lookup.{ht_get_lem, ht_insert_lem, AfterInsert, ht_init-IsTable}

abbrev item_of : ℕ → ℕ → HData ℕ
item_of k v = record { key = k; value = v }

-- The keys 0 and 2 in a table of two entries.
abbrev one_item : Elems ℕ
one_item = (ht_insert 2 (ht_init {A = ℕ}) (item_of 0 70)).0

abbrev two_items : Elems ℕ
two_items = (ht_insert 2 one_item (item_of 2 72)).0

one_item-IsTable : IsTable 2 one_item × Distinct one_item
unfolding ht_get get_loop get_at ht_init
one_item-IsTable =
    let empty = ht_init-IsTable {A = ℕ} 2 in
    let after = ht_insert_lem 2 (ht_init {A = ℕ}) (item_of 0 70) empty.0 empty.1 in
    (after.0, after.1)

ht_insert_example :
    AfterInsert 2 one_item
      (item_of 2 72)
      (ht_get 2 one_item 2)
      (ht_insert 2 one_item (item_of 2 72))
ht_insert_example = ht_insert_lem 2 one_item (item_of 2 72) one_item-IsTable.0 one_item-IsTable.1

ht_get_example :
    (ht_get 2 one_item 0 ≡ some (item_of 0 70))
    ↔ (Holds one_item (item_of 0 70) × ((item_of 0 70).key ≡ 0))
ht_get_example = ht_get_lem 2 one_item 0 (item_of 0 70) one_item-IsTable.0 one_item-IsTable.1

-- A third key does not fit, and the first one is lost.
full_table : (ht_insert 2 two_items (item_of 1 71)).1 ≡ full
unfolding ht_insert insert_loop follow insert_round insert_at probe put ht_init
full_table = refl

lost_key : ht_get 2 (ht_insert 2 two_items (item_of 1 71)).0 0 ≡ none
unfolding ht_insert insert_loop follow insert_round insert_at probe put ht_init ht_get get_loop
    get_at
lost_key = refl

kept_before : ht_get 2 two_items 0 ≡ some (item_of 0 70)
unfolding ht_insert insert_loop follow insert_round insert_at probe put ht_init ht_get get_loop
    get_at
kept_before = refl

one_item_holds : (d : HData ℕ) → Holds one_item d → Holds (ht_init {A = ℕ}) d ⊎ (item_of 0 70 ≡ d)
unfolding ht_get get_loop get_at ht_init ht_insert insert_loop follow insert_round insert_at
one_item_holds d =
    let empty = ht_init-IsTable {A = ℕ} 2 in
    let after = ht_insert_lem 2 (ht_init {A = ℕ}) (item_of 0 70) empty.0 empty.1 in (after.2 d).0

one_item-AllSmall : AllSmall 2 one_item
unfolding ht_init
one_item-AllSmall j e h = elim (one_item_holds e.data_of (j, e, h, refl)) [
  | inl (i, e', h', is) ↦ elim (none_is_not_some h') [ ]
  | inr is ↦ omega (arith, ap (λ d. d.key) is)
]

second_is_free : one_item 1 ≡ none
unfolding ht_insert insert_loop follow insert_round insert_at probe put ht_init
second_is_free = refl

ht_insert_room_example : (ht_insert 2 one_item (item_of 2 72)).1 ≢ full
ht_insert_room_example =
    ht_insert_room 2 one_item (item_of 2 72) 1 one_item-IsTable.0 one_item-AllSmall (omega arith)
      (omega arith) second_is_free
