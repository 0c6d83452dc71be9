-- ===== src/HashTable/Tests.antt =====
-- A table of numbers that grows at its second node.
use numstore.Prelude.{ℕ, Bool, true, false, ◌||◌, [], ◌∷◌, ◌==◌, ◌≡◌, refl, arith}
use numstore.HashTable.{
  Node, Settings, AdptvHtable, bucket, htable_create, htable_insert, remove_at, node_at,
  htable_delete, move_node, rehash_step, rehash_loop, adptv_htable_help_rehashing,
  adptv_htable_finish_rehashing, adptv_htable_init, adptv_htable_lookup,
  adptv_htable_trigger_rehashing, insert_behind, adptv_htable_insert, adptv_htable_delete,
}
use numstore.HashTable.Table.{every, count_in, total}
use numstore.HashTable.Rehash.{IsAdptv, items, adptv_htable_finish_rehashing_lem}
use numstore.HashTable.Adptv.{
  adptv_htable_init-IsAdptv, Inserted, adptv_htable_insert_lem, LookedUp, adptv_htable_lookup_lem,
}
use numstore.HashTable.Delete.{Deleted, adptv_htable_delete_lem}

abbrev small : Settings
small = record {
  max_load_factor = 1;
  min_load_factor = 1;
  rehashing_work = 1;
  max_size = 64;
  min_size = 2;
}

abbrev same_item : Node ℕ → Node ℕ → Bool
same_item a b = a.item == b.item

abbrev seven : Node ℕ
seven = record { hcode = 7; item = 70 }

abbrev nine : Node ℕ
nine = record { hcode = 9; item = 90 }

abbrev is_seven : Node ℕ → Bool
is_seven x = x.item == 70

abbrev empty_table : AdptvHtable ℕ
empty_table = adptv_htable_init small

-- Seven and nine share a bucket of two.
abbrev with_seven : AdptvHtable ℕ
with_seven = (adptv_htable_insert true empty_table seven).0

abbrev with_both : AdptvHtable ℕ
with_both = (adptv_htable_insert true with_seven nine).0

both_stand : with_both ≡ record {
  current = record { cap = 4; size = 1; table = [] ∷ (nine ∷ []) ∷ [] ∷ [] ∷ [] };
  prev = record { cap = 2; size = 1; table = [] ∷ (seven ∷ []) ∷ [] };
  migrate_pos = 1;
  settings = small;
}
unfolding adptv_htable_init htable_create adptv_htable_insert insert_behind htable_insert bucket
    adptv_htable_trigger_rehashing adptv_htable_finish_rehashing adptv_htable_help_rehashing
    rehash_loop rehash_step move_node node_at htable_delete remove_at
both_stand = refl

empty-IsAdptv : IsAdptv empty_table
empty-IsAdptv = (adptv_htable_init-IsAdptv small (omega arith)).0

no_items : items every empty_table ≡ 0
no_items = (adptv_htable_init-IsAdptv small (omega arith)).1 every

small_cap : empty_table.current.cap ≡ 2
unfolding adptv_htable_init htable_create
small_cap = refl

adptv_htable_insert_example :
    Inserted is_seven seven empty_table (adptv_htable_insert true empty_table seven)
    × (((adptv_htable_insert true empty_table seven).1 || false) ≡ true)
adptv_htable_insert_example =
    adptv_htable_insert_lem is_seven true empty_table seven empty-IsAdptv (omega (arith, no_items))
      (omega (arith, small_cap))

one_item : items every with_seven ≡ 1
unfolding adptv_htable_init htable_create adptv_htable_insert insert_behind htable_insert bucket
    adptv_htable_trigger_rehashing adptv_htable_finish_rehashing adptv_htable_help_rehashing
    rehash_loop rehash_step move_node node_at htable_delete remove_at
one_item = refl

cap_of_seven : with_seven.current.cap ≡ 2
unfolding adptv_htable_init htable_create adptv_htable_insert insert_behind htable_insert bucket
    adptv_htable_trigger_rehashing adptv_htable_finish_rehashing adptv_htable_help_rehashing
    rehash_loop rehash_step move_node node_at htable_delete remove_at
cap_of_seven = refl

with_seven-IsAdptv : IsAdptv with_seven
with_seven-IsAdptv =
    (adptv_htable_insert_lem every true empty_table seven empty-IsAdptv (omega (arith, no_items))
      (omega (arith, small_cap))).0.0

with_both-IsAdptv : IsAdptv with_both
with_both-IsAdptv =
    (adptv_htable_insert_lem every true with_seven nine with_seven-IsAdptv (omega (arith, one_item))
      (omega (arith, cap_of_seven))).0.0

adptv_htable_lookup_example :
    LookedUp is_seven same_item seven with_both (adptv_htable_lookup same_item with_both seven)
adptv_htable_lookup_example =
    adptv_htable_lookup_lem same_item with_both seven with_both-IsAdptv is_seven

min_of_both : with_both.settings.min_size ≡ 2
unfolding adptv_htable_init htable_create adptv_htable_insert insert_behind htable_insert bucket
    adptv_htable_trigger_rehashing adptv_htable_finish_rehashing adptv_htable_help_rehashing
    rehash_loop rehash_step move_node node_at htable_delete remove_at
min_of_both = refl

adptv_htable_delete_example :
    let (t', success, found) = adptv_htable_delete true same_item with_both seven in
    IsAdptv t'
    × Deleted is_seven same_item seven with_both t' success found
    × ((success || false) ≡ true)
adptv_htable_delete_example =
    adptv_htable_delete_lem is_seven true same_item with_both seven with_both-IsAdptv
      (omega (arith, min_of_both))

adptv_htable_finish_rehashing_example :
    IsAdptv (adptv_htable_finish_rehashing with_both)
    × ((p : Node ℕ → Bool)
        → count_in p (adptv_htable_finish_rehashing with_both).current ≡ items p with_both)
    × (total (adptv_htable_finish_rehashing with_both).prev ≡ 0)
adptv_htable_finish_rehashing_example =
    adptv_htable_finish_rehashing_lem with_both with_both-IsAdptv
