-- ===== src/InnerNode/Tests.antt =====
-- Runs of the inner node's operations, and the properties at concrete nodes.
use numstore.Prelude.{
  ℕ, ◌-◌, List, [], ◌∷◌, ◌++◌, ◌≡◌, refl, true, false, arith, length, replicate, length-replicate,
}
use numstore.DataList.{pgno_null}
use numstore.InnerNode.{InPair, InnerNode, in_choose_lidx, choose_loop, add64}
use numstore.InnerNode.Move.{IsInnerNode}
use numstore.InnerNode.Validate.{
  IsSound, in_validate_for_db, leafs_loop, is_success, in_is_root, in_validate_for_db-IsSound,
}
use numstore.RobinHood.{
  ht_insert, insert_loop, follow, insert_round, insert_at, probe, put, ht_init,
}
use numstore.InnerNode.Choose.{Holds, in_choose_lidx_lem}

abbrev node_with : List InPair → ℕ → InnerNode
node_with vs blank = record {
  next = pgno_null;
  prev = pgno_null;
  len = length vs;
  nodes = vs ++ replicate blank (0, 0);
}

-- Children with 100, 200 and 50 bytes, and with 70 and 30.
abbrev three : InnerNode
three = node_with ((100, 4) ∷ (200, 5) ∷ (50, 6) ∷ []) 122

abbrev two : InnerNode
two = node_with ((70, 8) ∷ (30, 9) ∷ []) 123

three-IsInnerNode : IsInnerNode three
three-IsInnerNode = record {
  sized = omega (arith, length-replicate {A = InPair} 122 (0, 0));
  within = omega arith;
}

two-IsInnerNode : IsInnerNode two
two-IsInnerNode = record {
  sized = omega (arith, length-replicate {A = InPair} 123 (0, 0));
  within = omega arith;
}

three-choose : in_choose_lidx three 250 ≡ (1, 100)
unfolding in_choose_lidx choose_loop add64
three-choose = refl

in_choose_lidx_example :
    Holds three.nodes (3 - 1) 250 (in_choose_lidx three 250).0 (in_choose_lidx three 250).1
in_choose_lidx_example = in_choose_lidx_lem three 250 three-IsInnerNode (omega arith) (omega arith)

three_valid : in_validate_for_db 8 three ≡ true
unfolding in_validate_for_db leafs_loop is_success in_is_root ht_insert insert_loop follow
    insert_round insert_at probe put ht_init
three_valid = refl

in_validate_for_db-IsSound_example : IsSound 8 three
in_validate_for_db-IsSound_example = in_validate_for_db-IsSound 8 three three_valid

-- Two keys for leaf 4.
abbrev twice : InnerNode
twice = node_with ((100, 4) ∷ (200, 5) ∷ (50, 4) ∷ []) 122

twice_invalid : in_validate_for_db 8 twice ≡ false
unfolding in_validate_for_db leafs_loop is_success in_is_root ht_insert insert_loop follow
    insert_round insert_at probe put ht_init
twice_invalid = refl
