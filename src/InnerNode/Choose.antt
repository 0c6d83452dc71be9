-- ===== src/InnerNode/Choose.antt =====
-- `in_choose_lidx` of libs/nspager/inner_node.c: the child that holds a byte offset.
use numstore.Prelude.{
  ℕ, zero, suc, ◌+◌, ◌-◌, ◌≤◌, ◌<◌, ◌%◌, List, [], ◌∷◌, ◌++◌, ◌≡◌, refl, ap, ◌∙◌, arith, ◌⊎◌, inl,
  inr, ltb, length, take, Bool-cases, ltb→lt, ltb-false→le, subst,
}
use numstore.InnerNode.{InPair, InnerNode, at, add64, choose_loop, in_choose_lidx}
use numstore.InnerNode.Array.{take_snoc}
use numstore.InnerNode.Move.{IsInnerNode, children}

-- The bytes below a run of children: a key counts those below its child.
abbrev pub sum_keys : List InPair → ℕ
sum_keys [] = 0
sum_keys (x ∷ xs) = x.0 + sum_keys xs

sum_keys-append : (xs ys : List InPair) → sum_keys (xs ++ ys) ≡ sum_keys xs + sum_keys ys
sum_keys-append [] ys = omega arith
sum_keys-append (x ∷ xs) ys = omega (arith, sum_keys-append xs ys)

sum_keys_next :
    (xs : List InPair) (i : ℕ)
    → i < length xs
    → sum_keys (take (i + 1) xs) ≡ sum_keys (take i xs) + (at xs i).0
sum_keys_next xs i h =
    ap sum_keys (take_snoc xs i h) ∙ sum_keys-append (take i xs) (at xs i ∷ []) ∙ omega arith

-- Child `idx` holds offset `loc`, and `left` bytes lie before it; the last child holds also what lies
-- behind all.
pub record Holds (xs : List InPair) (last loc idx left : ℕ) : Type 0 where
  pub in_range : idx ≤ last
  pub left_is : left ≡ sum_keys (take idx xs)
  pub before : left ≤ loc
  pub behind : (idx ≡ last) ⊎ (loc < sum_keys (take (idx + 1) xs))

choose_loop-Holds :
    (k i loc total : ℕ) (xs : List InPair)
    → i + k < length xs
    → ((j : ℕ) → j ≤ i + k → sum_keys (take j xs) < 18446744073709551616)
    → total ≡ sum_keys (take i xs)
    → total ≤ loc
    → Holds xs
        (i + k)
        loc
        (choose_loop k i total total loc xs).0
        (choose_loop k i total total loc xs).1
unfolding choose_loop add64
choose_loop-Holds zero i loc total xs h small e le = record {
  in_range = omega arith;
  left_is = e;
  before = le;
  behind = inl (omega arith);
}
choose_loop-Holds (suc k) i loc total xs h small e le =
    let next = sum_keys_next xs i (omega arith) in
    let fits = small (i + 1) (omega arith) in
    let key = (at xs i).0 in
    let sum : (total + key) % 18446744073709551616 ≡ total + key = omega arith in
    elim (Bool-cases (ltb loc (total + key))) [
      | inl here ↦
          rw (sum, here)
            (record {
              in_range = omega arith;
              left_is = e;
              before = le;
              behind = inr (omega (arith, ltb→lt loc (total + key) here));
            })
      | inr on ↦
          let r =
            choose_loop-Holds k (i + 1) loc (total + key) xs (omega arith)
              (λ j g. small j (omega arith)) (omega arith) (ltb-false→le loc (total + key) on) in
          rw (sum, on)
            (record {
              in_range = omega (arith, r.in_range);
              left_is = r.left_is;
              before = r.before;
              behind = ground (arith, r.behind);
            })
    ]

sum_keys_mono : (xs : List InPair) (j m : ℕ) → j ≤ m → sum_keys (take j xs) ≤ sum_keys (take m xs)
sum_keys_mono xs zero m h = omega arith
sum_keys_mono [] (suc j) zero h = absurd (omega arith)
sum_keys_mono [] (suc j) (suc m) h = omega arith
sum_keys_mono (x ∷ xs) (suc j) zero h = absurd (omega arith)
sum_keys_mono (x ∷ xs) (suc j) (suc m) h = omega (arith, sum_keys_mono xs j m (omega arith))

-- In a node with at least one child whose keys do not add up to 2 ^ 64, `in_choose_lidx` gives a child
-- and the sum of the keys before it: that sum is at most the offset, and the offset lies before the end
-- of the child, unless the child is the last one.
pub in_choose_lidx_lem :
    (n : InnerNode) (loc : ℕ)
    → IsInnerNode n
    → 0 < n.len
    → sum_keys (children n) < 18446744073709551616
    → Holds n.nodes (n.len - 1) loc (in_choose_lidx n loc).0 (in_choose_lidx n loc).1
unfolding in_choose_lidx
in_choose_lidx_lem n loc v pos small =
    let k = n.len - 1 in
    let e : 0 + k ≡ k = omega arith in
    let r = choose_loop k 0 0 0 loc n.nodes in
    subst (λ m. Holds n.nodes m loc r.0 r.1) e
      (choose_loop-Holds k 0 loc 0 n.nodes (omega (arith, v.sized, v.within))
        (λ j h. omega (arith, sum_keys_mono n.nodes j n.len (omega arith))) refl (omega arith))
