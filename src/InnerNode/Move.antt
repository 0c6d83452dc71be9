-- ===== src/InnerNode/Move.antt =====
-- The operations of libs/nspager/inner_node.c on whole nodes: children go to the end of a node, are cut
-- off, or go to a neighbour.
use numstore.Prelude.{
  ℕ, zero, suc, ◌+◌, ◌-◌, ◌≤◌, ◌<◌, List, [], ◌∷◌, ◌++◌, ◌≡◌, refl, sym, ap, ap₂, ◌∙◌, arith, ◌==◌,
  length, take, drop, slice, length-set, length-take, drop-take, take-take, take-add, append_assoc,
  append-nil, take-append-drop, Bool-cases, inl, inr, ==→eq,
}
use numstore.InnerNode.{
  InPair, InnerNode, in_max_keys, at, in_get_avail, in_push_end, push_each, in_set_data, push_loop,
  cut_loop, in_cut_left, in_move_left, shift_loop, in_push_left, fill_loop, in_move_right,
}
use numstore.InnerNode.Array.{
  slice_cons, take_push, cut_loop-moves, shift_loop-moves, fill_loop-fills,
}

-- The array of a node, and a length within it.
pub record IsInnerNode (n : InnerNode) : Type 0 where
  pub sized : length n.nodes ≡ in_max_keys
  pub within : n.len ≤ in_max_keys

-- The children of a node, each with its key.
abbrev pub children : InnerNode → List InPair
children n = take n.len n.nodes

-- Pairs are put behind the children of a node.
record Pushed (n : InnerNode) (vs : List InPair) (n' : InnerNode) : Type 0 where
  valid : IsInnerNode n'
  len_is : n'.len ≡ n.len + length vs
  added : children n' ≡ children n ++ vs

push_end-Pushed :
    (n : InnerNode) (v : InPair)
    → IsInnerNode n
    → n.len < in_max_keys
    → Pushed n (v ∷ []) (in_push_end n v)
unfolding in_push_end
push_end-Pushed n v h lt = record {
  valid = record { sized = length-set n.nodes n.len v ∙ h.sized; within = omega arith };
  len_is = omega arith;
  added = take_push n.nodes n.len v (omega (arith, h.sized));
}

Pushed-trans :
    (a b c : InnerNode) (v : InPair) (vs : List InPair)
    → Pushed a (v ∷ []) b
    → Pushed b vs c
    → Pushed a (v ∷ vs) c
Pushed-trans a b c v vs p q = record {
  valid = q.valid;
  len_is = omega (arith, p.len_is, q.len_is);
  added = q.added ∙ ap (λ t. t ++ vs) p.added ∙ append_assoc (children a) (v ∷ []) vs;
}

push_each-Pushed :
    (n : InnerNode) (vs : List InPair)
    → IsInnerNode n
    → n.len + length vs ≤ in_max_keys
    → Pushed n vs (push_each n vs)
unfolding push_each
push_each-Pushed n [] h le = record {
  valid = h;
  len_is = omega arith;
  added = sym (append-nil (children n));
}
push_each-Pushed n (v ∷ vs) h le =
    let p = push_end-Pushed n v h (omega arith) in
    Pushed-trans n (in_push_end n v) (push_each (in_push_end n v) vs) v vs p
      (push_each-Pushed (in_push_end n v) vs p.valid (omega (arith, p.len_is)))

-- `in_set_data` makes the pairs given the children of the node.
pub in_set_data_lem :
    (n : InnerNode) (vs : List InPair)
    → IsInnerNode n
    → length vs ≤ in_max_keys
    → IsInnerNode (in_set_data n vs)
      × ((in_set_data n vs).len ≡ length vs)
      × (children (in_set_data n vs) ≡ vs)
unfolding in_set_data
in_set_data_lem n vs h le =
    let p =
      push_each-Pushed (record n { len = 0 }) vs (record { sized = h.sized; within = omega arith })
        (omega arith) in
    (p.valid, omega (arith, p.len_is), p.added)

push_loop-Pushed :
    (k i : ℕ) (dest : InnerNode) (xs : List InPair)
    → IsInnerNode dest
    → dest.len + k ≤ in_max_keys
    → i + k ≤ length xs
    → Pushed dest (slice i k xs) (push_loop k i dest xs)
unfolding push_loop
push_loop-Pushed zero i dest xs h le g = record {
  valid = h;
  len_is = omega arith;
  added = sym (append-nil (children dest));
}
push_loop-Pushed (suc k) i dest xs h le g =
    let p = push_end-Pushed dest (at xs i) h (omega arith) in
    let q =
      push_loop-Pushed k (i + 1) (in_push_end dest (at xs i)) xs p.valid (omega (arith, p.len_is))
        (omega arith) in
    rw (slice_cons xs i k (omega arith))
      (Pushed-trans dest (in_push_end dest (at xs i)) _ (at xs i) (slice (i + 1) k xs) p q)

-- `in_cut_left` takes the first `end_at` children off the node.
pub in_cut_left_lem :
    (n : InnerNode) (end_at : ℕ)
    → IsInnerNode n
    → end_at ≤ n.len
    → IsInnerNode (in_cut_left n end_at)
      × ((in_cut_left n end_at).len ≡ n.len - end_at)
      × (children (in_cut_left n end_at) ≡ drop end_at (children n))
unfolding in_cut_left
in_cut_left_lem n end_at h le = elim (Bool-cases (end_at == 0)) [
  | inl z ↦ let e = ==→eq end_at 0 z in rw z (h, omega arith, ap (λ k. drop k (children n)) (sym e))
  | inr nz ↦
      let k = n.len - end_at in
      let (same, moved) =
        cut_loop-moves k 0 end_at n.nodes (ground arith) (omega (arith, h.sized, h.within)) in
      let zk : k ≡ 0 + k = omega arith in
      let ze : end_at + 0 ≡ end_at = omega arith in
      rw nz (
        record { sized = same ∙ h.sized; within = omega (arith, h.within) },
        refl,
        ap (λ j. take j (cut_loop k 0 end_at n.nodes)) zk
            ∙ moved
            ∙ ap (λ j. slice j k n.nodes) ze
            ∙ sym (drop-take end_at n.len k n.nodes (omega arith)),
      )
]

-- `in_move_left` moves the first `len` children of `src` behind those of `dest`: both nodes stay valid,
-- and the children, those of `dest` first, are the same sequence as before.
pub in_move_left_lem :
    (dest src : InnerNode) (len : ℕ)
    → IsInnerNode dest
    → IsInnerNode src
    → len ≤ src.len
    → len ≤ in_get_avail dest
    → let (dest', src') = in_move_left dest src len in
      IsInnerNode dest'
      × IsInnerNode src'
      × (dest'.len ≡ dest.len + len)
      × (src'.len ≡ src.len - len)
      × (children dest' ++ children src' ≡ children dest ++ children src)
unfolding in_move_left
in_move_left_lem dest src len dv sv le room =
    let p =
      push_loop-Pushed len 0 dest src.nodes dv (omega (arith, dv.within))
        (omega (arith, sv.sized, sv.within)) in
    let (cv, cl, rest) = in_cut_left_lem src len sv le in
    let l : length (take len src.nodes) ≡ len =
      omega (arith, length-take len src.nodes, sv.sized, sv.within) in
    (
      p.valid,
      cv,
      omega (arith, p.len_is, l),
      cl,
      ap₂ (λ x y. x ++ y) p.added rest
          ∙ append_assoc (children dest) (take len src.nodes) (drop len (children src))
          ∙ ap (λ t. children dest ++ t)
              (ap (λ t. t ++ drop len (children src)) (sym (take-take len src.len src.nodes le))
                ∙ take-append-drop len (children src)),
    )

-- `in_move_right` moves the last `len` children of `src` before those of `dest`: both nodes stay valid,
-- and the children, those of `src` first, are the same sequence as before.
pub in_move_right_lem :
    (src dest : InnerNode) (len : ℕ)
    → IsInnerNode src
    → IsInnerNode dest
    → len ≤ src.len
    → len ≤ in_get_avail dest
    → let (src', dest') = in_move_right src dest len in
      IsInnerNode src'
      × IsInnerNode dest'
      × (src'.len ≡ src.len - len)
      × (dest'.len ≡ dest.len + len)
      × (children src' ++ children dest' ≡ children src ++ children dest)
unfolding in_move_right in_push_left
in_move_right_lem src dest len sv dv le room = elim (Bool-cases (len == 0)) [
  | inl z ↦ let e = ==→eq len 0 z in rw z (sv, dv, omega arith, omega arith, refl)
  | inr nz ↦
      let pos : 0 < len = ground arith in
      let si = src.len - len in
      let (l1, low, high) =
        shift_loop-moves dest.len len dest.nodes pos (omega (arith, dv.sized, dv.within)) in
      let ys = shift_loop dest.len len dest.nodes in
      let (l2, first, behind) =
        fill_loop-fills len 0 si ys src.nodes (omega (arith, l1, dv.sized, dv.within))
          (omega (arith, sv.sized, sv.within)) in
      let zs = fill_loop len 0 si ys src.nodes in
      let zl : 0 + len ≡ len = omega arith in
      let new : take (len + dest.len) zs ≡ slice si len src.nodes ++ children dest =
        take-add len dest.len (len + dest.len) zs refl
        ∙ ap₂ (λ x y. x ++ take dest.len y) (ap (λ j. take j zs) (sym zl) ∙ first)
            (ap (λ j. drop j zs) (sym zl) ∙ behind ∙ ap (λ j. drop j ys) zl)
        ∙ ap (λ t. slice si len src.nodes ++ t) low in
      rw nz (
        record { sized = sv.sized; within = omega (arith, sv.within) },
        record { sized = l2 ∙ l1 ∙ dv.sized; within = omega (arith, dv.within) },
        refl,
        omega arith,
        ap (λ t. take si src.nodes ++ t) new
            ∙ sym (append_assoc (take si src.nodes) (slice si len src.nodes) (children dest))
            ∙ ap (λ t. t ++ children dest) (sym (take-add si len src.len src.nodes (omega arith))),
      )
]
