-- ===== src/InnerNode.antt =====
-- libs/nspager/inner_node.c and include/numstore/pager/inner_node.h: the inner pages of an r+tree. A
-- node's keys and leaves are kept as one array of pairs: key `i` lies at a place of the page that
-- depends on `i` alone, and so does leaf `i`.
pub mod Array
pub mod Move
pub mod Choose
pub mod Validate
mod Tests
use numstore.Prelude.{
  ℕ, zero, suc, ◌+◌, ◌-◌, ◌%◌, Bool, true, false, List, [], ◌∷◌, Option, none, some, ltb, ◌==◌,
  if◌then◌else◌, get_elem?, set, length,
}
use numstore.DataList.{pgno_null}

-- IN_MAX_KEYS.
abbrev pub in_max_keys : ℕ
in_max_keys = 125

-- `struct in_pair`, the key first.
abbrev pub InPair : Type 0
InPair = ℕ × ℕ

-- A page of type PG_INNER_NODE.
pub record InnerNode : Type 0 where
  pub next : ℕ
  pub prev : ℕ
  pub len : ℕ
  pub nodes : List InPair

-- The element at an index; out of bounds, where the source asserts, a pair of zeros.
abbrev pub at : List InPair → ℕ → InPair
at xs i = elim (get_elem? xs i) [ some x ↦ x | none ↦ (0, 0) ]

-- `in_init_empty`.
unfoldable pub in_init_empty : InnerNode → InnerNode
in_init_empty n = record n { next = pgno_null; prev = pgno_null; len = 0 }

-- `in_get_avail`.
abbrev pub in_get_avail : InnerNode → ℕ
in_get_avail n = in_max_keys - n.len

-- `in_push_end`.
unfoldable pub in_push_end : InnerNode → InPair → InnerNode
in_push_end n v = record n { len = n.len + 1; nodes = set n.nodes n.len v }

-- The loop of `in_set_data` over the pairs.
unfoldable pub push_each : InnerNode → List InPair → InnerNode
push_each n [] = n
push_each n (v ∷ vs) = push_each (in_push_end n v) vs

-- `in_set_data`.
unfoldable pub in_set_data : InnerNode → List InPair → InnerNode
in_set_data n vs = push_each (record n { len = 0 }) vs

-- The loop of `in_cut_left`, with `k` rounds left from `i` on.
unfoldable pub cut_loop : ℕ → ℕ → ℕ → List InPair → List InPair
cut_loop zero i end_at xs = xs
cut_loop (suc k) i end_at xs = cut_loop k (i + 1) end_at (set xs i (at xs (end_at + i)))

-- `in_cut_left`.
unfoldable pub in_cut_left : InnerNode → ℕ → InnerNode
in_cut_left n end_at =
    if end_at == 0
    then n
    else record n { len = n.len - end_at; nodes = cut_loop (n.len - end_at) 0 end_at n.nodes }

-- The loop of `in_move_left`, with `k` rounds left from `i` on.
unfoldable pub push_loop : ℕ → ℕ → InnerNode → List InPair → InnerNode
push_loop zero i dest xs = dest
push_loop (suc k) i dest xs = push_loop k (i + 1) (in_push_end dest (at xs i)) xs

-- `in_move_left`: both nodes, the one that is moved to first.
unfoldable pub in_move_left : InnerNode → InnerNode → ℕ → InnerNode × InnerNode
in_move_left dest src len = (push_loop len 0 dest src.nodes, in_cut_left src len)

-- The loop of `in_push_left`, downwards from `i`, over a distance of `len`.
unfoldable pub shift_loop : ℕ → ℕ → List InPair → List InPair
shift_loop zero len xs = xs
shift_loop (suc i) len xs = shift_loop i len (set xs (i + len) (at xs i))

-- `in_push_left`.
unfoldable pub in_push_left : InnerNode → ℕ → InnerNode
in_push_left n len =
    if len == 0 then n else record n { len = len + n.len; nodes = shift_loop n.len len n.nodes }

-- `in_push_all_left`.
unfoldable pub in_push_all_left : InnerNode → InnerNode
in_push_all_left n = in_push_left n (in_get_avail n)

-- `in_push_left_permissive`.
unfoldable pub in_push_left_permissive : InnerNode → ℕ → InnerNode
in_push_left_permissive n amnt = record n { nodes = shift_loop amnt (in_max_keys - amnt) n.nodes }

-- `in_push_right_permissive`.
unfoldable pub in_push_right_permissive : InnerNode → ℕ → InnerNode
in_push_right_permissive n amnt = record n { nodes = cut_loop (in_max_keys - amnt) 0 amnt n.nodes }

-- The loop of `in_move_right`, with `k` rounds left from `di` and `si` on.
unfoldable pub fill_loop : ℕ → ℕ → ℕ → List InPair → List InPair → List InPair
fill_loop zero di si xs src = xs
fill_loop (suc k) di si xs src = fill_loop k (di + 1) (si + 1) (set xs di (at src si)) src

-- `in_move_right`: both nodes, the one that is moved from first.
unfoldable pub in_move_right : InnerNode → InnerNode → ℕ → InnerNode × InnerNode
in_move_right src dest len =
    let shifted = in_push_left dest len in
    if len == 0 then (src, dest) else (
      record src { len = src.len - len },
      record shifted { nodes = fill_loop len 0 (src.len - len) shifted.nodes src.nodes },
    )

-- A sum of type b_size.
unfoldable pub add64 : ℕ → ℕ → ℕ
add64 a b = (a + b) % 18446744073709551616

-- The loop of `in_choose_lidx`, with `k` rounds left from `i` on: the index and `nleft`.
unfoldable pub choose_loop : ℕ → ℕ → (key_total nleft loc : ℕ) → List InPair → ℕ × ℕ
choose_loop zero i key_total nleft loc xs = (i, nleft)
choose_loop (suc k) i key_total nleft loc xs =
    let key = (at xs i).0 in
    let total = add64 key_total key in
    let rest = choose_loop k (i + 1) total (add64 nleft key) loc xs in
    if ltb loc total then (i, nleft) else rest

-- `in_choose_lidx`.
unfoldable pub in_choose_lidx : InnerNode → ℕ → ℕ × ℕ
in_choose_lidx n loc = choose_loop (n.len - 1) 0 0 0 loc n.nodes
