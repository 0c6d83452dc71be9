-- ===== src/InnerNode/Array.antt =====
-- What the loops of libs/nspager/inner_node.c over the array of a node do to it.
use numstore.Prelude.{
  ℕ, zero, suc, ◌+◌, ◌≤◌, ◌<◌, List, [], ◌∷◌, ◌++◌, ◌≡◌, refl, sym, ap, ap₂, ◌∙◌, arith, length,
  set, take, drop, slice, length-set, append_assoc, append-nil, take-add, drop-drop,
}
use numstore.InnerNode.{InPair, at, cut_loop, shift_loop, fill_loop}

take-set_end :
    (xs : List InPair) (i : ℕ) (v : InPair)
    → i < length xs
    → take (i + 1) (set xs i v) ≡ take i xs ++ (v ∷ [])
take-set_end xs i v h = ap (λ n. take n (set xs i v)) e ∙ go xs i v h
  where
    e : i + 1 ≡ suc i
    e = omega arith

    go :
        (ys : List InPair) (j : ℕ) (w : InPair)
        → j < length ys
        → take (suc j) (set ys j w) ≡ take j ys ++ (w ∷ [])
    go [] j w k = absurd (omega arith)
    go (y ∷ ys) zero w k = refl
    go (y ∷ ys) (suc j) w k = ap (λ t. y ∷ t) (go ys j w (omega arith))

take-set : (xs : List InPair) (n i : ℕ) (v : InPair) → n ≤ i → take n (set xs i v) ≡ take n xs
take-set [] n i v h = refl
take-set (x ∷ xs) zero i v h = refl
take-set (x ∷ xs) (suc n) zero v h = absurd (omega arith)
take-set (x ∷ xs) (suc n) (suc i) v h = ap (λ t. x ∷ t) (take-set xs n i v (omega arith))

drop-set : (xs : List InPair) (n i : ℕ) (v : InPair) → i < n → drop n (set xs i v) ≡ drop n xs
drop-set [] n i v h = refl
drop-set (x ∷ xs) zero i v h = absurd (omega arith)
drop-set (x ∷ xs) (suc n) zero v h = refl
drop-set (x ∷ xs) (suc n) (suc i) v h = drop-set xs n i v (omega arith)

-- What stands from an index on begins with the element there.
drop-at : (xs : List InPair) (i j : ℕ) → j ≡ suc i → i < length xs → drop i xs ≡ at xs i ∷ drop j xs
drop-at [] i j e h = absurd (omega arith)
drop-at (x ∷ xs) zero j e h = ap (λ n. x ∷ drop n (x ∷ xs)) (sym e)
drop-at (x ∷ xs) (suc i) zero e h = absurd (omega arith)
drop-at (x ∷ xs) (suc i) (suc j) e h = drop-at xs i j (omega arith) (omega arith)

drop-set_at :
    (xs : List InPair) (i j : ℕ) (v : InPair)
    → j ≡ suc i
    → i < length xs
    → drop i (set xs i v) ≡ v ∷ drop j xs
drop-set_at [] i j v e h = absurd (omega arith)
drop-set_at (x ∷ xs) zero j v e h = ap (λ n. v ∷ drop n (x ∷ xs)) (sym e)
drop-set_at (x ∷ xs) (suc i) zero v e h = absurd (omega arith)
drop-set_at (x ∷ xs) (suc i) (suc j) v e h = drop-set_at xs i j v (omega arith) (omega arith)

-- One more element of a run.
pub slice_cons :
    (xs : List InPair) (i k : ℕ) → i < length xs → slice i (suc k) xs ≡ at xs i ∷ slice (i + 1) k xs
slice_cons xs i k h = ap (take (suc k)) (drop-at xs i (i + 1) (omega arith) h)

pub take_snoc :
    (xs : List InPair) (i : ℕ) → i < length xs → take (i + 1) xs ≡ take i xs ++ (at xs i ∷ [])
take_snoc xs i h =
    take-add i 1 (i + 1) xs refl
    ∙ ap (λ t. take i xs ++ take 1 t) (drop-at xs i (i + 1) (omega arith) h)

snoc_append : (xs ys : List InPair) (v : InPair) → (xs ++ (v ∷ [])) ++ ys ≡ xs ++ (v ∷ ys)
snoc_append xs ys v = append_assoc xs (v ∷ []) ys

pub take_push :
    (xs : List InPair) (i : ℕ) (v : InPair)
    → i < length xs
    → take (i + 1) (set xs i v) ≡ take i xs ++ (v ∷ [])
take_push = take-set_end

-- `in_cut_left` moves a run down.
pub cut_loop-moves :
    (k i end_at : ℕ) (xs : List InPair)
    → 0 < end_at
    → end_at + i + k ≤ length xs
    → (length (cut_loop k i end_at xs) ≡ length xs)
      × (take (i + k) (cut_loop k i end_at xs) ≡ take i xs ++ slice (end_at + i) k xs)
unfolding cut_loop
cut_loop-moves zero i end_at xs pos h =
    let e : i + 0 ≡ i = omega arith in (refl, ap (λ n. take n xs) e ∙ sym (append-nil (take i xs)))
cut_loop-moves (suc k) i end_at xs pos h =
    let v = at xs (end_at + i) in
    let ys = set xs i v in
    let l = length-set xs i v in
    let (same, r) = cut_loop-moves k (i + 1) end_at ys pos (omega (arith, l)) in
    let e : i + suc k ≡ i + 1 + k = omega arith in
    let f : end_at + (i + 1) ≡ end_at + i + 1 = omega arith in
    (
      same ∙ l,
      ap (λ n. take n (cut_loop k (i + 1) end_at ys)) e
          ∙ r
          ∙ ap₂ (λ a b. a ++ take k b) (take-set_end xs i v (omega arith))
              (drop-set xs (end_at + (i + 1)) i v (omega arith) ∙ ap (λ n. drop n xs) f)
          ∙ snoc_append (take i xs) (slice (end_at + i + 1) k xs) v
          ∙ ap (λ t. take i xs ++ t) (sym (slice_cons xs (end_at + i) k (omega arith))),
    )

-- `in_push_left` moves the first elements up.
pub shift_loop-moves :
    (i len : ℕ) (xs : List InPair)
    → 0 < len
    → i + len ≤ length xs
    → (length (shift_loop i len xs) ≡ length xs)
      × (slice len i (shift_loop i len xs) ≡ take i xs)
      × (drop (i + len) (shift_loop i len xs) ≡ drop (i + len) xs)
unfolding shift_loop
shift_loop-moves zero len xs pos h = (refl, refl, refl)
shift_loop-moves (suc i) len xs pos h =
    let v = at xs i in
    let ys = set xs (i + len) v in
    let l = length-set xs (i + len) v in
    let (same, low, high) = shift_loop-moves i len ys pos (omega (arith, l)) in
    let zs = shift_loop i len ys in
    let up : drop (i + len) zs ≡ v ∷ drop (suc i + len) xs =
      high ∙ drop-set_at xs (i + len) (suc i + len) v (omega arith) (omega arith) in
    let e : suc i ≡ i + 1 = omega arith in
    (
      same ∙ l,
      take-add i 1 (suc i) (drop len zs) (omega arith)
          ∙ ap₂ (λ a b. a ++ take 1 b) (low ∙ take-set xs i (i + len) v (omega arith))
              (drop-drop i len (i + len) zs (omega arith) ∙ up)
          ∙ sym (ap (λ n. take n xs) e ∙ take_snoc xs i (omega arith)),
      sym (drop-drop 1 (i + len) (suc i + len) zs (omega arith)) ∙ ap (drop 1) up,
    )

-- `in_move_right` fills the first elements.
pub fill_loop-fills :
    (k di si : ℕ) (xs src : List InPair)
    → di + k ≤ length xs
    → si + k ≤ length src
    → (length (fill_loop k di si xs src) ≡ length xs)
      × (take (di + k) (fill_loop k di si xs src) ≡ take di xs ++ slice si k src)
      × (drop (di + k) (fill_loop k di si xs src) ≡ drop (di + k) xs)
unfolding fill_loop
fill_loop-fills zero di si xs src h g =
    let e : di + 0 ≡ di = omega arith in
    (refl, ap (λ n. take n xs) e ∙ sym (append-nil (take di xs)), refl)
fill_loop-fills (suc k) di si xs src h g =
    let v = at src si in
    let ys = set xs di v in
    let l = length-set xs di v in
    let (same, low, high) =
      fill_loop-fills k (di + 1) (si + 1) ys src (omega (arith, l)) (omega arith) in
    let e : di + suc k ≡ di + 1 + k = omega arith in
    let zs = fill_loop k (di + 1) (si + 1) ys src in
    (
      same ∙ l,
      ap (λ n. take n zs) e
          ∙ low
          ∙ ap (λ t. t ++ slice (si + 1) k src) (take-set_end xs di v (omega arith))
          ∙ snoc_append (take di xs) (slice (si + 1) k src) v
          ∙ ap (λ t. take di xs ++ t) (sym (slice_cons src si k (omega arith))),
      ap (λ n. drop n zs) e
          ∙ high
          ∙ drop-set xs (di + 1 + k) di v (omega arith)
          ∙ ap (λ n. drop n xs) (sym e),
    )
