-- ===== src/Cbuffer/Move.antt =====
-- `cbuffer_cbuffer_move` and `cbuffer_cbuffer_copy` of libs/nscore/cbuffer.c: from one circular buffer
-- into another, in at most two runs.
use numstore.Prelude.{
  ℕ, ◌+◌, ◌-◌, ◌*◌, ◌/◌, ◌≤◌, ◌<◌, ◌||◌, List, ◌++◌, ◌≡◌, refl, sym, ap, ap₂, ◌∙◌, subst, arith,
  ◌⊎◌, ltb, leb, ◌==◌, if◌then◌else◌, length, take, drop, slice, take_all, take-add, drop-drop,
  length-take, Bool-cases, inl, inr, append_assoc, append-nil, ltb→lt, ltb-false→le, ==→eq,
}
use native.Mathlib.Nat.{div-one, div-mul-le_self}
use numstore.Cbuffer.{
  Cbuffer, advance, consume, cbuffer_len, cbuffer_avail, n_elems, write_loop, cbuffer_write,
}
use numstore.Cbuffer.Consume.{IsCbuffer, contents, consume-Consumed, cbuffer_len-le, advance-cases}
use numstore.Cbuffer.Produce.{Produced}
use numstore.Cbuffer.Queue.{length-contents, slice-contents, n_elems_fit, write_loop-Produced}

-- The number of elements to move: at most `cnt`, those in `src` and those that fit into `dest`.
abbrev pub move_count : Cbuffer → ℕ → ℕ → Cbuffer → ℕ
move_count dest sz cnt src =
    let src_elems = cbuffer_len src / sz in
    let dst_space = cbuffer_avail dest / sz in
    let n = if ltb cnt src_elems then cnt else src_elems in if ltb dst_space n then dst_space else n

-- The length of the first run.
unfoldable pub first_run : Cbuffer → ℕ → ℕ
first_run src nbytes =
    let first =
      if src.isfull || leb src.head src.tail then src.cap - src.tail else src.head - src.tail in
    if ltb nbytes first then nbytes else first

-- `cbuffer_cbuffer_move`: both buffers, and how many elements were moved.
unfoldable pub cbuffer_cbuffer_move : Cbuffer → ℕ → ℕ → Cbuffer → Cbuffer × Cbuffer × ℕ
cbuffer_cbuffer_move dest sz cnt src =
    let n = move_count dest sz cnt src in
    let nbytes = n * sz in
    let first = first_run src nbytes in
    let left = nbytes - first in
    let dest1 = (cbuffer_write (slice src.tail first src.data_of) 1 first dest).0 in
    let src1 = consume src first in
    let dest2 = (cbuffer_write (slice src1.tail left src1.data_of) 1 left dest1).0 in
    if n == 0
    then (dest, src, 0)
    else if left == 0
    then (dest1, src1, n)
    else (dest2, consume src1 left, n)

-- `cbuffer_cbuffer_copy`: the buffer that is copied to, and how many elements were copied.
unfoldable pub cbuffer_cbuffer_copy : Cbuffer → ℕ → ℕ → Cbuffer → Cbuffer × ℕ
cbuffer_cbuffer_copy dest sz cnt src =
    let n = move_count dest sz cnt src in
    let nbytes = n * sz in
    let first = first_run src nbytes in
    let left = nbytes - first in
    let dest1 = (cbuffer_write (slice src.tail first src.data_of) 1 first dest).0 in
    let pos = advance src.tail first src.cap in
    let dest2 = (cbuffer_write (slice pos left src.data_of) 1 left dest1).0 in
    if n == 0 then (dest, 0) else if left == 0 then (dest1, n) else (dest2, n)

-- Bytes that fit are all written.
pub write_all :
    (xs : List ℕ) (n : ℕ) (b : Cbuffer)
    → IsCbuffer b
    → length xs ≡ n
    → n ≤ cbuffer_avail b
    → Produced b xs (cbuffer_write xs 1 n b).0
unfolding cbuffer_write cbuffer_avail
write_all xs n b v l h =
    let e : n_elems 1 n (b.cap - cbuffer_len b) * 1 ≡ n = count n (b.cap - cbuffer_len b) h in
    rw e (
      subst (λ x. Produced b x (write_loop n b n xs)) (take_all n xs (omega arith))
        (write_loop-Produced n b n xs v (omega arith) (omega arith) h))
  where
    count : (m bytes : ℕ) → m ≤ bytes → n_elems 1 m bytes * 1 ≡ m
    count m bytes le = rw (div-one bytes) (ground arith)

-- Both runs lie in the array and make up the bytes that are to be moved.
first_run_fits :
    (src : Cbuffer) (nbytes : ℕ)
    → IsCbuffer src
    → 0 < nbytes
    → nbytes ≤ cbuffer_len src
    → let first = first_run src nbytes in
      (0 < first)
      × (first ≤ nbytes)
      × (src.tail + first ≤ src.cap)
      × ((first ≡ nbytes) ⊎ (src.tail + first ≡ src.cap))
unfolding first_run cbuffer_len
first_run_fits src nbytes v pos h = elim (Bool-cases src.isfull) [
  | inl full ↦ rw full (
    ground (arith, v.tail_in),
    ground arith,
    ground (arith, v.tail_in),
    ground (arith, v.tail_in),
  )
  | inr part ↦ rw part (
    ground (arith, v.tail_in),
    ground arith,
    ground (arith, v.tail_in, v.head_in),
    ground (arith, v.tail_in, v.head_in),
  )
]

move_count_fits :
    (dest : Cbuffer) (sz cnt : ℕ) (src : Cbuffer)
    → (move_count dest sz cnt src * sz ≤ cbuffer_len src)
      × (move_count dest sz cnt src * sz ≤ cbuffer_avail dest)
move_count_fits dest sz cnt src =
    let a = n_elems_fit sz cnt (cbuffer_len src) in
    let b = n_elems_fit sz (n_elems sz cnt (cbuffer_len src)) (cbuffer_avail dest) in
    let c = n_elems_fit sz (cbuffer_avail dest / sz) (cbuffer_avail dest) in
    let k = n_elems sz cnt (cbuffer_len src) in
    elim (Bool-cases (ltb (cbuffer_avail dest / sz) k)) [
      | inl lt ↦
          let e = ltb→lt (cbuffer_avail dest / sz) k lt in
          rw lt (
            grind (arith, div-mul-le_self (cbuffer_avail dest) sz),
            div-mul-le_self (cbuffer_avail dest) sz,
          )
      | inr ge ↦
          let e = ltb-false→le (cbuffer_avail dest / sz) k ge in
          rw ge (a, grind (arith, div-mul-le_self (cbuffer_avail dest) sz))
    ]

-- Bytes go from the front of one queue behind those of another.
pub record Moved (dest src : Cbuffer) (n : ℕ) (dest' src' : Cbuffer) : Type 0 where
  pub dest_valid : IsCbuffer dest'
  pub src_valid : IsCbuffer src'
  pub added : contents dest' ≡ contents dest ++ take n (contents src)
  pub rest : contents src' ≡ drop n (contents src)
  pub dest_len : cbuffer_len dest' ≡ cbuffer_len dest + n
  pub src_len : cbuffer_len src' ≡ cbuffer_len src - n
  pub dest_cap : dest'.cap ≡ dest.cap

-- One run.
run-Moved :
    (dest src : Cbuffer) (n : ℕ)
    → IsCbuffer dest
    → IsCbuffer src
    → 0 < n
    → n ≤ cbuffer_len src
    → n ≤ cbuffer_avail dest
    → src.tail + n ≤ src.cap
    → Moved dest src n (cbuffer_write (slice src.tail n src.data_of) 1 n dest).0 (consume src n)
run-Moved dest src n dv sv pos h k fits =
    let e = slice-contents src n sv h fits in
    let l : length (slice src.tail n src.data_of) ≡ n =
      ap length e ∙ length-take n (contents src) ∙ omega (arith, length-contents src sv) in
    let p = write_all (slice src.tail n src.data_of) n dest dv l k in
    let c = consume-Consumed src n sv pos h in
    record {
      dest_valid = p.valid;
      src_valid = c.valid;
      added = p.added ∙ ap (λ x. contents dest ++ x) e;
      rest = c.rest;
      dest_len = omega (arith, p.len_is, l);
      src_len = c.len_is;
      dest_cap = p.cap_is;
    }

Moved-none :
    (dest src : Cbuffer) (n : ℕ)
    → IsCbuffer dest
    → IsCbuffer src
    → 0 ≡ n
    → Moved dest src n dest src
Moved-none dest src n dv sv e =
    subst (λ k. Moved dest src k dest src) e
      (record {
        dest_valid = dv;
        src_valid = sv;
        added = sym (append-nil (contents dest));
        rest = refl;
        dest_len = omega arith;
        src_len = omega arith;
        dest_cap = refl;
      })

Moved-is :
    {dest src dest' src' : Cbuffer} {n m : ℕ}
    → n ≡ m
    → Moved dest src n dest' src'
    → Moved dest src m dest' src'
Moved-is {dest} {src} {dest'} {src'} e a = subst (λ k. Moved dest src k dest' src') e a

-- A run behind a run.
Moved-trans :
    (dest src dest1 src1 dest2 src2 : Cbuffer) (n m : ℕ)
    → Moved dest src n dest1 src1
    → Moved dest1 src1 m dest2 src2
    → Moved dest src (n + m) dest2 src2
Moved-trans dest src dest1 src1 dest2 src2 n m a b = record {
  dest_valid = b.dest_valid;
  src_valid = b.src_valid;
  added =
      b.added
      ∙ ap₂ (λ x y. x ++ take m y) a.added a.rest
      ∙ append_assoc (contents dest) (take n (contents src)) (take m (drop n (contents src)))
      ∙ ap (λ x. contents dest ++ x) (sym (take-add n m (n + m) (contents src) refl));
  rest = b.rest ∙ ap (drop m) a.rest ∙ drop-drop m n (n + m) (contents src) refl;
  dest_len = omega (arith, a.dest_len, b.dest_len);
  src_len = omega (arith, a.src_len, b.src_len);
  dest_cap = b.dest_cap ∙ a.dest_cap;
}

-- `cbuffer_cbuffer_move` takes as many whole elements as there are in `src` and fit into `dest`, at
-- most `cnt`, from the front of `src`, and puts them in order behind the bytes of `dest`. Both buffers
-- stay valid.
pub cbuffer_cbuffer_move_lem :
    (dest : Cbuffer) (sz cnt : ℕ) (src : Cbuffer)
    → IsCbuffer dest
    → IsCbuffer src
    → 0 < sz
    → let (dest', src', n) = cbuffer_cbuffer_move dest sz cnt src in
      (n ≡ move_count dest sz cnt src) × Moved dest src (n * sz) dest' src'
unfolding cbuffer_cbuffer_move cbuffer_avail
cbuffer_cbuffer_move_lem dest sz cnt src dv sv pos =
    let n = move_count dest sz cnt src in
    let nbytes = n * sz in
    let first = first_run src nbytes in
    let left = nbytes - first in
    let (le, room) = move_count_fits dest sz cnt src in
    elim (Bool-cases (n == 0)) [
      | inl z ↦ rw z (sym (==→eq n 0 z), Moved-none dest src (0 * sz) dv sv (omega arith))
      | inr nz ↦
          let some_n : 0 < n = ground arith in
          let some_bytes : 0 < n * sz = grind arith in
          let (fpos, fle, fits, ends) = first_run_fits src nbytes sv some_bytes le in
          let a = run-Moved dest src first dv sv fpos (omega arith) (omega arith) fits in
          elim (Bool-cases (left == 0)) [
            | inl lz ↦
                let e : first ≡ n * sz = omega (arith, ==→eq left 0 lz) in
                rw (nz, lz) (refl, Moved-is e a)
            | inr lnz ↦
                let some_left : 0 < left = ground arith in
                let src1 = consume src first in
                let dest1 = (cbuffer_write (slice src.tail first src.data_of) 1 first dest).0 in
                let fits2 : src1.tail + left ≤ src.cap = ground (
                  arith,
                  ends,
                  advance-cases src.tail first src.cap sv.tail_in (omega arith) sv.small,
                  cbuffer_len-le src sv,
                ) in
                let b =
                  run-Moved dest1 src1 left a.dest_valid a.src_valid some_left
                    (omega (arith, a.src_len)) (omega (arith, a.dest_len, a.dest_cap)) fits2 in
                let e : first + left ≡ n * sz = omega arith in
                rw (nz, lnz) (refl, Moved-is e (Moved-trans dest src dest1 src1 _ _ first left a b))
          ]
    ]

-- `cbuffer_cbuffer_copy` does to `dest` what `cbuffer_cbuffer_move` does, and leaves `src` alone.
pub cbuffer_cbuffer_copy-move :
    (dest : Cbuffer) (sz cnt : ℕ) (src : Cbuffer)
    → let (dest', n) = cbuffer_cbuffer_copy dest sz cnt src in
      let (moved, _, k) = cbuffer_cbuffer_move dest sz cnt src in (dest' ≡ moved) × (n ≡ k)
unfolding cbuffer_cbuffer_copy cbuffer_cbuffer_move
cbuffer_cbuffer_copy-move dest sz cnt src =
    let n = move_count dest sz cnt src in
    elim (Bool-cases (n == 0)) [
      | inl z ↦ rw z (refl, refl)
      | inr nz ↦ elim (Bool-cases (n * sz - first_run src (n * sz) == 0)) [
        | inl lz ↦ rw (nz, lz) (refl, refl)
        | inr lnz ↦ rw (nz, lnz) (refl, refl)
      ]
    ]
