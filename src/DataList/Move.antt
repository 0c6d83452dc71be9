-- ===== src/DataList/Move.antt =====
-- `dl_move_left` and `dl_move_right` of libs/nspager/data_list.c: bytes go from one page to its
-- neighbour.
use numstore.Prelude.{
  ℕ, min, ◌+◌, ◌-◌, ◌≤◌, List, ◌++◌, ◌≡◌, refl, sym, ap, ap₂, ◌∙◌, arith, ltb, ltb→lt, le→ltb-false,
  some, ◌*◌, ◌<◌, ◌==◌, length, take, drop, slice, blit, length-take, length-drop, length-blit,
  drop-blit_start, take-append_le, take-append_add, take_all, take-add, Bool-cases, inl, inr,
  append_assoc, ==→eq,
}
use numstore.DataList.{
  DataList, dl_data_size, dl_avail, dl_memset, dl_append, dl_move_left, dl_shift_right,
  dl_move_right,
}
use numstore.DataList.Contents.{IsDataList, contents, length-contents, dl_append_lem, dl_memset_is}

memset_used : (d : DataList) (b : List ℕ) → (dl_memset d b).used ≡ length b
unfolding dl_memset
memset_used d b = refl

-- The old bytes are moved up by `n`, and `n` bytes are copied before them.
front_copy :
    (d old chunk : List ℕ) (n m : ℕ)
    → length chunk ≡ n
    → n + length old ≤ length d
    → m ≡ length old + n
    → take m (blit (blit d n old) 0 chunk) ≡ chunk ++ old
unfolding blit
front_copy d old chunk n m lc h e =
    take-append_add m (length old) chunk (drop (0 + length chunk) (blit d n old)) (omega arith)
    ∙ ap (λ x. chunk ++ take (length old) x)
        (ap (λ k. drop k (blit d n old)) z ∙ drop-blit_start d n old (omega arith))
    ∙ ap (λ x. chunk ++ x)
        (take-append_le (length old) old (drop (n + length old) d) (omega arith)
          ∙ take_all (length old) old (omega arith))
  where
    z : 0 + length chunk ≡ n
    z = omega (arith, lc)

-- `dl_move_left` moves at most `len` bytes from the front of `src` to the end of `dest`: both pages
-- stay valid, and their bytes, those of `dest` first, are the same sequence as before. No more bytes may stay in `src`
-- than move, unless none moves.
pub dl_move_left_lem :
    (dest src : DataList) (len : ℕ)
    → IsDataList dest
    → IsDataList src
    → len ≤ dl_avail dest
    → (0 < min len src.used → src.used ≤ 2 * min len src.used)
    → let n = min len src.used in
      (dest' src' : DataList) × (dl_move_left dest src len ≡ some (dest', src'))
      × IsDataList dest'
      × IsDataList src'
      × (dest'.used ≡ dest.used + n)
      × (src'.used ≡ src.used - n)
      × (contents dest' ++ contents src' ≡ contents dest ++ contents src)
unfolding dl_move_left
dl_move_left_lem dest src len dv sv h apart =
    let n = min len src.used in
    let w = sv.within in
    let s = sv.sized in
    elim (Bool-cases (ltb 0 n)) [
      | inr none_moved ↦
          let z : 0 ≡ n = ground arith in
          (dest, src, rw none_moved refl, dv, sv, omega arith, omega arith, refl)
      | inl pos ↦
          let a = dl_append_lem dest src.data_of n dv (omega arith) in
          let rest = slice n (src.used - n) src.data_of in
          let lr : length rest ≡ src.used - n =
            omega
              (arith, length-take (src.used - n) (drop n src.data_of), length-drop n src.data_of) in
          let m = dl_memset_is src rest sv (omega arith) in
          let e : min (dl_avail dest) n ≡ n = omega arith in
          (
            (dl_append dest src.data_of n).0,
            dl_memset src rest,
            rw (pos, le→ltb-false n (src.used - n) (omega (arith, apart (ltb→lt 0 n pos)))) refl,
            a.0,
            m.0,
            a.2 ∙ ap (λ k. dest.used + k) (a.1 ∙ e),
            memset_used src rest ∙ lr,
            ap₂ (λ x y. x ++ y) (a.3 ∙ ap (λ k. contents dest ++ take k src.data_of) (a.1 ∙ e)) m.1
                ∙ append_assoc (contents dest) (take n src.data_of) rest
                ∙ ap (λ x. contents dest ++ x)
                    (sym (take-add n (src.used - n) src.used src.data_of (omega arith))),
          )
    ]

-- `dl_move_right` moves at most `len` bytes from the end of `src` to the front of `dest`: both pages
-- stay valid, and their bytes, those of `src` first, are the same sequence as before.
pub dl_move_right_lem :
    (src dest : DataList) (len : ℕ)
    → IsDataList src
    → IsDataList dest
    → len ≤ dl_avail dest
    → let (src', dest') = dl_move_right src dest len in
      let n = min len src.used in
      IsDataList src'
      × IsDataList dest'
      × (src'.used ≡ src.used - n)
      × (dest'.used ≡ dest.used + n)
      × (contents src' ++ contents dest' ≡ contents src ++ contents dest)
unfolding dl_move_right dl_shift_right
dl_move_right_lem src dest len sv dv h =
    let n = min len src.used in
    let w = sv.within in
    let s = sv.sized in
    let dw = dv.within in
    let ds = dv.sized in
    elim (Bool-cases (n == 0)) [
      | inl none_moved ↦
          let z = ==→eq n 0 none_moved in rw none_moved (sv, dv, omega arith, omega arith, refl)
      | inr pos ↦
          let ofst = src.used - n in
          let chunk = slice ofst n src.data_of in
          let lc : length chunk ≡ n =
            omega (arith, length-take n (drop ofst src.data_of), length-drop ofst src.data_of) in
          let old = contents dest in
          let lo = length-contents dest dv in
          let moved = blit dest.data_of n old in
          let lm : length moved ≡ dl_data_size =
            length-blit dest.data_of n old (omega arith) ∙ dv.sized in
          let new : take (dest.used + n) (blit moved 0 chunk) ≡ chunk ++ old =
            front_copy dest.data_of old chunk n (dest.used + n) lc (omega arith) (omega arith) in
          rw pos (
            record { sized = sv.sized; within = omega arith },
            record { sized = length-blit moved 0 chunk (omega arith) ∙ lm; within = omega arith },
            refl,
            refl,
            ap (λ x. take ofst src.data_of ++ x) new
                ∙ sym (append_assoc (take ofst src.data_of) chunk old)
                ∙ ap (λ x. x ++ old) (sym (take-add ofst n src.used src.data_of (omega arith))),
          )
    ]
