-- ===== src/DataList/Tests.antt =====
-- The properties of a data list page at concrete pages.
use numstore.Prelude.{
  some, ℕ, min, ◌+◌, ◌-◌, false, List, [], ◌∷◌, ◌++◌, ◌≡◌, refl, arith, take, drop, slice, length,
  replicate, length-replicate,
}
use numstore.Cbuffer.{Cbuffer, cbuffer_avail}
use numstore.Cbuffer.Consume.{IsCbuffer, contents as queued}
use numstore.DataList.{DataList, pgno_null, dl_move_left, dl_read_out_into_cbuffer}
use numstore.DataList.Contents.{IsDataList, contents}
use numstore.DataList.Move.{dl_move_left_lem}
use numstore.DataList.Buffer.{dl_read_out_into_cbuffer_lem}

abbrev page_with : List ℕ → ℕ → DataList
page_with bytes blank = record {
  page_type = 4;
  next = pgno_null;
  prev = pgno_null;
  used = length bytes;
  data_of = bytes ++ replicate blank 0;
}

-- Five bytes, and three.
abbrev five : DataList
five = page_with (1 ∷ 2 ∷ 3 ∷ 4 ∷ 5 ∷ []) 2010

abbrev three : DataList
three = page_with (6 ∷ 7 ∷ 8 ∷ []) 2012

five-IsDataList : IsDataList five
five-IsDataList = record {
  sized = omega (arith, length-replicate {A = ℕ} 2010 0);
  within = omega arith;
}

three-IsDataList : IsDataList three
three-IsDataList = record {
  sized = omega (arith, length-replicate {A = ℕ} 2012 0);
  within = omega arith;
}

abbrev two_queued : Cbuffer
two_queued = record { data_of = 9 ∷ 0 ∷ 0 ∷ 8 ∷ []; cap = 4; head = 1; tail = 3; isfull = false }

two_queued-IsCbuffer : IsCbuffer two_queued
two_queued-IsCbuffer = record {
  sized = refl;
  head_in = omega arith;
  tail_in = omega arith;
  full_meets = λ e. ground arith;
  small = omega arith;
}

dl_move_left_example :
    let n = min 2 3 in
    (dest' src' : DataList) × (dl_move_left five three 2 ≡ some (dest', src'))
    × IsDataList dest'
    × IsDataList src'
    × (dest'.used ≡ 5 + n)
    × (src'.used ≡ 3 - n)
    × (contents dest' ++ contents src' ≡ contents five ++ contents three)
dl_move_left_example =
    dl_move_left_lem five three 2 five-IsDataList three-IsDataList (omega arith) (λ _. omega arith)

dl_read_out_into_cbuffer_example :
    let (d', dest', n) = dl_read_out_into_cbuffer five two_queued 1 3 in
    IsDataList d'
    × IsCbuffer dest'
    × (n ≡ min (min (5 - 1) 3) (cbuffer_avail two_queued))
    × (contents d' ≡ take 1 (contents five) ++ drop (1 + n) (contents five))
    × (queued dest' ≡ queued two_queued ++ slice 1 n (contents five))
dl_read_out_into_cbuffer_example =
    dl_read_out_into_cbuffer_lem five two_queued 1 3 five-IsDataList two_queued-IsCbuffer
      (omega arith)
