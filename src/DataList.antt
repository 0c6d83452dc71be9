-- ===== src/DataList.antt =====
-- libs/nspager/data_list.c and include/numstore/pager/data_list.h: the leaf pages of an r+tree, which
-- hold a run of its bytes. memcpy on ranges that overlap is taken as memmove. The page's other
-- header fields are not touched by these operations.
pub mod Contents
pub mod Move
pub mod Valid
pub mod Buffer
mod Tests
use numstore.Prelude.{
  Option, some, none, ℕ, zero, suc, min, ◌+◌, ◌-◌, ◌/◌, Bool, true, false, not, ◌&&◌, List, [],
  ◌++◌, ltb, ◌==◌, if◌then◌else◌, take, drop, slice, blit, length,
}
use numstore.Cbuffer.{Cbuffer, cbuffer_read, cbuffer_write}

-- DL_DATA_SIZE: a page less its checksum, type, LSN, `next`, `prev` and `blen`.
abbrev pub dl_data_size : ℕ
dl_data_size = 2015

-- A page of type PG_DATA_LIST.
pub record DataList : Type 0 where
  pub page_type : ℕ
  pub next : ℕ
  pub prev : ℕ
  pub used : ℕ
  pub data_of : List ℕ

-- What `dl_validate_for_db` returns.
pub data Verdict : Type 0 where
  success err_corrupt : Verdict

-- PGNO_NULL: no page.
abbrev pub pgno_null : ℕ
pgno_null = 18446744073709551615

-- `dl_is_root`.
unfoldable pub dl_is_root : DataList → Bool
dl_is_root d = (d.next == pgno_null) && (d.prev == pgno_null)

-- `dl_validate_for_db`.
unfoldable pub dl_validate_for_db : DataList → Verdict
dl_validate_for_db d =
    if not (d.page_type == 4)
    then err_corrupt
    else if ltb dl_data_size d.used
    then err_corrupt
    else if dl_is_root d
    then if d.used == 0 then err_corrupt else success
    else if ltb d.used (dl_data_size / 2)
    then err_corrupt
    else success

-- `dl_avail`.
abbrev pub dl_avail : DataList → ℕ
dl_avail d = dl_data_size - d.used

-- `dl_read`, with the bytes that it copies.
unfoldable pub dl_read : DataList → ℕ → ℕ → List ℕ × ℕ
dl_read d offset nbytes =
    let toread = min (d.used - offset) nbytes in
    if offset == d.used then ([], 0) else (slice offset toread d.data_of, toread)

-- `dl_read_into_cbuffer`.
unfoldable pub dl_read_into_cbuffer : DataList → Cbuffer → ℕ → ℕ → Cbuffer × ℕ
dl_read_into_cbuffer d dest offset b =
    let toread = min (d.used - offset) b in
    if offset == d.used
    then (dest, 0)
    else if ltb 0 toread
    then cbuffer_write (slice offset toread d.data_of) 1 toread dest
    else (dest, toread)

-- `dl_read_out_into_cbuffer`.
unfoldable pub dl_read_out_into_cbuffer : DataList → Cbuffer → ℕ → ℕ → DataList × Cbuffer × ℕ
dl_read_out_into_cbuffer d dest offset b =
    let avail = min (d.used - offset) b in
    let (dest', toread) =
      if ltb 0 avail
      then cbuffer_write (slice offset avail d.data_of) 1 avail dest
      else (dest, avail) in
    let remain = d.used - toread - offset in
    if offset == d.used then (d, dest, 0) else (
      record d {
        data_of = blit d.data_of offset (slice (offset + toread) remain d.data_of);
        used = offset + remain;
      },
      dest',
      toread,
    )

-- `dl_read_out_from`.
unfoldable pub dl_read_out_from : DataList → ℕ → DataList × List ℕ × ℕ
dl_read_out_from d offset =
    let dlen = d.used - offset in
    if offset == d.used
    then (d, [], 0)
    else if ltb 0 dlen
    then (record d { used = d.used - dlen }, slice offset dlen d.data_of, dlen)
    else (d, [], dlen)

-- `dl_append`; `src` is the source from its pointer on.
unfoldable pub dl_append : DataList → List ℕ → ℕ → DataList × ℕ
dl_append d src nbytes =
    let next = min (dl_data_size - d.used) nbytes in
    if ltb 0 next
    then (record d { data_of = blit d.data_of d.used (take next src); used = d.used + next }, next)
    else (d, next)

-- `dl_append_from_cbuffer`.
unfoldable pub dl_append_from_cbuffer : DataList → Cbuffer → ℕ → DataList × Cbuffer
dl_append_from_cbuffer d src amnt =
    let (src', bytes, _) = cbuffer_read 1 amnt src in
    (record d { data_of = blit d.data_of d.used bytes; used = d.used + amnt }, src')

-- `dl_write`.
unfoldable pub dl_write : DataList → List ℕ → ℕ → ℕ → DataList × ℕ
dl_write d src offset nbytes =
    let toread = min (d.used - offset) nbytes in
    if offset == d.used
    then (d, 0)
    else if ltb 0 toread
    then (record d { data_of = blit d.data_of offset (take toread src) }, toread)
    else (d, toread)

-- `dl_write_from_buffer`.
unfoldable pub dl_write_from_buffer : DataList → Cbuffer → ℕ → ℕ → DataList × Cbuffer × ℕ
dl_write_from_buffer d src offset nbytes =
    let toread = min (d.used - offset) nbytes in
    let (src', bytes, n) = cbuffer_read 1 toread src in
    if offset == d.used
    then (d, src, 0)
    else if ltb 0 toread
    then (record d { data_of = blit d.data_of offset bytes }, src', n)
    else (d, src, toread)

-- `dl_memset_from_buffer`.
unfoldable pub dl_memset_from_buffer : DataList → Cbuffer → ℕ → DataList × Cbuffer × ℕ
dl_memset_from_buffer d src nbytes =
    let (src', bytes, read) = cbuffer_read 1 nbytes src in
    (record d { data_of = blit d.data_of 0 bytes; used = read }, src', read)

-- `dl_memset`, and `dl_set_data`.
unfoldable pub dl_memset : DataList → List ℕ → DataList
dl_memset d buf = record d { data_of = blit d.data_of 0 buf; used = length buf }

-- `dl_move_left`: both pages, the one that is moved to first; `none` where the bytes that stay overlap the place that they
-- are copied to, since `dl_memset` is a memcpy.
unfoldable pub dl_move_left : DataList → DataList → ℕ → Option (DataList × DataList)
dl_move_left dest src len =
    let actual = min len src.used in
    if ltb 0 actual
    then if ltb actual (src.used - actual)
      then none
      else some (
        (dl_append dest src.data_of actual).0,
        dl_memset src (slice actual (src.used - actual) src.data_of),
      )
    else some (dest, src)

-- `dl_shift_right`.
unfoldable pub dl_shift_right : DataList → ℕ → DataList
dl_shift_right d len = record d {
  data_of = blit d.data_of len (take d.used d.data_of);
  used = d.used + len;
}

-- `dl_move_right`: both pages, the one that is moved from first.
unfoldable pub dl_move_right : DataList → DataList → ℕ → DataList × DataList
dl_move_right src dest len =
    let actual = min len src.used in
    let ofst = src.used - actual in
    let shifted = dl_shift_right dest actual in
    if actual == 0 then (src, dest) else (
      record src { used = src.used - actual },
      record shifted { data_of = blit shifted.data_of 0 (slice ofst actual src.data_of) },
    )

-- `dl_make_valid`.
unfoldable pub dl_make_valid : DataList → DataList
dl_make_valid d = record d { used = dl_data_size }
