-- ===== src/Restart/Repeat.antt =====
-- `pgr_restart_redo` of libs/nspager/pager.c repeats history.
use numstore.Prelude.{
  ℕ, zero, suc, ◌+◌, ◌≤◌, ◌<◌, List, [], ◌∷◌, Option, some, ◌≡◌, refl, sym, arith, ap, subst,
  length, take, ◌∙◌, false, ◌==◌,
}
use numstore.Wal.{
  begin, commit, end, update, clr, ckpt_begin, ckpt_end, decoded, Page, Wal, Record, rec_len,
  wal_append, find_at, ReadResult, got, eof, wal_read_entry, wal_read_next, flush_all,
}
use numstore.Wal.Laws.{
  IsWal, wal_append-Appended, find_at-within, rec_len_pos, wal_read_entry-got, wal_read_entry-eof,
}
use numstore.Wal.RoundTrip.{append_all, append_all-find, flushed_at, read_first, read_end}
use numstore.Pager.{Pager, Code, success}
use numstore.Pager.Log.{append-find}
use numstore.Restart.{wrh_get_tid, Aries}
use numstore.Restart.Redo.{redo_switch, redo_record, redo_next, redo_loop, pgr_restart_redo}
use numstore.Restart.Reads.{redo_record_wal}
use numstore.Restart.Images.{replay, image, pred, At, redo_record-At}

-- The outcome: the pass succeeds, and each page is what the records make of it.
pub record Repeats (out : Option (Pager × Aries × Code)) (l : ℕ) (rs : List Record) (g : ℕ → Page)
    : Type 0 where
  pub final : Pager
  pub context : Aries
  pub returns : out ≡ some (final, context, success)
  pub repeated : (pg : ℕ) → final.pages pg ≡ replay pg l rs (g pg)

-- The record that was appended first is found, whatever was appended behind it.
pub first_found :
    (w : Wal) (r : Record) (rs : List Record)
    → IsWal w
    → let v = append_all (wal_append w r).0 rs in IsWal v × (find_at v.log w.next ≡ some r)
first_found w r rs v =
    let a = wal_append-Appended w r v in
    append_all-find (wal_append w r).0 rs w.next a.valid (omega (arith, a.next_is, rec_len_pos r))
      (append-find w r v)

take_none : (k l : ℕ) (g : Page) (pg : ℕ) → replay pg l (take k []) g ≡ g
take_none zero l g pg = refl
take_none (suc k) l g pg = refl

-- What the loop does with a read.
abbrev after :
    (Pager → Aries → ReadResult → Option (Pager × Aries × Code))
    → Pager
    → Aries
    → Wal × ℕ × ReadResult
    → Option (Pager × Aries × Code)
after k p a (w, l, x) = k (record p { wal = w }) (record a { redo_lsn = l }) x

-- Only the log and the context's LSN have changed.
At-reread :
    {pg k l : ℕ} {p : Pager} {a : Aries} {rs : List Record} {g : Page} (w : Wal) (n : ℕ)
    → At pg p a k l rs g
    → At pg (record p { wal = w }) (record a { redo_lsn = n }) k l rs g
At-reread w n h = record { so_far = h.so_far; behind = h.behind; listed = h.listed }

-- The tables of a checkpoint are nothing to redo.
redo_record-decoded :
    (p : Pager) (a : Aries) (r : Record) → redo_record p a (decoded r) ≡ redo_record p a r
unfolding redo_record redo_switch wrh_get_tid
redo_record-decoded p a (begin t) = refl
redo_record-decoded p a (commit t l) = refl
redo_record-decoded p a (end t l) = refl
redo_record-decoded p a (update t l pg u r) = refl
redo_record-decoded p a (clr t l pg n r) = refl
redo_record-decoded p a ckpt_begin = refl
redo_record-decoded p a (ckpt_end att dpt) = refl

redo_rest :
    (fuel : ℕ) (w : Wal) (rs : List Record) (p : Pager) (a : Aries) (k : ℕ → ℕ) (g : ℕ → Page)
    (l : ℕ)
    → IsWal w
    → length rs < fuel
    → w.next ≡ l
    → p.wal ≡ flushed_at (append_all w rs) l
    → ((pg : ℕ) → At pg p a (k pg) l rs (g pg))
    → Repeats (redo_next (redo_loop fuel) (p, a)) l rs g
unfolding redo_next redo_loop
redo_rest zero w rs p a k g l v h e pw all = absurd (omega arith)
redo_rest (suc fuel) w [] p a k g l v h e pw all =
    let read : wal_read_next p.wal ≡ (flushed_at w l, l, eof) =
      ap wal_read_next pw
      ∙ subst (λ l. wal_read_next (flushed_at w l) ≡ (flushed_at w l, l, eof)) e (read_end w) in
    record {
      final = _;
      context = _;
      returns = ap (after (redo_loop (suc fuel)) p a) read;
      repeated = λ pg. (all pg).so_far ∙ take_none (k pg) l (g pg) pg;
    }
redo_rest (suc fuel) w (r ∷ rs) p a k g l v h e pw all =
    let w1 = (wal_append w r).0 in
    let V = append_all w1 rs in
    let (ok, found) = first_found w r rs v in
    let read : wal_read_next p.wal ≡ (flushed_at V (l + rec_len r), l, got (decoded r)) =
      ap wal_read_next pw ∙ read_first V l r ok (subst (λ l. find_at V.log l ≡ some r) e found) in
    let p1 = record p { wal = flushed_at V (l + rec_len r) } in
    let a1 = record a { redo_lsn = l } in
    let rest =
      redo_rest fuel w1 rs (redo_record p1 a1 r).0 (redo_record p1 a1 r).1 (λ pg. pred (k pg))
        (λ pg. image pg l r (g pg)) (l + rec_len r) (wal_append-Appended w r v).valid (omega arith)
        (omega (arith, (wal_append-Appended w r v).next_is)) (redo_record_wal p1 a1 r)
        (λ pg. redo_record-At pg p1 a1 (k pg) r rs (g pg) (At-reread _ l (all pg))) in
    record {
      final = rest.final;
      context = rest.context;
      returns =
          ap (after (redo_loop (suc fuel)) p a) read
          ∙ ap (redo_next (redo_loop fuel)) (redo_record-decoded p1 a1 r)
          ∙ rest.returns;
      repeated = rest.repeated;
    }

flush_le : (w : Wal) (l : ℕ) → l ≤ w.next → l ≤ (flush_all w).flushed
unfolding flush_all
flush_le w l h = h

flush_ge : (w : Wal) (l : ℕ) → w.next ≤ l → (flush_all w).flushed ≤ l
unfolding flush_all
flush_ge w l h = h

abbrev from_read : ℕ → Pager → Aries → Wal × ReadResult → Option (Pager × Aries × Code)
from_read fuel p a (w, x) = redo_loop fuel (record p { wal = w }) a x

-- The loop from the first read on.
redo_start :
    (fuel : ℕ) (w : Wal) (rs : List Record) (p : Pager) (a : Aries) (k : ℕ → ℕ) (g : ℕ → Page)
    (c : ℕ)
    → IsWal w
    → length rs < fuel
    → a.redo_lsn ≡ w.next
    → p.wal ≡ flushed_at (append_all w rs) c
    → ((pg : ℕ) → At pg p a (k pg) a.redo_lsn rs (g pg))
    → Repeats (from_read fuel p a (wal_read_entry p.wal a.redo_lsn)) a.redo_lsn rs g
unfolding redo_loop flush_all
redo_start zero w rs p a k g c v h e pw all = absurd (omega arith)
redo_start (suc fuel) w [] p a k g c v h e pw all =
    let read : wal_read_entry p.wal a.redo_lsn ≡ (flushed_at w a.redo_lsn, eof) =
      ap (λ u. wal_read_entry u a.redo_lsn) pw
      ∙ wal_read_entry-eof (flushed_at w c) a.redo_lsn (flush_ge w a.redo_lsn (omega arith)) in
    record {
      final = _;
      context = _;
      returns = ap (from_read (suc fuel) p a) read;
      repeated = λ pg. (all pg).so_far ∙ take_none (k pg) a.redo_lsn (g pg) pg;
    }
redo_start (suc fuel) w (r ∷ rs) p a k g c v h e pw all =
    let l = a.redo_lsn in
    let w1 = (wal_append w r).0 in
    let V = append_all w1 rs in
    let (ok, found) = first_found w r rs v in
    let there = subst (λ l. find_at V.log l ≡ some r) (sym e) found in
    let read : wal_read_entry p.wal l ≡ (flushed_at V (l + rec_len r), got (decoded r)) =
      ap (λ u. wal_read_entry u l) pw
      ∙ wal_read_entry-got (flushed_at V c) l r there
          (flush_le V _ (find_at-within V.next V.log l ok.within there)) in
    let p1 = record p { wal = flushed_at V (l + rec_len r) } in
    let rest =
      redo_rest fuel w1 rs (redo_record p1 a r).0 (redo_record p1 a r).1 (λ pg. pred (k pg))
        (λ pg. image pg l r (g pg)) (l + rec_len r) (wal_append-Appended w r v).valid (omega arith)
        (omega (arith, (wal_append-Appended w r v).next_is)) (redo_record_wal p1 a r)
        (λ pg. redo_record-At pg p1 a (k pg) r rs (g pg) (At-reread _ l (all pg))) in
    record {
      final = rest.final;
      context = rest.context;
      returns =
          ap (from_read (suc fuel) p a) read
          ∙ ap (redo_next (redo_loop fuel)) (redo_record-decoded p1 a r)
          ∙ rest.returns;
      repeated = rest.repeated;
    }

-- A record takes at least a byte.
pub length-append_all :
    (w : Wal) (rs : List Record) → IsWal w → length rs ≤ (flush_all (append_all w rs)).flushed
unfolding flush_all
length-append_all w rs v = omega (arith, count w rs v)
  where
    count : (w : Wal) (rs : List Record) → IsWal w → length rs + w.next ≤ (append_all w rs).next
    count w [] v = omega arith
    count w (r ∷ rs) v =
        let a = wal_append-Appended w r v in
        omega (arith, count (wal_append w r).0 rs a.valid, a.next_is, rec_len_pos r)

-- Redo repeats history. The log is flushed, and RedoLSN is the LSN at which the records `rs` begin.
-- Each page is as some number `k pg` of these records make it from what it was before them, whatever
-- that number is, and each later record of the page is at the RecLSN of the page in the dirty page
-- table or behind it. Then redo succeeds, and every page is as all the records make it, LSN included.
pub pgr_restart_redo-replay :
    (w : Wal) (rs : List Record) (p : Pager) (a : Aries) (k : ℕ → ℕ) (g : ℕ → Page) (c : ℕ)
    → IsWal w
    → 0 < w.next
    → a.redo_lsn ≡ w.next
    → p.wal ≡ flushed_at (append_all w rs) c
    → ((pg : ℕ) → At pg p a (k pg) a.redo_lsn rs (g pg))
    → Repeats (pgr_restart_redo p a) a.redo_lsn rs g
unfolding pgr_restart_redo
pgr_restart_redo-replay w rs p a k g c v pos e pw all =
    let live : (a.redo_lsn == 0) ≡ false = ground arith in
    let short : length rs < p.wal.flushed + 2 = rw pw (omega (arith, length-append_all w rs v)) in
    rw live (redo_start (p.wal.flushed + 2) w rs p a k g c v short e pw all)
