-- ===== src/Restart/Losers.antt =====
-- Restart of libs/nspager/pager.c from the beginning of the log: analysis logs the end of every
-- transaction, also of those that had not committed, and leaves none for undo.
use numstore.Prelude.{
  ℕ, zero, suc, ◌+◌, ◌<◌, List, [], ◌∷◌, Option, some, ◌≡◌, refl, sym, arith, subst, ap, ◌∙◌,
  length, some_inj,
}
use numstore.Wal.{
  decoded, begin, commit, end, update, clr, ckpt_begin, ckpt_end, Record, Wal, wal_append, got, eof,
  wal_read_next, rec_len, find_at,
}
use numstore.Wal.Laws.{IsWal, wal_append-Appended}
use numstore.Wal.RoundTrip.{append_all, flushed_at, read_first, read_end}
use numstore.Pager.{
  Pager, Code, success, err_corrupt, err_dpgt_full, failed_assert, returned_early,
  err_duplicate_commit,
}
use numstore.Restart.{
  Aries, aries_ctx_create, analysis_record, analysis_next, analysis_read, analysis_loop,
  analysis_scan, analysis_end, analysis_finish, pgr_restart_analysis,
}
use numstore.Restart.Undo.{pgr_restart_undo, undo_round, txnt_max_u_undo_lsn}
use numstore.Restart.Table.{Fits, live_after, IsBracketed, Holds, analysis_record-Table}
use numstore.Restart.Repeat.{first_found, length-append_all}
use numstore.Restart.Ends.{ends-empty}

-- The scan comes to an end with a table of transactions that have begun.
record Scanned (out : Option (Wal × Aries × Code)) : Type 0 where
  final : Wal × Aries × Code
  returns : out ≡ some final
  live : List ℕ
  holds : Holds final.1 live

analysis_next-Scanned :
    (k : Aries → Option (Wal × Aries × Code)) (w : Wal) (out : Aries × Code) (live : List ℕ)
    → Holds out.0 live
    → ((a : Aries) → Holds a live → Scanned (k a))
    → Scanned (analysis_next k w out)
unfolding analysis_next
analysis_next-Scanned k w (a, success) live h ih = ih a h
analysis_next-Scanned k w (a, err_duplicate_commit) live h ih = record {
  final = _;
  returns = refl;
  live = live;
  holds = h;
}
analysis_next-Scanned k w (a, err_dpgt_full) live h ih = record {
  final = _;
  returns = refl;
  live = live;
  holds = h;
}
analysis_next-Scanned k w (a, err_corrupt) live h ih = record {
  final = _;
  returns = refl;
  live = live;
  holds = h;
}
analysis_next-Scanned k w (a, failed_assert) live h ih = record {
  final = _;
  returns = refl;
  live = live;
  holds = h;
}
analysis_next-Scanned k w (a, returned_early) live h ih = record {
  final = _;
  returns = refl;
  live = live;
  holds = h;
}

-- Such a record is read as it was written.
Fits-decoded : (live : List ℕ) (r : Record) → Fits live r → decoded r ≡ r
Fits-decoded live (begin t) h = refl
Fits-decoded live (commit t l) h = refl
Fits-decoded live (end t l) h = refl
Fits-decoded live (update t l pg u r) h = refl
Fits-decoded live (clr t l pg n r) h = refl
Fits-decoded live ckpt_begin h = refl
Fits-decoded live (ckpt_end att dpt) h = elim h [ ]

analysis_loop-Scanned :
    (fuel : ℕ) (w : Wal) (rs : List Record) (u : Wal) (a : Aries) (live : List ℕ) (l : ℕ)
    → IsWal w
    → length rs < fuel
    → w.next ≡ l
    → u ≡ flushed_at (append_all w rs) l
    → Holds a live
    → IsBracketed live rs
    → Scanned (analysis_loop fuel u a)
unfolding analysis_loop analysis_read
analysis_loop-Scanned zero w rs u a live l v h e eu t b = absurd (omega arith)
analysis_loop-Scanned (suc fuel) w [] u a live l v h e eu t b =
    let read : wal_read_next u ≡ (flushed_at w l, l, eof) =
      ap wal_read_next eu
      ∙ subst (λ l. wal_read_next (flushed_at w l) ≡ (flushed_at w l, l, eof)) e (read_end w) in
    record {
      final = _;
      returns = ap (analysis_read (analysis_loop fuel) a) read;
      live = live;
      holds = t;
    }
analysis_loop-Scanned (suc fuel) w (r ∷ rs) u a live l v h e eu t (fits, b) =
    let w1 = (wal_append w r).0 in
    let V = append_all w1 rs in
    let (ok, found) = first_found w r rs v in
    let read : wal_read_next u ≡ (flushed_at V (l + rec_len r), l, got r) =
      ap wal_read_next eu
      ∙ read_first V l r ok (subst (λ l. find_at V.log l ≡ some r) e found)
      ∙ ap (λ x. (flushed_at V (l + rec_len r), l, got x)) (Fits-decoded live r fits) in
    let s : Scanned (
        analysis_next (analysis_loop fuel (flushed_at V (l + rec_len r)))
          (flushed_at V (l + rec_len r)) (analysis_record a l r)) =
      analysis_next-Scanned (analysis_loop fuel (flushed_at V (l + rec_len r))) _
        (analysis_record a l r) (live_after live r) (analysis_record-Table a l r live t fits)
        (λ a' t'.
          analysis_loop-Scanned fuel w1 rs _ a' (live_after live r) (l + rec_len r)
            (wal_append-Appended w r v).valid (omega arith)
            (omega (arith, (wal_append-Appended w r v).next_is)) refl t' b) in
    record {
      final = s.final;
      returns = ap (analysis_read (analysis_loop fuel) a) read ∙ s.returns;
      live = s.live;
      holds = s.holds;
    }

end-empty :
    (p q : Pager) (a : Aries) (out : Wal × Aries × Code) (live : List ℕ)
    → Holds out.1 live
    → analysis_end p out ≡ (q, a, success)
    → a.txt ≡ []
unfolding analysis_end
end-empty p q a (w, a0, success) live h e =
    sym (ap (λ r. r.1.txt) e) ∙ ends-empty w a0.nelem a0.bank a0.txt live h
end-empty p q a (w, a0, err_duplicate_commit) live h e = cc e
end-empty p q a (w, a0, err_dpgt_full) live h e = cc e
end-empty p q a (w, a0, err_corrupt) live h e = cc e
end-empty p q a (w, a0, failed_assert) live h e = cc e
end-empty p q a (w, a0, returned_early) live h e = cc e

nothing_to_undo :
    (fuel : ℕ) (q : Pager) (b : Aries)
    → b.txt ≡ []
    → pgr_restart_undo (suc fuel) q b ≡ some (q, b, success)
unfolding pgr_restart_undo undo_round txnt_max_u_undo_lsn
nothing_to_undo fuel q b e = rw (e, txnt_max_u_undo_lsn) refl

module _ (w : Wal) (rs : List Record) (p q : Pager) (a : Aries) (v : IsWal w)
    (bracketed : IsBracketed [] rs) (log : p.wal ≡ flushed_at (append_all w rs) w.next)
    (analysed : pgr_restart_analysis p (aries_ctx_create 0) ≡ some (q, a, success)) where
  analysed-empty : a.txt ≡ []
  unfolding pgr_restart_analysis aries_ctx_create analysis_scan analysis_finish
  analysed-empty =
      let s =
        analysis_loop-Scanned (p.wal.flushed + 1) w rs p.wal
          (record (aries_ctx_create 0) { redo_lsn = 0 }) [] w.next v
          (rw log (omega (arith, length-append_all w rs v))) refl log tt bracketed in
      end-empty p q a s.final s.live s.holds
        (some_inj (sym (ap (analysis_finish p) s.returns) ∙ analysed))

  -- No transaction is rolled back by a restart without a checkpoint. The log from its beginning on holds
  -- records `rs`, each of a transaction that has begun and not ended, with or without its commit. Where
  -- analysis succeeds, its table of transactions is empty, also if some of them have neither committed nor
  -- ended; and undo, whatever redo has made of the pages, of the dirty page table, of RedoLSN and of the
  -- greatest id, returns at once and leaves them as they are.
  pub restart_loses_undo :
      (a.txt ≡ [])
      × ((fuel : ℕ) (r : Pager) (b : Aries)
          → pgr_restart_undo (suc fuel) r (record b { txt = a.txt })
            ≡ some (r, record b { txt = a.txt }, success))
  restart_loses_undo =
      (analysed-empty, λ fuel r b. nothing_to_undo fuel r (record b { txt = a.txt }) analysed-empty)
