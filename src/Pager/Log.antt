-- ===== src/Pager/Log.antt =====
-- The log as the operations of libs/nspager/pager.c leave it: each operation keeps it well formed,
-- and a record that is in it stays where it is.
use numstore.Prelude.{ℕ, ◌+◌, ◌≤◌, some, ◌≡◌, refl, arith, Option-cases, inl, inr, sym, ap, subst}
use numstore.Wal.{Page, Record, Wal, wal_append, flush_all, rec_len, find_at}
use numstore.Wal.Laws.{IsWal, wal_append-Appended, find_at-append, find_at-within, rec_len_pos}
use numstore.Pager.{Pager, success, put, pgr_save, note_dirty, save_record, saved_txn}

-- `w'` holds all that `w` holds, at the same places, and no less of it is in the file.
pub record Extends (w w' : Wal) : Type 0 where
  pub keeps : (l : ℕ) (r : Record) → find_at w.log l ≡ some r → find_at w'.log l ≡ some r
  pub longer : w.next ≤ w'.next
  pub durable : w.flushed ≤ w'.flushed

pub Extends-refl : (w : Wal) → Extends w w
Extends-refl w = record { keeps = λ l r h. h; longer = omega arith; durable = omega arith }

pub Extends-trans : {u v w : Wal} → Extends u v → Extends v w → Extends u w
Extends-trans a b = record {
  keeps = λ l r h. b.keeps l r (a.keeps l r h);
  longer = omega (arith, a.longer, b.longer);
  durable = omega (arith, a.durable, b.durable);
}

pub append-Extends : (w : Wal) (r : Record) → IsWal w → Extends w (wal_append w r).0
append-Extends w r v =
    let a = wal_append-Appended w r v in
    record {
      keeps = λ l k h.
          subst (λ es. find_at es l ≡ some k) (sym a.log_is)
            (find_at-append (record { at = w.next; rec = r }) w.log l
              (omega (arith, find_at-within w.next w.log l v.within h, rec_len_pos k)) h);
      longer = omega (arith, a.next_is);
      durable = a.flushed_le;
    }

pub flush-Extends : (w : Wal) → IsWal w → Extends w (flush_all w)
unfolding flush_all
flush-Extends w v = record { keeps = λ l r h. h; longer = omega arith; durable = v.behind }

-- The record that has just been appended is found at the LSN that the append returned.
pub append-find : (w : Wal) (r : Record) → IsWal w → find_at (wal_append w r).0.log w.next ≡ some r
unfolding find_at
append-find w r v =
    let a = wal_append-Appended w r v in
    subst (λ es. find_at es w.next ≡ some r) (sym a.log_is) (ground arith)

-- What `pgr_save` leaves where it succeeds.
pub record Saved (p : Pager) (tid pg : ℕ) (new : Page) (q : Pager) : Type 0 where
  pub wal_is : q.wal ≡ (wal_append p.wal (save_record p tid pg new)).0
  pub txns_are : q.txns ≡ put p.txns tid (saved_txn (p.txns tid) p.wal.next)
  pub pages_are : q.pages ≡ put p.pages pg (record new { page_lsn = p.wal.next })
  pub disk_is : q.disk ≡ p.disk

pub pgr_save-Saved :
    (p : Pager) (tid pg : ℕ) (new : Page)
    → IsWal p.wal
    → (pgr_save p tid pg new).1 ≡ success
    → Saved p tid pg new (pgr_save p tid pg new).0
unfolding pgr_save
pgr_save-Saved p tid pg new v h =
    let a = wal_append-Appended p.wal (save_record p tid pg new) v in
    elim (Option-cases (note_dirty p.dpt pg (wal_append p.wal (save_record p tid pg new)).1)) [
      | inl full ↦ absurd (ground arith)
      | inr (t, e) ↦
          rw (e, pgr_save)
            (record {
              wal_is = refl;
              txns_are = ap (λ l. put p.txns tid (saved_txn (p.txns tid) l)) a.at_end;
              pages_are = ap (λ l. put p.pages pg (record new { page_lsn = l })) a.at_end;
              disk_is = refl;
            })
    ]

pub put_self {ℓ} : {A : Type ℓ} (f : ℕ → A) (i : ℕ) (v : A) → put f i v i ≡ v
put_self f i v = ground arith

-- A record that has just been appended ends where the log ends.
pub append_end : (w : Wal) (r : Record) → IsWal w → w.next + rec_len r ≤ (wal_append w r).0.next
append_end w r v = omega (arith, (wal_append-Appended w r v).next_is)
