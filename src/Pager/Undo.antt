-- ===== src/Pager/Undo.antt =====
-- What `pgr_rollback` of libs/nspager/pager.c undoes.
use numstore.Prelude.{
  ℕ, zero, suc, ◌+◌, ◌≤◌, ◌<◌, false, List, [], ◌∷◌, some, ◌≡◌, refl, arith, ◌==◌, ◌∙◌, lt→ltb,
}
use numstore.Wal.{Page, Entry, Record, begin, update, clr, Wal, rec_len, find_at, got, decoded}
use numstore.Wal.Laws.{IsWal, wal_append-Appended, wal_read_entry-got}
use numstore.Pager.{Pager, success, put}
use numstore.Pager.Log.{Extends, Extends-refl, Extends-trans, append-Extends}
use numstore.Pager.Rollback.{
  with_undo_next, undo_update, rollback_record, rollback_next, rollback_loop, pgr_rollback,
}

-- The records of one transaction from an LSN backwards, each whole below `limit`, with the undo
-- images that lie on the way, the newest first. No update stands at LSN 0 or right behind a record there.
pub data Chain (es : List Entry) (limit : ℕ) : ℕ → List (ℕ × Page) → Type 0 where
  at_zero : Chain es limit 0 []
  at_begin :
      {l tid : ℕ}
      → find_at es l ≡ some (begin tid)
      → l + rec_len (begin tid) ≤ limit
      → Chain es limit l []
  at_update :
      {l tid prev pg : ℕ} {undo redo : Page} {us : List (ℕ × Page)}
      → find_at es l ≡ some (update tid prev pg undo redo)
      → l + rec_len (update tid prev pg undo redo) ≤ limit
      → prev < l
      → 0 < prev
      → Chain es limit prev us
      → Chain es limit l ((pg, undo) ∷ us)
  at_clr :
      {l tid prev pg undo_next : ℕ} {redo : Page} {us : List (ℕ × Page)}
      → find_at es l ≡ some (clr tid prev pg undo_next redo)
      → l + rec_len (clr tid prev pg undo_next redo) ≤ limit
      → undo_next < l
      → Chain es limit undo_next us
      → Chain es limit l us

pub Chain-Extends :
    {u v : Wal} {n m l : ℕ} {us : List (ℕ × Page)}
    → Extends u v
    → n ≤ m
    → Chain u.log n l us
    → Chain v.log m l us
Chain-Extends x h at_zero = at_zero
Chain-Extends x h (at_begin f b) = at_begin (x.keeps _ _ f) (omega arith)
Chain-Extends x h (at_update f b lt pos c) =
    at_update (x.keeps _ _ f) (omega arith) lt pos (Chain-Extends x h c)
Chain-Extends x h (at_clr f b lt c) = at_clr (x.keeps _ _ f) (omega arith) lt (Chain-Extends x h c)

-- The undo images written back, the newest first.
abbrev pub restore : List (ℕ × Page) → (ℕ → Page) → ℕ → Page
restore [] f = f
restore ((pg, undo) ∷ us) f = restore us (put f pg undo)

-- Two memories of pages agree but for the LSNs in the pages.
abbrev pub SameBodies : (ℕ → Page) → (ℕ → Page) → Type 0
SameBodies f g = (pg : ℕ) → (f pg).body ≡ (g pg).body

pub put-SameBodies :
    (f g : ℕ → Page) (pg : ℕ) (a b : Page)
    → SameBodies f g
    → a.body ≡ b.body
    → SameBodies (put f pg a) (put g pg b)
put-SameBodies f g pg a b h e j = ground (arith, h j)

pub restore-SameBodies :
    (us : List (ℕ × Page)) (f g : ℕ → Page)
    → SameBodies f g
    → SameBodies (restore us f) (restore us g)
restore-SameBodies [] f g h = h
restore-SameBodies ((pg, undo) ∷ us) f g h =
    restore-SameBodies us (put f pg undo) (put g pg undo) (put-SameBodies f g pg undo undo h refl)

-- What a rollback that ends well leaves.
pub record RolledBack (p : Pager) (tid : ℕ) (us : List (ℕ × Page)) (q : Pager) : Type 0 where
  pub restored : SameBodies q.pages (restore us p.pages)
  pub disk_kept : q.disk ≡ p.disk
  pub others_kept : (t : ℕ) → (tid == t) ≡ false → q.txns t ≡ p.txns t
  pub extended : Extends p.wal q.wal
  pub valid : IsWal q.wal

-- One record on the way.
undo_update-RolledBack :
    (p q : Pager) (tid rec_tid prev pg l : ℕ) (undo : Page) (us : List (ℕ × Page))
    → IsWal p.wal
    → let p1 = undo_update p tid rec_tid prev pg undo in
      RolledBack (record p1 { txns = put p1.txns tid (with_undo_next (p1.txns tid) l) }) tid us q
      → RolledBack p tid ((pg, undo) ∷ us) q
unfolding undo_update
undo_update-RolledBack p q tid rec_tid prev pg l undo us v r = record {
  restored = λ j.
      r.restored j
      ∙ restore-SameBodies us _ (put p.pages pg undo)
          (put-SameBodies p.pages p.pages pg _ undo (λ _. refl) refl) j;
  disk_kept = r.disk_kept;
  others_kept = λ t e. r.others_kept t e ∙ ground arith;
  extended =
      Extends-trans (append-Extends p.wal (clr rec_tid (p.txns tid).last_lsn pg prev undo) v)
        r.extended;
  valid = r.valid;
}

undo_update-Extends :
    (p : Pager) (tid rec_tid prev pg : ℕ) (undo : Page)
    → IsWal p.wal
    → let p1 = undo_update p tid rec_tid prev pg undo in Extends p.wal p1.wal × IsWal p1.wal
unfolding undo_update
undo_update-Extends p tid rec_tid prev pg undo v =
    let r = clr rec_tid (p.txns tid).last_lsn pg prev undo in
    (append-Extends p.wal r v, (wal_append-Appended p.wal r v).valid)

-- A note of where the loop stands changes nothing else.
noted-RolledBack :
    (p q : Pager) (tid l : ℕ) (us : List (ℕ × Page))
    → RolledBack (record p { txns = put p.txns tid (with_undo_next (p.txns tid) l) }) tid us q
    → RolledBack p tid us q
noted-RolledBack p q tid l us r = record {
  restored = r.restored;
  disk_kept = r.disk_kept;
  others_kept = λ t e. r.others_kept t e ∙ ground arith;
  extended = r.extended;
  valid = r.valid;
}

abbrev at_cursor : Pager → ℕ → Pager
at_cursor p c = record p { wal = record p.wal { curlsn = c } }

cursor-IsWal : (p : Pager) (c : ℕ) → IsWal p.wal → IsWal (at_cursor p c).wal
cursor-IsWal p c v = record { behind = v.behind; fits = v.fits; within = v.within }

cursor-RolledBack :
    (p q : Pager) (tid c : ℕ) (us : List (ℕ × Page))
    → RolledBack (at_cursor p c) tid us q
    → RolledBack p tid us q
cursor-RolledBack p q tid c us r = record {
  restored = r.restored;
  disk_kept = r.disk_kept;
  others_kept = r.others_kept;
  extended = record {
    keeps = r.extended.keeps;
    longer = r.extended.longer;
    durable = r.extended.durable;
  };
  valid = r.valid;
}

pub RolledBack-refl : (p : Pager) (tid : ℕ) → IsWal p.wal → RolledBack p tid [] p
RolledBack-refl p tid v = record {
  restored = λ j. refl;
  disk_kept = refl;
  others_kept = λ t e. refl;
  extended = Extends-refl p.wal;
  valid = v;
}

-- One round of the loop, at a record that is in the file whole.
rollback_loop_step :
    (fuel tid : ℕ) (p : Pager) (l : ℕ) (r : Record)
    → 0 < l
    → find_at p.wal.log l ≡ some r
    → l + rec_len r ≤ p.wal.flushed
    → rollback_loop (suc fuel) 0 tid p l
      ≡ rollback_next
          (rollback_loop fuel 0 tid)
          tid
          (rollback_record (at_cursor p (l + rec_len r)) tid (got (decoded r)))
unfolding rollback_loop
rollback_loop_step fuel tid p l r h f b = rw (lt→ltb 0 l h, wal_read_entry-got p.wal l r f b)

rollback_loop_zero :
    (fuel tid : ℕ) (p : Pager) → 0 < fuel → rollback_loop fuel 0 tid p 0 ≡ some (p, success)
unfolding rollback_loop
rollback_loop_zero zero tid p h = absurd (omega arith)
rollback_loop_zero (suc fuel) tid p h = refl

abbrev Ends : ℕ → ℕ → Pager → ℕ → List (ℕ × Page) → Type 0
Ends fuel tid p l us =
    (q : Pager) × (rollback_loop fuel 0 tid p l ≡ some (q, success)) × RolledBack p tid us q

not_zero : (n : ℕ) → 0 < n → (n == 0) ≡ false
not_zero n h = ground arith

-- With more fuel than the LSN that it starts from, the loop follows a chain to its end and writes
-- every undo image on it back.
pub rollback_loop-Chain :
    (fuel tid : ℕ) (p : Pager) {l : ℕ} {us : List (ℕ × Page)}
    → l < fuel
    → IsWal p.wal
    → Chain p.wal.log p.wal.flushed l us
    → Ends fuel tid p l us
unfolding rollback_next rollback_record
rollback_loop-Chain zero tid p h v c = absurd (omega arith)
rollback_loop-Chain (suc fuel) tid p h v at_zero =
    (p, rollback_loop_zero (suc fuel) tid p h, RolledBack-refl p tid v)
rollback_loop-Chain (suc fuel) tid p h v (at_begin {l = zero} f b) =
    (p, rollback_loop_zero (suc fuel) tid p h, RolledBack-refl p tid v)
rollback_loop-Chain (suc fuel) tid p h v (at_begin {l = suc l} {tid = t} f b) =
    let c : ℕ = suc l + rec_len (begin t) in
    let p1 = at_cursor p c in
    let p2 : Pager = record p1 { txns = put p1.txns tid (with_undo_next (p1.txns tid) 0) } in
    let (q, e, r) =
      rollback_loop-Chain fuel tid p2 {us = []} (omega arith) (cursor-IsWal p c v) at_zero in
    (
      q,
      rollback_loop_step fuel tid p (suc l) (begin t) (omega arith) f b ∙ e,
      cursor-RolledBack p q tid c [] (noted-RolledBack p1 q tid 0 [] r),
    )
rollback_loop-Chain (suc fuel) tid p h v
      (at_update {l} {tid = t} {prev} {pg} {undo} {redo} {us} f b lt pos ch) =
    let k : Record = update t prev pg undo redo in
    let c : ℕ = l + rec_len k in
    let p1 = at_cursor p c in
    let p2 = undo_update p1 tid t prev pg undo in
    let p3 : Pager = record p2 { txns = put p2.txns tid (with_undo_next (p2.txns tid) prev) } in
    let x = undo_update-Extends p1 tid t prev pg undo (cursor-IsWal p c v) in
    let (q, e, r) =
      rollback_loop-Chain fuel tid p3 (omega arith) x.1 (Chain-Extends x.0 x.0.durable ch) in
    (
      q,
      rollback_loop_step fuel tid p l k (omega arith) f b ∙ rw (not_zero prev pos) e,
      cursor-RolledBack p q tid c ((pg, undo) ∷ us)
          (undo_update-RolledBack p1 q tid t prev pg prev undo us (cursor-IsWal p c v) r),
    )
rollback_loop-Chain (suc fuel) tid p h v
      (at_clr {l} {tid = t} {prev} {pg} {undo_next} {redo} {us} f b lt ch) =
    let k : Record = clr t prev pg undo_next redo in
    let c : ℕ = l + rec_len k in
    let p1 = at_cursor p c in
    let p2 : Pager = record p1 {
      txns = put p1.txns tid (with_undo_next (p1.txns tid) undo_next);
    } in
    let (q, e, r) = rollback_loop-Chain fuel tid p2 (omega arith) (cursor-IsWal p c v) ch in
    (
      q,
      rollback_loop_step fuel tid p l k (omega arith) f b ∙ e,
      cursor-RolledBack p q tid c us (noted-RolledBack p1 q tid undo_next us r),
    )

-- `pgr_rollback` to save point 0, over a chain that is in the file whole, ends with success: each page
-- holds again, but for its LSN, the oldest undo image that the chain has for it, and pages that the
-- chain does not name are as they were. The database file and the other transactions are untouched,
-- and the log keeps every record.
pub pgr_rollback-restore :
    (p : Pager) (tid : ℕ) {us : List (ℕ × Page)}
    → IsWal p.wal
    → Chain p.wal.log p.wal.flushed (p.txns tid).undo_next_lsn us
    → (q : Pager) × (pgr_rollback p tid 0 ≡ some (q, success)) × RolledBack p tid us q
unfolding pgr_rollback
pgr_rollback-restore p tid v c = rollback_loop-Chain _ tid p (omega arith) v c
