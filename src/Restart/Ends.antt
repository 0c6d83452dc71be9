-- ===== src/Restart/Ends.antt =====
-- The end of restart analysis in libs/nspager/pager.c: the ends of transactions are logged, and those
-- that are done leave the table.
use numstore.Prelude.{
  ℕ, zero, suc, ◌+◌, ◌≤◌, ◌<◌, true, false, List, [], ◌∷◌, ◌≡◌, refl, sym, arith, inl, inr,
  Bool-cases, ◌==◌, ==→eq, ==-false→ne, subst, ap, ◌∙◌, ◌⊎◌, All, All-map,
}
use numstore.Wal.{tx_done, Txn, end, Wal, wal_append}
use numstore.Pager.{put, remove_tid}
use numstore.Restart.{txnt_remove_txn, is_over, flush_ends, is_done, remove_done}
use numstore.Restart.Table.{has, has-remove_tid, Table}

abbrev Done : (ℕ → Txn) → ℕ → Type 0
Done bank i = (bank i).data_of.state ≡ tx_done

abbrev Closed : (ℕ → Txn) → ℕ → Type 0
Closed bank i = (is_over (bank i).data_of ≡ true) ⊎ Done bank i

-- `analaysis_end_phase_flush_ends` leaves the ids, and the state of what is done.
record Flushed (bank bank' : ℕ → Txn) (is : List ℕ) : Type 0 where
  all_done : All (Done bank') is
  still_done : (j : ℕ) → Done bank j → Done bank' j
  same_tid : (j : ℕ) → (bank' j).tid ≡ (bank j).tid

abbrev closed : (ℕ → Txn) → ℕ → Txn
closed bank i = record (bank i) {
  data_of = record {
    state = tx_done;
    last_lsn = (bank i).data_of.last_lsn;
    undo_next_lsn = (bank i).data_of.undo_next_lsn;
  };
}

put-closed-Done : (bank : ℕ → Txn) (i j : ℕ) → Done bank j → Done (put bank i (closed bank i)) j
put-closed-Done bank i j h = ground arith

put-closed-Closed :
    (bank : ℕ → Txn) (i j : ℕ) → Closed bank j → Closed (put bank i (closed bank i)) j
put-closed-Closed bank i j h = elim (Bool-cases (i == j)) [
  | inl e ↦ inr (rw e refl)
  | inr e ↦ rw e h
]

put-closed_self : (bank : ℕ → Txn) (i : ℕ) → Done (put bank i (closed bank i)) i
put-closed_self bank i = ground arith

put-closed_tid : (bank : ℕ → Txn) (i j : ℕ) → (put bank i (closed bank i) j).tid ≡ (bank j).tid
put-closed_tid bank i j = ground arith

flush_ends-Flushed :
    (w : Wal) (bank : ℕ → Txn) (is : List ℕ)
    → All (Closed bank) is
    → Flushed bank (flush_ends w bank is).1 is
unfolding flush_ends
flush_ends-Flushed w bank [] h = record {
  all_done = tt;
  still_done = λ j d. d;
  same_tid = λ j. refl;
}
flush_ends-Flushed w bank (i ∷ is) (c, h) = elim (Bool-cases (is_over (bank i).data_of)) [
  | inl over ↦
      let w' = (wal_append w (end (bank i).tid (bank i).data_of.last_lsn)).0 in
      let bank1 = put bank i (closed bank i) in
      let f =
        flush_ends-Flushed w' bank1 is
          (All-map (Closed bank) (Closed bank1) (put-closed-Closed bank i) is h) in
      rw over (record {
        all_done = (f.still_done i (put-closed_self bank i), f.all_done);
        still_done = λ j d. f.still_done j (put-closed-Done bank i j d);
        same_tid = λ j. f.same_tid j ∙ put-closed_tid bank i j;
      })
  | inr open_yet ↦
      let f = flush_ends-Flushed w bank is h in
      let d : Done bank i = elim c [ inl over ↦ absurd (ground arith) | inr d ↦ d ] in
      rw open_yet (record {
        all_done = (f.still_done i d, f.all_done);
        still_done = f.still_done;
        same_tid = f.same_tid;
      })
]

-- The entries that are left when the cells before `m` have been looked at.
abbrev Left : (ℕ → Txn) → (m n : ℕ) → List ℕ → List ℕ → Type 0
Left bank m n [] [] = Unit
Left bank m n (i ∷ is) (t ∷ ts) =
    ((m ≤ i) × (i < n) × ((bank i).tid ≡ t) × Done bank i)
    × (has ts t ≡ false)
    × Left bank m n is ts
Left bank m n _ _ = ⊥

Table-Left :
    (n : ℕ) (bank bank' : ℕ → Txn) (is ts : List ℕ)
    → ((j : ℕ) → (bank' j).tid ≡ (bank j).tid)
    → All (Done bank') is
    → Table n bank is ts
    → Left bank' 0 n is ts
Table-Left n bank bank' [] [] e d v = tt
Table-Left n bank bank' [] (t ∷ ts) e d v = elim v [ ]
Table-Left n bank bank' (i ∷ is) [] e d v = elim v [ ]
Table-Left n bank bank' (i ∷ is) (t ∷ ts) e (di, d) (b, u, v) =
    ((omega arith, b.0, e i ∙ b.1, di), u, Table-Left n bank bank' is ts e d v)

-- A cell with another id is another cell.
other_cell :
    (bank : ℕ → Txn) (m i t : ℕ)
    → m ≤ i
    → (bank i).tid ≡ t
    → (t == (bank m).tid) ≡ false
    → m + 1 ≤ i
other_cell bank m i t le e ne = elim (Bool-cases (i == m)) [
  | inl same ↦
      absurd (==-false→ne t (bank m).tid ne (sym e ∙ ap (λ j. (bank j).tid) (==→eq i m same)))
  | inr other ↦ ground arith
]

-- No entry has the id `t`: none is the cell that has it.
skip-Left :
    (bank : ℕ → Txn) (m n : ℕ) (is ts : List ℕ)
    → has ts (bank m).tid ≡ false
    → Left bank m n is ts
    → Left bank (m + 1) n is ts
skip-Left bank m n [] [] h v = tt
skip-Left bank m n [] (t ∷ ts) h v = elim v [ ]
skip-Left bank m n (i ∷ is) [] h v = elim v [ ]
skip-Left bank m n (i ∷ is) (t ∷ ts) h ((le, lt, e, d), u, v) =
    elim (Bool-cases (t == (bank m).tid)) [
      | inl hit ↦ absurd (ground arith)
      | inr miss ↦ (
        (other_cell bank m i t le e miss, lt, e, d),
        u,
        skip-Left bank m n is ts (rw miss at h) v,
      )
    ]

remove-Left :
    (bank : ℕ → Txn) (m n : ℕ) (is ts : List ℕ)
    → Left bank m n is ts
    → Left bank (m + 1) n (txnt_remove_txn bank is (bank m).tid) (remove_tid ts (bank m).tid)
unfolding txnt_remove_txn remove_tid
remove-Left bank m n [] [] v = tt
remove-Left bank m n [] (t ∷ ts) v = elim v [ ]
remove-Left bank m n (i ∷ is) [] v = elim v [ ]
remove-Left bank m n (i ∷ is) (t ∷ ts) ((le, lt, e, d), u, v) =
    elim (Bool-cases (t == (bank m).tid)) [
      | inl hit ↦
          rw (e, hit) (skip-Left bank m n is ts (subst (λ t. has ts t ≡ false) (==→eq t _ hit) u) v)
      | inr miss ↦
          rw (e, miss)
            (
              (other_cell bank m i t le e miss, lt, e, d),
              has-remove_tid ts (bank m).tid t u,
              remove-Left bank m n is ts v,
            )
    ]

-- A cell that is not done is none of the entries.
not_done-Left :
    (bank : ℕ → Txn) (m n : ℕ) (is ts : List ℕ)
    → is_done (bank m).data_of.state ≡ false
    → Left bank m n is ts
    → Left bank (m + 1) n is ts
not_done-Left bank m n [] [] h v = tt
not_done-Left bank m n [] (t ∷ ts) h v = elim v [ ]
not_done-Left bank m n (i ∷ is) [] h v = elim v [ ]
not_done-Left bank m n (i ∷ is) (t ∷ ts) h ((le, lt, e, d), u, v) = elim (Bool-cases (i == m)) [
  | inl same ↦ let d' : Done bank m = subst (Done bank) (==→eq i m same) d in absurd (ground arith)
  | inr other ↦ ((ground arith, lt, e, d), u, not_done-Left bank m n is ts h v)
]

remove_done-empty :
    (bank : ℕ → Txn) (k m n : ℕ) (is ts : List ℕ)
    → m + k ≡ n
    → Left bank m n is ts
    → remove_done bank k m is ≡ []
unfolding remove_done
remove_done-empty bank zero m n [] ts e v = refl
remove_done-empty bank zero m n (i ∷ is) [] e v = elim v [ ]
remove_done-empty bank zero m n (i ∷ is) (t ∷ ts) e v = absurd (omega (arith, v.0.0, v.0.1))
remove_done-empty bank (suc k) m n is ts e v = elim (Bool-cases (is_done (bank m).data_of.state)) [
  | inl done ↦
      rw done (remove_done-empty bank k (m + 1) n _ _ (omega arith) (remove-Left bank m n is ts v))
  | inr other ↦ rw other (
      remove_done-empty bank k (m + 1) n is ts (omega arith) (not_done-Left bank m n is ts other v))
]

Table-Closed : (n : ℕ) (bank : ℕ → Txn) (is ts : List ℕ) → Table n bank is ts → All (Closed bank) is
unfolding is_over
Table-Closed n bank [] ts v = tt
Table-Closed n bank (i ∷ is) [] v = elim v [ ]
Table-Closed n bank (i ∷ is) (t ∷ ts) ((lt, e, c, z), u, v) =
    (inl (rw (c, is_over, z) refl), Table-Closed n bank is ts v)

-- At the end of the analysis the table is empty.
pub ends-empty :
    (w : Wal) (n : ℕ) (bank : ℕ → Txn) (is live : List ℕ)
    → Table n bank is live
    → remove_done (flush_ends w bank is).1 n 0 is ≡ []
ends-empty w n bank is live v =
    let f = flush_ends-Flushed w bank is (Table-Closed n bank is live v) in
    remove_done-empty (flush_ends w bank is).1 n 0 n is live (omega arith)
      (Table-Left n bank (flush_ends w bank is).1 is live f.same_tid f.all_done v)
