-- ===== src/Serial/DirtyPages.antt =====
-- The dirty page table of a checkpoint, `dpgt_serialize` and `dpgt_deserialize` of
-- libs/nspager/dirty_page_table.c.
use numstore.Prelude.{
  ℕ, zero, suc, ◌+◌, ◌*◌, ◌/◌, ◌^◌, ◌≤◌, ◌<◌, List, [], ◌∷◌, ◌++◌, some, none, false, length,
  length-append, append_assoc, append-nil, ◌≡◌, refl, sym, arith, ap, ◌∙◌, All, subst, ltb, lt→ltb,
  le→ltb-false, Bool-cases, inl, inr,
}
use numstore.Wal.{DpgEntry, rev_onto}
use numstore.Pager.{dpe_get, dpgt_cap, dpgt_add}
use numstore.Serial.{
  le_bytes, Serializer, srlizr_create, Deserializer, dsrlizr_create, serialize_entries,
  dpgt_serialize, max_dpgt_srl_size, table, add_entry, entry_fails, with_lsn, with_pg, read_entries,
  dpgt_deserialize,
}
use numstore.Serial.Bytes.{
  length-le_bytes, wrote, wrote-wrote, write_u64, length-wrote, Rest, skip, read_u64_lem,
  read_u64_end,
}

abbrev pub Fits64 : DpgEntry → Type 0
Fits64 e = (e.pg < 2 ^ 64) × (e.rec_lsn < 2 ^ 64)

abbrev entry_bytes : DpgEntry → List ℕ
entry_bytes e = le_bytes 8 e.pg ++ le_bytes 8 e.rec_lsn

abbrev entries_bytes : List DpgEntry → List ℕ
entries_bytes [] = []
entries_bytes (e ∷ es) = entry_bytes e ++ entries_bytes es

length-entry_bytes : (e : DpgEntry) → length (entry_bytes e) ≡ 16
length-entry_bytes e = omega (
  arith,
  length-append (le_bytes 8 e.pg) (le_bytes 8 e.rec_lsn),
  length-le_bytes 8 e.pg,
  length-le_bytes 8 e.rec_lsn,
)

length-entries_bytes : (es : List DpgEntry) → length (entries_bytes es) ≡ 16 * length es
length-entries_bytes [] = refl
length-entries_bytes (e ∷ es) = omega (
  arith,
  length-append (entry_bytes e) (entries_bytes es),
  length-entry_bytes e,
  length-entries_bytes es,
)

serialize_all :
    (es : List DpgEntry) (s : Serializer)
    → length s.written + 16 * length es ≤ s.dcap
    → s.dcap < 2 ^ 32
    → serialize_entries s es ≡ some (wrote s (entries_bytes es))
unfolding serialize_entries
serialize_all [] s h lt = ap (λ t. some (record s { written = t })) (sym (append-nil s.written))
serialize_all (e ∷ es) s h lt =
    let a = le_bytes 8 e.pg in
    let b = le_bytes 8 e.rec_lsn in
    let s1 = wrote s a in
    let l1 = length-wrote s e.pg in
    let l2 = length-wrote s1 e.rec_lsn in
    rw (write_u64 s e.pg (omega arith) lt, write_u64 s1 e.rec_lsn (omega (arith, l1)) lt)
      (serialize_all es (wrote s1 b) (omega (arith, l1, l2)) lt
        ∙ ap some (
            ap (λ t. wrote t (entries_bytes es)) (wrote-wrote s a b)
            ∙ wrote-wrote s (a ++ b) (entries_bytes es)))

add_entry_room :
    (t : List DpgEntry) (e : DpgEntry) → length t < dpgt_cap → add_entry t e.pg e.rec_lsn ≡ e ∷ t
unfolding add_entry dpgt_add
add_entry_room t e h = rw (lt→ltb (length t) 100000 h, add_entry) refl

-- Each page is new to the table when its entry is added, in order.
abbrev pub AllNew : List DpgEntry → List DpgEntry → Type 0
AllNew [] t = Unit
AllNew (e ∷ es) t = (dpe_get t e.pg ≡ none) × AllNew es (e ∷ t)

new_entry : (t : List DpgEntry) (pg : ℕ) → dpe_get t pg ≡ none → entry_fails t pg ≡ false
unfolding entry_fails
new_entry t pg e = elim (Bool-cases (ltb (length t) dpgt_cap)) [
  | inl room ↦ rw (e, room) refl
  | inr full ↦ rw (e, full) refl
]

read_back :
    (fuel : ℕ) (es t : List DpgEntry) (d : Deserializer)
    → length es < fuel
    → length t + length es ≤ dpgt_cap
    → All Fits64 es
    → AllNew es t
    → Rest d (entries_bytes es)
    → read_entries fuel t d ≡ table (rev_onto es t)
unfolding read_entries with_pg with_lsn
read_back zero es t d h k f u r = absurd (omega arith)
read_back (suc fuel) [] t d h k f u r = rw (read_u64_end d [] r (omega arith)) refl
read_back (suc fuel) (e ∷ es) t d h k ((fp, fl), f) (u, us) r =
    let a = le_bytes 8 e.pg in
    let b = le_bytes 8 e.rec_lsn in
    let (e1, r1) =
      read_u64_lem d e.pg (b ++ entries_bytes es) fp
        (subst (Rest d) (append_assoc a b (entries_bytes es)) r) in
    let (e2, r2) = read_u64_lem (skip d 8) e.rec_lsn (entries_bytes es) fl r1 in
    rw (e1, with_pg, e2, with_lsn, new_entry t e.pg u, add_entry_room t e (omega arith))
      (read_back fuel es (e ∷ t) (skip (skip d 8) 8) (omega arith) (omega arith) f us r2)

-- The dirty page table of a checkpoint comes back: a table with no page twice and of no more entries than fit into
-- MAX_DPGT_SRL_SIZE is written as 16 bytes for each entry, and read back with the same pages and RecLSNs
-- as its only entries, the last one first.
pub dpgt_serialize-deserialize :
    (t : List DpgEntry)
    → All Fits64 t
    → AllNew t []
    → 16 * length t ≤ max_dpgt_srl_size
    → (bytes : List ℕ) × (dpgt_serialize t ≡ some bytes)
      × (length bytes ≡ 16 * length t)
      × (dpgt_deserialize bytes ≡ table (rev_onto t []))
unfolding dpgt_serialize srlizr_create dpgt_deserialize dsrlizr_create
dpgt_serialize-deserialize t fits new h =
    let l = length-entries_bytes t in
    let bs = entries_bytes t in
    (
      bs,
      rw (serialize_all t (srlizr_create 1600) (omega arith) (omega arith)) refl,
      l,
      rw (le→ltb-false 1600 (length bs) (omega (arith, l))) (
          read_back (length bs / 8 + 1) t [] (dsrlizr_create bs) (omega (arith, l)) (omega arith)
            fits new
            (record { behind_head = refl; in_all = omega arith; short = omega (arith, l) })),
    )
