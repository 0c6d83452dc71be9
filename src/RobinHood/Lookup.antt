-- ===== src/RobinHood/Lookup.antt =====
-- `HT_GET` of libs/nscore/include/numstore/core/robin_hood_ht.h, and what it finds after `HT_INSERT`.
use numstore.Prelude.{
  ℕ, zero, suc, ◌+◌, ◌≤◌, ◌<◌, true, Option, none, some, ltb, ◌==◌, ◌≡◌, refl, sym, arith, ap, ap₂,
  ◌∙◌, subst, Bool-cases, inl, inr, ◌↔◌, ==→eq, le→ltb-false, ltb→lt, ltb-false→le,
  none_is_not_some, Option-cases, if◌then◌else◌,
}
use mathlib.Core.Option.{some-injective}
use numstore.RobinHood.{
  HData, HEntry, Elems, HtiRes, exists, probe, get_at, get_loop, ht_get, ht_insert, ht_init,
}
use numstore.RobinHood.Table.{At, IsTable, Distinct, Holds, Both}
use numstore.RobinHood.Insert.{none_left, loop_present, loop-Inserted, Inserted}

from_bucket : (d n : ℕ) → d < n → d < 0 + n
from_bucket d n lt = omega arith

module _ {ℓ} {A : Type ℓ} where
  same_item :
      (t : Elems A) (i j : ℕ) (e e' : HEntry A)
      → Distinct t
      → At t i e
      → At t j e'
      → e.data_of.key ≡ e'.data_of.key
      → e ≡ e'
  same_item t i j e e' d h h' key = some-injective e e' (sym h ∙ ap t (d i j e e' h h' key) ∙ h')

  -- A round at an entry that is not nearer to its bucket.
  get_near :
      (key n : ℕ) (rest : Option (HData A)) (o : Option (HEntry A)) (e : HEntry A)
      → o ≡ some e
      → n ≤ e.dib
      → get_at key n rest o ≡ (if e.data_of.key == key then some e.data_of else rest)
  unfolding get_at
  get_near key n rest o e h le = rw (h, le→ltb-false e.dib n le) refl

  loop_found :
      (k nelem : ℕ) (t : Elems A) (key n j : ℕ) (e : HEntry A)
      → IsTable nelem t
      → Distinct t
      → At t j e
      → e.data_of.key ≡ key
      → n ≤ e.dib
      → e.dib < n + k
      → get_loop k nelem t key n ≡ some e.data_of
  unfolding get_loop
  loop_found zero nelem t key n j e ok d h is le lt = elim (none_left n e.dib le lt) [ ]
  loop_found (suc k) nelem t key n j e ok d h is le lt =
      let p = ok j e h in
      let rest = get_loop k nelem t key (n + 1) in
      let o = t (probe nelem key n) in
      elim (Bool-cases (ltb n e.dib)) [
        | inl before ↦
            let less = ltb→lt n e.dib before in
            let (e', h', le') = p.reaches n less in
            let at' = subst (λ key'. At t (probe nelem key' n) e') is h' in
            elim (Bool-cases (e'.data_of.key == key)) [
              | inl eq ↦
                  let same =
                    same_item t (probe nelem key n) j e' e d at' h
                      (==→eq e'.data_of.key key eq ∙ sym is) in
                  rw (get_near key n rest o e' at' le', eq) (ap (λ y. some y.data_of) same)
              | inr ne ↦
                  rw (get_near key n rest o e' at' le', ne)
                    (loop_found k nelem t key (n + 1) j e ok d h is (omega arith) (omega arith))
            ]
        | inr last ↦
            let now : e.dib ≡ n = omega (arith, ltb-false→le n e.dib last) in
            let here : probe nelem key n ≡ j =
              ap₂ (λ key' n'. probe nelem key' n') (sym is) (sym now) ∙ p.probed in
            let eq : (e.data_of.key == key) ≡ true = rw is (ground arith) in
            rw (get_near key n rest o e (ap t here ∙ h) (omega arith), eq) refl
      ]

  round_sound :
      (t : Elems A) (key n i : ℕ) (rest : Option (HData A)) (d : HData A) (o : Option (HEntry A))
      → (rest ≡ some d → Holds t d × (d.key ≡ key))
      → t i ≡ o
      → get_at key n rest o ≡ some d
      → Holds t d × (d.key ≡ key)
  unfolding get_at
  round_sound t key n i rest d none ih h r = elim (none_is_not_some r) [ ]
  round_sound t key n i rest d (some e) ih h r = elim (Bool-cases (ltb e.dib n)) [
    | inl far ↦ elim (none_is_not_some (sym (rw far refl) ∙ r)) [ ]
    | inr near ↦ elim (Bool-cases (e.data_of.key == key)) [
      | inl eq ↦
          let is = some-injective e.data_of d (sym (rw (near, eq) refl) ∙ r) in
          ((i, e, h, is), sym (ap (λ y. y.key) is) ∙ ==→eq e.data_of.key key eq)
      | inr ne ↦ ih (sym (rw (near, ne) refl) ∙ r)
    ]
  ]

  loop_sound :
      (k nelem : ℕ) (t : Elems A) (key n : ℕ) (d : HData A)
      → get_loop k nelem t key n ≡ some d
      → Holds t d × (d.key ≡ key)
  unfolding get_loop
  loop_sound zero nelem t key n d h = elim (none_is_not_some h) [ ]
  loop_sound (suc k) nelem t key n d h =
      let i = probe nelem key n in
      round_sound t key n i (get_loop k nelem t key (n + 1)) d (t i)
        (loop_sound k nelem t key (n + 1) d) refl h

  -- What HT_GET finds: in a table where every entry stands behind entries no nearer to their buckets and every key
  -- stands once, `ht_get` of a key gives an item exactly if the table holds that item and it has that key.
  pub ht_get_lem :
      (nelem : ℕ) (t : Elems A) (key : ℕ) (d : HData A)
      → IsTable nelem t
      → Distinct t
      → (ht_get nelem t key ≡ some d) ↔ (Holds t d × (d.key ≡ key))
  unfolding ht_get
  ht_get_lem nelem t key d ok distinct = (
    loop_sound nelem nelem t key 0 d,
    λ ((j, e, h, is), eq).
        loop_found nelem nelem t key 0 j e ok distinct h (ap (λ y. y.key) is ∙ eq) (omega arith)
          (from_bucket e.dib nelem (ok j e h).near)
        ∙ ap some is,
  )

  -- What `HT_INSERT` does, by what `HT_GET` finds for the key before it.
  abbrev pub AfterInsert : ℕ → Elems A → HData A → Option (HData A) → Elems A × HtiRes → Type ℓ
  AfterInsert nelem t item (some d) r = r ≡ (t, exists)
  AfterInsert nelem t item none r = Inserted nelem (Both t item) r

  -- What HT_INSERT does, in a table where every entry stands behind entries no nearer to their buckets and every key
  -- stands once: where `ht_get` finds the key, the result is HTIR_EXISTS and the table is unchanged; where it does not,
  -- the table stays such a table, the result is not HTIR_EXISTS, after HTIR_SUCCESS the table holds exactly the items
  -- it held and the new one, and after HTIR_FULL it holds all of these but one, whose key is not in it.
  pub ht_insert_lem :
      (nelem : ℕ) (t : Elems A) (item : HData A)
      → IsTable nelem t
      → Distinct t
      → AfterInsert nelem t item (ht_get nelem t item.key) (ht_insert nelem t item)
  unfolding ht_get ht_insert
  ht_insert_lem nelem t item ok distinct = elim (Option-cases (get_loop nelem nelem t item.key 0)) [
    | inl absent ↦ rw absent (
        loop-Inserted nelem nelem (Both t item) t item 0 (record {
          is_table = ok;
          reaches = λ m lt. absurd (omega arith);
          room = omega arith;
          distinct = distinct;
          fresh = λ j e h eq. none_is_not_some (
              sym absent
              ∙ loop_found nelem nelem t item.key 0 j e ok distinct h eq (omega arith)
                  (from_bucket e.dib nelem (ok j e h).near));
          same = λ d. ((λ b. b), λ b. b);
        }))
    | inr (d, found) ↦
        let ((j, e, h, is), eq) = loop_sound nelem nelem t item.key 0 d found in
        rw found (
          loop_present nelem nelem t item 0 j e ok h (ap (λ y. y.key) is ∙ eq) (omega arith)
            (from_bucket e.dib nelem (ok j e h).near))
  ]

  -- A table that `HT_INIT` has set up.
  pub ht_init-IsTable : (nelem : ℕ) → IsTable nelem (ht_init {A = A}) × Distinct (ht_init {A = A})
  unfolding ht_init
  ht_init-IsTable nelem =
      ((λ j e h. elim (none_is_not_some h) [ ]), λ i j e e' h. elim (none_is_not_some h) [ ])
