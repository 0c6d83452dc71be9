-- ===== src/RobinHood/Insert.antt =====
-- `HT_INSERT` of libs/nscore/include/numstore/core/robin_hood_ht.h: what it does to the items of the table.
use numstore.Prelude.{
  ℕ, zero, suc, ◌+◌, ◌≤◌, ◌<◌, true, none, some, ltb, ◌==◌, ◌≡◌, refl, sym, arith, ap, ap₂, ◌∙◌,
  subst, Bool-cases, inl, inr, ◌↔◌, ==→eq, ==-false→ne, le→ltb-false, ltb→lt, ltb-false→le,
  none_is_not_some, Option-cases, if◌then◌else◌,
}
use mathlib.Core.Option.{some-injective}
use mathlib.Core.Logic.{Lift}
use numstore.RobinHood.{
  HData, HEntry, Elems, HtiRes, success, exists, full, probe, put, Round, stop, next, insert_at,
  insert_round, follow, insert_loop,
}
use numstore.RobinHood.Table.{
  At, Reaches, IsTable, Distinct, Fresh, Holds, Yields, Both, put_same, put-Reaches, put-IsTable,
  put-Distinct, put-Fresh, put-Holds_free, put-Holds_swap,
}

pub none_left : (n d : ℕ) → n ≤ d → d < n + 0 → ⊥
none_left n d le lt = omega arith

iff_trans {ℓ} : {P Q R : Type ℓ} → P ↔ Q → Q ↔ R → P ↔ R
iff_trans (f, g) (f', g') = ((λ x. f' (f x)), λ y. g (g' y))

module _ {ℓ} {A : Type ℓ} where
  -- What an insert leaves behind, for each result, of the items and the new one: all of them; that cannot be; all of
  -- them but one, which is lost.
  abbrev pub LeftBehind : (HData A → Type ℓ) → Elems A → HtiRes → Type ℓ
  LeftBehind items t success = (d : HData A) → Holds t d ↔ items d
  LeftBehind items t exists = Lift {0, ℓ} ⊥
  LeftBehind items t full =
      (lost : HData A) × Fresh t lost.key × ((d : HData A) → Both t lost d ↔ items d)

  -- The table and its items after an insert.
  abbrev pub Inserted : ℕ → (HData A → Type ℓ) → Elems A × HtiRes → Type ℓ
  Inserted nelem items (t, r) = IsTable nelem t × Distinct t × LeftBehind items t r

  -- An item that is not in the table is on its way, with `k` rounds left.
  pub record InFlight (nelem k : ℕ) (items : HData A → Type ℓ) (t : Elems A) (item : HData A)
      (n : ℕ) : Type ℓ where
    pub is_table : IsTable nelem t
    pub reaches : Reaches nelem t item.key n
    pub room : n + k ≤ nelem
    pub distinct : Distinct t
    pub fresh : Fresh t item.key
    pub same : (d : HData A) → Both t item d ↔ items d

  abbrev Leads : (nelem k : ℕ) → (HData A → Type ℓ) → Round A → Type ℓ
  Leads nelem k items (stop t r) = Inserted nelem items (t, r)
  Leads nelem k items (next t item n) = InFlight nelem k items t item n

  no_entry : (t : Elems A) (i n : ℕ) → t i ≡ none → Yields t i n
  no_entry t i n free e h = elim (none_is_not_some (sym free ∙ h)) [ ]

  same_entry : (t : Elems A) (i n : ℕ) (e : HEntry A) → At t i e → e.dib ≤ n → Yields t i n
  same_entry t i n e h le e' h' =
      let is : e.dib ≡ e'.dib = ap (λ y. y.dib) (some-injective e e' (sym h ∙ h')) in
      omega (arith, is)

  -- One more index on the way.
  Reaches-next :
      (nelem : ℕ) (t : Elems A) (key n : ℕ) (e : HEntry A)
      → Reaches nelem t key n
      → At t (probe nelem key n) e
      → n ≤ e.dib
      → Reaches nelem t key (n + 1)
  Reaches-next nelem t key n e r h le m lt = elim (Bool-cases (ltb m n)) [
    | inl before ↦ r m (ltb→lt m n before)
    | inr last ↦
        let eq : n ≡ m = omega (arith, ltb-false→le m n last) in
        subst (λ m'. (e' : HEntry A) × At t (probe nelem key m') e' × (m' ≤ e'.dib)) eq (e, h, le)
  ]

  round_free :
      (nelem k : ℕ) (items : HData A → Type ℓ) (t : Elems A) (item : HData A) (n : ℕ)
      → InFlight nelem (suc k) items t item n
      → t (probe nelem item.key n) ≡ none
      → Leads nelem k items (insert_at t item n (probe nelem item.key n) none)
  unfolding insert_at
  round_free nelem k items t item n f free =
      let i = probe nelem item.key n in
      let x : HEntry A = record { data_of = item; dib = n } in
      let near : n < nelem = omega (arith, f.room) in
      (
        put-IsTable nelem t x f.is_table (no_entry t i n free) near f.reaches,
        put-Distinct t i x f.distinct f.fresh,
        λ d. iff_trans (put-Holds_free t i x d free) (f.same d),
      )

  round_taken :
      (nelem k : ℕ) (items : HData A → Type ℓ) (t : Elems A) (item : HData A) (n : ℕ) (e : HEntry A)
      → InFlight nelem (suc k) items t item n
      → At t (probe nelem item.key n) e
      → Leads nelem k items (insert_at t item n (probe nelem item.key n) (some e))
  unfolding insert_at
  round_taken nelem k items t item n e f h =
      let i = probe nelem item.key n in
      let x : HEntry A = record { data_of = item; dib = n } in
      let room = f.room in
      elim (Bool-cases (ltb e.dib n)) [
        | inl farther ↦
            let lt = ltb→lt e.dib n farther in
            let y = same_entry t i n e h (omega arith) in
            elim (Bool-cases (item.key == e.data_of.key)) [
              | inl eq ↦ elim (f.fresh i e h (sym (==→eq item.key e.data_of.key eq))) [ ]
              | inr ne ↦
                  let p = f.is_table i e h in
                  rw (farther, ne)
                    (record {
                      is_table = put-IsTable nelem t x f.is_table y (omega arith) f.reaches;
                      reaches =
                          Reaches-next nelem (put t i x) e.data_of.key e.dib x
                            (put-Reaches nelem t i x e.data_of.key e.dib y p.reaches)
                            (ap (put t i x) p.probed ∙ put_same t i x) (omega arith);
                      room = omega arith;
                      distinct = put-Distinct t i x f.distinct f.fresh;
                      fresh =
                          put-Fresh t i x e f.distinct h (==-false→ne item.key e.data_of.key ne);
                      same = λ d. iff_trans (put-Holds_swap t i x e d h) (f.same d);
                    })
            ]
        | inr near ↦ elim (Bool-cases (e.data_of.key == item.key)) [
          | inl eq ↦ elim (f.fresh i e h (==→eq e.data_of.key item.key eq)) [ ]
          | inr ne ↦
              rw (near, ne)
                (record {
                  is_table = f.is_table;
                  reaches =
                      Reaches-next nelem t item.key n e f.reaches h (ltb-false→le e.dib n near);
                  room = omega arith;
                  distinct = f.distinct;
                  fresh = f.fresh;
                  same = f.same;
                })
        ]
      ]

  round-Leads :
      (nelem k : ℕ) (items : HData A → Type ℓ) (t : Elems A) (item : HData A) (n : ℕ)
      → InFlight nelem (suc k) items t item n
      → Leads nelem k items (insert_round nelem t item n)
  unfolding insert_round
  round-Leads nelem k items t item n f = elim (Option-cases (t (probe nelem item.key n))) [
    | inl free ↦ rw free (round_free nelem k items t item n f free)
    | inr (e, h) ↦ rw h (round_taken nelem k items t item n e f h)
  ]

  follow-Leads :
      (nelem k : ℕ) (items : HData A → Type ℓ) (rest : Elems A → HData A → ℕ → Elems A × HtiRes)
      → ((t : Elems A) (item : HData A) (n : ℕ)
          → InFlight nelem k items t item n
          → Inserted nelem items (rest t item n))
      → (r : Round A) → Leads nelem k items r
      → Inserted nelem items (follow rest r)
  unfolding follow
  follow-Leads nelem k items rest ih (stop t r) l = l
  follow-Leads nelem k items rest ih (next t item n) l = ih t item n l

  pub loop-Inserted :
      (k nelem : ℕ) (items : HData A → Type ℓ) (t : Elems A) (item : HData A) (n : ℕ)
      → InFlight nelem k items t item n
      → Inserted nelem items (insert_loop k nelem t item n)
  unfolding insert_loop
  loop-Inserted zero nelem items t item n f = (f.is_table, f.distinct, (item, f.fresh, f.same))
  loop-Inserted (suc k) nelem items t item n f =
      follow-Leads nelem k items (λ t' item' n'. insert_loop k nelem t' item' n')
        (loop-Inserted k nelem items) (insert_round nelem t item n)
        (round-Leads nelem k items t item n f)

  -- A round at an entry that is not nearer to its bucket.
  round_near :
      (nelem : ℕ) (t : Elems A) (item : HData A) (n : ℕ) (e : HEntry A)
      → At t (probe nelem item.key n) e
      → n ≤ e.dib
      → insert_round nelem t item n
        ≡ (if e.data_of.key == item.key then stop t exists else next t item (n + 1))
  unfolding insert_round insert_at
  round_near nelem t item n e h le = rw (h, le→ltb-false e.dib n le) refl

  pub loop_present :
      (k nelem : ℕ) (t : Elems A) (item : HData A) (n j : ℕ) (e : HEntry A)
      → IsTable nelem t
      → At t j e
      → e.data_of.key ≡ item.key
      → n ≤ e.dib
      → e.dib < n + k
      → insert_loop k nelem t item n ≡ (t, exists)
  unfolding insert_loop follow
  loop_present zero nelem t item n j e ok h key le lt = elim (none_left n e.dib le lt) [ ]
  loop_present (suc k) nelem t item n j e ok h key le lt =
      let p = ok j e h in
      elim (Bool-cases (ltb n e.dib)) [
        | inl before ↦
            let less = ltb→lt n e.dib before in
            let (e', h', le') = p.reaches n less in
            let at' = subst (λ key'. At t (probe nelem key' n) e') key h' in
            elim (Bool-cases (e'.data_of.key == item.key)) [
              | inl eq ↦ rw (round_near nelem t item n e' at' le', eq) refl
              | inr ne ↦
                  rw (round_near nelem t item n e' at' le', ne)
                    (loop_present k nelem t item (n + 1) j e ok h key (omega arith) (omega arith))
            ]
        | inr last ↦
            let is : e.dib ≡ n = omega (arith, ltb-false→le n e.dib last) in
            let here : probe nelem item.key n ≡ j =
              ap₂ (λ key' n'. probe nelem key' n') (sym key) (sym is) ∙ p.probed in
            let eq : (e.data_of.key == item.key) ≡ true = rw key (ground arith) in
            rw (round_near nelem t item n e (ap t here ∙ h) (omega arith), eq) refl
      ]
