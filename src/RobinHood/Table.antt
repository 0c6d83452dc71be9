-- ===== src/RobinHood/Table.antt =====
-- The invariant of the table of libs/nscore/include/numstore/core/robin_hood_ht.h, and a write of one entry.
use numstore.Prelude.{
  ℕ, ◌≤◌, ◌<◌, true, false, none, some, ◌==◌, ◌≡◌, refl, sym, arith, ap, ◌∙◌, subst, Bool-cases,
  inl, inr, ◌⊎◌, ◌↔◌, ==→eq, ==-false→ne, none_is_not_some,
}
use mathlib.Core.Option.{some-injective}
use numstore.RobinHood.{HData, HEntry, Elems, probe, put}

module _ {ℓ} {A : Type ℓ} where
  -- An entry stands at an index.
  abbrev pub At : Elems A → ℕ → HEntry A → Type ℓ
  At t j e = t j ≡ some e

  -- Every index that is probed for the key before distance `d` is taken, by an entry no nearer to its bucket.
  abbrev pub Reaches : ℕ → Elems A → (key d : ℕ) → Type ℓ
  Reaches nelem t key d =
      (m : ℕ) → m < d → (e : HEntry A) × At t (probe nelem key m) e × (m ≤ e.dib)

  pub record Placed (nelem : ℕ) (t : Elems A) (j : ℕ) (e : HEntry A) : Type ℓ where
    pub probed : probe nelem e.data_of.key e.dib ≡ j
    pub near : e.dib < nelem
    pub reaches : Reaches nelem t e.data_of.key e.dib

  abbrev pub IsTable : ℕ → Elems A → Type ℓ
  IsTable nelem t = (j : ℕ) (e : HEntry A) → At t j e → Placed nelem t j e

  -- A key stands at one index at most.
  abbrev pub Distinct : Elems A → Type ℓ
  Distinct t =
      (i j : ℕ) (e e' : HEntry A) → At t i e → At t j e' → e.data_of.key ≡ e'.data_of.key → i ≡ j

  abbrev pub Fresh : Elems A → ℕ → Type ℓ
  Fresh t key = (j : ℕ) (e : HEntry A) → At t j e → e.data_of.key ≡ key → ⊥

  -- Some entry of the table holds the data.
  abbrev pub Holds : Elems A → HData A → Type ℓ
  Holds t d = (j : ℕ) × (e : HEntry A) × At t j e × (e.data_of ≡ d)

  pub put_same : (t : Elems A) (i : ℕ) (x : HEntry A) → At (put t i x) i x
  unfolding put
  put_same t i x = let e : (i == i) ≡ true = ground arith in rw e refl

  pub put_other : (t : Elems A) (i j : ℕ) (x : HEntry A) → (j == i) ≡ false → put t i x j ≡ t j
  unfolding put
  put_other t i j x ne = rw ne refl

  pub put_cases :
      (t : Elems A) (i j : ℕ) (x e : HEntry A)
      → At (put t i x) j e
      → ((j ≡ i) × (e ≡ x)) ⊎ (((j == i) ≡ false) × At t j e)
  put_cases t i j x e h = elim (Bool-cases (j == i)) [
    | inl same ↦
        let eq = ==→eq j i same in
        inl (eq, some-injective e x (sym h ∙ ap (put t i x) eq ∙ put_same t i x))
    | inr ne ↦ inr (ne, sym (put_other t i j x ne) ∙ h)
  ]

  -- The index is free, or its entry is no farther from its bucket than the one that replaces it.
  abbrev pub Yields : Elems A → ℕ → ℕ → Type ℓ
  Yields t i d = (e : HEntry A) → At t i e → e.dib ≤ d

  put_keeps :
      (t : Elems A) (i j : ℕ) (x e : HEntry A) (m : ℕ)
      → Yields t i x.dib
      → At t j e
      → m ≤ e.dib
      → (e' : HEntry A) × At (put t i x) j e' × (m ≤ e'.dib)
  put_keeps t i j x e m y h le = elim (Bool-cases (j == i)) [
    | inl same ↦
        let eq = ==→eq j i same in
        let d = y e (ap t (sym eq) ∙ h) in (x, ap (put t i x) eq ∙ put_same t i x, omega arith)
    | inr ne ↦ (e, put_other t i j x ne ∙ h, le)
  ]

  pub put-Reaches :
      (nelem : ℕ) (t : Elems A) (i : ℕ) (x : HEntry A) (key d : ℕ)
      → Yields t i x.dib
      → Reaches nelem t key d
      → Reaches nelem (put t i x) key d
  put-Reaches nelem t i x key d y r m lt =
      let (e, h, le) = r m lt in put_keeps t i (probe nelem key m) x e m y h le

  pub put-IsTable :
      (nelem : ℕ) (t : Elems A) (x : HEntry A)
      → IsTable nelem t
      → Yields t (probe nelem x.data_of.key x.dib) x.dib
      → x.dib < nelem
      → Reaches nelem t x.data_of.key x.dib
      → IsTable nelem (put t (probe nelem x.data_of.key x.dib) x)
  put-IsTable nelem t x ok y near r j e h =
      let i = probe nelem x.data_of.key x.dib in
      elim (put_cases t i j x e h) [
        | inl (eq, is) ↦
            subst (λ e'. Placed nelem (put t i x) j e') (sym is)
              (record {
                probed = sym eq;
                near = near;
                reaches = put-Reaches nelem t i x x.data_of.key x.dib y r;
              })
        | inr (ne, old) ↦
            let p = ok j e old in
            record {
              probed = p.probed;
              near = p.near;
              reaches = put-Reaches nelem t i x e.data_of.key e.dib y p.reaches;
            }
      ]

  pub put-Distinct :
      (t : Elems A) (i : ℕ) (x : HEntry A)
      → Distinct t
      → Fresh t x.data_of.key
      → Distinct (put t i x)
  put-Distinct t i x d f j k e e' h h' eq = elim (put_cases t i j x e h) [
    | inl (at_i, is) ↦ elim (put_cases t i k x e' h') [
      | inl (at_i', is') ↦ at_i ∙ sym at_i'
      | inr (ne, old) ↦ elim (f k e' old (sym eq ∙ ap (λ y. y.data_of.key) is)) [ ]
    ]
    | inr (ne, old) ↦ elim (put_cases t i k x e' h') [
      | inl (at_i', is') ↦ elim (f j e old (eq ∙ ap (λ y. y.data_of.key) is')) [ ]
      | inr (ne', old') ↦ d j k e e' old old' eq
    ]
  ]

  -- The entry that is replaced is nowhere else.
  pub put-Fresh :
      (t : Elems A) (i : ℕ) (x e : HEntry A)
      → Distinct t
      → At t i e
      → (x.data_of.key ≡ e.data_of.key → ⊥)
      → Fresh (put t i x) e.data_of.key
  put-Fresh t i x e d h ne j e' h' eq = elim (put_cases t i j x e' h') [
    | inl (at_i, is) ↦ ne (sym (ap (λ y. y.data_of.key) is) ∙ eq)
    | inr (other, old) ↦ ==-false→ne j i other (d j i e' e old h eq)
  ]

  -- What a table and one more item hold.
  abbrev pub Both : Elems A → HData A → HData A → Type ℓ
  Both t item d = Holds t d ⊎ (item ≡ d)

  pub put-Holds_free :
      (t : Elems A) (i : ℕ) (x : HEntry A) (d : HData A)
      → t i ≡ none
      → Holds (put t i x) d ↔ Both t x.data_of d
  put-Holds_free t i x d free = (
    (λ (j, e, h, is). elim (put_cases t i j x e h) [
      | inl (at_i, same) ↦ inr (sym (ap (λ y. y.data_of) same) ∙ is)
      | inr (ne, old) ↦ inl (j, e, old, is)
    ]),
    λ b. elim b [
      | inl (j, e, h, is) ↦ elim (Bool-cases (j == i)) [
        | inl same ↦ elim (none_is_not_some (sym free ∙ ap t (sym (==→eq j i same)) ∙ h)) [ ]
        | inr ne ↦ (j, e, put_other t i j x ne ∙ h, is)
      ]
      | inr is ↦ (i, x, put_same t i x, is)
    ],
  )

  pub put-Holds_swap :
      (t : Elems A) (i : ℕ) (x e : HEntry A) (d : HData A)
      → At t i e
      → Both (put t i x) e.data_of d ↔ Both t x.data_of d
  put-Holds_swap t i x e d h = (
    (λ b. elim b [
      | inl (j, e', h', is) ↦ elim (put_cases t i j x e' h') [
        | inl (at_i, same) ↦ inr (sym (ap (λ y. y.data_of) same) ∙ is)
        | inr (ne, old) ↦ inl (j, e', old, is)
      ]
      | inr is ↦ inl (i, e, h, is)
    ]),
    λ b. elim b [
      | inl (j, e', h', is) ↦ elim (Bool-cases (j == i)) [
        | inl same ↦ inr (
            ap (λ y. y.data_of) (some-injective e e' (sym h ∙ ap t (sym (==→eq j i same)) ∙ h'))
            ∙ is)
        | inr ne ↦ inl (j, e', put_other t i j x ne ∙ h', is)
      ]
      | inr is ↦ inl (i, x, put_same t i x, is)
    ],
  )
