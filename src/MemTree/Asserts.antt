-- ===== src/MemTree/Asserts.antt =====
-- The ASSERTs of libs/cursors/nsrptcursor/rptree_mem.c hold on an array of whole elements.
use native.Mathlib.Nat.{mul-suc, mul-add, mul-mod_right, mul_comm, div-add-mod}
use numstore.Prelude.{
  List, drop, ℕ, zero, suc, ◌+◌, ◌-◌, ◌*◌, ◌/◌, ◌%◌, ◌^◌, ◌<◌, true, false, ◌&&◌, some, ltb, leb,
  ◌==◌, if◌then◌else◌, length, min, ◌≡◌, refl, sym, arith, ap, ap₂, ◌∙◌, Bool-cases, inl, inr,
  le→ltb-false,
}
use numstore.MemTree.{
  MemTree, Params, nbytes, bofst, gap, State, element, between, asserts, asserted, rounds,
}

-- The sizes of an operation do not wrap around.
pub record InRange (r : MemTree) (s : Params) : Type 0 where
  pub some_size : 0 < s.bsize
  pub view_in : length r.view + s.bsize < 2 ^ 64
  pub nbytes_in : s.bsize * s.nelems < 2 ^ 64
  pub bofst_in : s.bsize * s.ofst < 2 ^ 64
  pub gap_in : (s.stride - 1) * s.bsize < 2 ^ 32

-- The bytes behind the offset.
abbrev pub behind : MemTree → Params → List ℕ
behind r s = drop (s.bsize * s.ofst) r.view

abbrev pub step : Params → ℕ
step s = (s.stride - 1) * s.bsize

is_zero : (n : ℕ) → n ≡ 0 → (n == 0) ≡ true
is_zero n e = ground arith

-- The elements that are left behind a gap of `c` of them.
behind_gap : (b c k : ℕ) → b * (k - min c k) + min (b * c) (b * k) ≡ b * k
behind_gap b c k = elim (Bool-cases (leb c k)) [
  | inl less ↦
      let whole : c + (k - c) ≡ k = ground arith in
      let parts : b * k ≡ b * c + b * (k - c) = ap (λ n. b * n) (sym whole) ∙ mul-add b c (k - c) in
      let here : min c k ≡ c = ground arith in rw here (omega (arith, parts))
  | inr more ↦
      let whole : k + (c - k) ≡ c = ground arith in
      let parts : b * c ≡ b * k + b * (c - k) = ap (λ n. b * n) (sym whole) ∙ mul-add b k (c - k) in
      let here : min c k ≡ k = ground arith in
      let none_left : k - k ≡ 0 = omega arith in rw (here, none_left) (omega (arith, parts))
]

module _ (s : Params) (len c : ℕ) (fits : len + s.bsize < 2 ^ 64) (hop : gap s ≡ s.bsize * c) where
  -- The ASSERTs hold from any round on that stands before whole elements.
  abbrev Hold : ℕ → Type 0
  Hold fuel =
      (at done k : ℕ) (st : State) → len ≡ at + s.bsize * k → asserts fuel s len at done st ≡ true

  -- One round.
  round :
      (fuel at done : ℕ) (st : State) (k : ℕ)
      → Hold fuel
      → len ≡ at + s.bsize * k
      → at < len
      → (elim st [
        | element ↦
            if ltb len ((at + s.bsize) % 2 ^ 64)
            then true
            else asserts fuel s len (at + s.bsize) (done + s.bsize) between
        | between ↦ asserts fuel s len (at + min (gap s) (len - at)) done element
      ])
        ≡ true
  round fuel at done element zero ih e lt = absurd (omega arith)
  round fuel at done element (suc k) ih e lt =
      let more = mul-suc s.bsize k in
      let inside : ltb len ((at + s.bsize) % 2 ^ 64) ≡ false =
        le→ltb-false len ((at + s.bsize) % 2 ^ 64) (omega (arith, more)) in
      rw inside (ih (at + s.bsize) (done + s.bsize) k between (omega (arith, more)))
  round fuel at done between k ih e lt =
      let left : len - at ≡ s.bsize * k = omega arith in
      ih (at + min (gap s) (len - at)) done (k - min c k) element
        (omega (arith, ap₂ min hop left, behind_gap s.bsize c k))

  asserts-Hold : (fuel : ℕ) → Hold fuel
  unfolding asserts
  asserts-Hold zero at done k st e = refl
  asserts-Hold (suc fuel) at done k st e = elim (Bool-cases (ltb at len && ltb done (nbytes s))) [
    | inr over ↦ rw over refl
    | inl on ↦
        let multiple : ((len - at) % s.bsize == 0) ≡ true =
          is_zero ((len - at) % s.bsize)
            (ap (λ n. n % s.bsize) (omega arith) ∙ mul-mod_right s.bsize k) in
        rw (on, multiple)
          (round fuel at done st k (λ at' done' k' st' e'. asserts-Hold fuel at' done' k' st' e') e
            (ground (arith, on)))
  ]

-- No ASSERT fails, and the operation gives what it gives without them.
pub asserted_lem {ℓ} :
    {A : Type ℓ} (r : MemTree) (s : Params) (out : A)
    → InRange r s
    → 0 < s.stride
    → length r.view % s.bsize ≡ 0
    → s.bsize * s.ofst < length r.view
    → asserted r s out ≡ some out
unfolding asserted
asserted_lem r s out v pos whole inside =
    let off : bofst s ≡ s.bsize * s.ofst = omega (arith, v.bofst_in) in
    let hop : gap s ≡ s.bsize * (s.stride - 1) =
      omega (arith, v.gap_in, mul_comm s.bsize (s.stride - 1)) in
    let n = length r.view / s.bsize in
    let all : s.bsize * n ≡ length r.view =
      omega (arith, div-add-mod (length r.view) s.bsize, whole) in
    let some_stride : (s.stride == 0) ≡ false = ground arith in
    let some_left : leb (length r.view) (bofst s) ≡ false = ground (arith, off) in
    let split = behind_gap s.bsize s.ofst n in
    let ok =
      asserts-Hold s (length r.view) (s.stride - 1) v.view_in hop (rounds (length r.view)) (bofst s)
        0 (n - min s.ofst n) element (omega (arith, split, all, off, inside)) in
    rw (some_stride, some_left, ok) refl
