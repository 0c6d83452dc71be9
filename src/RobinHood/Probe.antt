-- ===== src/RobinHood/Probe.antt =====
-- The indices that libs/nscore/include/numstore/core/robin_hood_ht.h probes for a key.
use native.Mathlib.Nat.{mod-add-mod, mod-eq_of_lt, mod-lt, add-mod_right}
use numstore.Prelude.{
  ℕ, ◌+◌, ◌-◌, ◌%◌, ◌^◌, ◌≤◌, ◌<◌, ltb, ◌≡◌, sym, arith, ap, ◌∙◌, Bool-cases, inl, inr, ltb→lt,
  ltb-false→le,
}
use numstore.RobinHood.{probe}

-- The sums for these keys do not wrap around.
abbrev pub Small : ℕ → ℕ → Type 0
Small nelem key = key + nelem ≤ 2 ^ 64

-- Two sums that lie at one index do so with any number added.
pub shift : (q a b c : ℕ) → a % q ≡ b % q → (a + c) % q ≡ (b + c) % q
shift q a b c eq = sym (mod-add-mod a q c) ∙ ap (λ r. (r + c) % q) eq ∙ mod-add-mod b q c

-- The index for a key whose sums do not wrap around.
pub plain : (nelem key d : ℕ) → Small nelem key → d < nelem → probe nelem key d ≡ (key + d) % nelem
unfolding probe
plain nelem key d s lt = ap (λ r. r % nelem) (mod-eq_of_lt (omega arith))

add-zero : (n : ℕ) → n + 0 ≡ n
add-zero n = omega arith

-- The number of indices to a free one.
pub way : (nelem key f : ℕ) → f < nelem → (m : ℕ) × (m < nelem) × ((key + 0 + m) % nelem ≡ f)
way nelem key f lt =
    let r = key % nelem in
    let below : r < nelem = mod-lt key (omega arith) in
    let small : f % nelem ≡ f = mod-eq_of_lt lt in
    elim (Bool-cases (ltb f r)) [
      | inl behind ↦
          let less = ltb→lt f r behind in
          let m = f + nelem - r in
          let sum : r + m ≡ f + nelem = omega arith in
          (
            m,
            omega arith,
            ap (λ s. (s + m) % nelem) (add-zero key)
                ∙ sym (mod-add-mod key nelem m)
                ∙ ap (λ s. s % nelem) sum
                ∙ add-mod_right f nelem
                ∙ small,
          )
      | inr ahead ↦
          let le = ltb-false→le f r ahead in
          let m = f - r in
          let sum : r + m ≡ f = omega arith in
          (
            m,
            omega arith,
            ap (λ s. (s + m) % nelem) (add-zero key)
                ∙ sym (mod-add-mod key nelem m)
                ∙ ap (λ s. s % nelem) sum
                ∙ small,
          )
    ]
