-- ===== src/Types/Equal.antt =====
-- type_equal of libs/nstypes is equality, but for arrays, whose element types it does not compare.
use numstore.Prelude.{
  Bool, false, Option, some, none, some_inj, none_is_not_some, Bool-cases, inl, inr, if◌then◌else◌,
  ◌==◌, ◌&&◌, ℕ, ◌<◌, true, List, [], ◌∷◌, length, All, ◌≡◌, ◌↔◌, refl, arith, ap, subst, ==→eq,
}
use numstore.Types.{
  Key, TypeT, prim, struct_t, union_t, enum_t, sarray_t, Fields, no_fields, field, strncmp_equal,
  string_equal, enum_t_validate, enum_t_equal, and_equal, keys_equal, dims_equal, type_equal,
  fields_equal,
}

-- No byte of a string is the NUL at which `i_strncmp` stops.
abbrev pub NoNul : Key → Type 0
NoNul k = All (λ (b : ℕ). 0 < b) k

abbrev mutual
  pub NoArrays : TypeT → Type 0
  NoArrays (prim p) = Unit
  NoArrays (struct_t fs) = NoArraysIn fs
  NoArrays (union_t fs) = NoArraysIn fs
  NoArrays (enum_t ks) = (enum_t_validate ks ≡ true) × All NoNul ks
  NoArrays (sarray_t ds t) = ⊥

  pub NoArraysIn : Fields → Type 0
  NoArraysIn no_fields = Unit
  NoArraysIn (field k t fs) = NoNul k × NoArrays t × NoArraysIn fs

eq→== : (n : ℕ) → (n == n) ≡ true
eq→== n = ground arith

false_is_not_true : false ≡ true → ⊥
false_is_not_true e = cc

strncmp_equal→eq : (a b : Key) → NoNul a → length a ≡ length b → strncmp_equal a b ≡ true → a ≡ b
unfolding strncmp_equal
strncmp_equal→eq [] [] h l e = refl
strncmp_equal→eq [] (y ∷ b) h l e = absurd (omega arith)
strncmp_equal→eq (x ∷ a) [] h l e = absurd (omega arith)
strncmp_equal→eq (x ∷ a) (y ∷ b) (pos, h) l e = ground (arith, strncmp_equal→eq a b h)

strncmp_equal_self : (a : Key) → strncmp_equal a a ≡ true
unfolding strncmp_equal
strncmp_equal_self [] = refl
strncmp_equal_self (x ∷ a) = ground (arith, strncmp_equal_self a)

string_equal→eq : (a b : Key) → NoNul a → string_equal a b ≡ true → a ≡ b
unfolding string_equal
string_equal→eq a b h e = ground (arith, strncmp_equal→eq a b h)

string_equal_self : (a : Key) → string_equal a a ≡ true
unfolding string_equal
string_equal_self a = ground (arith, strncmp_equal_self a)

keys_equal→eq : (ks js : List Key) → All NoNul ks → keys_equal ks js ≡ true → ks ≡ js
unfolding keys_equal
keys_equal→eq [] [] h e = refl
keys_equal→eq [] (j ∷ js) h e = cc
keys_equal→eq (k ∷ ks) [] h e = cc
keys_equal→eq (k ∷ ks) (j ∷ js) (h, hs) e =
    ground (arith, string_equal→eq k j h, keys_equal→eq ks js hs)

keys_equal_self : (ks : List Key) → keys_equal ks ks ≡ true
unfolding keys_equal
keys_equal_self [] = refl
keys_equal_self (k ∷ ks) = ground (arith, string_equal_self k, keys_equal_self ks)

dims_equal_self : (ds : List ℕ) → dims_equal ds ds ≡ true
unfolding dims_equal
dims_equal_self [] = refl
dims_equal_self (n ∷ ds) = ground (arith, dims_equal_self ds)

enum_equal→eq : (ks js : List Key) → All NoNul ks → enum_t_equal ks js ≡ some true → ks ≡ js
unfolding enum_t_equal
enum_equal→eq ks js h e = elim (Bool-cases (enum_t_validate ks && enum_t_validate js)) [
  | inl ok ↦ keys_equal→eq ks js h (some_inj (rw ok at e))
  | inr failed ↦ absurd (none_is_not_some (rw failed at e))
]

enum_equal_self : (ks : List Key) → enum_t_validate ks ≡ true → enum_t_equal ks ks ≡ some true
unfolding enum_t_equal
enum_equal_self ks h = rw (h, keys_equal_self ks) refl

-- Two fields are equal.
field_true :
    (b : Bool) (x y : Option Bool)
    → (if b then and_equal x y else some false) ≡ some true
    → (b ≡ true) × (x ≡ some true) × (y ≡ some true)
unfolding and_equal
field_true false x y e = absurd (false_is_not_true (some_inj e))
field_true true none y e = absurd (none_is_not_some e)
field_true true (some false) y e = absurd (false_is_not_true (some_inj e))
field_true true (some true) y e = (refl, refl, e)

mutual
  unfolding type_equal fields_equal and_equal

  equal→eq : (t u : TypeT) → NoArrays t → type_equal t u ≡ some true → t ≡ u
  equal→eq (prim p) (prim q) h e = ap prim (==→eq p q (some_inj e))
  equal→eq (struct_t fs) (struct_t gs) h e = ap struct_t (fields_equal→eq fs gs h e)
  equal→eq (union_t fs) (union_t gs) h e = ap union_t (fields_equal→eq fs gs h e)
  equal→eq (enum_t ks) (enum_t js) h e = ap enum_t (enum_equal→eq ks js h.1 e)
  equal→eq (sarray_t ds t) u h e = elim h [ ]
  equal→eq _ _ h e = cc

  fields_equal→eq : (fs gs : Fields) → NoArraysIn fs → fields_equal fs gs ≡ some true → fs ≡ gs
  fields_equal→eq no_fields no_fields h e = refl
  fields_equal→eq (field k t fs) (field j u gs) (hk, ht, hs) e =
      let (ek, et, es) = field_true (string_equal k j) (type_equal t u) (fields_equal fs gs) e in
      let a = string_equal→eq k j hk ek in
      let b = equal→eq t u ht et in let c = fields_equal→eq fs gs hs es in cc
  fields_equal→eq _ _ h e = cc

mutual
  unfolding type_equal fields_equal and_equal

  equal_self : (t : TypeT) → NoArrays t → type_equal t t ≡ some true
  equal_self (prim p) h = ap some (eq→== p)
  equal_self (struct_t fs) h = fields_equal_self fs h
  equal_self (union_t fs) h = fields_equal_self fs h
  equal_self (enum_t ks) h = enum_equal_self ks h.0
  equal_self (sarray_t ds t) h = elim h [ ]

  fields_equal_self : (fs : Fields) → NoArraysIn fs → fields_equal fs fs ≡ some true
  fields_equal_self no_fields h = refl
  fields_equal_self (field k t fs) (hk, ht, hs) =
      rw (string_equal_self k, equal_self t ht, and_equal) (fields_equal_self fs hs)

-- For a type with no arrays and no invalid enum in it, and with no NUL in its keys, `type_equal` returns, and returns
-- true, exactly for the type itself.
pub type_equal_iff : (t u : TypeT) → NoArrays t → (type_equal t u ≡ some true) ↔ (t ≡ u)
type_equal_iff t u h =
    (equal→eq t u h, λ e. subst (λ v. type_equal t v ≡ some true) e (equal_self t h))
