-- ===== src/Types/WellTyped.antt =====
-- type_deserialize of libs/nstypes on any bytes: it ends, and what it accepts is valid throughout.
use numstore.Prelude.{
  ℕ, zero, suc, ◌<◌, ◌^◌, true, List, none, some, length, All, ◌≡◌, arith, subst, ◌==◌, Bool-cases,
  Option-cases, inl, inr, ◌≢◌,
}
use numstore.Serial.{le_value, Deserializer, dsrlizr_read, dsrlizr_create}
use numstore.Types.{
  TypeT, prim, struct_t, union_t, enum_t, sarray_t, Fields, prim_t_validate, enum_t_validate,
  sarray_t_validate_shallow, type_validate,
}
use numstore.Types.Encoding.{AllValid}
use numstore.Types.Ends.{
  Ends, Ends-bind, Ends-map, Holds-bind, IsByte, IsIn, left, After, Took, read_bytes-Ends,
  TookNumber, read_number-Ends, TookKey, read_key-Ends, TookAny, read_keys-Ends, read_dims-Ends,
}
use numstore.Types.Valid.{
  IsBuilder, kvb_create-IsBuilder, WithKey, WithType, kvb_accept_key-Holds, kvb_accept_type-Holds,
  accepted-IsBuilder, ValidFields, kvb_struct_t_build-Holds,
}
use numstore.Types.Deserialize.{
  Result, got, err_corrupt, no_fuel, KvtBuilder, kvb_create, kvb_accept_key, kvb_accept_type,
  kvb_struct_t_build, read_bytes, read_number, read_key, read_keys, read_dims, read_enum,
  prim_t_deserialize, enum_t_deserialize, read_field, read_fields, struct_t_deserialize,
  read_sarray, sarray_t_deserialize, read_body, from_header, read_header, type_deserialize,
}

-- What is read of a type, a builder and fields.
abbrev TookType : Deserializer → TypeT → Deserializer → Type 0
TookType d t d' = AllValid t × After d d'

abbrev TookBuilder : Deserializer → KvtBuilder → Deserializer → Type 0
TookBuilder d b d' = IsBuilder b × After d d'

abbrev TookFields : Deserializer → Fields → Deserializer → Type 0
TookFields d fs d' = ValidFields fs × After d d'

prim-Ends : (d : Deserializer) → IsIn d → Ends (TookType d) (prim_t_deserialize d)
unfolding prim_t_deserialize type_validate
prim-Ends d i =
    Ends-bind (TookNumber 1 d) (TookType d) (read_number 1 d) _
      (read_number-Ends 1 d (omega arith) i)
      (λ r h. elim (Bool-cases (prim_t_validate r.0)) [
        | inl valid ↦ rw valid (valid, (h.1, omega (arith, h.2)))
        | inr bad ↦ rw bad tt
      ])

read_enum-Ends : (n : ℕ) (d : Deserializer) → IsIn d → Ends (TookType d) (read_enum n d)
unfolding read_enum type_validate
read_enum-Ends n d i =
    Ends-bind (TookAny d) (TookType d) (read_keys n d) _ (read_keys-Ends n d i) (λ r h.
      elim (Bool-cases (enum_t_validate r.0)) [
        | inl valid ↦ rw valid (valid, h)
        | inr bad ↦ rw bad tt
      ])

enum-Ends : (d : Deserializer) → IsIn d → Ends (TookType d) (enum_t_deserialize d)
unfolding enum_t_deserialize
enum-Ends d i =
    Ends-bind (TookNumber 2 d) (TookType d) (read_number 2 d) _
      (read_number-Ends 2 d (omega arith) i)
      (λ r h. elim (Bool-cases (r.0 == 0)) [
        | inl none_there ↦ rw none_there tt
        | inr more ↦ rw more (
            Ends-map (TookType r.1) (TookType d) (read_enum r.0 r.1) (read_enum-Ends r.0 r.1 h.1)
              (λ q g. (g.0, (g.1.0, omega (arith, g.1.1, h.2)))))
      ])

AllValid-type_validate : (t : TypeT) → AllValid t → type_validate t ≡ true
AllValid-type_validate (prim p) v = v
AllValid-type_validate (struct_t fs) v = v.0
AllValid-type_validate (union_t fs) v = v.0
AllValid-type_validate (enum_t ks) v = v
AllValid-type_validate (sarray_t ds t) v = v.0

-- A reader of types that ends where fewer than `n` bytes are left.
abbrev ReaderEnds : (Deserializer → Result (TypeT × Deserializer)) → ℕ → Type 0
ReaderEnds r n = (d : Deserializer) → IsIn d → left d < n → Ends (TookType d) (r d)

module _ (r : Deserializer → Result (TypeT × Deserializer)) (n : ℕ) (reads : ReaderEnds r n) where
  read_field-Ends :
      (b : KvtBuilder) (d : Deserializer)
      → IsBuilder b
      → IsIn d
      → left d < n
      → Ends (TookBuilder d) (read_field r b d)
  unfolding read_field
  read_field-Ends b d ib i lt =
      Ends-bind (TookKey d) (TookBuilder d) (read_key d) _ (read_key-Ends d i) (λ k hk.
        Ends-bind (TookType k.1) (TookBuilder d) (r k.1) _
          (reads k.1 hk.1.0 (omega (arith, hk.1.1)))
          (λ t ht.
            Holds-bind (WithKey b k.0) (TookBuilder d) (kvb_accept_key b k.0) _
              (kvb_accept_key-Holds b k.0)
              (λ b1 h1.
                Holds-bind (WithType b1 t.0) (TookBuilder d) (kvb_accept_type b1 t.0) _
                  (kvb_accept_type-Holds b1 t.0)
                  (λ b2 h2. (
                    accepted-IsBuilder b k.0 t.0 b1 b2 ib hk.0 ht.0 h1 h2,
                    (ht.1.0, omega (arith, ht.1.1, hk.1.1)),
                  )))))

  read_fields-Ends :
      (m : ℕ) (b : KvtBuilder) (d : Deserializer)
      → IsBuilder b
      → IsIn d
      → left d < n
      → Ends (TookBuilder d) (read_fields r m b d)
  unfolding read_fields
  read_fields-Ends zero b d ib i lt = (ib, (i, omega arith))
  read_fields-Ends (suc m) b d ib i lt =
      Ends-bind (TookBuilder d) (TookBuilder d) (read_field r b d) _ (read_field-Ends b d ib i lt)
        (λ q h.
          Ends-map (TookBuilder q.1) (TookBuilder d) (read_fields r m q.0 q.1)
            (read_fields-Ends m q.0 q.1 h.0 h.1.0 (omega (arith, h.1.1)))
            (λ p g. (g.0, (g.1.0, omega (arith, g.1.1, h.1.1)))))

  struct-Ends :
      (d : Deserializer) → IsIn d → left d < n → Ends (TookFields d) (struct_t_deserialize r d)
  unfolding struct_t_deserialize
  struct-Ends d i lt =
      Ends-bind (TookNumber 2 d) (TookFields d) (read_number 2 d) _
        (read_number-Ends 2 d (omega arith) i)
        (λ c hc.
          Ends-bind (TookBuilder c.1) (TookFields d) (read_fields r c.0 kvb_create c.1) _
            (read_fields-Ends c.0 kvb_create c.1 kvb_create-IsBuilder hc.1 (omega (arith, hc.2)))
            (λ q hq.
              Holds-bind ValidFields (TookFields d) (kvb_struct_t_build q.0) _
                (kvb_struct_t_build-Holds q.0 hq.0)
                (λ fs h. (h, (hq.1.0, omega (arith, hq.1.1, hc.2))))))

  read_sarray-Ends :
      (m : ℕ) (d : Deserializer) → IsIn d → left d < n → Ends (TookType d) (read_sarray r m d)
  unfolding read_sarray type_validate
  read_sarray-Ends m d i lt =
      Ends-bind (TookAny d) (TookType d) (read_dims m d) _ (read_dims-Ends m d i) (λ ds hd.
        Ends-bind (TookType ds.1) (TookType d) (r ds.1) _ (reads ds.1 hd.0 (omega (arith, hd.1)))
          (λ t ht. elim (Bool-cases (sarray_t_validate_shallow ds.0)) [
            | inl valid ↦ rw valid (
              ((rw valid (AllValid-type_validate t.0 ht.0)), ht.0),
              (ht.1.0, omega (arith, ht.1.1, hd.1)),
            )
            | inr bad ↦ rw bad tt
          ]))

  sarray-Ends :
      (d : Deserializer) → IsIn d → left d < n → Ends (TookType d) (sarray_t_deserialize r d)
  unfolding sarray_t_deserialize
  sarray-Ends d i lt =
      Ends-bind (TookNumber 2 d) (TookType d) (read_number 2 d) _
        (read_number-Ends 2 d (omega arith) i)
        (λ c hc. elim (Bool-cases (c.0 == 0)) [
          | inl none_there ↦ rw none_there tt
          | inr more ↦ rw more (
              Ends-map (TookType c.1) (TookType d) (read_sarray r c.0 c.1)
                (read_sarray-Ends c.0 c.1 hc.1 (omega (arith, hc.2)))
                (λ q g. (g.0, (g.1.0, omega (arith, g.1.1, hc.2)))))
        ])

  read_body-Ends :
      (h : ℕ) (d : Deserializer) → IsIn d → left d < n → Ends (TookType d) (read_body r h d)
  unfolding read_body type_validate
  read_body-Ends h d i lt = elim (Bool-cases (h == 0)) [
    | inl is ↦ rw is (prim-Ends d i)
    | inr not0 ↦ elim (Bool-cases (h == 1)) [
      | inl is ↦
          rw (not0, is)
            (Ends-bind (TookFields d) (TookType d) (struct_t_deserialize r d) _ (struct-Ends d i lt)
              (λ q g. g))
      | inr not1 ↦ elim (Bool-cases (h == 2)) [
        | inl is ↦
            rw (not0, not1, is)
              (Ends-bind (TookFields d) (TookType d) (struct_t_deserialize r d) _
                (struct-Ends d i lt) (λ q g. g))
        | inr not2 ↦ elim (Bool-cases (h == 3)) [
          | inl is ↦ rw (not0, not1, not2, is) (enum-Ends d i)
          | inr not3 ↦ elim (Bool-cases (h == 4)) [
            | inl is ↦ rw (not0, not1, not2, not3, is) (sarray-Ends d i lt)
            | inr not4 ↦ rw (not0, not1, not2, not3, not4) tt
          ]
        ]
      ]
    ]
  ]

  header_read :
      (d : Deserializer) (q : List ℕ × Deserializer)
      → IsIn d
      → dsrlizr_read 1 d ≡ some q
      → Took 1 d q.0 q.1
  unfolding read_bytes
  header_read d q i e =
      subst (λ o. Ends (Took 1 d) (elim o [ none ↦ err_corrupt | some x ↦ got x ])) e
        (read_bytes-Ends 1 d (omega arith) i)

  read_header-Ends :
      (d : Deserializer) → IsIn d → left d < suc n → Ends (TookType d) (read_header r d)
  unfolding read_header from_header
  read_header-Ends d i lt = elim (Option-cases (dsrlizr_read 1 d)) [
    | inl nothing ↦ rw nothing tt
    | inr (q, e) ↦
        let took = header_read d q i e in
        rw e (
          Ends-map (TookType q.1) (TookType d) (read_body r (le_value q.0) q.1)
            (read_body-Ends (le_value q.0) q.1 took.2 (omega (arith, took.3)))
            (λ p g. (g.0, (g.1.0, omega (arith, g.1.1, took.3)))))
  ]

type_deserialize-Ends : (n : ℕ) → ReaderEnds (type_deserialize n) n
unfolding type_deserialize
type_deserialize-Ends zero d i lt = absurd (omega arith)
type_deserialize-Ends (suc n) d i lt =
    read_header-Ends (type_deserialize n) n (type_deserialize-Ends n) d i lt

module _ (bytes : List ℕ) (fuel : ℕ) (all : All IsByte bytes) (short : length bytes < 2 ^ 31)
    (enough : length bytes < fuel) where
  ends : Ends (TookType (dsrlizr_create bytes)) (type_deserialize fuel (dsrlizr_create bytes))
  unfolding dsrlizr_create
  ends = type_deserialize-Ends fuel (dsrlizr_create bytes) (omega arith, short, all) (omega arith)

  -- `type_deserialize` ends on any bytes, fewer than 2 ^ 31: a level of nesting for each byte is enough.
  pub type_deserialize_total : type_deserialize fuel (dsrlizr_create bytes) ≢ no_fuel
  type_deserialize_total e = subst (Ends (TookType (dsrlizr_create bytes))) e ends

  -- Whatever bytes `type_deserialize` reads, fewer than 2 ^ 31 and with a level of nesting for each of them, the type
  -- that it gives is valid, and so is every type inside it.
  pub type_deserialize-AllValid :
      (t : TypeT) (d : Deserializer)
      → type_deserialize fuel (dsrlizr_create bytes) ≡ got (t, d)
      → AllValid t
  type_deserialize-AllValid t d e = (subst (Ends (TookType (dsrlizr_create bytes))) e ends).0
