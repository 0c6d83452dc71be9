-- ===== src/DataList/Valid.antt =====
-- `dl_validate_for_db` of libs/nspager/data_list.c: which pages may stand in the database file.
use numstore.Prelude.{
  ◌≤◌, ◌<◌, ◌/◌, true, false, ◌≡◌, refl, arith, ltb, ◌==◌, ◌↔◌, Bool-cases, inl, inr,
}
use numstore.DataList.{DataList, success, dl_data_size, dl_is_root, dl_validate_for_db}

-- What a page of the r+tree has to be: of its type, not overfull, and at least half full, or at least
-- not empty if it is the only page of its tree.
abbrev pub IsSound : DataList → Type 0
IsSound d =
    (d.page_type ≡ 4)
    × (d.used ≤ dl_data_size)
    × (dl_is_root d ≡ true → 0 < d.used)
    × (dl_is_root d ≡ false → 1007 ≤ d.used)

validate-IsSound : (d : DataList) → dl_validate_for_db d ≡ success → IsSound d
unfolding dl_validate_for_db
validate-IsSound d h = (
  ground (arith, h),
  ground (arith, h),
  λ root. ground (arith, h, root),
  λ inner. ground (arith, h, inner),
)

IsSound-validate : (d : DataList) → IsSound d → dl_validate_for_db d ≡ success
unfolding dl_validate_for_db
IsSound-validate d (t, w, r, i) = elim (Bool-cases (dl_is_root d)) [
  | inl root ↦
      let p = r root in
      let e1 : (d.page_type == 4) ≡ true = ground arith in
      let e2 : ltb dl_data_size d.used ≡ false = ground arith in
      let e3 : (d.used == 0) ≡ false = ground arith in rw (e1, e2, root, e3) refl
  | inr inner ↦
      let p = i inner in
      let e1 : (d.page_type == 4) ≡ true = ground arith in
      let e2 : ltb dl_data_size d.used ≡ false = ground arith in
      let e3 : ltb d.used (dl_data_size / 2) ≡ false = ground arith in rw (e1, e2, inner, e3) refl
]

-- `dl_validate_for_db` accepts the pages that are of type PG_DATA_LIST, are not overfull, and hold a
-- byte if they have no neighbour and half of DL_DATA_SIZE otherwise; and no other pages.
pub dl_validate_for_db_iff : (d : DataList) → (dl_validate_for_db d ≡ success) ↔ IsSound d
dl_validate_for_db_iff d = (validate-IsSound d, IsSound-validate d)
