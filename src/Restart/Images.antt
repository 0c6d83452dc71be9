-- ===== src/Restart/Images.antt =====
-- The pages under `pgr_restart_redo` of libs/nspager/pager.c, one record after the other: against a
-- replay of the log without any test.
use numstore.Prelude.{
  ℕ, zero, suc, ◌+◌, ◌≤◌, ◌<◌, Bool, true, false, List, [], ◌∷◌, Option, some, none, ◌≡◌, refl, sym,
  arith, Option-cases, Bool-cases, inl, inr, ◌==◌, leb, subst, ◌⊎◌, if◌then◌else◌, take,
  le→ltb-false, ==→eq, ◌∙◌,
}
use numstore.Wal.{Page, DpgEntry, Record, update, clr, rec_len}
use numstore.Wal.Laws.{rec_len_pos}
use numstore.Pager.{Pager, dpe_get}
use numstore.Restart.{Aries}
use numstore.Restart.Redo.{dpgt_update, redo_page, redo_switch, redo_record}

-- Whether a record holds an image of the page.
abbrev pub touches : ℕ → Record → Bool
touches pg (update _ _ q _ _) = q == pg
touches pg (clr _ _ q _ _) = q == pg
touches pg _ = false

-- The page behind a record at the LSN `l`.
abbrev pub image : ℕ → ℕ → Record → Page → Page
image pg l (update _ _ q _ redo) g = if q == pg then record redo { page_lsn = l } else g
image pg l (clr _ _ q _ redo) g = if q == pg then record redo { page_lsn = l } else g
image pg l r g = g

-- The page behind the records that begin at `l`, one behind the other.
abbrev pub replay : ℕ → ℕ → List Record → Page → Page
replay pg l [] g = g
replay pg l (r ∷ rs) g = replay pg (l + rec_len r) rs (image pg l r g)

abbrev pub Listed : Option ℕ → ℕ → Type 0
Listed none l = ⊥
Listed (some rec_lsn) l = rec_lsn ≤ l

-- Each record of the page, the first `k` records apart, is at its RecLSN or behind it.
abbrev pub Covered : Option ℕ → (pg k l : ℕ) → List Record → Type 0
Covered o pg k l [] = Unit
Covered o pg zero l (r ∷ rs) =
    (touches pg r ≡ true → Listed o l) × Covered o pg zero (l + rec_len r) rs
Covered o pg (suc k) l (r ∷ rs) = Covered o pg k (l + rec_len r) rs

abbrev pub lens : List Record → ℕ
lens [] = 0
lens (r ∷ rs) = rec_len r + lens rs

-- What holds of a page where the records from `l` on are left: `g` is what the records before `l` made
-- of it, and the page in the file is as the first `k` of those that are left make it.
pub record At (pg : ℕ) (p : Pager) (a : Aries) (k l : ℕ) (rs : List Record) (g : Page)
    : Type 0 where
  pub so_far : p.pages pg ≡ replay pg l (take k rs) g
  pub behind : g.page_lsn < l
  pub listed : Covered (dpe_get a.dpt pg) pg k l rs

Covered-some :
    (v pg k l : ℕ) (rs : List Record) → v ≤ l + lens (take k rs) → Covered (some v) pg k l rs
Covered-some v pg k l [] h = tt
Covered-some v pg zero l (r ∷ rs) h =
    (λ t. omega arith, Covered-some v pg zero (l + rec_len r) rs (omega arith))
Covered-some v pg (suc k) l (r ∷ rs) h = Covered-some v pg k (l + rec_len r) rs (omega arith)

image_lsn :
    (pg l : ℕ) (r : Record) (g : Page) → g.page_lsn < l → (image pg l r g).page_lsn < l + rec_len r
image_lsn pg l (update t v q u redo) g h = ground (arith, rec_len_pos (update t v q u redo))
image_lsn pg l (clr t v q n redo) g h = ground (arith, rec_len_pos (clr t v q n redo))
image_lsn pg l r g h = omega (arith, rec_len_pos r)

replay_bounds :
    (pg l : ℕ) (rs : List Record) (g : Page)
    → g.page_lsn < l
    → (g.page_lsn ≤ (replay pg l rs g).page_lsn) × ((replay pg l rs g).page_lsn < l + lens rs)
replay_bounds pg l [] g h = omega arith
replay_bounds pg l (r ∷ rs) g h =
    let b = replay_bounds pg (l + rec_len r) rs (image pg l r g) (image_lsn pg l r g h) in
    (omega (arith, b.0, image_le r), omega (arith, b.1))
  where
    image_le : (r : Record) → g.page_lsn ≤ (image pg l r g).page_lsn
    image_le (update _ _ q _ redo) = ground arith
    image_le (clr _ _ q _ redo) = ground arith
    image_le r = omega arith

dpe_get-dpgt_update :
    (t : List DpgEntry) (pg v o : ℕ)
    → dpe_get t pg ≡ some o
    → dpe_get (dpgt_update t pg v) pg ≡ some v
unfolding dpe_get dpgt_update
dpe_get-dpgt_update [] pg v o h = cc
dpe_get-dpgt_update (d ∷ t) pg v o h = ground (arith, dpe_get-dpgt_update t pg v o)

dpe_get-dpgt_update_ne :
    (t : List DpgEntry) (q pg v : ℕ)
    → (q == pg) ≡ false
    → dpe_get (dpgt_update t q v) pg ≡ dpe_get t pg
unfolding dpe_get dpgt_update
dpe_get-dpgt_update_ne [] q pg v h = refl
dpe_get-dpgt_update_ne (d ∷ t) q pg v h = ground (arith, dpe_get-dpgt_update_ne t q pg v h)

module _ (p : Pager) (a : Aries) (l q : ℕ) (redo : Page) where
  -- Another page keeps what it has.
  redo_page_ne :
      (pg : ℕ)
      → (q == pg) ≡ false
      → ((redo_page p a l q redo).0.pages pg ≡ p.pages pg)
        × (dpe_get (redo_page p a l q redo).1.dpt pg ≡ dpe_get a.dpt pg)
  unfolding redo_page
  redo_page_ne pg h =
      (ground arith, ground (arith, dpe_get-dpgt_update_ne a.dpt q pg ((p.pages q).page_lsn + 1) h))

  -- A page that is behind gets the image.
  redo_page_write :
      Listed (dpe_get a.dpt q) l
      → (p.pages q).page_lsn < l
      → ((redo_page p a l q redo).0.pages q ≡ record redo { page_lsn = l })
        × ((redo_page p a l q redo).1.dpt ≡ a.dpt)
  unfolding redo_page
  redo_page_write h lt = (ground arith, ground arith)

  -- A page that is not behind keeps its contents.
  redo_page_keep :
      l ≤ (p.pages q).page_lsn
      → ((redo_page p a l q redo).0.pages q ≡ p.pages q)
        × (((redo_page p a l q redo).1.dpt ≡ a.dpt)
            ⊎ (dpe_get (redo_page p a l q redo).1.dpt q ≡ some ((p.pages q).page_lsn + 1)))
  unfolding redo_page
  redo_page_keep h = elim (Option-cases (dpe_get a.dpt q)) [
    | inl none_there ↦ rw (none_there, redo_page) (refl, inl refl)
    | inr (o, there) ↦ elim (Bool-cases (leb o l)) [
      | inl in_range ↦
          rw (there, in_range, le→ltb-false (p.pages q).page_lsn l h, redo_page)
            (refl, inr (dpe_get-dpgt_update a.dpt q ((p.pages q).page_lsn + 1) o there))
      | inr below ↦ rw (there, below, redo_page) (refl, inl refl)
    ]
  ]

  -- A record of another page.
  redo_page-At_ne :
      (pg k n : ℕ) (rs : List Record) (g : Page)
      → (q == pg) ≡ false
      → At pg p a k n rs g
      → At pg (redo_page p a l q redo).0 (redo_page p a l q redo).1 k n rs g
  redo_page-At_ne pg k n rs g e v =
      let (same, entry) = redo_page_ne pg e in
      record {
        so_far = same ∙ v.so_far;
        behind = v.behind;
        listed = subst (λ o. Covered o pg k n rs) (sym entry) v.listed;
      }

  -- The page is as the records before this one left it.
  redo_page-At_zero :
      (n : ℕ) (rs : List Record) (g : Page)
      → l < n
      → g.page_lsn < l
      → p.pages q ≡ g
      → Listed (dpe_get a.dpt q) l
      → Covered (dpe_get a.dpt q) q 0 n rs
      → At q
          (redo_page p a l q redo).0
          (redo_page p a l q redo).1
          0
          n
          rs
          (record redo { page_lsn = l })
  redo_page-At_zero n rs g lt old e h v =
      let (new, entry) = redo_page_write h (rw e old) in
      record {
        so_far = new;
        behind = lt;
        listed = subst (λ t. Covered (dpe_get t q) q 0 n rs) (sym entry) v;
      }

  -- The page has the record's image already, or that of a later one.
  redo_page-At_suc :
      (k n : ℕ) (rs : List Record)
      → l < n
      → p.pages q ≡ replay q n (take k rs) (record redo { page_lsn = l })
      → Covered (dpe_get a.dpt q) q k n rs
      → At q
          (redo_page p a l q redo).0
          (redo_page p a l q redo).1
          k
          n
          rs
          (record redo { page_lsn = l })
  redo_page-At_suc k n rs lt e v =
      let b = replay_bounds q n (take k rs) (record redo { page_lsn = l }) lt in
      let (same, entry) = redo_page_keep (rw e b.0) in
      record {
        so_far = same ∙ e;
        behind = lt;
        listed = elim entry [
          | inl t ↦ subst (λ t. Covered (dpe_get t q) q k n rs) (sym t) v
          | inr t ↦
              subst (λ o. Covered o q k n rs) (sym t)
                (Covered-some _ q k n rs (rw e (omega (arith, b.1))))
        ];
      }

abbrev pub pred : ℕ → ℕ
pred zero = 0
pred (suc k) = k

-- The page behind an image of page `q` at the LSN `l`.
abbrev imaged : (l q : ℕ) → Page → ℕ → Page → Page
imaged l q redo pg g = if q == pg then record redo { page_lsn = l } else g

-- `At` where a record with an image of page `q` comes first, and the others begin at `n`.
abbrev AtImage : Pager → Aries → (l q : ℕ) → Page → (pg n : ℕ) → List Record → Page → ℕ → Type 0
AtImage p a l q redo pg n rs g zero =
    (p.pages pg ≡ g)
    × ((q == pg) ≡ true → Listed (dpe_get a.dpt pg) l)
    × Covered (dpe_get a.dpt pg) pg 0 n rs
AtImage p a l q redo pg n rs g (suc j) =
    (p.pages pg ≡ replay pg n (take j rs) (imaged l q redo pg g))
    × Covered (dpe_get a.dpt pg) pg j n rs

redo_page-At :
    (p : Pager) (a : Aries) (l q : ℕ) (redo : Page) (pg n : ℕ) (rs : List Record) (g : Page)
    → l < n
    → g.page_lsn < l
    → (k : ℕ) → AtImage p a l q redo pg n rs g k
    → At pg
        (redo_page p a l q redo).0
        (redo_page p a l q redo).1
        (pred k)
        n
        rs
        (imaged l q redo pg g)
redo_page-At p a l q redo pg n rs g lt old k v = elim (Bool-cases (q == pg)) [
  | inl hit ↦ rw hit (hit_case k (==→eq q pg hit) hit v)
  | inr miss ↦ rw miss (miss_case k miss v)
]
  where
    hit_case :
        (k : ℕ)
        → q ≡ pg
        → (q == pg) ≡ true
        → AtImage p a l q redo pg n rs g k
        → At pg
            (redo_page p a l q redo).0
            (redo_page p a l q redo).1
            (pred k)
            n
            rs
            (record redo { page_lsn = l })
    hit_case zero e hit (so, listed, later) =
        subst
          (λ pg.
            p.pages pg ≡ g
            → Listed (dpe_get a.dpt pg) l
            → Covered (dpe_get a.dpt pg) pg 0 n rs
            → At pg (redo_page p a l q redo).0 (redo_page p a l q redo).1 0 n rs
                (record redo { page_lsn = l }))
          e (redo_page-At_zero p a l q redo n rs g lt old) so (listed hit) later
    hit_case (suc j) e hit (so, later) =
        subst
          (λ pg.
            p.pages pg ≡ replay pg n (take j rs) (record redo { page_lsn = l })
            → Covered (dpe_get a.dpt pg) pg j n rs
            → At pg (redo_page p a l q redo).0 (redo_page p a l q redo).1 j n rs
                (record redo { page_lsn = l }))
          e (redo_page-At_suc p a l q redo j n rs lt) (rw hit at so) later

    miss_case :
        (k : ℕ)
        → (q == pg) ≡ false
        → AtImage p a l q redo pg n rs g k
        → At pg (redo_page p a l q redo).0 (redo_page p a l q redo).1 (pred k) n rs g
    miss_case zero e (so, listed, later) =
        redo_page-At_ne p a l q redo pg 0 n rs g e
          (record { so_far = so; behind = omega arith; listed = later })
    miss_case (suc j) e (so, later) =
        redo_page-At_ne p a l q redo pg j n rs g e
          (record { so_far = rw e at so; behind = omega arith; listed = later })

-- One round of the loop, for one page.
pub redo_record-At :
    (pg : ℕ) (p : Pager) (a : Aries) (k : ℕ) (r : Record) (rs : List Record) (g : Page)
    → At pg p a k a.redo_lsn (r ∷ rs) g
    → At pg
        (redo_record p a r).0
        (redo_record p a r).1
        (pred k)
        (a.redo_lsn + rec_len r)
        rs
        (image pg a.redo_lsn r g)
unfolding redo_record redo_switch
redo_record-At pg p a zero (update t v q u redo) rs g h =
    redo_page-At p _ a.redo_lsn q redo pg (a.redo_lsn + rec_len (update t v q u redo)) rs g
      (omega (arith, rec_len_pos (update t v q u redo))) h.behind 0
      (h.so_far, h.listed.0, h.listed.1)
redo_record-At pg p a (suc j) (update t v q u redo) rs g h =
    redo_page-At p _ a.redo_lsn q redo pg (a.redo_lsn + rec_len (update t v q u redo)) rs g
      (omega (arith, rec_len_pos (update t v q u redo))) h.behind (suc j) (h.so_far, h.listed)
redo_record-At pg p a zero (clr t v q u redo) rs g h =
    redo_page-At p _ a.redo_lsn q redo pg (a.redo_lsn + rec_len (clr t v q u redo)) rs g
      (omega (arith, rec_len_pos (clr t v q u redo))) h.behind 0 (h.so_far, h.listed.0, h.listed.1)
redo_record-At pg p a (suc j) (clr t v q u redo) rs g h =
    redo_page-At p _ a.redo_lsn q redo pg (a.redo_lsn + rec_len (clr t v q u redo)) rs g
      (omega (arith, rec_len_pos (clr t v q u redo))) h.behind (suc j) (h.so_far, h.listed)
redo_record-At pg p a zero r rs g h = record {
  so_far = h.so_far;
  behind = omega (arith, h.behind, rec_len_pos r);
  listed = h.listed.1;
}
redo_record-At pg p a (suc j) r rs g h = record {
  so_far = h.so_far;
  behind = omega (arith, h.behind, rec_len_pos r);
  listed = h.listed;
}
