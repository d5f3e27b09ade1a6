-- ===== src/Rbac/Service/Docker.antt =====
-- FilterDockerRows groups the rows by image and keeps or drops an image whole.
use nexspence_demo.Prelude.{
  Among, Among-append, Among-append_left, Among-append_right, Among-keep_if, Among-of_keep_if, Bool,
  Bool-cases, List, Option-cases, Text, [], any_of, append-nil, append_assoc, arith, codes, eq_text,
  eq_text_iff, eq_text_refl, eq_text_sound, false, if◌then◌else◌, inl, inr, keep_if, keep_if-append,
  refl, some, subst, sym, true, ◌++◌, ◌||◌, ◌↔◌, ◌∙◌, ◌∷◌, ◌≡◌,
}
use nexspence_demo.Prelude.Dict
use nexspence_demo.Prelude.Dict.{Dict, get-put}
use nexspence_demo.Domain.{DockerBrowseRow}
use nexspence_demo.Rbac.Path.{asset_sample_path}
use nexspence_demo.Rbac.Service.{
  RbacService, is_admin, anonymous_allowed, loaded, match_privileges, Grouping, group_row,
  group_rows, rows_of, shown_rows, accessible_images, filter_docker_rows,
}

abbrev pub has_image : Text → DockerBrowseRow → Bool
has_image n r = eq_text r.image_name n

-- What the grouping holds of the rows seen so far.
record IsGrouping (g : Grouping) (seen : List DockerBrowseRow) : Type 0 where
  rows : (n : Text) → rows_of g.by_image n ≡ keep_if (has_image n) seen
  listed : (n : Text) (l : List DockerBrowseRow) → Dict.get n g.by_image ≡ some l → Among n g.order

rows_of-put :
    (m : Dict (List DockerBrowseRow)) (k n : Text) (l : List DockerBrowseRow)
    → rows_of (Dict.put k l m) n ≡ (if eq_text k n then l else rows_of m n)
unfolding rows_of
rows_of-put m k n l = ground (arith, get-put k n l m)

rows_of-group_row :
    (g : Grouping) (row : DockerBrowseRow) (n : Text)
    → rows_of (group_row g row).by_image n ≡ (
        if eq_text row.image_name n then rows_of g.by_image n ++ row ∷ [] else rows_of g.by_image n)
unfolding group_row rows_of
rows_of-group_row g row n = ground (
  arith,
  eq_text_iff row.image_name n,
  get-put row.image_name n (row ∷ []) g.by_image,
  get-put row.image_name n (rows_of g.by_image row.image_name ++ row ∷ []) g.by_image,
)

listed-group_row :
    (g : Grouping) (seen : List DockerBrowseRow) (row : DockerBrowseRow) (n : Text)
    → IsGrouping g seen
    → (l : List DockerBrowseRow) → Dict.get n (group_row g row).by_image ≡ some l
    → Among n (group_row g row).order
unfolding group_row
listed-group_row g seen row n i l e = elim (Option-cases (Dict.get row.image_name g.by_image)) [
  | inl fresh ↦
      rw (fresh, group_row)
        (elim (Bool-cases (eq_text row.image_name n)) [
          | inl same ↦
              Among-append_right n g.order (row.image_name ∷ []) (inl (eq_text_sound _ _ same))
          | inr ne ↦ Among-append_left n g.order (row.image_name ∷ []) (
              i.listed n l
                (ground (arith, fresh, e, ne, get-put row.image_name n (row ∷ []) g.by_image)))
        ])
  | inr (rows, old) ↦
      rw (old, group_row)
        (elim (Bool-cases (eq_text row.image_name n)) [
          | inl same ↦ rw (← eq_text_sound row.image_name n same) (i.listed row.image_name rows old)
          | inr ne ↦
              i.listed n l
                (ground (arith, old, e, ne, get-put row.image_name n (rows ++ row ∷ []) g.by_image))
        ])
]

group_row-IsGrouping :
    (g : Grouping) (seen : List DockerBrowseRow) (row : DockerBrowseRow)
    → IsGrouping g seen
    → IsGrouping (group_row g row) (seen ++ row ∷ [])
group_row-IsGrouping g seen row i = record {
  rows = λ n.
      rows_of-group_row g row n
      ∙ rw (i.rows n, keep_if-append (has_image n) seen (row ∷ [])) (last n);
  listed = λ n. listed-group_row g seen row n i;
}
  where
    last :
        (n : Text)
        → (if eq_text row.image_name n
            then keep_if (has_image n) seen ++ row ∷ []
            else keep_if (has_image n) seen)
          ≡ keep_if (has_image n) seen ++ keep_if (has_image n) (row ∷ [])
    last n = elim (Bool-cases (eq_text row.image_name n)) [
      | inl y ↦ rw y
      | inr z ↦ rw (z, append-nil)
    ]

group_rows-IsGrouping :
    (g : Grouping) (seen rows : List DockerBrowseRow)
    → IsGrouping g seen
    → IsGrouping (group_rows g rows) (seen ++ rows)
unfolding group_rows
group_rows-IsGrouping g seen [] i = rw append-nil i
group_rows-IsGrouping g seen (row ∷ rows) i = rw (← append_assoc seen (row ∷ []) rows) (
    group_rows-IsGrouping (group_row g row) (seen ++ row ∷ []) rows
      (group_row-IsGrouping g seen row i))

module _ (ok : DockerBrowseRow → Bool) (m : Dict (List DockerBrowseRow)) where
  image_shown :
      (order : List Text) (n : Text) (row : DockerBrowseRow)
      → Among n order
      → any_of ok (rows_of m n) ≡ true
      → Among row (rows_of m n)
      → Among row (accessible_images ok m order)
  unfolding accessible_images shown_rows
  image_shown [] n row l a r = absurd l
  image_shown (i ∷ order) n row (inl e) a r =
      Among-append_left row (shown_rows ok (rows_of m i)) (accessible_images ok m order)
        (rw e (rw (a, shown_rows) r))
  image_shown (i ∷ order) n row (inr l) a r =
      Among-append_right row (shown_rows ok (rows_of m i)) (accessible_images ok m order)
        (image_shown order n row l a r)

  shown_row :
      (rows : List DockerBrowseRow) (row : DockerBrowseRow)
      → Among row (shown_rows ok rows)
      → (any_of ok rows ≡ true) × Among row rows
  unfolding shown_rows
  shown_row rows row h = elim (Bool-cases (any_of ok rows)) [
    | inl y ↦ (y, rw (y, shown_rows) at h)
    | inr z ↦ absurd (rw (z, shown_rows) at h)
  ]

  shown_image :
      (order : List Text) (row : DockerBrowseRow)
      → Among row (accessible_images ok m order)
      → (n : Text) × (any_of ok (rows_of m n) ≡ true) × Among row (rows_of m n)
  unfolding accessible_images
  shown_image [] row h = absurd h
  shown_image (i ∷ order) row h =
      elim (Among-append row (shown_rows ok (rows_of m i)) (accessible_images ok m order) h) [
        | inl here ↦ let (a, r) = shown_row (rows_of m i) row here in (i, a, r)
        | inr later ↦ shown_image order row later
      ]

-- The test that FilterDockerRows puts to a row.
abbrev pub row_allowed : RbacService → Text → Text → DockerBrowseRow → Bool
row_allowed s user_id repo_name row =
    match_privileges (loaded s user_id) repo_name (asset_sample_path row.sample_path)
      (codes "browse")

-- An image with rows is a key.
present :
    (m : Dict (List DockerBrowseRow)) (n : Text) (row : DockerBrowseRow)
    → Among row (rows_of m n)
    → (l : List DockerBrowseRow) × (Dict.get n m ≡ some l)
unfolding rows_of
present m n row r = elim (Option-cases (Dict.get n m)) [
  | inl e ↦ absurd (rw (e, rows_of) at r)
  | inr f ↦ f
]

module _ (ok : DockerBrowseRow → Bool) (rows : List DockerBrowseRow) where
  abbrev grouping : Grouping
  grouping = group_rows (record { by_image = []; order = [] }) rows

  grouping-IsGrouping : IsGrouping grouping rows
  unfolding rows_of Dict.get
  grouping-IsGrouping =
      group_rows-IsGrouping (record { by_image = []; order = [] }) [] rows
        (record { rows = λ n. refl; listed = λ n l e. ground arith })

  shown_iff :
      (row : DockerBrowseRow)
      → Among row (accessible_images ok grouping.by_image grouping.order)
        ↔ (Among row rows × (any_of ok (keep_if (has_image row.image_name) rows) ≡ true))
  shown_iff row = (to, back)
    where
      to :
          Among row (accessible_images ok grouping.by_image grouping.order)
          → Among row rows × (any_of ok (keep_if (has_image row.image_name) rows) ≡ true)
      to h =
          let (n, a, r) = shown_image ok grouping.by_image grouping.order row h in
          let same : rows_of grouping.by_image n ≡ keep_if (has_image n) rows =
            grouping-IsGrouping.rows n in
          let (m, e) = Among-of_keep_if (has_image n) row rows (subst (Among row) same r) in
          let image : n ≡ row.image_name = sym (eq_text_sound row.image_name n e) in
          (
            m,
            subst (λ k. any_of ok (keep_if (has_image k) rows) ≡ true) image
                (subst (λ l. any_of ok l ≡ true) same a),
          )

      back :
          Among row rows × (any_of ok (keep_if (has_image row.image_name) rows) ≡ true)
          → Among row (accessible_images ok grouping.by_image grouping.order)
      back (m, a) =
          let n = row.image_name in
          let same : rows_of grouping.by_image n ≡ keep_if (has_image n) rows =
            grouping-IsGrouping.rows n in
          let r : Among row (rows_of grouping.by_image n) =
            subst (Among row) (sym same)
              (Among-keep_if (has_image n) row rows m (eq_text_refl n)) in
          let (l, e) = present grouping.by_image n row r in
          image_shown ok grouping.by_image grouping.order n row (grouping-IsGrouping.listed n l e)
            (subst (λ l. any_of ok l ≡ true) (sym same) a) r

-- For a caller who is neither admin nor served anonymously, a row is listed exactly if it is one of
-- the rows and some row of its image passes the privilege test.
pub filter_docker_rows_iff :
    (s : RbacService) (user_id : Text) (roles : List Text) (repo_name : Text) (allow : Bool)
    (rows : List DockerBrowseRow) (row : DockerBrowseRow)
    → (is_admin roles || anonymous_allowed s allow) ≡ false
    → Among row (filter_docker_rows s user_id roles repo_name allow rows) ↔ (
        Among row rows
        × (any_of (row_allowed s user_id repo_name) (keep_if (has_image row.image_name) rows)
            ≡ true))
unfolding filter_docker_rows
filter_docker_rows_iff s user_id roles repo_name allow rows row h =
    rw h (shown_iff (row_allowed s user_id repo_name) rows row)
