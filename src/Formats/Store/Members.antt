-- ===== src/Formats/Store/Members.antt =====
-- The members of a group store and the one that is picked for a write.
use nexspence_demo.Storage.Registry.Pick.{Fits}
use nexspence_demo.Formats.Store.{
  member_named, picked, read_store, not_found, other_error, error, got, Outcome, store_where,
  store_by_id, World, member_info, group_members,
}
use nexspence_demo.Prelude.{
  All, All-Among, Among, Bool, Bool-cases, List, Option, Text, [], ap, arith, eq_text,
  eq_text_sound, false, if◌then◌else◌, inl, inr, map, none, refl, some, some≢none, subst, sym, true,
  ◌∙◌, ◌∷◌, ◌≡◌,
}
use nexspence_demo.Domain.{BlobStore}
use nexspence_demo.Storage.Registry.{has_capacity, MemberInfo}
use nexspence_demo.Accounts.Rows.{find_row}

-- A row is the one that its id finds.
abbrev pub IsRow : World → BlobStore → Type 0
IsRow w bs = store_by_id w bs.id ≡ got bs

find_row-passes :
    (p : BlobStore → Bool) (rows : List BlobStore) (bs : BlobStore)
    → find_row p rows ≡ some bs
    → (p bs ≡ true) × Among bs rows
unfolding find_row
find_row-passes p [] bs e = absurd (some≢none (sym e))
find_row-passes p (x ∷ rows) bs e = elim (Bool-cases (p x)) [
  | inl t ↦ (let same : x ≡ bs = ground (arith, e, t) in (subst (λ z. p z ≡ true) same t, inl same))
  | inr f ↦ (let (passes, m) = find_row-passes p rows bs (ground (arith, e, f)) in (passes, inr m))
]

store_by_id-id : (w : World) (id : Text) (bs : BlobStore) → store_by_id w id ≡ got bs → bs.id ≡ id
unfolding store_by_id store_where
store_by_id-id w id bs e =
    read (w.fails read_store) (find_row (λ (x : BlobStore). eq_text x.id id) w.stores) refl e
  where
    read :
        (b : Bool) (o : Option BlobStore)
        → find_row (λ (x : BlobStore). eq_text x.id id) w.stores ≡ o
        → (if b then error other_error else elim o [ none ↦ error not_found | some x ↦ got x ])
          ≡ got bs
        → bs.id ≡ id
    read true o q h = cc
    read false none q h = cc
    read false (some x) q h =
        let same : x ≡ bs = cc in
        eq_text_sound bs.id id
          (find_row-passes (λ (y : BlobStore). eq_text y.id id) w.stores bs
            (q ∙ ap (λ z. some z) same)).0

pub group_members-IsRow : (w : World) (ids : List Text) → All (IsRow w) (group_members w ids)
unfolding group_members
group_members-IsRow w [] = tt
group_members-IsRow w (id ∷ ids) = row (store_by_id w id) refl (group_members-IsRow w ids)
  where
    row :
        (o : Outcome BlobStore)
        → store_by_id w id ≡ o
        → All (IsRow w) (group_members w ids)
        → All
            (IsRow w)
            (elim o [ error e ↦ group_members w ids | got bs ↦ bs ∷ group_members w ids ])
    row (error e) q h = h
    row (got bs) q h = (ap (store_by_id w) (store_by_id-id w id bs q) ∙ q, h)

Among-map :
    (members : List BlobStore) (m : MemberInfo)
    → Among m (map member_info members)
    → (bs : BlobStore) × Among bs members × (member_info bs ≡ m)
Among-map [] m h = absurd h
Among-map (bs ∷ members) m (inl e) = (bs, inl refl, e)
Among-map (bs ∷ members) m (inr h) = (let (x, a, e) = Among-map members m h in (x, inr a, e))

-- The member that a group's pick names has room, and is a row of the group.
unfoldable pub IsPick : World → List BlobStore → BlobStore → Type 0
IsPick w members bs = Among bs members × (has_capacity (member_info bs) ≡ true)

named :
    (w : World) (members : List BlobStore) (m bs : BlobStore)
    → All (IsRow w) members
    → Among m members
    → find_row (λ (x : BlobStore). eq_text x.id m.id) members ≡ some bs
    → bs ≡ m
named w members m bs rows a e =
    let (same, b) = find_row-passes (λ (x : BlobStore). eq_text x.id m.id) members bs e in
    let id_same : bs.id ≡ m.id = eq_text_sound bs.id m.id same in
    let found =
      sym (All-Among (IsRow w) members bs rows b)
      ∙ ap (store_by_id w) id_same
      ∙ All-Among (IsRow w) members m rows a in
    cc

pub picked-IsPick :
    (w : World) (members : List BlobStore) (o : Option MemberInfo) (bs : BlobStore)
    → All (IsRow w) members
    → Fits (map member_info members) o
    → picked members (elim o [ none ↦ [] | some m ↦ m.id ]) ≡ got bs
    → IsPick w members bs
unfolding picked member_named IsPick Among-map member_info
picked-IsPick w members none bs rows f h = cc
picked-IsPick w members (some m) bs rows f h = chosen m.id refl h
  where
    from_row :
        (o : Option BlobStore)
        → find_row (λ (x : BlobStore). eq_text x.id m.id) members ≡ o
        → (elim o [ none ↦ error other_error | some x ↦ got x ]) ≡ got bs
        → IsPick w members bs
    from_row none q k = cc
    from_row (some x) q k =
        let same : x ≡ bs = cc in
        let (row, a, e) = Among-map members m f.0 in
        let q' =
          subst (λ i. find_row (λ (y : BlobStore). eq_text y.id i) members ≡ some x)
            (sym (ap (λ (i : MemberInfo). i.id) e)) q in
        let is_row = sym same ∙ named w members row x rows a q' in
        (
          subst (λ z. Among z members) (sym is_row) a,
          ap (λ z. has_capacity (member_info z)) is_row ∙ ap has_capacity e ∙ f.1,
        )

    chosen : (id : Text) → m.id ≡ id → picked members id ≡ got bs → IsPick w members bs
    chosen [] q k = cc
    chosen (c ∷ id) q k = from_row (find_row (λ (x : BlobStore). eq_text x.id m.id) members) refl (
        ap
          (λ i. elim (find_row (λ (x : BlobStore). eq_text x.id i) members) [
            | none ↦ error other_error
            | some x ↦ got x
          ])
          q
        ∙ k)
