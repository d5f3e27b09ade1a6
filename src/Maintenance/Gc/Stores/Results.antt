-- ===== src/Maintenance/Gc/Stores/Results.antt =====
-- What a run over all stores reports and deletes.
use nexspence_demo.Prelude.{
  Among, List, Option, [], any_of, ap, arith, false, if◌then◌else◌, inl, inr, length, none, refl,
  some, subst, sym, true, ℕ, ◌++◌, ◌+◌, ◌==◌, ◌∙◌, ◌∷◌, ◌≡◌, ◌≢◌, ◌≤◌, ◌⊎◌,
}
use nexspence_demo.Maintenance.Gc.{
  too_young, Pass, BlobRef, BlobEntry, Outcome, compact, empty_result, referenced_set,
}
use nexspence_demo.Maintenance.Gc.References.{names, has-referenced_set}
use nexspence_demo.Maintenance.Gc.Deletions.{compact-store, compact-deletes_orphans}
use nexspence_demo.Maintenance.Gc.Stores.{
  no_lock, held, failed, acquire_failed, held, acquire_failed, StoreRow, Physical, Options, Lock,
  RunError, pass_of, compact_row, compact_rows, compact_listed, compact_all, granted,
}

-- `e` is old enough at `t`: no minimal age is set, or it has no time, or that age has passed.
abbrev pub IsOld : ℕ → ℕ → BlobEntry → Type 0
IsOld min_age t e = (min_age ≡ 0) ⊎ ((e.mod_time ≡ 0) ⊎ (e.mod_time + min_age ≤ t))

too_young-IsOld : (p : Pass) (t : ℕ) (e : BlobEntry) → too_young p t e ≡ false → IsOld p.min_age t e
unfolding too_young
too_young-IsOld p t e h = ground arith

-- The minimal age of a run
abbrev pub age_limit : Options → ℕ
age_limit o = if o.min_age == 0 then o.default_min_age else o.min_age

-- What a round over the row deletes: `e` is an entry of the physical store that the row resolves to, old
-- enough at the moment the pass looked at its place, its delete succeeded, and no reference names its
-- key together with the row or with no store.
abbrev pub IsOrphanOf :
    Options → List BlobRef → (StoreRow → Option Physical) → StoreRow → BlobEntry → Type 0
IsOrphanOf o refs resolve row e =
    (p : Physical) × (resolve row ≡ some p)
    × ((pre post : List BlobEntry) × (p.entries ≡ some (pre ++ e ∷ post))
        × IsOld (age_limit o) (p.now (length pre)) e)
    × (p.deletes e.key ≡ true)
    × (any_of (names row.id e.key) refs ≡ false)

compact_row-gone :
    (o : Options) (refs : List BlobRef) (row : StoreRow) (p : Physical) (e : BlobEntry)
    → Among e (compact_row o (referenced_set refs) row (some p)).gone
    → (o.dry_run ≡ false)
      × ((pre post : List BlobEntry) × (p.entries ≡ some (pre ++ e ∷ post))
          × IsOld (age_limit o) (p.now (length pre)) e)
      × (p.deletes e.key ≡ true)
      × (any_of (names row.id e.key) refs ≡ false)
unfolding compact_row pass_of compact empty_result
compact_row-gone o refs row p e m = of_entries p.entries refl
  where
    pass : Pass
    pass = pass_of o (referenced_set refs) row p

    of_entries :
        (es : Option (List BlobEntry))
        → p.entries ≡ es
        → (o.dry_run ≡ false)
          × ((pre post : List BlobEntry) × (p.entries ≡ some (pre ++ e ∷ post))
              × IsOld (age_limit o) (p.now (length pre)) e)
          × (p.deletes e.key ≡ true)
          × (any_of (names row.id e.key) refs ≡ false)
    of_entries none q = absurd (subst (λ l. Among e (compact row.name pass l p.updates).gone) q m)
    of_entries (some es) q =
        let (wet, (free, (pre, (post, at, old))), freed) =
          compact-deletes_orphans row.name pass es p.updates e
            (subst (λ l. Among e (compact row.name pass l p.updates).gone) q m) in
        let start : 0 + length pre ≡ length pre = omega arith in
        (
          wet,
          (
            pre,
            post,
            q ∙ ap (λ l. some l) at,
            subst (λ n. IsOld (age_limit o) (p.now n) e) start
                (too_young-IsOld pass (p.now (0 + length pre)) e old),
          ),
          freed,
          sym (has-referenced_set refs row.id e.key) ∙ free,
        )

-- The outcome is that of a round over a listed row, and the blob is an orphan of that row's store.
abbrev pub IsOrphan :
    Options
    → List BlobRef
    → (StoreRow → Option Physical)
    → List StoreRow
    → Outcome
    → BlobEntry
    → Type 0
IsOrphan o refs resolve rows out e =
    (row : StoreRow) × Among row rows
    × (out.result.store ≡ row.name)
    × IsOrphanOf o refs resolve row e

compact_row-IsOrphanOf :
    (o : Options) (refs : List BlobRef) (resolve : StoreRow → Option Physical) (row : StoreRow)
    (e : BlobEntry)
    → Among e (compact_row o (referenced_set refs) row (resolve row)).gone
    → (o.dry_run ≡ false) × IsOrphanOf o refs resolve row e
unfolding compact_row
compact_row-IsOrphanOf o refs resolve row e m = resolved (resolve row) refl m
  where
    resolved :
        (r : Option Physical)
        → resolve row ≡ r
        → Among e (compact_row o (referenced_set refs) row r).gone
        → (o.dry_run ≡ false) × IsOrphanOf o refs resolve row e
    resolved none q k = absurd k
    resolved (some p) q k =
        let (wet, place, freed, free) = compact_row-gone o refs row p e k in
        (wet, (p, q, place, freed, free))

compact_row-store :
    (o : Options) (refs : List BlobRef) (row : StoreRow) (r : Option Physical)
    → (compact_row o (referenced_set refs) row r).result.store ≡ row.name
unfolding compact_row empty_result
compact_row-store o refs row none = refl
compact_row-store o refs row (some p) =
    compact-store row.name (pass_of o (referenced_set refs) row p) p.entries p.updates

compact_rows-gone :
    (o : Options) (refs : List BlobRef) (resolve : StoreRow → Option Physical)
    (rows : List StoreRow) (out : Outcome) (e : BlobEntry)
    → Among out (compact_rows o (referenced_set refs) resolve rows)
    → Among e out.gone
    → (o.dry_run ≡ false) × IsOrphan o refs resolve rows out e
unfolding compact_rows
compact_rows-gone o refs resolve [] out e m g = absurd m
compact_rows-gone o refs resolve (row ∷ rows) out e (inl q) g =
    let (wet, orphan) =
      compact_row-IsOrphanOf o refs resolve row e (subst (λ x. Among e x.gone) (sym q) g) in
    let name : out.result.store ≡ row.name =
      ap (λ (x : Outcome). x.result.store) (sym q) ∙ compact_row-store o refs row (resolve row) in
    (wet, (row, inl refl, name, orphan))
compact_rows-gone o refs resolve (row ∷ rows) out e (inr m) g =
    let (wet, (r, n, name, orphan)) = compact_rows-gone o refs resolve rows out e m g in
    (wet, (r, inr n, name, orphan))

abbrev done : List Outcome → RunError ⊎ List Outcome
done outs = inr outs

done-injective : {x y : List Outcome} → done x ≡ done y → x ≡ y
done-injective h = cc

acquire_not_done : {outs : List Outcome} → inl acquire_failed ≢ done outs
acquire_not_done h = cc

-- Whatever a run over all stores deletes, with the lock or without one, is an entry of the physical
-- store of a listed row, reported under that row's name; its delete succeeded, it was old enough when
-- the pass looked at it, unless it has no time, and no reference names its key together with that row
-- or with no store at all. The run was not dry, and did not find the lock held.
pub compact_all-deletes_orphans :
    (lock : Lock) (o : Options) (refs : List BlobRef) (rows : List StoreRow)
    (resolve : StoreRow → Option Physical) (outs : List Outcome) (out : Outcome) (e : BlobEntry)
    → compact_all lock o (some refs) (some rows) resolve ≡ inr outs
    → Among out outs
    → Among e out.gone
    → (lock ≢ held) × (o.dry_run ≡ false) × IsOrphan o refs resolve rows out e
unfolding compact_all compact_listed
compact_all-deletes_orphans no_lock o refs rows resolve outs out e h m g =
    let (wet, free) =
      compact_rows-gone (record o { deadline = none }) refs resolve rows out e
        (subst (Among out) (sym (done-injective h)) m) g in
    ((λ q. cc), wet, free)
compact_all-deletes_orphans held o refs rows resolve outs out e h m g =
    absurd (subst (Among out) (sym (done-injective h)) m)
compact_all-deletes_orphans failed o refs rows resolve outs out e h m g =
    absurd (acquire_not_done h)
compact_all-deletes_orphans granted o refs rows resolve outs out e h m g =
    let (wet, free) =
      compact_rows-gone o refs resolve rows out e (subst (Among out) (sym (done-injective h)) m)
        g in
    ((λ q. cc), wet, free)
