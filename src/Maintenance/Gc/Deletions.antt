-- ===== src/Maintenance/Gc/Deletions.antt =====
-- What a pass deletes, counts and gives back.
use nexspence_demo.Prelude.{
  Among, Among-of_keep_if, Bool, Bool-cases, List, Option, Text, [], ap, append-nil, append_assoc,
  arith, false, if◌then◌else◌, inl, inr, keep_if, length, none, or_false, refl, some, subst, suc,
  sym, true, ℕ, ◌++◌, ◌+◌, ◌||◌, ◌∙◌, ◌∷◌, ◌≡◌,
}
use nexspence_demo.Maintenance.Gc.{
  BlobEntry, Pass, Swept, has, too_young, past_deadline, visit, sweep, empty_result, compact,
}

-- The entries that a pass counts as orphans: those it reaches before the deadline that are neither
-- referenced nor too young.
unfoldable pub targets : Pass → ℕ → List BlobEntry → List BlobEntry
targets p i [] = []
targets p i (e ∷ entries) =
    let rest = targets p (i + 1) entries in
    if past_deadline p.deadline (p.now i)
    then []
    else if has p.referenced p.store_id e.key || too_young p (p.now i) e
    then rest
    else e ∷ rest

unfoldable pub total : List BlobEntry → ℕ
total [] = 0
total (e ∷ entries) = e.size + total entries

unfoldable pub deleted : Pass → List BlobEntry → List BlobEntry
deleted p entries = if p.dry_run then [] else keep_if (λ e. p.deletes e.key) entries

total-append : (xs ys : List BlobEntry) → total (xs ++ ys) ≡ total xs + total ys
unfolding total
total-append [] ys = omega arith
total-append (x ∷ xs) ys = rw (total-append xs ys) (omega arith)

sweep-orphans :
    (p : Pass) (i : ℕ) (entries : List BlobEntry) (s : Swept)
    → (sweep p i entries s).result.orphans ≡ s.result.orphans + length (targets p i entries)
unfolding sweep visit targets
sweep-orphans p i [] s = ground arith
sweep-orphans p i (e ∷ entries) s =
    ground (arith, sweep-orphans p (i + 1) entries (visit p (p.now i) e s))

sweep-freed :
    (p : Pass) (i : ℕ) (entries : List BlobEntry) (s : Swept)
    → (sweep p i entries s).result.freed_bytes ≡ s.result.freed_bytes + total (targets p i entries)
unfolding sweep visit targets total
sweep-freed p i [] s = ground arith
sweep-freed p i (e ∷ entries) s =
    ground (arith, sweep-freed p (i + 1) entries (visit p (p.now i) e s))

sweep-gone :
    (p : Pass) (i : ℕ) (entries : List BlobEntry) (s : Swept)
    → (sweep p i entries s).gone ≡ s.gone ++ deleted p (targets p i entries)
unfolding sweep visit targets deleted
sweep-gone p i [] s = ground (arith, append-nil s.gone)
sweep-gone p i (e ∷ entries) s = ground (
  arith,
  sweep-gone p (i + 1) entries (visit p (p.now i) e s),
  append-nil s.gone,
  append_assoc s.gone (e ∷ []) (keep_if (λ e. p.deletes e.key) (targets p (i + 1) entries)),
)

sweep-removed :
    (p : Pass) (i : ℕ) (entries : List BlobEntry) (s : Swept)
    → s.removed ≡ total s.gone
    → (sweep p i entries s).removed ≡ total (sweep p i entries s).gone
unfolding sweep visit total
sweep-removed p i [] s h = h
sweep-removed p i (e ∷ entries) s h =
    ground
      (arith, sweep-removed p (i + 1) entries (visit p (p.now i) e s), total-append s.gone (e ∷ []))

sweep-store :
    (p : Pass) (i : ℕ) (entries : List BlobEntry) (s : Swept)
    → (sweep p i entries s).result.store ≡ s.result.store
unfolding sweep visit
sweep-store p i [] s = refl
sweep-store p i (e ∷ entries) s =
    ground (arith, sweep-store p (i + 1) entries (visit p (p.now i) e s))

pub compact-store :
    (name : Text) (p : Pass) (o : Option (List BlobEntry)) (updates : Bool)
    → (compact name p o updates).result.store ≡ name
unfolding compact empty_result
compact-store name p none updates = refl
compact-store name p (some entries) updates =
    let first = record (empty_result name p.dry_run) { scanned_blobs = length entries } in
    let s : Swept = record { result = first; removed = 0; gone = [] } in
    ground (arith, sweep-store p 0 entries s)

-- Named by no row for the store, and one of the entries, which was old enough when the pass looked at
-- its place; the pass looks at the first entry at moment `i`.
abbrev pub IsSafe : Pass → ℕ → List BlobEntry → BlobEntry → Type 0
IsSafe p i entries e =
    (has p.referenced p.store_id e.key ≡ false)
    × ((pre : List BlobEntry) × ((post : List BlobEntry) × (entries ≡ pre ++ e ∷ post)
          × (too_young p (p.now (i + length pre)) e ≡ false)))

IsSafe-later :
    (p : Pass) (i : ℕ) (d : BlobEntry) (entries : List BlobEntry) (e : BlobEntry)
    → IsSafe p (i + 1) entries e
    → IsSafe p i (d ∷ entries) e
IsSafe-later p i d entries e (a, (pre, (post, q, old))) =
    let shift : i + 1 + length pre ≡ i + suc (length pre) = omega arith in
    (
      a,
      (d ∷ pre, (post, ap (λ t. d ∷ t) q, subst (λ n. too_young p (p.now n) e ≡ false) shift old)),
    )

IsSafe-here :
    (p : Pass) (i : ℕ) (d : BlobEntry) (entries : List BlobEntry) (e : BlobEntry)
    → (has p.referenced p.store_id d.key || too_young p (p.now i) d) ≡ false
    → d ≡ e
    → IsSafe p i (d ∷ entries) e
IsSafe-here p i d entries e h q =
    let (free, old) = or_false (has p.referenced p.store_id d.key) (too_young p (p.now i) d) h in
    let now : too_young p (p.now (i + 0)) d ≡ false =
      subst (λ n. too_young p (p.now n) d ≡ false) (omega arith) old in
    subst (λ x. IsSafe p i (d ∷ entries) x) q (free, ([], (entries, refl, now)))

targets-IsSafe :
    (p : Pass) (i : ℕ) (entries : List BlobEntry) (e : BlobEntry)
    → Among e (targets p i entries)
    → IsSafe p i entries e
unfolding targets
targets-IsSafe p i [] e m = absurd m
targets-IsSafe p i (d ∷ entries) e m = elim (Bool-cases (past_deadline p.deadline (p.now i))) [
  | inl past ↦ absurd (rw past at m)
  | inr on ↦ elim (Bool-cases (has p.referenced p.store_id d.key || too_young p (p.now i) d)) [
    | inl kept ↦
        IsSafe-later p i d entries e (targets-IsSafe p (i + 1) entries e (rw (on, kept) at m))
    | inr orphan ↦
        let at : Among e (d ∷ targets p (i + 1) entries) = rw (on, orphan) at m in
        elim at [
          | inl q ↦ IsSafe-here p i d entries e orphan q
          | inr a ↦ IsSafe-later p i d entries e (targets-IsSafe p (i + 1) entries e a)
        ]
  ]
]

-- What a pass asks to take off used_bytes is the size of the blobs it deleted, where the update
-- succeeds, and nothing where it fails. It reports the number and the size of all orphans that it reached, the
-- latter as freed; the blobs it deleted are those orphans whose delete succeeds, and none in a dry run.
pub compact-accounts :
    (name : Text) (p : Pass) (entries : List BlobEntry) (updates : Bool)
    → let o = compact name p (some entries) updates in
      (o.given_back ≡ (if updates then total o.gone else 0))
      × (o.result.freed_bytes ≡ total (targets p 0 entries))
      × (o.result.orphans ≡ length (targets p 0 entries))
      × (o.gone ≡ deleted p (targets p 0 entries))
unfolding compact empty_result total
compact-accounts name p entries updates =
    let first = record (empty_result name p.dry_run) { scanned_blobs = length entries } in
    let s : Swept = record { result = first; removed = 0; gone = [] } in
    ground (
      arith,
      sweep-orphans p 0 entries s,
      sweep-freed p 0 entries s,
      sweep-gone p 0 entries s,
      sweep-removed p 0 entries s refl,
    )

Among-else :
    (b : Bool) (e : BlobEntry) (xs : List BlobEntry)
    → Among e (if b then [] else xs)
    → (b ≡ false) × Among e xs
Among-else true e xs m = absurd m
Among-else false e xs m = (refl, m)

-- Every blob that a pass deletes is one of its entries, not in its index, was not too young when the
-- pass looked at its place, and its delete succeeded. The run was not dry.
pub compact-deletes_orphans :
    (name : Text) (p : Pass) (entries : List BlobEntry) (updates : Bool) (e : BlobEntry)
    → Among e (compact name p (some entries) updates).gone
    → (p.dry_run ≡ false) × IsSafe p 0 entries e × (p.deletes e.key ≡ true)
unfolding deleted
compact-deletes_orphans name p entries updates e m =
    let all = targets p 0 entries in
    let (wet, among) =
      Among-else p.dry_run e (keep_if (λ x. p.deletes x.key) all)
        (subst (Among e) (compact-accounts name p entries updates).3 m) in
    let (reached, freed) = Among-of_keep_if (λ x. p.deletes x.key) e all among in
    (wet, targets-IsSafe p 0 entries e reached, freed)

targets-same :
    (p : Pass) (dry : Bool) (deletes : Text → Bool) (i : ℕ) (entries : List BlobEntry)
    → targets (record p { dry_run = dry; deletes = deletes }) i entries ≡ targets p i entries
unfolding targets too_young
targets-same p dry deletes i [] = refl
targets-same p dry deletes i (e ∷ entries) =
    ground (arith, targets-same p dry deletes (i + 1) entries)

-- A dry run at the same moments reports the orphans and the freed bytes that the real run reports,
-- whichever deletes fail in the real run.
pub dry_run_predicts :
    (name : Text) (p : Pass) (entries : List BlobEntry) (updates later : Bool)
    → let dry = compact name (record p { dry_run = true }) (some entries) updates in
      let real = compact name (record p { dry_run = false }) (some entries) later in
      (dry.result.orphans ≡ real.result.orphans)
      × (dry.result.freed_bytes ≡ real.result.freed_bytes)
dry_run_predicts name p entries updates later =
    let q : Pass = record p { dry_run = true } in
    let r : Pass = record p { dry_run = false } in
    let a = compact-accounts name q entries updates in
    let b = compact-accounts name r entries later in
    let same : targets q 0 entries ≡ targets r 0 entries =
      targets-same p true p.deletes 0 entries ∙ sym (targets-same p false p.deletes 0 entries) in
    (a.2 ∙ ap length same ∙ sym b.2, a.1 ∙ ap total same ∙ sym b.1)
