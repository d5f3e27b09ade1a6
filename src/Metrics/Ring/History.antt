-- ===== src/Metrics/Ring/History.antt =====
-- The ring buffer against a bounded history: the last `ring_size` points, oldest first.
use nexspence_demo.Prelude.{
  Bool-cases, List, [], ap, ap₂, arith, drop, get_or, get_or-set_ne, get_or-set_self, inl, inr,
  length, length-append, length-replicate, length-set, ltb, refl, set, suc, sym, zero, ℕ, ◌%◌, ◌++◌,
  ◌+◌, ◌-◌, ◌<◌, ◌∙◌, ◌∷◌, ◌≡◌, ◌≤◌,
}
use nexspence_demo.Metrics.Ring.{
  DataPoint, zero_point, RingBuffer, empty_ring, add, collect, snapshot,
}

pub record IsValid (r : RingBuffer) : Type 0 where
  pub full_array : length r.points ≡ 360
  pub head_inside : r.head < 360
  pub size_inside : r.size ≤ 360

pub IsValid-empty_ring : IsValid empty_ring
unfolding empty_ring
IsValid-empty_ring = record {
  full_array = length-replicate 360 zero_point;
  head_inside = omega arith;
  size_inside = omega arith;
}

pub add-IsValid : (r : RingBuffer) (p : DataPoint) → IsValid r → IsValid (add r p)
unfolding add
add-IsValid r p v = record {
  full_array = length-set r.points r.head p ∙ v.full_array;
  head_inside = omega arith;
  size_inside = ground arith;
}

length-collect : (pts : List DataPoint) (st n i : ℕ) → length (collect pts st n i) ≡ n
unfolding collect
length-collect pts st zero i = refl
length-collect pts st (suc n) i = ap suc (length-collect pts st n (i + 1))

collect_last :
    (pts : List DataPoint) (st n i : ℕ)
    → collect pts st (suc n) i
      ≡ collect pts st n i ++ (get_or pts ((st + (i + n)) % 360) zero_point ∷ [])
unfolding collect
collect_last pts st zero i = ap (λ k. get_or pts ((st + k) % 360) zero_point ∷ []) (omega arith)
collect_last pts st (suc n) i =
    ap (λ t. get_or pts ((st + i) % 360) zero_point ∷ t)
      (collect_last pts st n (i + 1)
        ∙ ap (λ k. collect pts st n (i + 1) ++ (get_or pts ((st + k) % 360) zero_point ∷ []))
            (omega arith))

-- A write at the place after the ones read changes nothing that is read.
collect-set :
    (pts : List DataPoint) (st n i h : ℕ) (p : DataPoint)
    → h ≡ (st + (i + n)) % 360
    → n < 360
    → collect (set pts h p) st n i ≡ collect pts st n i
unfolding collect
collect-set pts st zero i h p e lt = refl
collect-set pts st (suc n) i h p e lt =
    ap₂ ◌∷◌ (get_or-set_ne pts h ((st + i) % 360) p zero_point (omega arith))
      (collect-set pts st n (i + 1) h p (omega arith) (omega arith))

collect_shift :
    (pts : List DataPoint) (st st' n i j : ℕ)
    → st' ≡ (st + 1) % 360
    → j ≡ i + 1
    → collect pts st n j ≡ collect pts st' n i
unfolding collect
collect_shift pts st st' zero i j e k = refl
collect_shift pts st st' (suc n) i j e k =
    ap₂ ◌∷◌ (ap (λ x. get_or pts x zero_point) (omega arith))
      (collect_shift pts st st' n (i + 1) (j + 1) e (omega arith))

-- The last 360 elements.
abbrev pub recent : List DataPoint → List DataPoint
recent xs = drop (length xs - 360) xs

-- `n` reads that end in front of `h`, after a write at `h`, and one more read.
collect_written :
    (pts : List DataPoint) (st n h : ℕ) (p : DataPoint)
    → h ≡ (st + (0 + n)) % 360
    → n < 360
    → h < length pts
    → collect (set pts h p) st (suc n) 0 ≡ collect pts st n 0 ++ p ∷ []
collect_written pts st n h p e lt inside =
    collect_last (set pts h p) st n 0
    ∙ ap₂ (λ a b. a ++ b ∷ []) (collect-set pts st n 0 h p e lt)
        (rw (← e) (get_or-set_self pts h p zero_point inside))

recent_short : (xs : List DataPoint) → length xs ≤ 360 → recent xs ≡ xs
recent_short xs h = let none_left : length xs - 360 ≡ 0 = omega arith in rw none_left

snapshot_at :
    (r : RingBuffer) (st n : ℕ)
    → (r.head + 360 - r.size) % 360 ≡ st
    → r.size ≡ n
    → snapshot r ≡ collect r.points st n 0
unfolding snapshot
snapshot_at r st n e k = ap₂ (λ a b. collect r.points a b 0) e k

-- Room left: nothing is dropped.
snapshot-add_room :
    (r : RingBuffer) (p : DataPoint)
    → IsValid r
    → r.size < 360
    → snapshot (add r p) ≡ recent (snapshot r ++ p ∷ [])
unfolding add
snapshot-add_room r p v room =
    let st = (r.head + 360 - r.size) % 360 in
    let grown : (add r p).size ≡ suc r.size = ground arith in
    let old : snapshot r ≡ collect r.points st r.size 0 = snapshot_at r st r.size refl refl in
    let short : length (snapshot r ++ p ∷ []) ≤ 360 =
      rw (old, length-append (collect r.points st r.size 0) (p ∷ []), length-collect)
        (omega arith) in
    snapshot_at (add r p) st (suc r.size)
      (ap (λ k. ((r.head + 1) % 360 + 360 - k) % 360) grown ∙ omega arith) grown
    ∙ collect_written r.points st r.size r.head p (omega arith) room (omega arith)
    ∙ ap (λ xs. xs ++ p ∷ []) (sym old)
    ∙ sym (recent_short (snapshot r ++ p ∷ []) short)

recent_full :
    (x p : DataPoint) (xs : List DataPoint)
    → length xs ≡ 359
    → recent (x ∷ xs ++ p ∷ []) ≡ xs ++ p ∷ []
recent_full x p xs e =
    let one_over : length (x ∷ xs ++ p ∷ []) - 360 ≡ 1 = omega (arith, length-append xs (p ∷ [])) in
    rw one_over

-- Full: the oldest point goes.
snapshot-add_full :
    (r : RingBuffer) (p : DataPoint) (m : ℕ)
    → IsValid r
    → m ≡ 359
    → r.size ≡ suc m
    → snapshot (add r p) ≡ recent (snapshot r ++ p ∷ [])
unfolding add collect
snapshot-add_full r p m v e full =
    let st = (r.head + 1) % 360 in
    let kept : (add r p).size ≡ suc m = ground arith in
    let old : snapshot r ≡ collect r.points r.head (suc m) 0 =
      snapshot_at r r.head (suc m) (omega arith) full in
    snapshot_at (add r p) st (suc m)
      (ap (λ k. ((r.head + 1) % 360 + 360 - k) % 360) kept ∙ omega arith) kept
    ∙ collect_written r.points st m r.head p (omega arith) (omega arith) (omega arith)
    ∙ ap (λ xs. xs ++ p ∷ []) (sym (collect_shift r.points r.head st m 0 (0 + 1) refl refl))
    ∙ sym (
        recent_full _ p (collect r.points r.head m (0 + 1))
          (length-collect r.points r.head m (0 + 1) ∙ e))
    ∙ ap (λ xs. recent (xs ++ p ∷ [])) (sym old)

-- Adding a point to a valid buffer appends it to the snapshot and drops what is older than the last
-- 360 points.
pub snapshot-add :
    (r : RingBuffer) (p : DataPoint)
    → IsValid r
    → snapshot (add r p) ≡ recent (snapshot r ++ p ∷ [])
snapshot-add r p v = elim (Bool-cases (ltb r.size 360)) [
  | inl room ↦ snapshot-add_room r p v (ground arith)
  | inr full ↦ snapshot-add_full r p 359 v refl (ground arith)
]
