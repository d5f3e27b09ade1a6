-- ===== src/Storage/Registry/Cache.antt =====
-- Registry.Get caches one instance for each id until Invalidate.
use nexspence_demo.Prelude.{Option, Text, arith, eq_text_iff, eq_text_refl, some, ℕ, ◌∷◌, ◌≡◌, ◌≢◌}
use nexspence_demo.Prelude.Dict
use nexspence_demo.Prelude.Dict.{get-put, get-remove}
use nexspence_demo.Storage.Registry.{Registry, get_store, invalidate}

-- Once an id has yielded an instance, Get returns that instance whatever a new construction would
-- give, until the id is invalidated; then the next Get returns what is constructed. Get of another id
-- is not affected by any of this.
pub get_store_caches :
    {Store : Type 0} (r : Registry Store) (c d : ℕ) (id other : Text) (bs : Store)
    (made made' : Option Store)
    → (get_store r (c ∷ id) made).0 ≡ some bs
    → c ∷ id ≢ d ∷ other
    → ((get_store (get_store r (c ∷ id) made).1 (c ∷ id) made').0 ≡ some bs)
      × ((get_store (invalidate (get_store r (c ∷ id) made).1 (c ∷ id)) (c ∷ id) made').0 ≡ made')
      × ((get_store (get_store r (c ∷ id) made).1 (d ∷ other) made').0
          ≡ (get_store r (d ∷ other) made').0)
unfolding get_store invalidate
get_store_caches r c d id other bs made made' h ne =
    let self = eq_text_refl (c ∷ id) in
    let apart = eq_text_iff (c ∷ id) (d ∷ other) in
    let m = r.instances in
    (
      ground (arith, self, h, get-put (c ∷ id) (c ∷ id) bs m),
      ground (
        arith,
        self,
        h,
        get-remove (c ∷ id) (c ∷ id) m,
        get-remove (c ∷ id) (c ∷ id) (Dict.put (c ∷ id) bs m),
      ),
      ground (arith, h, apart, get-put (c ∷ id) (d ∷ other) bs m),
    )
