-- ===== src/Downloads/Credited.antt =====
-- Every asset counted on its own.
use nexspence_demo.Downloads.{
  increment_downloads, flush, add_download, run_events, ComponentCount, flushed, downloaded,
  in_component, AssetCount, count_of, credit_components, DownloadCounter, credit_assets, sum_for,
  Event,
}
use nexspence_demo.Prelude.Dict
use nexspence_demo.Prelude.Dict.{Dict, get-put}
use nexspence_demo.Prelude.{
  Bool, List, Text, [], ap, arith, eq_text, eq_text_iff, false, if◌then◌else◌, refl, subst, sym,
  true, ℕ, ◌+◌, ◌∙◌, ◌∷◌, ◌≡◌,
}

-- What one asset is credited with: the downloads that wait, once a flush succeeds.
unfoldable pub credited : Text → ℕ → List Event → ℕ
credited id waiting [] = 0
credited id waiting (downloaded j ∷ events) =
    credited id (if eq_text j id then waiting + 1 else waiting) events
credited id waiting (flushed true ∷ events) = waiting + credited id 0 events
credited id waiting (flushed false ∷ events) = credited id 0 events

-- credited, with what waits in the counter
unfoldable pub credits : DownloadCounter → List Event → Text → ℕ
unfolding credited
credits c events id = credited id (count_of id c.pending) events

credit_assets-ext :
    (n m : Text → ℕ) (assets : List AssetCount)
    → ((id : Text) → n id ≡ m id)
    → credit_assets n assets ≡ credit_assets m assets
unfolding credit_assets
credit_assets-ext n m [] h = refl
credit_assets-ext n m (a ∷ assets) h = rw (h a.id, credit_assets-ext n m assets h) refl

sum_for-ext :
    (n m : Text → ℕ) (id : Text) (assets : List AssetCount)
    → ((j : Text) → n j ≡ m j)
    → sum_for n id assets ≡ sum_for m id assets
unfolding sum_for
sum_for-ext n m id [] h = refl
sum_for-ext n m id (a ∷ assets) h = rw (h a.id, sum_for-ext n m id assets h) refl

credit_components-ext :
    (n m : Text → ℕ) (assets : List AssetCount) (components : List ComponentCount)
    → ((id : Text) → n id ≡ m id)
    → credit_components n assets components ≡ credit_components m assets components
unfolding credit_components
credit_components-ext n m assets [] h = refl
credit_components-ext n m assets (c ∷ components) h =
    rw (sum_for-ext n m c.id assets h, credit_components-ext n m assets components h) refl

-- Two credits in a row are one.
credit_assets-twice :
    (n m : Text → ℕ) (assets : List AssetCount)
    → credit_assets m (credit_assets n assets) ≡ credit_assets (λ id. n id + m id) assets
unfolding credit_assets
credit_assets-twice n m [] = refl
credit_assets-twice n m (a ∷ assets) =
    let sum : a.downloads + n a.id + m a.id ≡ a.downloads + (n a.id + m a.id) = omega arith in
    rw (sum, credit_assets-twice n m assets) refl

sum_for-credit_assets :
    (n m : Text → ℕ) (id : Text) (assets : List AssetCount)
    → sum_for m id (credit_assets n assets) ≡ sum_for m id assets
unfolding sum_for credit_assets in_component
sum_for-credit_assets n m id [] = refl
sum_for-credit_assets n m id (a ∷ assets) = rw (sum_for-credit_assets n m id assets) refl

sum_for-plus :
    (n m : Text → ℕ) (id : Text) (assets : List AssetCount)
    → sum_for (λ j. n j + m j) id assets ≡ sum_for n id assets + sum_for m id assets
unfolding sum_for
sum_for-plus n m id [] = omega arith
sum_for-plus n m id (a ∷ assets) = ground (arith, sum_for-plus n m id assets)

credit_components-twice :
    (n m : Text → ℕ) (assets : List AssetCount) (components : List ComponentCount)
    → credit_components m (credit_assets n assets) (credit_components n assets components)
      ≡ credit_components (λ id. n id + m id) assets components
unfolding credit_components
credit_components-twice n m assets [] = refl
credit_components-twice n m assets (c ∷ components) =
    let sum : c.downloads + sum_for n c.id assets + sum_for m c.id (credit_assets n assets)
        ≡ c.downloads + sum_for (λ id. n id + m id) c.id assets =
      omega (arith, sum_for-credit_assets n m c.id assets, sum_for-plus n m c.id assets) in
    rw (sum, credit_components-twice n m assets components) refl

credit_assets-zero : (assets : List AssetCount) → credit_assets (λ id. 0) assets ≡ assets
unfolding credit_assets
credit_assets-zero [] = refl
credit_assets-zero (a ∷ assets) =
    let sum : a.downloads + 0 ≡ a.downloads = omega arith in
    rw (sum, credit_assets-zero assets) refl

sum_for-zero : (id : Text) (assets : List AssetCount) → sum_for (λ j. 0) id assets ≡ 0
unfolding sum_for
sum_for-zero id [] = refl
sum_for-zero id (a ∷ assets) = ground (arith, sum_for-zero id assets)

credit_components-zero :
    (assets : List AssetCount) (components : List ComponentCount)
    → credit_components (λ id. 0) assets components ≡ components
unfolding credit_components
credit_components-zero assets [] = refl
credit_components-zero assets (c ∷ components) =
    let sum : c.downloads + sum_for (λ j. 0) c.id assets ≡ c.downloads =
      omega (arith, sum_for-zero c.id assets) in
    rw (sum, credit_components-zero assets components) refl

-- The tables after a run, each row credited on its own.
abbrev IsCredited : DownloadCounter → DownloadCounter → (Text → ℕ) → Type 0
IsCredited c d n =
    (d.assets ≡ credit_assets n c.assets)
    × (d.components ≡ credit_components n c.assets c.components)

IsCredited-ext :
    (c d : DownloadCounter) (n m : Text → ℕ)
    → ((id : Text) → n id ≡ m id)
    → IsCredited c d n
    → IsCredited c d m
IsCredited-ext c d n m h k = (
  k.0 ∙ credit_assets-ext n m c.assets h,
  k.1 ∙ credit_components-ext n m c.assets c.components h,
)

-- After a credit of `n`, a run that credits `m`.
IsCredited-after :
    (c d : DownloadCounter) (n m : Text → ℕ)
    → IsCredited
        (record c {
          pending = [];
          assets = credit_assets n c.assets;
          components = credit_components n c.assets c.components;
        })
        d
        m
    → IsCredited c d (λ id. n id + m id)
IsCredited-after c d n m h = (
  h.0 ∙ credit_assets-twice n m c.assets,
  h.1 ∙ credit_components-twice n m c.assets c.components,
)

count_of-put :
    (k j : Text) (v : ℕ) (m : Dict ℕ)
    → count_of j (Dict.put k v m) ≡ (if eq_text k j then v else count_of j m)
unfolding count_of
count_of-put k j v m = ground (arith, get-put k j v m)

credits-add_download :
    (c : DownloadCounter) (id : Text) (events : List Event) (j : Text)
    → credits (add_download c id) events j ≡ credits c (downloaded id ∷ events) j
unfolding credits add_download credited
credits-add_download c id events j =
    ap (λ n. credited j n events)
      (ground (arith, count_of-put id j (count_of id c.pending + 1) c.pending, eq_text_iff id j))

count_of-nil : (id : Text) → count_of id [] ≡ 0
unfolding count_of nexspence_demo.Prelude.Dict.get
count_of-nil id = refl

flush-pending : (c : DownloadCounter) (done : Bool) → (flush done c).pending ≡ []
unfolding flush increment_downloads
flush-pending c done = emptied c.pending done
  where
    emptied :
        (p : Dict ℕ) (d : Bool) → (increment_downloads d (record c { pending = [] }) p).pending ≡ []
    emptied [] d = refl
    emptied (e ∷ p) true = refl
    emptied (e ∷ p) false = refl

flush-credited :
    (c r : DownloadCounter) (p : Dict ℕ) (done : Bool) (events : List Event)
    → IsCredited
        (increment_downloads done (record c { pending = [] }) p)
        r
        (λ id. credited id 0 events)
    → IsCredited c r (λ id. credited id (count_of id p) (flushed done ∷ events))
unfolding increment_downloads credited
flush-credited c r [] true events h =
    IsCredited-ext c r (λ id. credited id 0 events)
      (λ id. credited id (count_of id []) (flushed true ∷ events))
      (λ id. omega (arith, count_of-nil id)) h
flush-credited c r [] false events h = h
flush-credited c r (e ∷ p) false events h = h
flush-credited c r (e ∷ p) true events h =
    IsCredited-after c r (λ id. count_of id (e ∷ p)) (λ id. credited id 0 events) h

-- However downloads and flushes follow each other, every asset's count grows by exactly the downloads
-- of that asset that a successful flush came to, a failed flush losing those that waited, and every
-- component's count by the sum over its assets.
pub run_events-credited :
    (c : DownloadCounter) (events : List Event)
    → ((run_events c events).assets ≡ credit_assets (credits c events) c.assets)
      × ((run_events c events).components
          ≡ credit_components (credits c events) c.assets c.components)
unfolding run_events credits credited flush increment_downloads Dict.get
run_events-credited c [] =
    (sym (credit_assets-zero c.assets), sym (credit_components-zero c.assets c.components))
run_events-credited c (downloaded id ∷ events) =
    IsCredited-ext c (run_events (add_download c id) events) (credits (add_download c id) events)
      (credits c (downloaded id ∷ events)) (credits-add_download c id events)
      (run_events-credited (add_download c id) events)
run_events-credited c (flushed done ∷ events) =
    flush-credited c (run_events (flush done c) events) c.pending done events (
      subst
        (λ p.
          IsCredited (flush done c) (run_events (flush done c) events)
            (λ id. credited id (count_of id p) events))
        (flush-pending c done) (run_events-credited (flush done c) events))
