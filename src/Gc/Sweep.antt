-- ===== src/Gc/Sweep.antt =====
-- archivestore.go, runGC: the blobs that every release named by a ref needs outlive the sweep.
use godinstall.Prelude.{
  ℕ, ◌≡◌, refl, sym, subst, ◌∙◌, ap, Bool, true, false, List, [], ◌∷◌, some, All, All-map,
  if◌then◌else◌, bytes_Eq,
}
use mathlib.Core.List.{Memᴰ}
use mathlib.Core.List.Memᴰ
use godinstall.SafeMap.{get, check}
use godinstall.Release.Index.{StoreId, Entry}
use godinstall.Release.Record.{Release}
use godinstall.Gc.{
  Used, Walk, marked, fault, out_of_fuel, Reads, no_trim, walk_release, walk_refs, after_ref, sweep,
  sweep_after, run_gc,
}
use godinstall.Gc.Marks.{Marked, Grows, entries_ids, own_ids}
use godinstall.Gc.Closed.{Apart, Closed}
use godinstall.Gc.Keeps.{marked_inj, Whole, grow-Whole, walk_release-Extends, walk_release-Whole}

sweep-Mem :
    (used : Used) (x : StoreId) (blobs : List StoreId)
    → Marked used x
    → Memᴰ x blobs
    → Memᴰ x (sweep used blobs)
sweep-Mem used x [] m h = h
sweep-Mem used x (id ∷ ids) m (Memᴰ.head e) = rw (sym (ap (check used) e) ∙ m) (Memᴰ.head e)
sweep-Mem used x (id ∷ ids) m (Memᴰ.tail h) = kept (check used id) (sweep-Mem used x ids m h)
  where
    kept :
        (b : Bool)
        → Memᴰ x (sweep used ids)
        → Memᴰ x (if b then id ∷ sweep used ids else sweep used ids)
    kept true h = Memᴰ.tail h
    kept false h = h

module _ (store : Reads) where
  -- What a run over some refs does to the marks.
  record Run (used used' : Used) (refs : List StoreId) : Type 0 where
    grows : Grows used used'
    wholes :
        (id : StoreId) (r : Release)
        → Memᴰ id refs
        → store.get_release id ≡ some r
        → Whole store used' id r

  cons-Run :
      (fuel : ℕ) (used u used' : Used) (id : StoreId) (ids : List StoreId)
      → Apart store
      → Closed store used
      → walk_release store fuel used id no_trim ≡ marked u
      → Run u used' ids
      → Run used used' (id ∷ ids)
  cons-Run fuel used u used' id ids apart c h run = record {
    grows = λ x n.
        run.grows x ((walk_release-Extends store fuel used id no_trim u apart c h).grows x n);
    wholes = wholes;
  }
    where
      wholes :
          (x : StoreId) (r : Release)
          → Memᴰ x (id ∷ ids)
          → store.get_release x ≡ some r
          → Whole store used' x r
      wholes x r (Memᴰ.head e) g = grow-Whole store u used' x r run.grows (
          walk_release-Whole store fuel used x u r apart c
            (ap (λ y. walk_release store fuel used y no_trim) e ∙ h) g)
      wholes x r (Memᴰ.tail m) g = run.wholes x r m g

  after_ref-Run :
      (fuel : ℕ) (used : Used) (id : StoreId) (ids : List StoreId) (used' : Used) (w : Walk)
      → Apart store
      → Closed store used
      → ((u : Used) → Closed store u → walk_refs store fuel u ids ≡ marked used' → Run u used' ids)
      → walk_release store fuel used id no_trim ≡ w
      → after_ref store (λ u. walk_refs store fuel u ids) w ≡ marked used'
      → Run used used' (id ∷ ids)
  after_ref-Run fuel used id ids used' (marked u) apart c later e h =
      cons-Run fuel used u used' id ids apart c e
        (later u (walk_release-Extends store fuel used id no_trim u apart c e).closed h)
  after_ref-Run fuel used id ids used' fault apart c later e h = cc
  after_ref-Run fuel used id ids used' out_of_fuel apart c later e h = cc

  walk_refs-Run :
      (fuel : ℕ) (used : Used) (refs : List StoreId) (used' : Used)
      → Apart store
      → Closed store used
      → walk_refs store fuel used refs ≡ marked used'
      → Run used used' refs
  unfolding walk_refs
  walk_refs-Run fuel used [] used' apart c h = record {
    grows = subst (λ u. Grows used u) (marked_inj used used' h) (λ x n. n);
    wholes = λ id r m. absurd (Memᴰ.not-nil m);
  }
  walk_refs-Run fuel used (id ∷ ids) used' apart c h =
      after_ref-Run fuel used id ids used' (walk_release store fuel used id no_trim) apart c
        (λ u. walk_refs-Run fuel u ids used' apart) refl h

  empty-Closed : Closed store []
  unfolding check get
  empty-Closed k es i g m = cc

  -- A blob that was there is there afterwards.
  abbrev pub Outlives : List StoreId → List StoreId → StoreId → Type 0
  Outlives before after x = Memᴰ x before → Memᴰ x after

  abbrev pub Kept : List StoreId → List StoreId → StoreId → Release → Type 0
  Kept before after id r =
      Outlives before after id
      × Outlives before after r.index_id
      × All (Outlives before after) (own_ids store r)
      × ((es : List Entry)
          → store.get_index r.index_id ≡ some es
          → All (Outlives before after) (entries_ids es))

  for_each : (xs : List StoreId) {P : StoreId → Type 0} → ((x : StoreId) → P x) → All P xs
  for_each [] f = tt
  for_each (x ∷ xs) f = (f x, for_each xs f)

  untouched : (blobs : List StoreId) (id : StoreId) (r : Release) → Kept blobs blobs id r
  untouched blobs id r = (
    (λ m. m),
    (λ m. m),
    for_each (own_ids store r) (λ x m. m),
    λ es g. for_each (entries_ids es) (λ x m. m),
  )

  sweep_after-Kept :
      (refs blobs : List StoreId) (id : StoreId) (r : Release) (w : Walk)
      → ((used : Used) → w ≡ marked used → Whole store used id r)
      → Kept blobs (sweep_after w blobs) id r
  sweep_after-Kept refs blobs id r (marked used) whole = (
    sweep-Mem used id blobs w.itself,
    sweep-Mem used r.index_id blobs w.index,
    All-map (own_ids store r) (λ x. sweep-Mem used x blobs) w.own,
    λ es g. All-map (entries_ids es) (λ x. sweep-Mem used x blobs) (w.contents es g),
  )
    where
      w : Whole store used id r
      w = whole used refl
  sweep_after-Kept refs blobs id r fault whole = untouched blobs id r
  sweep_after-Kept refs blobs id r out_of_fuel whole = untouched blobs id r

  -- The garbage collector removes nothing that a release named by a ref needs: the release, the files it
  -- publishes, its configuration and keys, its index, and all that the index refers to. The index of
  -- a release is assumed to be no other kind of blob as well.
  pub gc_keeps :
      (fuel : ℕ) (refs blobs : List StoreId) (id : StoreId) (r : Release)
      → Apart store
      → Memᴰ id refs
      → store.get_release id ≡ some r
      → Kept blobs (run_gc store fuel refs blobs).1 id r
  unfolding run_gc
  gc_keeps fuel refs blobs id r apart m g =
      sweep_after-Kept refs blobs id r (walk_refs store fuel [] refs)
        (λ used e. (walk_refs-Run fuel [] refs used apart empty-Closed e).wholes id r m g)
