-- ===== src/Gc/Closed.antt =====
-- archivestore.go: an index that has a mark has marks for all that its entries refer to.
use godinstall.Prelude.{
  ◌≡◌, refl, sym, subst, ◌≢◌, ◌∙◌, ap, Bool, true, false, List, Option, none, some, bytes_beq,
  bytes_beq_iff, bytes_Eq, Bool-cases, some_inj, inl, inr, All, All-map, if◌then◌else◌,
}
use godinstall.SafeMap.{check}
use godinstall.Release.Index.{StoreId, Entry}
use godinstall.Release.Record.{Release}
use godinstall.Gc.{Used, mark, mark_ids, walk_entries, Reads, entries_or_fault, walk_assets}
use godinstall.Gc.Marks.{
  Marked, Grows, mark_lem, mark_other, mark-Grows, mark_ids-Grows, mark_ids-All, mark_ids_other,
  entries_ids, own_ids, walk_entries-ids, walk_assets-ids,
}

module _ (store : Reads) where
  -- The index of a release that the store holds.
  abbrev pub IsIndex : StoreId → Type 0
  IsIndex k =
      (id : StoreId) × ((r : Release) × ((store.get_release id ≡ some r) × (r.index_id ≡ k)))

  abbrev pub NoIndex : StoreId → Type 0
  NoIndex id = (k : StoreId) → IsIndex k → id ≢ k

  -- No blob is both the index of a release and something else that a release or an index refers to.
  pub record Apart : Type 0 where
    pub releases :
        (id : StoreId) (r : Release)
        → store.get_release id ≡ some r
        → NoIndex id × All NoIndex (own_ids store r)
    pub entries :
        (k : StoreId) (es : List Entry)
        → IsIndex k
        → store.get_index k ≡ some es
        → All NoIndex (entries_ids es)

  abbrev pub Closed : Used → Type 0
  Closed used =
      (k : StoreId) (es : List Entry)
      → IsIndex k
      → store.get_index k ≡ some es
      → Marked used k
      → All (Marked used) (entries_ids es)

  pub mark_ids-Closed :
      (used : Used) (ids : List StoreId)
      → All NoIndex ids
      → Closed used
      → Closed (mark_ids used ids)
  mark_ids-Closed used ids apart c k es i g m =
      All-map (entries_ids es) (mark_ids-Grows used ids)
        (c k es i g (sym (mark_ids_other used ids k (All-map ids (λ id n. n k i) apart)) ∙ m))

  index_marks-Closed :
      (used : Used) (id : StoreId) (es : List Entry)
      → Apart
      → IsIndex id
      → store.get_index id ≡ some es
      → Closed used
      → Closed (mark_ids (mark used id) (entries_ids es))
  index_marks-Closed used id es apart i g c k fs j h m = elim (Bool-cases (bytes_beq id k)) [
    | inl e ↦
        subst (λ l. All (Marked (mark_ids (mark used id) (entries_ids es))) (entries_ids l))
          (some_inj es fs (sym g ∙ ap store.get_index ((bytes_beq_iff id k).0 e) ∙ h))
          (mark_ids-All (mark used id) (entries_ids es))
    | inr e ↦
        All-map (entries_ids fs)
          (λ x n. mark_ids-Grows (mark used id) (entries_ids es) x (mark-Grows used id x n))
          (c k fs j h
            (sym (mark_other used id k (λ d. cc (e, (bytes_beq_iff id k).1 d))) ∙ (unmarked ∙ m)))
  ]
    where
      unmarked : check (mark used id) k ≡ check (mark_ids (mark used id) (entries_ids es)) k
      unmarked = sym (
          mark_ids_other (mark used id) (entries_ids es) k
            (All-map (entries_ids es) (λ x n. n k j) (apart.entries id es i g)))

  -- What a walk over the assets of a release ends with.
  pub record Covers (used used' : Used) (r : Release) : Type 0 where
    pub grows : Grows used used'
    pub closed : Closed used'
    pub own : All (Marked used') (own_ids store r)
    pub index : Marked used' r.index_id

  open_index-Covers :
      (used : Used) (r : Release) (used' : Used) (o : Option (List Entry))
      → Apart
      → IsIndex r.index_id
      → Closed used
      → All (Marked used) (own_ids store r)
      → store.get_index r.index_id ≡ o
      → entries_or_fault (mark used r.index_id) o ≡ some used'
      → Covers used used' r
  open_index-Covers used r used' none apart i c own e h = cc
  open_index-Covers used r used' (some es) apart i c own e h =
      subst (λ u. Covers used u r)
        (sym (walk_entries-ids (mark used r.index_id) es)
          ∙ some_inj (walk_entries (mark used r.index_id) es) used' h)
        (record {
          grows = grown;
          closed = index_marks-Closed used r.index_id es apart i e c;
          own = All-map (own_ids store r) grown own;
          index =
              mark_ids-Grows (mark used r.index_id) (entries_ids es) r.index_id
                (mark_lem used r.index_id);
        })
    where
      grown : Grows used (mark_ids (mark used r.index_id) (entries_ids es))
      grown x n =
          mark_ids-Grows (mark used r.index_id) (entries_ids es) x (mark-Grows used r.index_id x n)

  index_or_skip-Covers :
      (used : Used) (r : Release) (used' : Used) (b : Bool)
      → Apart
      → IsIndex r.index_id
      → Closed used
      → All (Marked used) (own_ids store r)
      → check used r.index_id ≡ b
      → (if b
          then some used
          else entries_or_fault (mark used r.index_id) (store.get_index r.index_id))
        ≡ some used'
      → Covers used used' r
  index_or_skip-Covers used r used' true apart i c own e h =
      subst (λ u. Covers used u r) (some_inj used used' h)
        (record { grows = λ x n. n; closed = c; own = own; index = e })
  index_or_skip-Covers used r used' false apart i c own e h =
      open_index-Covers used r used' (store.get_index r.index_id) apart i c own refl h

  pub walk_assets-Covers :
      (used : Used) (id : StoreId) (r : Release) (used' : Used)
      → Apart
      → store.get_release id ≡ some r
      → Closed used
      → walk_assets store used r ≡ some used'
      → Covers used used' r
  walk_assets-Covers used id r used' apart g c h = record {
    grows = λ x n. covers.grows x (mark_ids-Grows used (own_ids store r) x n);
    closed = covers.closed;
    own = covers.own;
    index = covers.index;
  }
    where
      covers : Covers (mark_ids used (own_ids store r)) used' r
      covers =
          index_or_skip-Covers (mark_ids used (own_ids store r)) r used'
            (check (mark_ids used (own_ids store r)) r.index_id) apart (id, (r, (g, refl)))
            (mark_ids-Closed used (own_ids store r) (apart.releases id r g).1 c)
            (mark_ids-All used (own_ids store r)) refl (sym (walk_assets-ids store used r) ∙ h)
