-- ===== src/Gc/Keeps.antt =====
-- archivestore.go, runGC: what the garbage collector never removes.
use godinstall.Prelude.{
  ℕ, zero, suc, ◌≡◌, refl, sym, subst, ◌∙◌, ap, ◌⊎◌, inl, inr, Bool, true, false, List, [], ◌∷◌,
  some, All, All-map, Option-cases, Bool-cases, bytes_Eq, some_inj,
}
use godinstall.Release.Index.{StoreId, Entry}
use godinstall.Release.Record.{Release}
use godinstall.Gc.{
  Used, mark, Walk, marked, fault, Reads, Trim, no_trim, count_down, start_trim, assets_unless,
  is_end, to_parent, after_assets, round, walk_release,
}
use godinstall.Gc.Marks.{Marked, Grows, mark_lem, mark-Grows, entries_ids, own_ids}
use godinstall.Gc.Closed.{Apart, Closed, Covers, walk_assets-Covers, mark_ids-Closed}

pub marked_inj : (u v : Used) → marked u ≡ marked v → u ≡ v
marked_inj u v e = cc

module _ (store : Reads) where
  -- A round of a walk that does not fault.
  pub record Round (fuel : ℕ) (used : Used) (curr : StoreId) (t : Trim) (w : Walk) : Type 0 where
    pub r : Release
    pub used' : Used
    pub gets : store.get_release curr ≡ some r
    pub assets : assets_unless store (count_down t).drop_assets (mark used curr) r ≡ some used'
    pub goes :
        (w ≡ marked used')
        ⊎ ((is_end store used' r.parent_id ≡ false)
            × (w
                ≡ walk_release store fuel used' r.parent_id
                    (start_trim (count_down t) r.trim_after)))

  pub round_lem :
      (fuel : ℕ) (used : Used) (curr : StoreId) (t : Trim)
      → (walk_release store (suc fuel) used curr t ≡ fault)
        ⊎ Round fuel used curr t (walk_release store (suc fuel) used curr t)
  unfolding walk_release
  round_lem fuel used curr t = elim (Option-cases (store.get_release curr)) [
    | inl e ↦ inl (ap (round store rest (count_down t) (mark used curr)) e)
    | inr (r, e) ↦
        elim (Option-cases (assets_unless store (count_down t).drop_assets (mark used curr) r)) [
          | inl f ↦ inl (opened r e ∙ ap (after_assets store rest (count_down t) r) f)
          | inr (u, f) ↦ elim (Bool-cases (is_end store u r.parent_id)) [
            | inl g ↦ inr (record {
              r = r;
              used' = u;
              gets = e;
              assets = f;
              goes = inl (
                  opened r e
                  ∙ ap (after_assets store rest (count_down t) r) f
                  ∙ ap (to_parent store rest (count_down t) r u) g);
            })
            | inr g ↦ inr (record {
              r = r;
              used' = u;
              gets = e;
              assets = f;
              goes = inr (
                g,
                opened r e
                    ∙ ap (after_assets store rest (count_down t) r) f
                    ∙ ap (to_parent store rest (count_down t) r u) g,
              );
            })
          ]
        ]
  ]
    where
      rest : Used → StoreId → Trim → Walk
      rest u id t' = walk_release store fuel u id t'

      opened :
          (r : Release)
          → store.get_release curr ≡ some r
          → walk_release store (suc fuel) used curr t
            ≡ after_assets store rest
                (count_down t)
                r
                (assets_unless store (count_down t).drop_assets (mark used curr) r)
      opened r e = ap (round store rest (count_down t) (mark used curr)) e

  -- A walk keeps the marks it finds, and the marks stay closed.
  pub record Extends (used used' : Used) : Type 0 where
    pub grows : Grows used used'
    pub closed : Closed store used'

  round-Extends :
      (used : Used) (curr : StoreId) (r : Release) (used' : Used) (b : Bool)
      → Apart store
      → store.get_release curr ≡ some r
      → Closed store used
      → assets_unless store b (mark used curr) r ≡ some used'
      → Extends used used' × (b ≡ false → Covers store (mark used curr) used' r)
  round-Extends used curr r used' true apart g c h = (
    subst (λ u. Extends used u) (some_inj (mark used curr) used' h)
        (record {
          grows = mark-Grows used curr;
          closed = mark_ids-Closed store used (curr ∷ []) ((apart.releases curr r g).0, tt) c;
        }),
    λ f. cc f,
  )
  round-Extends used curr r used' false apart g c h = (
    record { grows = λ x n. covers.grows x (mark-Grows used curr x n); closed = covers.closed },
    λ f. covers,
  )
    where
      covers : Covers store (mark used curr) used' r
      covers =
          walk_assets-Covers store (mark used curr) curr r used' apart g
            (mark_ids-Closed store used (curr ∷ []) ((apart.releases curr r g).0, tt) c) h

  trans-Extends : (u v w : Used) → Extends u v → Extends v w → Extends u w
  trans-Extends u v w e f = record { grows = λ x n. f.grows x (e.grows x n); closed = f.closed }

  -- What follows the first round of a walk, by what is known of walks with less fuel.
  rest-Extends :
      (fuel : ℕ) (used : Used) (curr : StoreId) (t : Trim) (used' : Used) (w : Walk)
      → (d : Round fuel used curr t w) → Closed store d.used'
      → ((id : StoreId) (t' : Trim)
          → walk_release store fuel d.used' id t' ≡ marked used'
          → Extends d.used' used')
      → w ≡ marked used'
      → Extends d.used' used'
  rest-Extends fuel used curr t used' w d c walks h = elim d.goes [
    | inl e ↦
        subst (λ u. Extends d.used' u) (marked_inj d.used' used' (sym e ∙ h))
          (record { grows = λ x n. n; closed = c })
    | inr (g, e) ↦ walks d.r.parent_id (start_trim (count_down t) d.r.trim_after) (sym e ∙ h)
  ]

  pub walk_release-Extends :
      (fuel : ℕ) (used : Used) (curr : StoreId) (t : Trim) (used' : Used)
      → Apart store
      → Closed store used
      → walk_release store fuel used curr t ≡ marked used'
      → Extends used used'
  unfolding walk_release
  walk_release-Extends zero used curr t used' apart c h = cc
  walk_release-Extends (suc fuel) used curr t used' apart c h = elim (round_lem fuel used curr t) [
    | inl e ↦ cc (e, h)
    | inr d ↦ trans-Extends used d.used' used' (first d) (
        rest-Extends fuel used curr t used' (walk_release store (suc fuel) used curr t) d
          (first d).closed
          (λ id t' e. walk_release-Extends fuel d.used' id t' used' apart (first d).closed e) h)
  ]
    where
      first :
          (d : Round fuel used curr t (walk_release store (suc fuel) used curr t))
          → Extends used d.used'
      first d =
          (round-Extends used curr d.r d.used' (count_down t).drop_assets apart d.gets c d.assets).0

  -- All that a release refers to has its mark, what its index refers to included.
  pub record Whole (used : Used) (id : StoreId) (r : Release) : Type 0 where
    pub itself : Marked used id
    pub index : Marked used r.index_id
    pub own : All (Marked used) (own_ids store r)
    pub contents :
        (es : List Entry)
        → store.get_index r.index_id ≡ some es
        → All (Marked used) (entries_ids es)

  pub grow-Whole :
      (u v : Used) (id : StoreId) (r : Release) → Grows u v → Whole u id r → Whole v id r
  grow-Whole u v id r g w = record {
    itself = g id w.itself;
    index = g r.index_id w.index;
    own = All-map (own_ids store r) g w.own;
    contents = λ es h. All-map (entries_ids es) g (w.contents es h);
  }

  first_round_marks :
      (u v : Used) (id : StoreId) (r : Release)
      → store.get_release id ≡ some r
      → Covers store (mark u id) v r
      → Whole v id r
  first_round_marks u v id r h c = record {
    itself = c.grows id (mark_lem u id);
    index = c.index;
    own = c.own;
    contents = λ es e. c.closed r.index_id es (id, (r, (h, refl))) e c.index;
  }

  pub walk_release-Whole :
      (fuel : ℕ) (used : Used) (id : StoreId) (used' : Used) (r : Release)
      → Apart store
      → Closed store used
      → walk_release store fuel used id no_trim ≡ marked used'
      → store.get_release id ≡ some r
      → Whole used' id r
  unfolding walk_release
  walk_release-Whole zero used id used' r apart c h g = cc
  walk_release-Whole (suc fuel) used id used' r apart c h g =
      elim (round_lem fuel used id no_trim) [
        | inl e ↦ cc (e, h)
        | inr d ↦
            grow-Whole d.used' used' id r
              (rest-Extends fuel used id no_trim used'
                (walk_release store (suc fuel) used id no_trim) d (first d).closed
                (λ id' t' e.
                  walk_release-Extends fuel d.used' id' t' used' apart (first d).closed e)
                h).grows
              (first_round_marks used d.used' id r g (first d))
      ]
    where
      first :
          (d : Round fuel used id no_trim (walk_release store (suc fuel) used id no_trim))
          → Covers store (mark used id) d.used' r
      first d =
          subst (λ q. Covers store (mark used id) d.used' q) (some_inj d.r r (sym d.gets ∙ g))
            ((round-Extends used id d.r d.used' false apart d.gets c d.assets).1 refl)
