-- ===== src/Gc/Ends.antt =====
-- archivestore.go, gcWalkRelease: the loop ends, for every round but the first marks a new blob.
use godinstall.Prelude.{
  ℕ, zero, suc, ◌≤◌, ◌<◌, ◌≡◌, ◌≢◌, refl, sym, subst, ◌∙◌, ap, inl, inr, Bool, true, false, List,
  [], ◌∷◌, Option, none, some, length, arith, if◌then◌else◌, bytes_Eq, some_inj,
}
use mathlib.Core.List.{Memᴰ}
use mathlib.Core.List.Memᴰ
use godinstall.SafeMap.{check}
use godinstall.Release.Index.{StoreId, Entry}
use godinstall.Release.Record.{Release}
use godinstall.Gc.{
  Used, mark, mark_ids, walk_entries, Walk, marked, fault, out_of_fuel, Reads, Trim, no_trim,
  count_down, start_trim, entries_or_fault, assets_unless, is_end, walk_release, after_ref,
  walk_refs, run_gc,
}
use godinstall.Gc.Marks.{
  Marked, Grows, mark_lem, mark-Grows, mark_ids-Grows, own_ids, entries_ids, walk_entries-ids,
  walk_assets-ids,
}
use godinstall.Gc.Keeps.{Round, round_lem}

abbrev pub unmarked : Used → List StoreId → ℕ
unmarked used [] = 0
unmarked used (id ∷ ids) = if check used id then unmarked used ids else suc (unmarked used ids)

fewer :
    (b c : Bool) (m n : ℕ)
    → (b ≡ true → c ≡ true)
    → m ≤ n
    → (if c then m else suc m) ≤ (if b then n else suc n)
fewer true true m n g l = l
fewer true false m n g l = cc (g refl)
fewer false true m n g l = omega arith
fewer false false m n g l = omega arith

fewer_strictly :
    (b c : Bool) (m n : ℕ)
    → (b ≡ true → c ≡ true)
    → m < n
    → (if c then m else suc m) < (if b then n else suc n)
fewer_strictly true true m n g l = l
fewer_strictly true false m n g l = cc (g refl)
fewer_strictly false true m n g l = omega arith
fewer_strictly false false m n g l = omega arith

unmarked_le : (u v : Used) (ids : List StoreId) → Grows u v → unmarked v ids ≤ unmarked u ids
unmarked_le u v [] g = omega arith
unmarked_le u v (id ∷ ids) g =
    fewer (check u id) (check v id) (unmarked v ids) (unmarked u ids) (g id) (unmarked_le u v ids g)

unmarked_lt :
    (u v : Used) (x : StoreId) (ids : List StoreId)
    → Grows u v
    → check u x ≡ false
    → Marked v x
    → Memᴰ x ids
    → unmarked v ids < unmarked u ids
unmarked_lt u v x [] g f m h = absurd (Memᴰ.not-nil h)
unmarked_lt u v x (id ∷ ids) g f m (Memᴰ.head e) =
    rw (sym (ap (check u) e) ∙ f)
      (rw (sym (ap (check v) e) ∙ m) (omega (arith, unmarked_le u v ids g)))
unmarked_lt u v x (id ∷ ids) g f m (Memᴰ.tail h) =
    fewer_strictly (check u id) (check v id) (unmarked v ids) (unmarked u ids) (g id)
      (unmarked_lt u v x ids g f m h)

unmarked_bound : (u : Used) (ids : List StoreId) → unmarked u ids ≤ length ids
unmarked_bound u [] = omega arith
unmarked_bound u (id ∷ ids) = ground (arith, unmarked_bound u ids)

module _ (store : Reads) where
  entries-Grows :
      (used : Used) (id : StoreId) (o : Option (List Entry)) (used' : Used)
      → entries_or_fault (mark used id) o ≡ some used'
      → Grows used used'
  entries-Grows used id none used' h = cc
  entries-Grows used id (some es) used' h =
      subst (λ u. Grows used u)
        (sym (walk_entries-ids (mark used id) es)
          ∙ some_inj (walk_entries (mark used id) es) used' h)
        (λ x n. mark_ids-Grows (mark used id) (entries_ids es) x (mark-Grows used id x n))

  index-Grows :
      (used : Used) (id : StoreId) (b : Bool) (used' : Used)
      → (if b then some used else entries_or_fault (mark used id) (store.get_index id)) ≡ some used'
      → Grows used used'
  index-Grows used id true used' h = subst (λ u. Grows used u) (some_inj used used' h) (λ x n. n)
  index-Grows used id false used' h = entries-Grows used id (store.get_index id) used' h

  assets-Grows :
      (b : Bool) (used : Used) (r : Release) (used' : Used)
      → assets_unless store b used r ≡ some used'
      → Grows used used'
  assets-Grows true used r used' h x n = subst (λ u. Marked u x) (some_inj used used' h) n
  assets-Grows false used r used' h x n =
      index-Grows own r.index_id (check own r.index_id) used'
        (sym (walk_assets-ids store used r) ∙ h) x (mark_ids-Grows used (own_ids store r) x n)
    where
      own : Used
      own = mark_ids used (own_ids store r)

  is_end-false : (used : Used) (id : StoreId) → is_end store used id ≡ false → check used id ≡ false
  is_end-false used id h = grind (arith, h)

  module _ (blobs : List StoreId)
      (listed : (id : StoreId) (r : Release) → store.get_release id ≡ some r → Memᴰ id blobs) where
    round-Grows :
        (fuel : ℕ) (used : Used) (curr : StoreId) (t : Trim) (w : Walk)
        (d : Round store fuel used curr t w)
        → Grows (mark used curr) d.used'
    round-Grows fuel used curr t w d =
        assets-Grows (count_down t).drop_assets (mark used curr) d.r d.used' d.assets

    -- From a release without a mark, as many rounds as there are blobs without one are enough.
    unmarked_walk :
        (fuel : ℕ) (used : Used) (curr : StoreId) (t : Trim)
        → check used curr ≡ false
        → unmarked used blobs < fuel
        → walk_release store fuel used curr t ≢ out_of_fuel
    unmarked_walk zero used curr t f l h = omega (arith, l)
    unmarked_walk (suc fuel) used curr t f l h = elim (round_lem store fuel used curr t) [
      | inl e ↦ cc (e, h)
      | inr d ↦ elim d.goes [
        | inl e ↦ cc (e, h)
        | inr (g, e) ↦
            unmarked_walk fuel d.used' d.r.parent_id (start_trim (count_down t) d.r.trim_after)
              (is_end-false d.used' d.r.parent_id g) (omega (arith, l, marks_one d)) (sym e ∙ h)
      ]
    ]
      where
        marks_one :
            (d : Round store fuel used curr t (walk_release store (suc fuel) used curr t))
            → unmarked d.used' blobs < unmarked used blobs
        marks_one d =
            unmarked_lt used d.used' curr blobs
              (λ x n.
                round-Grows fuel used curr t (walk_release store (suc fuel) used curr t) d x
                  (mark-Grows used curr x n))
              f
              (round-Grows fuel used curr t (walk_release store (suc fuel) used curr t) d curr
                (mark_lem used curr))
              (listed curr d.r d.gets)

    walk_release_ends :
        (fuel : ℕ) (used : Used) (curr : StoreId) (t : Trim)
        → suc (length blobs) < fuel
        → walk_release store fuel used curr t ≢ out_of_fuel
    walk_release_ends zero used curr t l h = omega (arith, l)
    walk_release_ends (suc fuel) used curr t l h = elim (round_lem store fuel used curr t) [
      | inl e ↦ cc (e, h)
      | inr d ↦ elim d.goes [
        | inl e ↦ cc (e, h)
        | inr (g, e) ↦
            unmarked_walk fuel d.used' d.r.parent_id (start_trim (count_down t) d.r.trim_after)
              (is_end-false d.used' d.r.parent_id g) (omega (arith, unmarked_bound d.used' blobs))
              (sym e ∙ h)
      ]
    ]

    after_ref_ends :
        (fuel : ℕ) (used : Used) (id : StoreId) (ids : List StoreId) (w : Walk)
        → suc (length blobs) < fuel
        → ((u : Used) → walk_refs store fuel u ids ≢ out_of_fuel)
        → walk_release store fuel used id no_trim ≡ w
        → after_ref store (λ u. walk_refs store fuel u ids) w ≢ out_of_fuel
    after_ref_ends fuel used id ids (marked u) l later e h = later u h
    after_ref_ends fuel used id ids fault l later e h = cc h
    after_ref_ends fuel used id ids out_of_fuel l later e h =
        walk_release_ends fuel used id no_trim l e

    walk_refs_ends :
        (fuel : ℕ) (used : Used) (refs : List StoreId)
        → suc (length blobs) < fuel
        → walk_refs store fuel used refs ≢ out_of_fuel
    unfolding walk_refs
    walk_refs_ends fuel used [] l h = cc h
    walk_refs_ends fuel used (id ∷ ids) l h =
        after_ref_ends fuel used id ids (walk_release store fuel used id no_trim) l
          (λ u. walk_refs_ends fuel u ids l) refl h

-- If the store lists every release that it can open, a collection of garbage ends within two rounds more
-- than it lists blobs, for each ref.
pub run_gc_ends :
    (store : Reads) (blobs : List StoreId)
    → ((id : StoreId) (r : Release) → store.get_release id ≡ some r → Memᴰ id blobs)
    → (fuel : ℕ) (refs : List StoreId) → suc (length blobs) < fuel
    → (run_gc store fuel refs blobs).0 ≢ out_of_fuel
unfolding run_gc
run_gc_ends store blobs listed fuel refs l = walk_refs_ends store blobs listed fuel [] refs l
