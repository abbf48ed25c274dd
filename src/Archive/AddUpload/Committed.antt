-- ===== src/Archive/AddUpload/Committed.antt =====
-- archive.go: what AddUpload leaves in the store.
use godinstall.Prelude.{
  ℕ, suc, ◌≡◌, ◌≢◌, refl, sym, ◌∙◌, ap, subst, inl, inr, Bool, true, false, List, [], ◌∷◌, ◌++◌,
  Option, none, some, Bytes, bytes_Eq, length, ltb, pos, some_inj, if◌then◌else◌, Bool-cases,
}
use godinstall.SafeMap.{get, put}
use godinstall.SafeMap.Laws.{get-put_same}
use godinstall.Release.Index.{StoreId, Entry}
use godinstall.Release.Merge.{Action, Merged, merge, real_change}
use godinstall.Release.Record.{Release, ReleaseConfig}
use godinstall.Release.Entry.{built, new_release_index_entry}
use godinstall.Release.Child.{new_child}
use godinstall.Trim.{
  Trimmed, trims, short, failed, out_of_fuel, trim_action, apply_trim, trim_loop, length_trimmer,
  trim_history,
}
use godinstall.Archive.{Objects, has_slash, head_tag, dists, set_dist, add_release}
use godinstall.Archive.Dists.{WithDist, not_empty, dists_lem}
use godinstall.Archive.Config.{config_of}
use godinstall.Archive.AddUpload.{
  Upload, Stored, Uploaded, unchanged, upload_error, Indexer, add_index, head_or_root, trimmed,
  child_of, publish, commit, with_merged, with_index, with_parent, with_head, with_entry,
  add_upload,
}

-- A release of the same place in the history, with the same index and configuration.
abbrev SamePlace : Release → Release → Type 0
SamePlace a b =
    (a.parent_id ≡ b.parent_id) × ((a.index_id ≡ b.index_id) × (a.config_id ≡ b.config_id))

equal_place : (a b : Release) → some a ≡ some b → SamePlace b a
equal_place a b h =
    let e = sym (some_inj a b h) in
    (ap (λ r. r.parent_id) e, (ap (λ r. r.index_id) e, ap (λ r. r.config_id) e))

place_after : (a b c : Release) → SamePlace a b → SamePlace b c → SamePlace a c
place_after a b c (p, (i, k)) (q, (j, l)) = (p ∙ q, (i ∙ j, k ∙ l))

apply_trim_place : (a b : Release) (t : Trimmed) → apply_trim a t ≡ some b → SamePlace b a
apply_trim_place a b (trims n) h = by_count (ltb 0 n) h
  where
    after : Release
    after = record a { actions = a.actions ++ (trim_action n ∷ []); trim_after = pos n }

    by_count : (c : Bool) → (if c then some after else some a) ≡ some b → SamePlace b a
    by_count true e = equal_place after b e
    by_count false e = equal_place a b e
apply_trim_place a b short h = equal_place a b h
apply_trim_place a b failed h = cc h
apply_trim_place a b out_of_fuel h = cc h

module _ {P : Type 0} (w : Indexer P) where
  -- updateReleasefiles leaves the place of a release.
  pub record KeepsPlace : Type 0 where
    pub place :
        (cfg : ReleaseConfig) (r : Release) → SamePlace (w.rest.update_release_files cfg r) r

  -- The store after an upload to the distribution `branch` with the head `id`, given the merge `m`.
  pub record IsCommitted (branch : Bytes) (id : StoreId) (m : Merged) (s t : Stored) (r : Release)
      : Type 0 where
    pub head_set : WithDist s.objects branch (some (w.rest.release_id r)) t.objects
    pub release_there : get t.objects.releases (w.rest.release_id r) ≡ some r
    pub follows : r.parent_id ≡ id
    pub indexed : get t.indexes r.index_id ≡ some m.written

  -- The store where the history could not be read to trim it, or else with the new release.
  pub Leaves : Bytes → StoreId → Merged → Stored → Option Release → Uploaded × Stored → Type 0
  Leaves branch id m s none result = (result.0 ≡ upload_error) × (result.1.objects ≡ s.objects)
  Leaves branch id m s (some r) result = IsCommitted branch id m s result.1 r

  trimmed_place :
      (s : Stored) (cfg : ReleaseConfig) (a b : Release)
      → trimmed w s cfg a ≡ some b
      → SamePlace b a
  unfolding trim_history
  trimmed_place s cfg a b h = by_config cfg.auto_trim h
    where
      reached : Trimmed
      reached =
          trim_loop length_trimmer (λ id. get s.objects.releases id) w.empty_file_id
            (suc (length s.objects.releases)) a.parent_id 0 (pos 0) cfg.auto_trim_length

      by_config : (c : Bool) → (if c then apply_trim a reached else some a) ≡ some b → SamePlace b a
      by_config true e = apply_trim_place a b reached e
      by_config false e = equal_place a b e

  commit-Leaves :
      (branch : Bytes) (id : StoreId) (m : Merged) (s : Stored) (o : Option Release)
      → has_slash branch ≡ false
      → branch ≢ []
      → ((r : Release) → o ≡ some r → (r.parent_id ≡ id) × (r.index_id ≡ w.index_id m.written))
      → Leaves branch id m s o (commit w branch o (add_index w m.written s).1)
  unfolding Leaves add_release dists set_dist
  commit-Leaves branch id m s none n b p = (refl, refl)
  commit-Leaves branch id m s (some r) n b p =
      subst (λ o. IsCommitted branch id m s (publish w (w.rest.release_id r) stored o).1 r)
        (sym set)
        (record {
          head_set = (headed.0, headed.1);
          release_there = get-put_same s.objects.releases (w.rest.release_id r) r;
          follows = (p r refl).0;
          indexed =
              ap (get (put s.indexes (w.index_id m.written) m.written)) (p r refl).1
              ∙ get-put_same s.indexes (w.index_id m.written) m.written;
        })
    where
      added : Objects
      added = record s.objects { releases = put s.objects.releases (w.rest.release_id r) r }

      stored : Stored
      stored = record s {
        objects = added;
        indexes = put s.indexes (w.index_id m.written) m.written;
      }

      head_moved : Objects
      head_moved = record added { tags = put added.tags (head_tag branch) (w.rest.release_id r) }

      set : set_dist branch (w.rest.release_id r) added ≡ some head_moved
      set = rw (n, not_empty branch b) refl

      headed : WithDist added branch (some (w.rest.release_id r)) head_moved
      headed =
          let (t, (e, d)) = (dists_lem added branch (w.rest.release_id r)).2.0 n b in
          subst (WithDist added branch (some (w.rest.release_id r)))
            (some_inj t head_moved (sym e ∙ set)) d

  child_place :
      (s : Stored) (id : StoreId) (parent : Release) (index : StoreId) (acts : List Action)
      (now : ℕ) (r : Release)
      → KeepsPlace
      → child_of w s id parent index acts now ≡ some r
      → (r.parent_id ≡ id) × (r.index_id ≡ index)
  unfolding new_child
  child_place s id parent index acts now r k h =
      let (q, (j, l)) =
        place_after r made next (trimmed_place s (config_of w.rest s.objects parent) made r h)
          (k.place (config_of w.rest s.objects parent) next) in
      (q, j)
    where
      next : Release
      next = record (new_child id now parent) { index_id = index; actions = acts }

      made : Release
      made = w.rest.update_release_files (config_of w.rest s.objects parent) next

  -- An upload of which every file makes an entry, to a distribution with a name that is there with its release and its
  -- index,
  -- where the merge of the entry into the index does not fault. If the merge makes no real change, AddUpload
  -- reports no error and leaves the releases and the distributions as they are. Otherwise, if the history can be read
  -- as far as it is trimmed, the distribution has a new release, which is in the store, follows the one
  -- before and has the merged index, and the other distributions stay; where it cannot be read, an error is
  -- reported and the releases and the distributions are left as they are.
  pub add_upload_lem :
      (u : Upload) (now : ℕ) (s : Stored) (entry : Entry) (id : StoreId) (parent : Release)
      (old : List Entry) (m : Merged)
      → KeepsPlace
      → new_release_index_entry u.source u.source_version u.binary_version u.changes_id u.expecting
        ≡ built entry
      → u.release_name ≢ []
      → get (dists s.objects) u.release_name ≡ some id
      → get s.objects.releases id ≡ some parent
      → get s.indexes parent.index_id ≡ some old
      → merge
          (w.pruner (config_of w.rest s.objects parent))
          (w.start (config_of w.rest s.objects parent))
          old
          (entry ∷ [])
        ≡ some m
      → (real_change m.actions ≡ false
          → ((add_upload w u now s).0 ≡ unchanged) × ((add_upload w u now s).1.objects ≡ s.objects))
        × (real_change m.actions ≡ true
            → Leaves u.release_name id m s
                (child_of w
                  (add_index w m.written s).1
                  id
                  parent
                  (w.index_id m.written)
                  m.actions
                  now)
                (add_upload w u now s))
  unfolding add_upload
  add_upload_lem u now s entry id parent old m k e x h p i g = (
    (λ c. (ap (λ r. r.0) (steps ∙ choice c), ap (λ r. r.1.objects) (steps ∙ choice c))),
    (λ c. subst (Leaves u.release_name id m s child) (sym (steps ∙ choice c)) (
        commit-Leaves u.release_name id m s child no_slash x (λ r f.
          child_place (add_index w m.written s).1 id parent (w.index_id m.written) m.actions now r k
            f))),
  )
    where
      child : Option Release
      child = child_of w (add_index w m.written s).1 id parent (w.index_id m.written) m.actions now

      steps : add_upload w u now s ≡ with_merged w u.release_name id parent now (some m) s
      steps =
          ap (λ o. with_entry w u.release_name now o s) e
          ∙ (ap (λ o. with_head w u.release_name entry now (head_or_root w u.release_name now o s))
                h
              ∙ (ap (λ o. with_parent w u.release_name entry id now o s) p
                  ∙ (ap (λ o. with_index w u.release_name entry id parent now o s) i
                      ∙ ap (λ o. with_merged w u.release_name id parent now o s) g)))

      choice :
          {b : Bool}
          → real_change m.actions ≡ b
          → with_merged w u.release_name id parent now (some m) s ≡ (
              if b
              then commit w u.release_name child (add_index w m.written s).1
              else (unchanged, (add_index w m.written s).1))
      choice c =
          ap
            (λ b.
              if b
              then commit w u.release_name child (add_index w m.written s).1
              else (unchanged, (add_index w m.written s).1))
            c

      no_slash : has_slash u.release_name ≡ false
      no_slash = elim (Bool-cases (has_slash u.release_name)) [
        | inl b ↦ cc (sym ((dists_lem s.objects u.release_name id).0 b).1.1 ∙ h)
        | inr b ↦ b
      ]
