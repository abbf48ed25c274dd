-- ===== src/Archive/Config/Lookup.antt =====
-- config_handlers.go: what is found in the store after a new release was added and tagged.
use godinstall.Prelude.{
  ℕ, ◌≡◌, ◌≢◌, refl, sym, ◌∙◌, ap, subst, ◌⊎◌, inl, inr, Bool, true, false, List, Option, none,
  some, Bytes, bytes_beq, bytes_beq_iff, bytes_Eq, Bool-cases, some_inj,
}
use godinstall.SafeMap.{get, put}
use godinstall.SafeMap.Laws.{get-put_same, get-put_other}
use godinstall.Release.Index.{StoreId}
use godinstall.Release.Record.{Release, ReleaseConfig}
use godinstall.Archive.{Objects, has_slash, head_tag, get_dist}
use godinstall.Archive.Dists.{head_tag_inj}
use godinstall.Archive.Config.{
  ConfigUpdate, not_found, app_error, config_reply, Rest, update_actions, config_of, config_get,
  configured,
}
use godinstall.Archive.Config.Changed.{applied}

module _ {V : Type 0} (id_of : V → StoreId) where
  -- The store holds no other record under the id of this one.
  abbrev pub NoCollision : List (StoreId × V) → V → Type 0
  NoCollision m v = (w : V) → get m (id_of v) ≡ some w → w ≡ v

  put_keeps :
      (m : List (StoreId × V)) (v w : V) (id : StoreId)
      → NoCollision m v
      → get m id ≡ some w
      → get (put m (id_of v) v) id ≡ some w
  put_keeps m v w id fresh g = elim (Bool-cases (bytes_beq (id_of v) id)) [
    | inl e ↦
        subst (λ k. get (put m (id_of v) v) k ≡ some w) ((bytes_beq_iff (id_of v) id).0 e)
          (get-put_same m (id_of v) v
            ∙ ap some (sym (fresh w (ap (get m) ((bytes_beq_iff (id_of v) id).0 e) ∙ g))))
    | inr e ↦ get-put_other m (id_of v) id v (λ s. cc (e, (bytes_beq_iff (id_of v) id).1 s)) ∙ g
  ]

  put_either :
      (m : List (StoreId × V)) (v w : V) (id : StoreId)
      → get (put m (id_of v) v) id ≡ some w
      → (w ≡ v) ⊎ (get m id ≡ some w)
  put_either m v w id g = elim (Bool-cases (bytes_beq (id_of v) id)) [
    | inl e ↦ inl (
        sym (
          some_inj v w (
            sym (get-put_same m (id_of v) v)
            ∙ (ap (get (put m (id_of v) v)) ((bytes_beq_iff (id_of v) id).0 e) ∙ g))))
    | inr e ↦
        inr
          (sym (get-put_other m (id_of v) id v (λ s. cc (e, (bytes_beq_iff (id_of v) id).1 s))) ∙ g)
  ]

module _ (rest : Rest) where
  -- Every tag has its release, and every release its configuration.
  pub record IsClosed (s : Objects) : Type 0 where
    pub tags_there :
        (tag : Bytes) (id : StoreId)
        → get s.tags tag ≡ some id
        → (r : Release) × (get s.releases id ≡ some r)
    pub configs_there :
        (id : StoreId) (r : Release)
        → get s.releases id ≡ some r
        → (c : ReleaseConfig) × (get s.configs r.config_id ≡ some c)

  -- A release and its configuration that can be added.
  pub record CanAdd (s : Objects) (cfg : ReleaseConfig) (r : Release) : Type 0 where
    pub release_alone : NoCollision rest.release_id s.releases r
    pub config_alone : NoCollision rest.config_id s.configs cfg
    pub config_kept : r.config_id ≡ rest.config_id cfg

  -- The release that a request adds.
  abbrev pub next_release : Objects → ConfigUpdate → ℕ → StoreId → Release → Release
  next_release s d now id rel =
      configured rest (applied (config_of rest s rel) d) (update_actions (config_of rest s rel) d)
        (rest.config_id (applied (config_of rest s rel) d)) now (id, rel)

  -- The store after a request that changed something.
  abbrev pub changed : Bytes → ReleaseConfig → Release → Objects → Objects
  changed name cfg r s = record {
    releases = put s.releases (rest.release_id r) r;
    configs = put s.configs (rest.config_id cfg) cfg;
    tags = put s.tags (head_tag name) (rest.release_id r);
  }

  pub changed-IsClosed :
      (name : Bytes) (cfg : ReleaseConfig) (r : Release) (s : Objects)
      → CanAdd s cfg r
      → IsClosed s
      → IsClosed (changed name cfg r s)
  changed-IsClosed name cfg r s can h = record {
    tags_there = λ tag id g. elim (Bool-cases (bytes_beq (head_tag name) tag)) [
      | inl t ↦ (
        r,
        subst (λ k. get (put s.releases (rest.release_id r) r) k ≡ some r)
            (some_inj (rest.release_id r) id (
              sym (get-put_same s.tags (head_tag name) (rest.release_id r))
              ∙ (ap (get (put s.tags (head_tag name) (rest.release_id r)))
                    ((bytes_beq_iff (head_tag name) tag).0 t)
                  ∙ g)))
            (get-put_same s.releases (rest.release_id r) r),
      )
      | inr t ↦
          let (w, k) = h.tags_there tag id (
            sym (
              get-put_other s.tags (head_tag name) tag (rest.release_id r)
                (λ f. cc (t, (bytes_beq_iff (head_tag name) tag).1 f)))
            ∙ g) in
          (w, put_keeps rest.release_id s.releases r w id can.release_alone k)
    ];
    configs_there = λ id w g. elim (put_either rest.release_id s.releases r w id g) [
      | inl f ↦ (
        cfg,
        subst (λ k. get (put s.configs (rest.config_id cfg) cfg) k ≡ some cfg)
            (sym (ap (λ v. v.config_id) f ∙ can.config_kept))
            (get-put_same s.configs (rest.config_id cfg) cfg),
      )
      | inr k ↦
          let (c, l) = h.configs_there id w k in
          (c, put_keeps rest.config_id s.configs cfg c w.config_id can.config_alone l)
    ];
  }

  pub serves :
      (s : Objects) (name : Bytes) (id : StoreId) (r : Release) (c : ReleaseConfig)
      → has_slash name ≡ false
      → get s.tags (head_tag name) ≡ some id
      → get s.releases id ≡ some r
      → get s.configs r.config_id ≡ some c
      → config_get rest name s ≡ config_reply c
  unfolding config_get get_dist config_of
  serves s name id r c n t g k = rw (n, t, g, k) refl

  pub slashed :
      (s : Objects) (name : Bytes) → has_slash name ≡ true → config_get rest name s ≡ app_error
  unfolding config_get get_dist
  slashed s name b = rw b refl

  pub untagged :
      (s : Objects) (name : Bytes)
      → has_slash name ≡ false
      → get s.tags (head_tag name) ≡ none
      → config_get rest name s ≡ not_found
  unfolding config_get get_dist
  untagged s name b e = rw (b, e) refl

  -- What a read of another distribution finds stays as it is.
  pub changed-other :
      (name other : Bytes) (cfg : ReleaseConfig) (r : Release) (s : Objects)
      → CanAdd s cfg r
      → IsClosed s
      → name ≢ other
      → config_get rest other (changed name cfg r s) ≡ config_get rest other s
  changed-other name other cfg r s can h n = by_slash (has_slash other) refl
    where
      tag_same : get (changed name cfg r s).tags (head_tag other) ≡ get s.tags (head_tag other)
      tag_same =
          get-put_other s.tags (head_tag name) (head_tag other) (rest.release_id r)
            (λ f. n (head_tag_inj name other f))

      refused_twice :
          has_slash other ≡ true
          → config_get rest other (changed name cfg r s) ≡ config_get rest other s
      refused_twice b = slashed (changed name cfg r s) other b ∙ sym (slashed s other b)

      by_tag :
          (o : Option StoreId)
          → has_slash other ≡ false
          → get s.tags (head_tag other) ≡ o
          → config_get rest other (changed name cfg r s) ≡ config_get rest other s
      by_tag none b e =
          untagged (changed name cfg r s) other b (tag_same ∙ e) ∙ sym (untagged s other b e)
      by_tag (some id) b e =
          let (w, g) = h.tags_there (head_tag other) id e in
          let (c, l) = h.configs_there id w g in
          serves (changed name cfg r s) other id w c b (tag_same ∙ e)
            (put_keeps rest.release_id s.releases r w id can.release_alone g)
            (put_keeps rest.config_id s.configs cfg c w.config_id can.config_alone l)
          ∙ sym (serves s other id w c b e g l)

      by_slash :
          (b : Bool)
          → has_slash other ≡ b
          → config_get rest other (changed name cfg r s) ≡ config_get rest other s
      by_slash true b = refused_twice b
      by_slash false b = by_tag (get s.tags (head_tag other)) b refl
