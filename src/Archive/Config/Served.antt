-- ===== src/Archive/Config/Served.antt =====
-- config_handlers.go: what a read gives after a change, and what a change leaves alone.
use godinstall.Prelude.{
  ℕ, ◌≡◌, ◌≢◌, refl, sym, ◌∙◌, ap, subst, ◌⊎◌, inl, inr, Bool, true, false, List, [], ◌∷◌, Option,
  none, some, Bytes, bytes_Eq, if◌then◌else◌, ◌||◌, is_nil,
}
use godinstall.SafeMap.{get, put}
use godinstall.SafeMap.Laws.{get-put_same}
use godinstall.Release.Index.{StoreId}
use godinstall.Release.Merge.{Action}
use godinstall.Release.Record.{Release, ReleaseConfig}
use godinstall.Archive.{
  Objects, found, refused, has_slash, head_tag, with_id, release_at, get_dist, set_dist,
  add_release, add_release_config, config_or,
}
use godinstall.Archive.Dists.{not_empty}
use godinstall.Archive.Config.{
  ConfigUpdate, Response, app_error, config_reply, empty_config, Rest, update_actions, config_of,
  config_get, configured, after_set, store_config, unless_same, put_found, put_dist, config_put,
}
use godinstall.Archive.Config.Changed.{applied, update_config_lem}
use godinstall.Archive.Config.Lookup.{
  IsClosed, CanAdd, next_release, changed, changed-IsClosed, changed-other, serves,
}

module _ (rest : Rest) where
  -- A distribution that is found: its name, its tag and its release.
  Located : Objects → Bytes → StoreId → Release → Type 0
  Located s name id r =
      (has_slash name ≡ false)
      × ((get s.tags (head_tag name) ≡ some id) × (get s.releases id ≡ some r))

  located :
      (s : Objects) (name : Bytes) (id : StoreId) (r : Release)
      → get_dist s name ≡ found (id, r)
      → Located s name id r
  unfolding get_dist Located
  located s name id r h = by_slash (has_slash name) refl h
    where
      by_release :
          (j : StoreId) (o : Option Release)
          → get s.releases j ≡ o
          → with_id j o ≡ found (id, r)
          → (j ≡ id) × (o ≡ some r)
      by_release j none e k = cc k
      by_release j (some w) e k = (cc k, cc k)

      by_tag :
          (o : Option StoreId)
          → get s.tags (head_tag name) ≡ o
          → release_at s o ≡ found (id, r)
          → (get s.tags (head_tag name) ≡ some id) × (get s.releases id ≡ some r)
      by_tag none e k = cc k
      by_tag (some j) e k =
          let (f, g) = by_release j (get s.releases j) refl k in
          (e ∙ ap some f, ap (get s.releases) (sym f) ∙ g)

      by_slash :
          (b : Bool)
          → has_slash name ≡ b
          → (if b then refused else release_at s (get s.tags (head_tag name))) ≡ found (id, r)
          → Located s name id r
      by_slash true b k = cc k
      by_slash false b k = (b, by_tag (get s.tags (head_tag name)) refl k)

  -- The answer and the store after a request to change the configuration of `name` to `cfg`.
  pub record IsServed (name : Bytes) (old cfg : ReleaseConfig) (s : Objects)
      (result : Response × Objects) : Type 0 where
    pub closed : IsClosed rest result.1
    pub read_back : config_get rest name result.1 ≡ config_reply cfg
    pub others_kept :
        (other : Bytes) → name ≢ other → config_get rest other result.1 ≡ config_get rest other s
    pub answer : (result.0 ≡ config_reply cfg) ⊎ (result.0 ≡ app_error)
    pub same_kept : cfg ≡ old → result ≡ (config_reply old, s)

  module _ (s : Objects) (h : IsClosed rest s) (name : Bytes) (now : ℕ) (id : StoreId)
      (rel : Release) (here : Located s name id rel) (named : name ≢ []) where
    stored-IsServed :
        (old cfg : ReleaseConfig) (acts : List Action)
        → CanAdd rest s cfg (configured rest cfg acts (rest.config_id cfg) now (id, rel))
        → cfg ≢ old
        → IsServed name old cfg s (store_config rest name cfg acts now (id, rel) s)
    unfolding Located add_release add_release_config set_dist
    stored-IsServed old cfg acts can n =
        subst
          (λ b. IsServed name old cfg s (
            after_set rest name (rest.release_id new) added
              (if b || is_nil name then none else some (changed rest name cfg new s))))
          (sym here.0)
          (subst
            (λ b. IsServed name old cfg s (
              after_set rest name (rest.release_id new) added
                (if b then none else some (changed rest name cfg new s))))
            (sym (not_empty name named))
            (answered (rest.reify_release (changed rest name cfg new s) (rest.release_id new))))
      where
        new : Release
        new = configured rest cfg acts (rest.config_id cfg) now (id, rel)

        added : Objects
        added = record s {
          releases = put s.releases (rest.release_id new) new;
          configs = put s.configs (rest.config_id cfg) cfg;
        }

        back : config_get rest name (changed rest name cfg new s) ≡ config_reply cfg
        back =
            serves rest (changed rest name cfg new s) name (rest.release_id new) new cfg here.0
              (get-put_same s.tags (head_tag name) (rest.release_id new))
              (get-put_same s.releases (rest.release_id new) new)
              (ap (get (put s.configs (rest.config_id cfg) cfg)) can.config_kept
                ∙ get-put_same s.configs (rest.config_id cfg) cfg)

        served :
            (r : Response)
            → (r ≡ config_reply cfg) ⊎ (r ≡ app_error)
            → IsServed name old cfg s (r, changed rest name cfg new s)
        served r a = record {
          closed = changed-IsClosed rest name cfg new s can h;
          read_back = back;
          others_kept = λ other k. changed-other rest name other cfg new s can h k;
          answer = a;
          same_kept = λ e. absurd (n e);
        }

        answered :
            (b : Bool)
            → IsServed name old cfg s (
                if b
                then (
                  config_get rest name (changed rest name cfg new s),
                  changed rest name cfg new s,
                )
                else (app_error, changed rest name cfg new s))
        answered true = served (config_get rest name (changed rest name cfg new s)) (inl back)
        answered false = served app_error (inr refl)

    same-IsServed :
        (cfg : ReleaseConfig)
        → cfg ≡ config_of rest s rel
        → IsServed name (config_of rest s rel) cfg s (config_get rest name s, s)
    unfolding Located config_of
    same-IsServed cfg e = record {
      closed = h;
      read_back = back ∙ ap config_reply (sym e);
      others_kept = λ other k. refl;
      answer = inl (back ∙ ap config_reply (sym e));
      same_kept = λ f. ap (λ r. (r, s)) back;
    }
      where
        back : config_get rest name s ≡ config_reply (config_of rest s rel)
        back =
            let (c, l) = h.configs_there id rel here.1.1 in
            serves rest s name id rel c here.0 here.1.0 here.1.1 l
            ∙ ap (λ o. config_reply (config_or empty_config o)) (sym l)

    acted-IsServed :
        (cfg : ReleaseConfig) (acts : List Action)
        → CanAdd rest s cfg (configured rest cfg acts (rest.config_id cfg) now (id, rel))
        → (acts ≡ [] → cfg ≡ config_of rest s rel)
        → (cfg ≡ config_of rest s rel → acts ≡ [])
        → IsServed name
            (config_of rest s rel)
            cfg
            s
            (unless_same rest name cfg acts now (id, rel) s)
    acted-IsServed cfg [] can e f = same-IsServed cfg (e refl)
    acted-IsServed cfg (a ∷ acts) can e f =
        stored-IsServed (config_of rest s rel) cfg (a ∷ acts) can (λ g. cc (f g))

    put-IsServed :
        (d : ConfigUpdate)
        → CanAdd rest s (applied (config_of rest s rel) d) (next_release rest s d now id rel)
        → IsServed name
            (config_of rest s rel)
            (applied (config_of rest s rel) d)
            s
            (put_found rest name (some d) now (id, rel) s)
    put-IsServed d can =
        let (same, (few, quiet)) = update_config_lem (config_of rest s rel) d in
        subst
          (λ c.
            IsServed name (config_of rest s rel) (applied (config_of rest s rel) d) s
              (unless_same rest name c (update_actions (config_of rest s rel) d) now (id, rel) s))
          (sym same)
          (acted-IsServed (applied (config_of rest s rel) d)
            (update_actions (config_of rest s rel) d) can quiet.0 quiet.1)

  -- An authorised request with a body, for a distribution with a name that is found in a closed store, leaves the store closed. A
  -- read of the distribution then gives its configuration with the fields of the request in place of its
  -- own, and a read of every other distribution what it gave before. This takes it that the new release and the
  -- new configuration have the id of no other record in the store, and that the release still has the id of the
  -- configuration when its files are made. The request is answered with the new configuration, or,
  -- where the directory of the archive could not be written, with an error. One that changes no value
  -- is answered with the configuration and leaves the store as it is.
  pub config_put-IsServed :
      (s : Objects) (name : Bytes) (d : ConfigUpdate) (now : ℕ) (id : StoreId) (rel : Release)
      → IsClosed rest s
      → CanAdd rest s (applied (config_of rest s rel) d) (next_release rest s d now id rel)
      → get_dist s name ≡ found (id, rel)
      → name ≢ []
      → IsServed name
          (config_of rest s rel)
          (applied (config_of rest s rel) d)
          s
          (config_put rest true name (some d) now s)
  unfolding config_put
  config_put-IsServed s name d now id rel h can g n =
      subst
        (λ r.
          IsServed name (config_of rest s rel) (applied (config_of rest s rel) d) s
            (put_dist rest name (some d) now r s))
        (sym g) (put-IsServed s h name now id rel (located s name id rel g) n d can)
