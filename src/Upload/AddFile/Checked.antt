-- ===== src/Upload/AddFile/Checked.antt =====
-- upload_session.go: a file that counts as received has the hashes of the changes file.
use godinstall.Prelude.{
  ◌≡◌, refl, sym, ◌∙◌, ap, subst, inl, inr, ◌⊎◌, Bool, true, false, not, ◌&&◌, ◌||◌, List, [], ◌∷◌,
  ◌++◌, Option, none, some, Bytes, bytes_beq, bytes_beq_iff, bytes_Eq, codes, ℤ, pos, length,
  if◌then◌else◌, Bool-cases, some_inj,
}
use godinstall.SafeMap.{get, put}
use godinstall.SafeMap.Laws.{get-put_same, get-put_other}
use godinstall.Control.{ControlFile}
use godinstall.Changes.{or_nil, ChangesFile}
use godinstall.Release.Index.{StoreId}
use godinstall.Deb.{panics, PackageInfo}
use godinstall.Release.Entry.{UploadFile, has_suffix}
use godinstall.Upload.{
  Session, Incoming, not_in_upload_set, already_uploaded, not_in_hashes, store_failed, no_pubring,
  no_deb_name, no_control, control_failed, not_verified, bad_dsc, hash_mismatch, link_failed, World,
}
use godinstall.Upload.Monad.{
  Action, ◌>>=◌, ◌>>◌, pure, guard, or_raise, ask, or_panic, raise, Keeps, Returns, >>=-Keeps,
  pure-Keeps, guard-Keeps, or_raise-Keeps, if-Keeps_of, or_panic-Keeps, or_panic-Keeps_some,
  ask-Keeps, session-Keeps, modify-Keeps, in_store-Keeps, >>-Keeps, if-Keeps, raise-Keeps,
  if-Keeps_of,
}
use godinstall.Upload.AddFile.{
  find_index, hashes_at, changed, change_file, free_slot, find_slot, set_changes, lone_slot,
  keep_control, store_control, with_hashes, verify_deb, add_deb, add_dsc, hashes_match,
  check_hashes, linked, receive, add_by_kind, do_add_file,
}

-- Where reading the package or control file that comes in panics, or verifying the package does.
abbrev pub Panics : {S : Type 0} → World S → Incoming → Type 0
Panics w u =
    ((has_suffix u.name (codes ".deb") ≡ true)
      × (((w.read_package u.content).name ≡ panics)
          ⊎ (((w.read_package u.content).control ≡ panics)
              ⊎ (((w.read_package u.content).is_signed && (w.read_package u.content).is_verified
                    ≡ true)
                  × ((w.read_package u.content).signers ≡ none)))))
    ⊎ ((has_suffix u.name (codes ".dsc") ≡ true) × (w.parse_control_file u.content ≡ panics))

module _ {S : Type 0} (w : World S) (c : ChangesFile) where
  -- The bytes of a received file are what the store returned its id for, are as many as its size says,
  -- and have the three hashes that the changes file lists for a file of that name.
  abbrev pub IsChecked : Bytes → UploadFile → Type 0
  IsChecked name uf =
      uf.received ≡ true
      → (content : Bytes) × ((index : Bytes × ℤ) × ((find_index c.file_hashes name ≡ some index)
            × ((hashes_match w (hashes_at c.file_hashes index) content ≡ true)
                × ((uf.size ≡ pos (length content)) × Returns (λ t. w.put t content) uf.store_id))))

  -- A session with a changes file, all of whose received files are checked.
  pub record IsSound (x : Session) : Type 0 where
    pub with_changes : x.lone_deb ≡ false
    pub same_changes : x.changes ≡ some c
    pub checked :
        (name : Bytes) (uf : UploadFile) → get x.expecting name ≡ some uf → IsChecked name uf

  changed-IsChecked :
      (files : List (Bytes × UploadFile)) (name j : Bytes) (o : Option UploadFile)
      (f : UploadFile → UploadFile) (uf : UploadFile)
      → get files name ≡ o
      → ((k : Bytes) (g : UploadFile) → get files k ≡ some g → IsChecked k g)
      → ((g : UploadFile) → IsChecked name g → IsChecked name (f g))
      → get (changed files name o f) j ≡ some uf
      → IsChecked j uf
  changed-IsChecked files name j none f uf e all step h = all j uf h
  changed-IsChecked files name j (some g) f uf e all step h = elim (Bool-cases (bytes_beq name j)) [
    | inl d ↦
        subst (λ k. IsChecked k uf) ((bytes_beq_iff name j).0 d)
          (subst (λ v. IsChecked name v)
            (some_inj (f g) uf (
              sym (get-put_same files name (f g))
              ∙ ap (get (put files name (f g))) ((bytes_beq_iff name j).0 d)
              ∙ h))
            (step g (all name g e)))
    | inr d ↦
        all j uf
          (sym (get-put_other files name j (f g) (λ s. cc (d, (bytes_beq_iff name j).1 s))) ∙ h)
  ]

  change_file-Keeps :
      {F : Type 0} (name : Bytes) (f : UploadFile → UploadFile)
      → ((g : UploadFile) → IsChecked name g → IsChecked name (f g))
      → Keeps F IsSound (change_file w (some name) f) (λ _. Unit)
  unfolding change_file
  change_file-Keeps name f step =
      modify-Keeps IsSound
        (λ x. record x { expecting = changed x.expecting name (get x.expecting name) f })
        (λ x h. record {
          with_changes = h.with_changes;
          same_changes = h.same_changes;
          checked = λ j v g.
              changed-IsChecked x.expecting name j (get x.expecting name) f v refl h.checked step g;
        })

  -- What the rest of the code may rely on for a slot.
  abbrev SlotOf : Incoming → Option Bytes × (Bytes × ℤ) → Type 0
  SlotOf u slot = (slot.0 ≡ some u.name) × (find_index c.file_hashes u.name ≡ some slot.1)

  free_slot-Keeps :
      (x : Session) (u : Incoming) (uf : UploadFile)
      → IsSound x
      → Keeps (Panics w u) IsSound (free_slot w x u uf) (SlotOf u)
  free_slot-Keeps x u uf v = >>-Keeps (guard-Keeps IsSound (not uf.received) already_uploaded) (λ _.
      >>=-Keeps (or_panic-Keeps IsSound x.changes c v.same_changes) (λ changes e.
        >>=-Keeps (or_raise-Keeps IsSound (find_index changes.file_hashes u.name) not_in_hashes)
          (λ index g.
            pure-Keeps (some u.name, index)
              (refl, ap (λ d. find_index d.file_hashes u.name) (sym e) ∙ g))))

  find_slot-Keeps : (u : Incoming) → Keeps (Panics w u) IsSound (find_slot w u) (SlotOf u)
  unfolding find_slot
  find_slot-Keeps u = >>=-Keeps (session-Keeps IsSound) (λ x v.
      subst
        (λ b.
          Keeps (Panics w u) IsSound
            (if b
              then pure (none, ([], pos 0))
              else (or_raise (get x.expecting u.name) not_in_upload_set >>= free_slot w x u))
            (SlotOf u))
        (sym v.with_changes)
        (>>=-Keeps (or_raise-Keeps IsSound (get x.expecting u.name) not_in_upload_set)
          (λ uf _. free_slot-Keeps x u uf v)))

  store_control-Keeps :
      {F : Type 0} (name : Bytes) (file : ControlFile)
      → Keeps F IsSound (store_control w (some name) file) (λ _. Unit)
  unfolding store_control
  store_control-Keeps name file =
      >>=-Keeps (in_store-Keeps IsSound (keep_control w file) control_failed) (λ id r.
        >>-Keeps (change_file-Keeps name (λ f. record f { control_id = or_nil id }) (λ g k. k))
          (λ _. >>=-Keeps (or_raise-Keeps IsSound id control_failed) (λ _ _. pure-Keeps tt tt)))

  lone_slot-Keeps :
      (u : Incoming) (pkg : PackageInfo) (uf : Option Bytes)
      → Keeps (Panics w u) IsSound (lone_slot w u pkg uf) (λ v. v ≡ uf)
  unfolding lone_slot
  lone_slot-Keeps u pkg uf = >>=-Keeps (session-Keeps IsSound) (λ x v.
      subst
        (λ b.
          Keeps (Panics w u) IsSound (if not b then pure uf else set_changes w u pkg x.release_name)
            (λ v. v ≡ uf))
        (sym v.with_changes) (pure-Keeps uf refl))

  verify_deb-Keeps :
      (u : Incoming) (name : Bytes)
      → has_suffix u.name (codes ".deb") ≡ true
      → Keeps (Panics w u) IsSound (verify_deb w (some name) (w.read_package u.content)) (λ _. Unit)
  unfolding verify_deb
  verify_deb-Keeps u name d = >>=-Keeps (session-Keeps IsSound) (λ x v.
      if-Keeps (x.config.verify_debs && (not x.config.verify_changes_sufficient || x.lone_deb))
        (by_signature (pkg.is_signed && pkg.is_verified) refl) (pure-Keeps tt tt))
    where
      pkg : PackageInfo
      pkg = w.read_package u.content

      signed : Action S (Unit {0})
      signed = or_panic pkg.signers >>= λ signers.
          change_file w (some name) (λ f. record f { signed_by = f.signed_by ++ signers })

      by_signature :
          (b : Bool)
          → pkg.is_signed && pkg.is_verified ≡ b
          → Keeps {S = S}
              (Panics w u)
              IsSound
              (if b then signed else raise not_verified)
              (λ _. Unit)
      by_signature true s =
          >>=-Keeps (or_panic-Keeps_some IsSound pkg.signers (λ n. inl (d, inr (inr (s, n)))))
            (λ signers _.
              change_file-Keeps name (λ f. record f { signed_by = f.signed_by ++ signers })
                (λ g k. k))
      by_signature false s = raise-Keeps not_verified

  add_deb-Keeps :
      (u : Incoming) (name : Bytes)
      → has_suffix u.name (codes ".deb") ≡ true
      → Keeps (Panics w u) IsSound (add_deb w u (some name)) (λ v. v ≡ some name)
  unfolding add_deb
  add_deb-Keeps u name d = >>-Keeps (guard-Keeps IsSound w.pub_ring no_pubring) (λ _.
      >>=-Keeps (ask-Keeps IsSound pkg.name no_deb_name (λ p. inl (d, inl p))) (λ _ _.
        >>=-Keeps (lone_slot-Keeps u pkg (some name)) (λ slot same.
          subst (λ v. Keeps {S = S} (Panics w u) IsSound (with_slot v) (λ r. r ≡ some name))
            (sym same)
            (>>-Keeps (change_file-Keeps name (λ f. record f { pkg = some pkg }) (λ g k. k)) (λ _.
              >>=-Keeps (ask-Keeps IsSound pkg.control no_control (λ p. inl (d, inr (inl p))))
                (λ ctrl _. >>-Keeps (store_control-Keeps name (unsigned ctrl)) (λ _.
                  >>-Keeps (verify_deb-Keeps u name d) (λ _. pure-Keeps (some name) refl))))))))
    where
      pkg : PackageInfo
      pkg = w.read_package u.content

      unsigned : List (Bytes × List Bytes) → ControlFile
      unsigned ctrl = record {
        data_paragraphs = with_hashes w u.content ctrl ∷ [];
        signed = false;
        signature_verified = false;
        signed_by = [];
      }

      with_slot : Option Bytes → Action S (Option Bytes)
      with_slot slot = do
        change_file w slot (λ f. record f { pkg = some pkg })
        ctrl ← ask pkg.control no_control
        store_control w slot (unsigned ctrl)
        verify_deb w slot pkg
        pure slot

  add_dsc-Keeps :
      (u : Incoming) (name : Bytes)
      → has_suffix u.name (codes ".dsc") ≡ true
      → Keeps (Panics w u) IsSound (add_dsc w u (some name)) (λ v. v ≡ some name)
  unfolding add_dsc
  add_dsc-Keeps u name d = >>-Keeps (guard-Keeps IsSound w.pub_ring no_pubring) (λ _.
      >>=-Keeps (ask-Keeps IsSound (w.parse_control_file u.content) bad_dsc (λ p. inr (d, p)))
        (λ ctrl _. >>-Keeps (store_control-Keeps name ctrl) (λ _. pure-Keeps (some name) refl)))

  check_hashes-Keeps :
      (u : Incoming) (index : Bytes × ℤ)
      → Keeps
          (Panics w u)
          IsSound
          (check_hashes w u index)
          (λ _. hashes_match w (hashes_at c.file_hashes index) u.content ≡ true)
  unfolding check_hashes
  check_hashes-Keeps u index = >>=-Keeps (session-Keeps IsSound) (λ x v.
      subst (λ b. Keeps (Panics w u) IsSound (if b then pure tt else check x) Match)
        (sym v.with_changes)
        (>>=-Keeps (or_panic-Keeps IsSound x.changes c v.same_changes) (λ changes e.
          subst
            (λ d.
              Keeps {S = S} (Panics w u) IsSound
                (guard (hashes_match w (hashes_at d.file_hashes index) u.content) hash_mismatch)
                Match)
            (sym e)
            (guard-Keeps IsSound (hashes_match w (hashes_at c.file_hashes index) u.content)
              hash_mismatch))))
    where
      check : Session → Action S (Unit {0})
      check x = or_panic x.changes >>= λ changes.
          guard (hashes_match w (hashes_at changes.file_hashes index) u.content) hash_mismatch

      Match : Unit {0} → Type 0
      Match _ = hashes_match w (hashes_at c.file_hashes index) u.content ≡ true

  receive-Keeps :
      (u : Incoming) (id : StoreId) (index : Bytes × ℤ)
      → find_index c.file_hashes u.name ≡ some index
      → hashes_match w (hashes_at c.file_hashes index) u.content ≡ true
      → Returns (λ t. w.put t u.content) id
      → Keeps (Panics w u) IsSound (receive w u id (some u.name)) (λ _. Unit)
  unfolding receive
  receive-Keeps u id index i m r = >>=-Keeps (session-Keeps IsSound) (λ x v.
      >>-Keeps
        (in_store-Keeps IsSound (λ t. linked (w.link t id (x.dir ++ (codes "/" ++ u.name))))
          link_failed)
        (λ _.
          change_file-Keeps u.name (marked x) (λ g k _. (u.content, (index, (i, (m, (refl, r))))))))
    where
      marked : Session → UploadFile → UploadFile
      marked x f = record f {
        store_id = id;
        size = pos (length u.content);
        hook_error = w.run_hook (x.dir ++ (codes "/" ++ u.name));
        received = true;
      }

  add_by_kind-Keeps :
      (u : Incoming) (name : Bytes)
      → Keeps (Panics w u) IsSound (add_by_kind w u (some name)) (λ v. v ≡ some name)
  add_by_kind-Keeps u name = if-Keeps_of (has_suffix u.name (codes ".deb")) (add_deb-Keeps u name) (
      if-Keeps_of (has_suffix u.name (codes ".dsc")) (add_dsc-Keeps u name)
        (pure-Keeps (some name) refl))

  pub do_add_file-Keeps : (u : Incoming) → Keeps (Panics w u) IsSound (do_add_file w u) (λ _. Unit)
  unfolding do_add_file
  do_add_file-Keeps u = >>=-Keeps (find_slot-Keeps u) (λ slot h.
      >>=-Keeps (in_store-Keeps IsSound (λ t. w.put t u.content) store_failed) (λ id r.
        >>=-Keeps
          (subst
            (λ v. Keeps {S = S} (Panics w u) IsSound (add_by_kind w u v) (λ v. v ≡ some u.name))
            (sym h.0) (add_by_kind-Keeps u u.name))
          (λ uf e. >>-Keeps (check_hashes-Keeps u slot.1) (λ m.
            subst (λ v. Keeps {S = S} (Panics w u) IsSound (receive w u id v) (λ _. Unit)) (sym e)
              (receive-Keeps u id slot.1 h.1 m r)))))
