-- ===== src/Upload/Handler/Sound.antt =====
-- upload_session.go: what holds of a session with a changes file, from its beginning and in every run.
use godinstall.Prelude.{
  ◌⊎◌, suc, ◌≡◌, refl, sym, ◌∙◌, ap, subst, inl, inr, Bool, true, false, not, ◌&&◌, List, [], ◌∷◌,
  Option, none, some, Bytes, bytes_beq, bytes_beq_iff, bytes_Eq, length, if◌then◌else◌, Bool-cases,
  some_inj,
}
use godinstall.SafeMap.{get, put, is_some}
use godinstall.SafeMap.Laws.{get-put_same, get-put_other}
use godinstall.Changes.{FileHashes, ChangesFile}
use godinstall.Release.Record.{ReleaseConfig}
use godinstall.Release.Index.{StoreId}
use godinstall.Release.Entry.{UploadFile}
use godinstall.Upload.{Session, Incoming, World}
use godinstall.Upload.Monad.{
  Outcome, ok, err, fault, Keeps, Does, >>=-Keeps, >>-Keeps, pure-Keeps, session-Keeps,
  modify-Keeps, if-Keeps,
}
use godinstall.Upload.AddFile.{fresh, find_index}
use godinstall.Upload.AddFile.Checked.{Panics, IsSound, do_add_file-Keeps}
use godinstall.Upload.Handler.{
  NewError, copy_failed, no_keys, not_signed, not_verified, bad_changes, Started, started, refused,
  expect_files, with_parsed, with_copy, empty_session, new_upload_session, all_received, Reply,
  failed, waiting, merged, prepend, finish_add, handle_add, reply_and_go, run_handler,
}

-- The slot that a session begins with for a name.
abbrev pub expected : FileHashes → Bytes → Option UploadFile → Option UploadFile
expected hashes name other = if is_some (find_index hashes name) then some (fresh name) else other

if_same : {A : Type 0} (b : Bool) (a : A) → (if b then a else a) ≡ a
if_same true a = refl
if_same false a = refl

get-expect_files :
    (hashes : FileHashes) (slots : List (Bytes × UploadFile)) (name : Bytes)
    → get (expect_files hashes slots) name ≡ expected hashes name (get slots name)
unfolding expect_files find_index
get-expect_files [] slots name = refl
get-expect_files ((index, h) ∷ more) slots name = elim (Bool-cases (bytes_beq name index.0)) [
  | inl e ↦
      get-expect_files more (put slots index.0 (fresh index.0)) name
      ∙ (ap (expected more name) (
            subst (λ n. get (put slots n (fresh n)) name ≡ some (fresh name))
              ((bytes_beq_iff name index.0).0 e) (get-put_same slots name (fresh name)))
          ∙ (if_same (is_some (find_index more name)) (some (fresh name)) ∙ rw e refl))
  | inr e ↦
      get-expect_files more (put slots index.0 (fresh index.0)) name
      ∙ (ap (expected more name) (
            get-put_other slots index.0 name (fresh index.0)
              (λ s. cc (e, (bytes_beq_iff name index.0).1 (sym s))))
          ∙ rw e refl)
]

fresh_not_received :
    (b : Bool) (name : Bytes) (uf : UploadFile)
    → (if b then some (fresh name) else none) ≡ some uf
    → uf.received ≡ true
    → false ≡ true
fresh_not_received true name uf h r = ap (λ f. f.received) (some_inj (fresh name) uf h) ∙ r
fresh_not_received false name uf h r = cc h

both_hold : (b c : Bool) → b && not c ≡ true → (b ≡ true) × (c ≡ false)
both_hold true true h = cc h
both_hold true false h = (refl, refl)
both_hold false c h = cc h

if_holds : (b c : Bool) → b && not c ≡ false → b ≡ true → c ≡ true
if_holds true true h e = refl
if_holds true false h e = cc h
if_holds false c h e = cc e

denied : (b : Bool) → not b ≡ true → b ≡ false
denied true h = cc h
denied false h = refl

doubly_denied : (b : Bool) → not b ≡ false → b ≡ true
doubly_denied true h = refl
doubly_denied false h = cc h

module _ {S : Type 0} (w : World S) (parse_changes : Bytes → ChangesFile × Bool)
    (config : ReleaseConfig) (suite dir content : Bytes) where
  -- Why a session is refused.
  pub Refuses : S → NewError → Type 0
  Refuses t copy_failed = w.put t content ≡ none
  Refuses t no_keys = w.pub_ring ≡ false
  Refuses t not_signed =
      (config.verify_changes ≡ true) × ((parse_changes content).0.control.signed ≡ false)
  Refuses t not_verified =
      (config.verify_changes ≡ true)
      × ((parse_changes content).0.control.signature_verified ≡ false)
  Refuses t bad_changes = (parse_changes content).1 ≡ false

  -- What a session is like that begins with a changes file.
  unfoldable pub Begins : S → Started S → Type 0
  Begins t (refused e) = Refuses t e
  Begins t (started x t') =
      (parse_changes content ≡ ((parse_changes content).0, true))
      × (IsSound w (parse_changes content).0 x
          × ((config.verify_changes ≡ true
                → ((parse_changes content).0.control.signed ≡ true)
                  × ((parse_changes content).0.control.signature_verified ≡ true))
              × (((name : Bytes)
                    → get x.expecting name
                      ≡ expected (parse_changes content).0.file_hashes name none)
                  × (w.put t content ≡ some (x.changes_id, t')))))

  session_of : StoreId → Session
  session_of id = record (empty_session w parse_changes config suite dir false) {
    changes = some (parse_changes content).0;
    changes_id = id;
    expecting = expect_files (parse_changes content).0.file_hashes [];
  }

  session_of-IsSound : (id : StoreId) → IsSound w (parse_changes content).0 (session_of id)
  unfolding session_of get
  session_of-IsSound id = record {
    with_changes = refl;
    same_changes = refl;
    checked = λ name uf h r. cc (
        fresh_not_received (is_some (find_index (parse_changes content).0.file_hashes name)) name uf
          (sym (get-expect_files (parse_changes content).0.file_hashes [] name) ∙ h) r);
  }

  session_of-Begins :
      (t t' : S) (id : StoreId)
      → w.put t content ≡ some (id, t')
      → config.verify_changes && not (parse_changes content).0.control.signed ≡ false
      → config.verify_changes && not (parse_changes content).0.control.signature_verified ≡ false
      → not (parse_changes content).1 ≡ false
      → Begins t (started (session_of id) t')
  unfolding Begins session_of get
  session_of-Begins t t' id g s v p = (
    ap (λ b. ((parse_changes content).0, b)) (doubly_denied (parse_changes content).1 p),
    (
      session_of-IsSound id,
      (
        (λ e. (
          if_holds config.verify_changes (parse_changes content).0.control.signed s e,
          if_holds config.verify_changes (parse_changes content).0.control.signature_verified v e,
        )),
        ((λ name. get-expect_files (parse_changes content).0.file_hashes [] name), g),
      ),
    ),
  )

  with_parsed-Begins :
      (t t' : S) (id : StoreId)
      → w.put t content ≡ some (id, t')
      → Begins t (
          with_parsed w parse_changes
            (empty_session w parse_changes config suite dir false)
            id
            (parse_changes content)
            t')
  unfolding Begins Refuses session_of
  with_parsed-Begins t t' id g =
      elim (Bool-cases (config.verify_changes && not (parse_changes content).0.control.signed)) [
        | inl s ↦ rw s (both_hold config.verify_changes (parse_changes content).0.control.signed s)
        | inr s ↦
            elim (Bool-cases
              (config.verify_changes && not (parse_changes content).0.control.signature_verified)) [
                | inl v ↦ rw s (
                    rw v (
                      both_hold config.verify_changes
                        (parse_changes content).0.control.signature_verified v))
                | inr v ↦ elim (Bool-cases (not (parse_changes content).1)) [
                  | inl p ↦ rw s (rw v (rw p (denied (parse_changes content).1 p)))
                  | inr p ↦ rw s (rw v (rw p (session_of-Begins t t' id g s v p)))
                ]
              ]
      ]

  with_copy-Begins :
      (t : S) (o : Option (StoreId × S))
      → w.put t content ≡ o
      → Begins t (
          with_copy w parse_changes
            (empty_session w parse_changes config suite dir false)
            content
            o)
  unfolding Begins Refuses
  with_copy-Begins t none g = g
  with_copy-Begins t (some (id, t')) g = keys w.pub_ring refl
    where
      keys :
          (b : Bool)
          → w.pub_ring ≡ b
          → Begins t (
              if b
              then with_parsed w parse_changes
                  (empty_session w parse_changes config suite dir false)
                  id
                  (parse_changes content)
                  t'
              else refused no_keys)
      keys true k = with_parsed-Begins t t' id g
      keys false k = k

  -- A session with a changes file begins with the file parsed and stored, with a slot that is not received
  -- for each file listed and no other, and, where the release verifies changes, with the file signed and its
  -- signature verified. A refusal has the reason that its error names.
  pub new_upload_session-Begins :
      (t : S) → Begins t (new_upload_session w parse_changes config suite dir false content t)
  unfolding new_upload_session
  new_upload_session-Begins t = with_copy-Begins t (w.put t content) refl

module _ {S : Type 0} (w : World S) (c : ChangesFile) where
  -- Reading one of the files panics.
  unfoldable pub SomePanics : List Incoming → Type 0
  SomePanics [] = ⊥
  SomePanics (u ∷ us) = Panics w u ⊎ SomePanics us

  -- The answers to as many files as came in, and the session after them, which is sound. A panic comes from
  -- one of the files.
  pub Ran : List Incoming → Option (List Reply × (Session × S)) → Type 0
  Ran us none = SomePanics us
  Ran us (some (rs, s)) = (length rs ≡ length us) × IsSound w c s.0

  finish_add-Keeps : {F : Type 0} → Keeps F (IsSound w c) (finish_add w) (λ _. Unit)
  unfolding finish_add
  finish_add-Keeps = >>=-Keeps (session-Keeps (IsSound w c)) (λ x v.
      if-Keeps (all_received x.expecting)
        (>>-Keeps
          (modify-Keeps (IsSound w c) (λ y. record y { complete = true })
            (λ y h. record {
              with_changes = h.with_changes;
              same_changes = h.same_changes;
              checked = h.checked;
            }))
          (λ _. pure-Keeps merged tt))
        (pure-Keeps waiting tt))

  pub handle_add-Keeps :
      (u : Incoming) → Keeps (Panics w u) (IsSound w c) (handle_add w u) (λ _. Unit)
  unfolding handle_add
  handle_add-Keeps u = >>-Keeps (do_add_file-Keeps w c u) (λ _. finish_add-Keeps)

  prepend-Ran :
      (r : Reply) (u : Incoming) (us : List Incoming) (o : Option (List Reply × (Session × S)))
      → Ran us o
      → Ran (u ∷ us) (prepend r o)
  unfolding Ran SomePanics
  prepend-Ran r u us none h = inr h
  prepend-Ran r u us (some (rs, s)) h = (ap suc h.0, h.1)

  reply_and_go-Ran :
      (u : Incoming) (us : List Incoming) (r : Outcome Reply × (Session × S))
      → ((s : Session × S) → IsSound w c s.0 → Ran us (run_handler w us s))
      → Does (Panics w u) (IsSound w c) (λ _. Unit) r
      → Ran (u ∷ us) (reply_and_go w (run_handler w us) r)
  unfolding Ran SomePanics
  reply_and_go-Ran u us (ok r, s) next d = prepend-Ran r u us (run_handler w us s) (next s d.0)
  reply_and_go-Ran u us (err e, s) next d =
      prepend-Ran (failed e) u us (run_handler w us s) (next s d.0)
  reply_and_go-Ran u us (fault, s) next d = inl d.1

  -- From a sound session with a changes file, whatever files come in: the handler gives one reply for
  -- each and leaves a sound session, and it panics only if the reading of one of the files as a package or a
  -- control file panics, or a package counts as signed and verified and has no signer. In a sound session each file received has the size and the store id of bytes
  -- whose three hashes are those that the changes file lists under the name.
  pub run_handler-Ran :
      (us : List Incoming) (s : Session × S) → IsSound w c s.0 → Ran us (run_handler w us s)
  unfolding run_handler Ran
  run_handler-Ran [] s h = (refl, h)
  run_handler-Ran (u ∷ us) s h =
      reply_and_go-Ran u us (handle_add w u s) (λ s' h'. run_handler-Ran us s' h')
        ((handle_add-Keeps u).does s h)
