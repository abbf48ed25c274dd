-- ===== src/Upload/Handler/Merges.antt =====
-- upload_session.go: a session with a changes file is merged once, when every file is there.
use godinstall.Prelude.{
  ◌≡◌, refl, sym, inl, inr, subst, Bool, true, false, ◌&&◌, List, [], ◌∷◌, Option, none, some,
  Bytes, bytes_beq, bytes_Eq, if◌then◌else◌, some_inj,
}
use godinstall.SafeMap.{get}
use godinstall.Changes.{ChangesFile}
use godinstall.Release.Entry.{UploadFile}
use godinstall.Upload.{Session, Incoming, World}
use godinstall.Upload.Monad.{
  Outcome, ok, err, fault, and_then, ◌>>=◌, ◌>>◌, pure, session, modify, Does,
}
use godinstall.Upload.AddFile.{do_add_file}
use godinstall.Upload.AddFile.Full.{Rejects, >>-Rejects, do_add_file-Rejects}
use godinstall.Upload.AddFile.Checked.{Panics, IsSound}
use godinstall.Upload.Handler.{
  all_received, Reply, failed, waiting, merged, prepend, finish_add, handle_add, reply_and_go,
  run_handler,
}
use godinstall.Upload.Handler.Sound.{SomePanics, handle_add-Keeps}

-- Nothing but errors.
pub Settled : List Reply → Type 0
Settled [] = Unit
Settled (failed e ∷ rs) = Settled rs
Settled (waiting ∷ rs) = ⊥
Settled (merged ∷ rs) = ⊥

-- One merge at most, with nothing but errors after it.
pub Orderly : List Reply → Type 0
Orderly [] = Unit
Orderly (failed e ∷ rs) = Orderly rs
Orderly (waiting ∷ rs) = Orderly rs
Orderly (merged ∷ rs) = Settled rs

and_cases : (b c : Bool) → b && c ≡ true → (b ≡ true) × (c ≡ true)
and_cases true c h = (refl, h)
and_cases false c h = cc h

received_all :
    (files : List (Bytes × UploadFile)) (name : Bytes) (uf : UploadFile)
    → all_received files ≡ true
    → get files name ≡ some uf
    → uf.received ≡ true
unfolding all_received get
received_all [] name uf a h = cc h
received_all ((k, g) ∷ files) name uf a h =
    found (bytes_beq k name) (received_all files name uf both.1) h
  where
    both : (g.received ≡ true) × (all_received files ≡ true)
    both = and_cases g.received (all_received files) a

    found :
        (b : Bool)
        → (get files name ≡ some uf → uf.received ≡ true)
        → (if b then some g else get files name) ≡ some uf
        → uf.received ≡ true
    found true rest e = subst (λ f. f.received ≡ true) (some_inj g uf e) both.0
    found false rest e = rest e

module _ {S : Type 0} where
  -- How a run answers; F holds where it panics.
  pub Answers : Type 0 → (List Reply → Type 0) → Option (List Reply × (Session × S)) → Type 0
  Answers F P none = F
  Answers F P (some (rs, s)) = P rs

  prepend-Answers :
      (F G : Type 0) (P Q : List Reply → Type 0) (r : Reply)
      (o : Option (List Reply × (Session × S)))
      → ((rs : List Reply) → P rs → Q (r ∷ rs))
      → (F → G)
      → Answers F P o
      → Answers G Q (prepend r o)
  unfolding Answers
  prepend-Answers F G P Q r none k p h = p h
  prepend-Answers F G P Q r (some (rs, s)) k p h = k rs h

module _ {S : Type 0} (w : World S) (c : ChangesFile) where
  -- Where the goroutine was told to merge, every file is there.
  Full : Outcome Reply × (Session × S) → Type 0
  Full (ok merged, s) = all_received s.0.expecting ≡ true
  Full (ok waiting, s) = Unit
  Full (ok (failed e), s) = Unit
  Full (err e, s) = Unit
  Full (fault, s) = Unit

  finish_add-Full : (s : Session × S) → Full (finish_add w s)
  unfolding finish_add Full ◌>>=◌ ◌>>◌ session modify pure
  finish_add-Full (x, t) = round (all_received x.expecting) refl
    where
      round :
          (b : Bool)
          → all_received x.expecting ≡ b
          → Full (
              (if b
                  then (modify (λ y. record y { complete = true }) >> pure merged)
                  else pure waiting)
                (x, t))
      round true e = e
      round false e = tt

  handle_add-Full : (r : Outcome (Unit {0}) × (Session × S)) → Full (and_then (λ _. finish_add w) r)
  unfolding Full
  handle_add-Full (ok a, s) = finish_add-Full s
  handle_add-Full (err e, s) = tt
  handle_add-Full (fault, s) = tt

  handle_add-Rejects :
      (u : Incoming) (s : Session × S)
      → IsSound w c s.0
      → all_received s.0.expecting ≡ true
      → Rejects s (handle_add w u s)
  unfolding handle_add
  handle_add-Rejects u s h a =
      >>-Rejects (do_add_file w u) (finish_add w) s
        (do_add_file-Rejects w c u s h (λ name uf. received_all s.0.expecting name uf a))

  reply_and_go-Settled :
      (u : Incoming) (us : List Incoming) (s : Session × S) (r : Outcome Reply × (Session × S))
      → Rejects s r
      → Answers (SomePanics w c us) Settled (run_handler w us s)
      → Answers (SomePanics w c (u ∷ us)) Settled (reply_and_go w (run_handler w us) r)
  unfolding Settled SomePanics
  reply_and_go-Settled u us s r (e, h) a =
      subst (λ v. Answers (SomePanics w c (u ∷ us)) Settled (reply_and_go w (run_handler w us) v))
        (sym h)
        (prepend-Answers (SomePanics w c us) (SomePanics w c (u ∷ us)) Settled Settled (failed e)
          (run_handler w us s) (λ rs k. k) inr a)

  run_handler-Settled :
      (us : List Incoming) (s : Session × S)
      → IsSound w c s.0
      → all_received s.0.expecting ≡ true
      → Answers (SomePanics w c us) Settled (run_handler w us s)
  unfolding run_handler Answers Settled
  run_handler-Settled [] s h a = tt
  run_handler-Settled (u ∷ us) s h a =
      reply_and_go-Settled u us s (handle_add w u s) (handle_add-Rejects u s h a)
        (run_handler-Settled us s h a)

  reply_and_go-Orderly :
      (u : Incoming) (us : List Incoming) (r : Outcome Reply × (Session × S))
      → ((s : Session × S)
          → IsSound w c s.0
          → Answers (SomePanics w c us) Orderly (run_handler w us s))
      → Does (Panics w u) (IsSound w c) (λ _. Unit) r
      → Full r
      → Answers (SomePanics w c (u ∷ us)) Orderly (reply_and_go w (run_handler w us) r)
  unfolding Full Orderly Answers SomePanics
  reply_and_go-Orderly u us (ok merged, s) next d f =
      prepend-Answers (SomePanics w c us) (SomePanics w c (u ∷ us)) Settled Orderly merged
        (run_handler w us s) (λ rs k. k) inr (run_handler-Settled us s d.0 f)
  reply_and_go-Orderly u us (ok waiting, s) next d f =
      prepend-Answers (SomePanics w c us) (SomePanics w c (u ∷ us)) Orderly Orderly waiting
        (run_handler w us s) (λ rs k. k) inr (next s d.0)
  reply_and_go-Orderly u us (ok (failed e), s) next d f =
      prepend-Answers (SomePanics w c us) (SomePanics w c (u ∷ us)) Orderly Orderly (failed e)
        (run_handler w us s) (λ rs k. k) inr (next s d.0)
  reply_and_go-Orderly u us (err e, s) next d f =
      prepend-Answers (SomePanics w c us) (SomePanics w c (u ∷ us)) Orderly Orderly (failed e)
        (run_handler w us s) (λ rs k. k) inr (next s d.0)
  reply_and_go-Orderly u us (fault, s) next d f = inl d.1

  all_there : (u : Incoming) (s : Session × S) → Full (handle_add w u s)
  unfolding handle_add ◌>>◌ ◌>>=◌
  all_there u s = handle_add-Full (do_add_file w u s)

  -- From a sound session with a changes file, whatever files come in: the session is merged once at most,
  -- after which it answers every file with an error. The handler panics only if the reading of one of the files
  -- as a package or a control file panics, or a package counts as signed and verified and has no signer.
  pub run_handler-Orderly :
      (us : List Incoming) (s : Session × S)
      → IsSound w c s.0
      → Answers (SomePanics w c us) Orderly (run_handler w us s)
  unfolding run_handler Answers Orderly
  run_handler-Orderly [] s h = tt
  run_handler-Orderly (u ∷ us) s h =
      reply_and_go-Orderly u us (handle_add w u s) (λ s' h'. run_handler-Orderly us s' h')
        ((handle_add-Keeps w c u).does s h) (all_there u s)
