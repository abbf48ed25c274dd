-- ===== src/Upload/AddFile/Full.antt =====
-- upload_session.go: a session that has all its files takes no other.
use godinstall.Prelude.{
  ◌≡◌, refl, sym, ap, subst, true, [], Option, none, some, Bytes, bytes_Eq, pos, if◌then◌else◌,
}
use godinstall.SafeMap.{get}
use godinstall.Changes.{ChangesFile}
use godinstall.Release.Entry.{UploadFile}
use godinstall.Upload.{Session, Incoming, Error, not_in_upload_set, already_uploaded, World}
use godinstall.Upload.Monad.{
  Outcome, err, Action, and_then, ◌>>=◌, ◌>>◌, pure, guard, or_raise, session,
}
use godinstall.Upload.AddFile.{find_slot, do_add_file, free_slot}
use godinstall.Upload.AddFile.Checked.{IsSound}

module _ {S : Type 0} where
  -- An error, and no change.
  abbrev pub Rejects : {A : Type 0} → Session × S → Outcome A × (Session × S) → Type 0
  Rejects s r = (e : Error) × (r ≡ (err e, s))

  >>=-Rejects :
      {A B : Type 0} (m : Action S A) (f : A → Action S B) (s : Session × S)
      → Rejects s (m s)
      → Rejects s ((m >>= f) s)
  unfolding ◌>>=◌
  >>=-Rejects m f s (e, h) = (e, ap (and_then f) h)

  pub >>-Rejects :
      {B : Type 0} (m : Action S (Unit {0})) (k : Action S B) (s : Session × S)
      → Rejects s (m s)
      → Rejects s ((m >> k) s)
  unfolding ◌>>◌
  >>-Rejects m k s h = >>=-Rejects m (λ _. k) s h

module _ {S : Type 0} (w : World S) (c : ChangesFile) where
  find_slot-Rejects :
      (u : Incoming) (x : Session) (t : S) (o : Option UploadFile)
      → ((uf : UploadFile) → o ≡ some uf → uf.received ≡ true)
      → Rejects (x, t) ((or_raise o not_in_upload_set >>= free_slot w x u) (x, t))
  unfolding or_raise ◌>>=◌ ◌>>◌ guard
  find_slot-Rejects u x t none r = (not_in_upload_set, refl)
  find_slot-Rejects u x t (some uf) r = (already_uploaded, rw (r uf refl) refl)

  full-Rejects :
      (u : Incoming) (s : Session × S)
      → IsSound w c s.0
      → ((name : Bytes) (uf : UploadFile) → get s.0.expecting name ≡ some uf → uf.received ≡ true)
      → Rejects s (find_slot w u s)
  unfolding find_slot ◌>>=◌ session
  full-Rejects u (x, t) h r =
      subst
        (λ b.
          Rejects (x, t)
            ((if b
                then pure (none, ([], pos 0))
                else (or_raise (get x.expecting u.name) not_in_upload_set >>= free_slot w x u))
              (x, t)))
        (sym h.with_changes) (find_slot-Rejects u x t (get x.expecting u.name) (λ uf. r u.name uf))

  pub do_add_file-Rejects :
      (u : Incoming) (s : Session × S)
      → IsSound w c s.0
      → ((name : Bytes) (uf : UploadFile) → get s.0.expecting name ≡ some uf → uf.received ≡ true)
      → Rejects s (do_add_file w u s)
  unfolding do_add_file
  do_add_file-Rejects u s h r = >>=-Rejects (find_slot w u) _ s (full-Rejects u s h r)
