-- ===== src/Upload/Monad.antt =====
-- upload_session.go: code that changes a session and the store and may fail, as actions on both.
use godinstall.Prelude.{◌≡◌, refl, Bool, true, false, Option, none, some, if◌then◌else◌, some_inj}
use godinstall.Deb.{Query, gives, fails, panics}
use godinstall.Upload.{Session, Error}

-- `fault` is a panic.
pub data Outcome (A : Type 0) : Type 0 where
  ok : A → Outcome A
  err : Error → Outcome A
  fault : Outcome A

-- What was changed before an error stays changed.
abbrev pub Action : Type 0 → Type 0 → Type 0
Action S A = Session × S → Outcome A × (Session × S)

abbrev pub and_then :
    {S A B : Type 0} → (A → Action S B) → Outcome A × (Session × S) → Outcome B × (Session × S)
and_then f (ok a, s) = f a s
and_then f (err e, s) = (err e, s)
and_then f (fault, s) = (fault, s)

infixl 5 ◌>>=◌ ◌>>◌
unfoldable pub ◌>>=◌ : {S A B : Type 0} → Action S A → (A → Action S B) → Action S B
(m >>= f) s = and_then f (m s)

unfoldable pub ◌>>◌ : {S B : Type 0} → Action S (Unit {0}) → Action S B → Action S B
unfolding ◌>>=◌
m >> k = m >>= λ _. k

-- What holds of the value of an action that ends with one, and what holds where it panics.
abbrev pub Holds : {A : Type 0} → Type 0 → (A → Type 0) → Outcome A → Type 0
Holds F Q (ok a) = Q a
Holds F Q (err e) = Unit
Holds F Q fault = F

module _ {S : Type 0} where
  unfoldable pub pure : {A : Type 0} → A → Action S A
  pure a s = (ok a, s)

  unfoldable pub raise : {A : Type 0} → Error → Action S A
  raise e s = (err e, s)

  unfoldable pub panic : {A : Type 0} → Action S A
  panic s = (fault, s)

  unfoldable pub guard : Bool → Error → Action S (Unit {0})
  guard true e s = (ok tt, s)
  guard false e s = (err e, s)

  unfoldable pub or_raise : {A : Type 0} → Option A → Error → Action S A
  or_raise none e s = (err e, s)
  or_raise (some a) e s = (ok a, s)

  unfoldable pub ask : {A : Type 0} → Query A → Error → Action S A
  ask (gives a) e s = (ok a, s)
  ask fails e s = (err e, s)
  ask panics e s = (fault, s)

  unfoldable pub or_panic : {A : Type 0} → Option A → Action S A
  or_panic none s = (fault, s)
  or_panic (some a) s = (ok a, s)

  unfoldable pub session : Action S Session
  session s = (ok s.0, s)

  unfoldable pub modify : (Session → Session) → Action S (Unit {0})
  modify f s = (ok tt, (f s.0, s.1))

  -- An operation of the store, with the error that the session makes of its failure.
  abbrev pub stored :
      {A : Type 0} → Session → Error → Option (A × S) → S → Outcome A × (Session × S)
  stored x e none t = (err e, (x, t))
  stored x e (some (a, t')) t = (ok a, (x, t'))

  unfoldable pub in_store : {A : Type 0} → (S → Option (A × S)) → Error → Action S A
  in_store op e (x, t) = stored x e (op t) t

  -- What an action does from a state: it keeps a property of sessions, its value has another,
  -- and it panics only under a condition.
  abbrev pub Does :
      {A : Type 0} → Type 0 → (Session → Type 0) → (A → Type 0) → Outcome A × (Session × S) → Type 0
  Does F P Q (r, s) = P s.0 × Holds F Q r

  pub record Keeps {A : Type 0} (F : Type 0) (P : Session → Type 0) (m : Action S A)
      (Q : A → Type 0) : Type 0 where
    pub does : (s : Session × S) → P s.0 → Does F P Q (m s)

  and_then-Does :
      {A B : Type 0} (F : Type 0) (P : Session → Type 0) (Q : A → Type 0) (R : B → Type 0)
      (f : A → Action S B) (r : Outcome A × (Session × S))
      → ((a : A) → Q a → Keeps F P (f a) R)
      → Does F P Q r
      → Does F P R (and_then f r)
  and_then-Does F P Q R f (ok a, s) k (h, q) = (k a q).does s h
  and_then-Does F P Q R f (err e, s) k (h, q) = (h, tt)
  and_then-Does F P Q R f (fault, s) k (h, q) = (h, q)

  pub >>=-Keeps :
      {A B : Type 0} {F : Type 0} {P : Session → Type 0} {Q : A → Type 0} {R : B → Type 0}
      {m : Action S A} {f : A → Action S B}
      → Keeps F P m Q
      → ((a : A) → Q a → Keeps F P (f a) R)
      → Keeps F P (m >>= f) R
  unfolding ◌>>=◌
  >>=-Keeps {F = F} {P = P} {Q = Q} {R = R} {m = m} {f = f} km kf = record {
    does = λ s h. and_then-Does F P Q R f (m s) kf (km.does s h);
  }

  pub >>-Keeps :
      {B : Type 0} {F : Type 0} {P : Session → Type 0} {Q : Unit {0} → Type 0} {R : B → Type 0}
      {m : Action S (Unit {0})} {k : Action S B}
      → Keeps F P m Q
      → (Q tt → Keeps F P k R)
      → Keeps F P (m >> k) R
  unfolding ◌>>◌
  >>-Keeps km kk = >>=-Keeps km (λ _ q. kk q)

  pub pure-Keeps :
      {A : Type 0} {F : Type 0} {P : Session → Type 0} {Q : A → Type 0} (a : A)
      → Q a
      → Keeps F P (pure a) Q
  unfolding pure
  pure-Keeps a q = record { does = λ s h. (h, q) }

  pub raise-Keeps :
      {A : Type 0} {F : Type 0} {P : Session → Type 0} {Q : A → Type 0} (e : Error)
      → Keeps F P (raise e) Q
  unfolding raise
  raise-Keeps e = record { does = λ s h. (h, tt) }

  pub if-Keeps :
      {A : Type 0} {F : Type 0} {P : Session → Type 0} {Q : A → Type 0} {m k : Action S A}
      (b : Bool)
      → Keeps F P m Q
      → Keeps F P k Q
      → Keeps F P (if b then m else k) Q
  if-Keeps true km kk = km
  if-Keeps false km kk = kk

  -- As `if-Keeps`, where the branch needs that the test holds.
  pub if-Keeps_of :
      {A : Type 0} {F : Type 0} {P : Session → Type 0} {Q : A → Type 0} {m k : Action S A}
      (b : Bool)
      → (b ≡ true → Keeps F P m Q)
      → Keeps F P k Q
      → Keeps F P (if b then m else k) Q
  if-Keeps_of true km kk = km refl
  if-Keeps_of false km kk = kk

  pub guard-Keeps :
      {F : Type 0} (P : Session → Type 0) (b : Bool) (e : Error)
      → Keeps F P (guard b e) (λ _. b ≡ true)
  unfolding guard
  guard-Keeps P true e = record { does = λ s h. (h, refl) }
  guard-Keeps P false e = record { does = λ s h. (h, tt) }

  pub or_raise-Keeps :
      {A : Type 0} {F : Type 0} (P : Session → Type 0) (o : Option A) (e : Error)
      → Keeps F P (or_raise o e) (λ a. o ≡ some a)
  unfolding or_raise
  or_raise-Keeps P none e = record { does = λ s h. (h, tt) }
  or_raise-Keeps P (some a) e = record { does = λ s h. (h, refl) }

  pub or_panic-Keeps :
      {A : Type 0} {F : Type 0} (P : Session → Type 0) (o : Option A) (a : A)
      → o ≡ some a
      → Keeps F P (or_panic o) (λ b. b ≡ a)
  unfolding or_panic
  or_panic-Keeps P none a e = cc e
  or_panic-Keeps P (some b) a e = record { does = λ s h. (h, some_inj b a e) }

  pub or_panic-Keeps_some :
      {A : Type 0} {F : Type 0} (P : Session → Type 0) (o : Option A)
      → (o ≡ none → F)
      → Keeps F P (or_panic o) (λ a. o ≡ some a)
  unfolding or_panic
  or_panic-Keeps_some P none f = record { does = λ s h. (h, f refl) }
  or_panic-Keeps_some P (some a) f = record { does = λ s h. (h, refl) }

  pub ask-Keeps :
      {A : Type 0} {F : Type 0} (P : Session → Type 0) (q : Query A) (e : Error)
      → (q ≡ panics → F)
      → Keeps F P (ask q e) (λ a. q ≡ gives a)
  unfolding ask
  ask-Keeps P (gives a) e f = record { does = λ s h. (h, refl) }
  ask-Keeps P fails e f = record { does = λ s h. (h, tt) }
  ask-Keeps P panics e f = record { does = λ s h. (h, f refl) }

  pub session-Keeps : {F : Type 0} (P : Session → Type 0) → Keeps F P session P
  unfolding session
  session-Keeps P = record { does = λ s h. (h, h) }

  pub modify-Keeps :
      {F : Type 0} (P : Session → Type 0) (f : Session → Session)
      → ((x : Session) → P x → P (f x))
      → Keeps F P (modify f) (λ _. Unit)
  unfolding modify
  modify-Keeps P f k = record { does = λ s h. (k s.0 h, tt) }

  -- The value of an operation of the store is one that it has in some state of it.
  abbrev pub Returns : {A : Type 0} → (S → Option (A × S)) → A → Type 0
  Returns op a = (t : S) × ((t' : S) × (op t ≡ some (a, t')))

  stored-Does :
      {A : Type 0} (F : Type 0) (P : Session → Type 0) (op : S → Option (A × S)) (x : Session)
      (e : Error) (o : Option (A × S)) (t : S)
      → op t ≡ o
      → P x
      → Does F P (Returns op) (stored x e o t)
  stored-Does F P op x e none t g h = (h, tt)
  stored-Does F P op x e (some (a, t')) t g h = (h, (t, (t', g)))

  pub in_store-Keeps :
      {A : Type 0} {F : Type 0} (P : Session → Type 0) (op : S → Option (A × S)) (e : Error)
      → Keeps F P (in_store op e) (Returns op)
  unfolding in_store
  in_store-Keeps {F = F} P op e = record {
    does = λ s h. stored-Does F P op s.0 e (op s.1) s.1 refl h;
  }
