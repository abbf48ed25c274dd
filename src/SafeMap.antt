-- ===== src/SafeMap.antt =====
-- safemap.go: a map behind a lock. Each operation runs under the lock, so it is one step on the
-- map, here a list of keys with their values; the first pair with a key counts.
pub mod Laws
mod Tests
use godinstall.Prelude.{Bool, true, false, List, [], ◌∷◌, Option, none, some, Eq, if◌then◌else◌}

abbrev pub is_some {ℓ} : {A : Type ℓ} → Option A → Bool
is_some none = false
is_some (some a) = true

module _ {ℓ κ} {K : Type ℓ} {V : Type κ} ⦃key : Eq K⦄ where
  unfoldable pub get : List (K × V) → K → Option V
  get [] k = none
  get ((k', v) ∷ m) k = if key.beq k' k then some v else get m k

  -- `m.bm[k] = v`.
  unfoldable pub put : List (K × V) → K → V → List (K × V)
  put [] k v = (k, v) ∷ []
  put ((k', v') ∷ m) k v = if key.beq k' k then (k', v) ∷ m else (k', v') ∷ put m k v

  unfoldable pub delete : List (K × V) → K → List (K × V)
  delete [] k = []
  delete ((k', v) ∷ m) k = if key.beq k' k then delete m k else (k', v) ∷ delete m k

  unfoldable pub check : List (K × V) → K → Bool
  unfolding get
  check m k = is_some (get m k)

module _ {ℓ κ} {K : Type ℓ} {V : Type κ} ⦃key : Eq K⦄ ⦃value : Eq V⦄ where
  -- The branches of `Set` on what the map holds.
  abbrev pub set_over : List (K × V) → K → V → Option V → Bool × List (K × V)
  set_over m k v none = (true, put m k v)
  set_over m k v (some old) = if value.beq old v then (false, m) else (true, put m k v)

  unfoldable pub set : List (K × V) → K → V → Bool × List (K × V)
  unfolding get put
  set m k v = set_over m k v (get m k)
