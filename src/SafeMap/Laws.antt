-- ===== src/SafeMap/Laws.antt =====
-- safemap.go: what Get and Check find after Set and Delete.
use godinstall.Prelude.{
  ◌≡◌, refl, ◌≢◌, ◌↔◌, inl, inr, Bool, true, false, List, [], ◌∷◌, Option, none, some, Eq,
  if◌then◌else◌, sym, ◌∙◌, ap, some_inj, Bool-cases,
}
use godinstall.SafeMap.{get, put, delete, check, set, set_over}

module _ {ℓ} {K : Type ℓ} ⦃key : Eq K⦄ where
  beq_refl : (k : K) → key.beq k k ≡ true
  beq_refl k = (key.beq_iff k k).1 refl

  beq_ne : (k j : K) → k ≢ j → key.beq k j ≡ false
  beq_ne k j n = elim (Bool-cases (key.beq k j)) [
    | inl e ↦ absurd (n ((key.beq_iff k j).0 e))
    | inr e ↦ e
  ]

module _ {ℓ κ} {K : Type ℓ} {V : Type κ} ⦃key : Eq K⦄ where
  pub get-put_same : (m : List (K × V)) (k : K) (v : V) → get (put m k v) k ≡ some v
  unfolding get put
  get-put_same [] k v = rw (beq_refl k) refl
  get-put_same ((k', v') ∷ m) k v = elim (Bool-cases (key.beq k' k)) [
    | inl e ↦ rw e (rw e refl)
    | inr e ↦ rw e (rw e (get-put_same m k v))
  ]

  pub get-put_other : (m : List (K × V)) (k j : K) (v : V) → k ≢ j → get (put m k v) j ≡ get m j
  unfolding get put
  get-put_other [] k j v n = rw (beq_ne k j n) refl
  get-put_other ((k', v') ∷ m) k j v n = elim (Bool-cases (key.beq k' k)) [
    | inl e ↦ rw e (rw (beq_ne k' j (λ d. n (sym ((key.beq_iff k' k).0 e) ∙ d))) refl)
    | inr e ↦ rw e (ap (λ rest. if key.beq k' j then some v' else rest) (get-put_other m k j v n))
  ]

  get-delete_same : (m : List (K × V)) (k : K) → get (delete m k) k ≡ none
  unfolding get delete
  get-delete_same [] k = refl
  get-delete_same ((k', v') ∷ m) k = elim (Bool-cases (key.beq k' k)) [
    | inl e ↦ rw e (get-delete_same m k)
    | inr e ↦ rw e (rw e (get-delete_same m k))
  ]

  get-delete_other : (m : List (K × V)) (k j : K) → k ≢ j → get (delete m k) j ≡ get m j
  unfolding get delete
  get-delete_other [] k j n = refl
  get-delete_other ((k', v') ∷ m) k j n = elim (Bool-cases (key.beq k' k)) [
    | inl e ↦
        rw e
          (rw (beq_ne k' j (λ d. n (sym ((key.beq_iff k' k).0 e) ∙ d))) (get-delete_other m k j n))
    | inr e ↦ rw e (ap (λ rest. if key.beq k' j then some v' else rest) (get-delete_other m k j n))
  ]

  -- After Delete the key is not found, and every other key is found as before.
  pub delete_lem :
      (m : List (K × V)) (k : K)
      → (get (delete m k) k ≡ none)
        × (check (delete m k) k ≡ false)
        × ((j : K) → k ≢ j → get (delete m k) j ≡ get m j)
  unfolding check
  delete_lem m k = (get-delete_same m k, rw (get-delete_same m k) refl, get-delete_other m k)

module _ {ℓ κ} {K : Type ℓ} {V : Type κ} ⦃key : Eq K⦄ ⦃value : Eq V⦄ where
  -- What a write does, where the map held `o` under the key.
  Sets : List (K × V) → K → V → Bool × List (K × V) → Type (ℓ ⊔ κ)
  Sets m k v r =
      (get r.1 k ≡ some v)
      × (check r.1 k ≡ true)
      × ((j : K) → k ≢ j → get r.1 j ≡ get m j)
      × ((r.0 ≡ false) ↔ (get m k ≡ some v))
      × (get m k ≡ some v → r.1 ≡ m)

  put-Sets : (m : List (K × V)) (k : K) (v : V) → get m k ≢ some v → Sets m k v (true, put m k v)
  unfolding check Sets
  put-Sets m k v n = (
    get-put_same m k v,
    rw (get-put_same m k v) refl,
    λ j. get-put_other m k j v,
    ((λ e. cc e), λ h. absurd (n h)),
    λ h. absurd (n h),
  )

  kept-Sets : (m : List (K × V)) (k : K) (v : V) → get m k ≡ some v → Sets m k v (false, m)
  unfolding check Sets
  kept-Sets m k v h = (h, rw h refl, λ j n. refl, ((λ f. h), λ f. refl), λ f. refl)

  set_over-Sets :
      (m : List (K × V)) (k : K) (v : V) (o : Option V)
      → get m k ≡ o
      → Sets m k v (set_over m k v o)
  set_over-Sets m k v none e = put-Sets m k v (λ h. cc (e, h))
  set_over-Sets m k v (some old) e = elim (Bool-cases (value.beq old v)) [
    | inl same ↦ rw same (kept-Sets m k v (e ∙ ap some ((value.beq_iff old v).0 same)))
    | inr other ↦
        rw other
          (put-Sets m k v (λ h. cc (other, (value.beq_iff old v).1 (some_inj old v (sym e ∙ h)))))
  ]

  -- After Set the key has the value, and every other key is found as before; the result is false just
  -- where the key had the value already, and then the map is the same.
  pub set_lem :
      (m : List (K × V)) (k : K) (v : V)
      → (get (set m k v).1 k ≡ some v)
        × (check (set m k v).1 k ≡ true)
        × ((j : K) → k ≢ j → get (set m k v).1 j ≡ get m j)
        × (((set m k v).0 ≡ false) ↔ (get m k ≡ some v))
        × (get m k ≡ some v → (set m k v).1 ≡ m)
  unfolding set Sets
  set_lem m k v = set_over-Sets m k v (get m k) refl
