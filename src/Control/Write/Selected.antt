-- ===== src/Control/Write/Selected.antt =====
-- control.go: the fields with names from a list, and the names that a list leaves over.
use godinstall.Prelude.{
  ◌≡◌, refl, sym, ◌∙◌, ap, subst, inl, inr, Bool, true, false, ◌||◌, List, [], ◌∷◌, ◌++◌, Option,
  none, some, Bytes, bytes_beq, bytes_beq_iff, bytes_Eq, Bool-cases, some_inj, if◌then◌else◌,
}
use godinstall.SafeMap.{get}
use godinstall.Control.{Paragraph}
use godinstall.Control.Fields.{get_end}
use godinstall.Control.RoundTrip.{IsField, AreFields}
use godinstall.Control.Write.{contains, with_field, select, remaining}
use godinstall.Control.Write.Names.{Distinct, or_right, beq_self}

pub remaining-outside :
    (o : List Bytes) (fields : Paragraph) (k : Bytes)
    → contains o k ≡ true
    → contains (remaining o fields) k ≡ false
unfolding remaining contains
remaining-outside o [] k h = refl
remaining-outside o ((name, lines) ∷ fields) k h = elim (Bool-cases (contains o name)) [
  | inl c ↦ rw c (remaining-outside o fields k h)
  | inr c ↦
      rw c
        (ap (λ b. b || contains (remaining o fields) k) (other c) ∙ remaining-outside o fields k h)
]
  where
    other : contains o name ≡ false → bytes_beq name k ≡ false
    other c = elim (Bool-cases (bytes_beq name k)) [
      | inl e ↦ cc (sym c ∙ (ap (contains o) ((bytes_beq_iff name k).0 e) ∙ h))
      | inr e ↦ e
    ]

abbrev pub or_else : Option (List Bytes) → Option (List Bytes) → Option (List Bytes)
or_else none o = o
or_else (some v) o = some v

get-append : (a b : Paragraph) (k : Bytes) → get (a ++ b) k ≡ or_else (get a k) (get b k)
unfolding get
get-append [] b k = refl
get-append ((n, ls) ∷ a) b k = elim (Bool-cases (bytes_beq n k)) [
  | inl e ↦ rw e refl
  | inr e ↦ rw e (get-append a b k)
]

-- A name that is in front is not met again.
front_only :
    (o : List Bytes) (front fields : Paragraph) (k : Bytes) (v : List Bytes)
    → AreFields front fields
    → get front k ≡ some v
    → contains (remaining o fields) k ≡ false
unfolding remaining contains
front_only o front [] k v h g = refl
front_only o front ((name, lines) ∷ fields) k v (f, (n, h)) g = kept (
    front_only o (front ++ ((name, lines) ∷ [])) fields k v h (
      get-append front ((name, lines) ∷ []) k ∙ ap (λ u. or_else u (get ((name, lines) ∷ []) k)) g))
  where
    other : bytes_beq name k ≡ false
    other = elim (Bool-cases (bytes_beq name k)) [
      | inl e ↦ cc (sym n ∙ (ap (get front) ((bytes_beq_iff name k).0 e) ∙ g))
      | inr e ↦ e
    ]

    kept :
        contains (remaining o fields) k ≡ false
        → contains (remaining o ((name, lines) ∷ fields)) k ≡ false
    kept rest = elim (Bool-cases (contains o name)) [
      | inl c ↦ rw c rest
      | inr c ↦ rw c (ap (λ b. b || contains (remaining o fields) k) other ∙ rest)
    ]

pub remaining-Distinct :
    (o : List Bytes) (front fields : Paragraph)
    → AreFields front fields
    → Distinct (remaining o fields)
unfolding remaining Distinct
remaining-Distinct o front [] h = tt
remaining-Distinct o front ((name, lines) ∷ fields) (f, (n, h)) =
    elim (Bool-cases (contains o name)) [
      | inl c ↦ rw c (remaining-Distinct o (front ++ ((name, lines) ∷ [])) fields h)
      | inr c ↦ rw c (
        front_only o (front ++ ((name, lines) ∷ [])) fields name lines h
            (get_end front name lines n),
        remaining-Distinct o (front ++ ((name, lines) ∷ [])) fields h,
      )
    ]

pub if_none : (b : Bool) (o : Option (List Bytes)) → o ≡ none → (if b then o else none) ≡ o
if_none true o e = refl
if_none false o e = sym e

pub get-select :
    (fields : Paragraph) (names : List Bytes) (k : Bytes)
    → get (select fields names) k ≡ (if contains names k then get fields k else none)
unfolding select contains get
get-select fields [] k = refl
get-select fields (n ∷ names) k =
    chosen (get fields n) (bytes_beq n k) refl refl (get-select fields names k)
  where
    rest : Paragraph
    rest = select fields names

    chosen :
        (o : Option (List Bytes)) (b : Bool)
        → get fields n ≡ o
        → bytes_beq n k ≡ b
        → get rest k ≡ (if contains names k then get fields k else none)
        → get (with_field n o rest) k ≡ (if b || contains names k then get fields k else none)
    chosen none true e same ih =
        ih
        ∙ if_none (contains names k) (get fields k)
            (ap (get fields) (sym ((bytes_beq_iff n k).0 same)) ∙ e)
    chosen none false e other ih = ih
    chosen (some ls) true e same ih =
        rw same (sym (ap (get fields) (sym ((bytes_beq_iff n k).0 same)) ∙ e))
    chosen (some ls) false e other ih = rw other ih

pub select-append :
    (fields : Paragraph) (a b : List Bytes)
    → select fields (a ++ b) ≡ select fields a ++ select fields b
unfolding select
select-append fields [] b = refl
select-append fields (n ∷ a) b = added (get fields n) (select-append fields a b)
  where
    added :
        (o : Option (List Bytes))
        → select fields (a ++ b) ≡ select fields a ++ select fields b
        → with_field n o (select fields (a ++ b))
          ≡ with_field n o (select fields a) ++ select fields b
    added none e = e
    added (some ls) e = ap (λ fs. (n, ls) ∷ fs) e

get-IsField :
    (front fields : Paragraph) (k : Bytes) (v : List Bytes)
    → AreFields front fields
    → get fields k ≡ some v
    → IsField (k, v)
unfolding get
get-IsField front [] k v h g = cc g
get-IsField front ((name, lines) ∷ fields) k v (f, (n, h)) g =
    found (bytes_beq name k) refl (get-IsField (front ++ ((name, lines) ∷ [])) fields k v h) g
  where
    found :
        (b : Bool)
        → bytes_beq name k ≡ b
        → (get fields k ≡ some v → IsField (k, v))
        → (if b then some lines else get fields k) ≡ some v
        → IsField (k, v)
    found true same rest e =
        subst IsField
          (ap (λ j. (j, lines)) ((bytes_beq_iff name k).0 same)
            ∙ ap (λ u. (k, u)) (some_inj lines v e))
          f
    found false other rest e = rest e

pub select-AreFields :
    (fields front : Paragraph) (names : List Bytes)
    → AreFields [] fields
    → Distinct names
    → ((k : Bytes) → contains names k ≡ true → get front k ≡ none)
    → AreFields front (select fields names)
unfolding select Distinct contains
select-AreFields fields front [] h d f = tt
select-AreFields fields front (n ∷ names) h (g, d) f =
    chosen (get fields n) refl
      (select-AreFields fields front names h d
        (λ k c. f k (or_right (bytes_beq n k) (contains names k) c)))
      (λ ls. select-AreFields fields (front ++ ((n, ls) ∷ [])) names h d (λ k c. behind ls k c))
  where
    other : (k : Bytes) → contains names k ≡ true → bytes_beq n k ≡ false
    other k c = elim (Bool-cases (bytes_beq n k)) [
      | inl e ↦ cc (sym g ∙ (ap (contains names) ((bytes_beq_iff n k).0 e) ∙ c))
      | inr e ↦ e
    ]

    behind :
        (ls : List Bytes) (k : Bytes)
        → contains names k ≡ true
        → get (front ++ ((n, ls) ∷ [])) k ≡ none
    behind ls k c =
        get-append front ((n, ls) ∷ []) k
        ∙ (ap (λ u. or_else u (get ((n, ls) ∷ []) k))
              (f k (or_right (bytes_beq n k) (contains names k) c))
            ∙ ap (λ b. if b then some ls else none) (other k c))

    chosen :
        (o : Option (List Bytes))
        → get fields n ≡ o
        → AreFields front (select fields names)
        → ((ls : List Bytes) → AreFields (front ++ ((n, ls) ∷ [])) (select fields names))
        → AreFields front (with_field n o (select fields names))
    chosen none e r k = r
    chosen (some ls) e r k =
        (get-IsField [] fields n ls h e, (f n (ap (λ b. b || contains names n) (beq_self n)), k ls))

-- Every name of a field is in the list, or is left to the middle.
pub remaining_rest :
    (o : List Bytes) (fields : Paragraph) (k : Bytes) (v : List Bytes)
    → get fields k ≡ some v
    → contains o k ≡ false
    → contains (remaining o fields) k ≡ true
unfolding remaining get contains
remaining_rest o [] k v g h = cc g
remaining_rest o ((name, lines) ∷ fields) k v g h =
    found (contains o name) (bytes_beq name k) refl refl (remaining_rest o fields k v) g
  where
    found :
        (b c : Bool)
        → contains o name ≡ b
        → bytes_beq name k ≡ c
        → (get fields k ≡ some v → contains o k ≡ false → contains (remaining o fields) k ≡ true)
        → (if c then some lines else get fields k) ≡ some v
        → contains (if b then remaining o fields else name ∷ remaining o fields) k ≡ true
    found true true e same ih g = cc (sym e ∙ (ap (contains o) ((bytes_beq_iff name k).0 same) ∙ h))
    found true false e other ih g = ih g h
    found false true e same ih g = rw same refl
    found false false e other ih g = rw other (ih g h)
