-- ===== src/Control/Fields.antt =====
-- control.go: GetValues and GetValue after AddValue and SetValue.
use godinstall.Prelude.{
  ◌≡◌, refl, sym, ◌∙◌, ap, append_assoc, subst, inl, inr, List, [], ◌∷◌, ◌++◌, Option, none, some,
  Bytes, bytes_beq, bytes_beq_iff, bytes_Eq, Bool-cases, if◌then◌else◌,
}
use godinstall.SafeMap.{get, put}
use godinstall.SafeMap.Laws.{get-put_same, get-put_other}
use godinstall.Control.{Paragraph, first_value, get_value, set_value, appended, add_value}

-- Values added one after another, each to its field.
abbrev pub add_all : Paragraph → List (Bytes × Bytes) → Paragraph
add_all p [] = p
add_all p ((k, v) ∷ es) = add_all (add_value p k v) es

-- The values for a field, in order.
abbrev pub values_of : Bytes → List (Bytes × Bytes) → List Bytes
values_of k [] = []
values_of k ((j, v) ∷ es) = if bytes_beq j k then v ∷ values_of k es else values_of k es

-- The values of a field with others behind them; a field without a value is not there.
abbrev pub joined : Option (List Bytes) → List Bytes → Option (List Bytes)
joined o [] = o
joined none (v ∷ vs) = some (v ∷ vs)
joined (some us) (v ∷ vs) = some (us ++ (v ∷ vs))

joined_cons :
    (o : Option (List Bytes)) (v : Bytes) (vs : List Bytes)
    → joined (some (appended o v)) vs ≡ joined o (v ∷ vs)
joined_cons none v [] = refl
joined_cons none v (w ∷ vs) = refl
joined_cons (some us) v [] = refl
joined_cons (some us) v (w ∷ vs) = ap some (append_assoc us (v ∷ []) (w ∷ vs))

first_kept :
    (o : Option (List Bytes)) (vs : List Bytes) (w : Bytes)
    → first_value o ≡ some w
    → first_value (joined o vs) ≡ some w
first_kept o [] w e = e
first_kept none (v ∷ vs) w e = cc e
first_kept (some []) (v ∷ vs) w e = cc e
first_kept (some (u ∷ us)) (v ∷ vs) w e = e

get-add_all :
    (p : Paragraph) (es : List (Bytes × Bytes)) (k : Bytes)
    → get (add_all p es) k ≡ joined (get p k) (values_of k es)
unfolding add_value
get-add_all p [] k = refl
get-add_all p ((j, v) ∷ es) k =
    get-add_all (add_value p j v) es k ∙ elim (Bool-cases (bytes_beq j k)) [
      | inl e ↦ rw e (
          subst
            (λ i.
              joined (get (put p i (appended (get p i) v)) k) (values_of k es)
              ≡ joined (get p k) (v ∷ values_of k es))
            (sym ((bytes_beq_iff j k).0 e))
            (ap (λ o. joined o (values_of k es)) (get-put_same p k (appended (get p k) v))
              ∙ joined_cons (get p k) v (values_of k es)))
      | inr e ↦ rw e (
          ap (λ o. joined o (values_of k es))
            (get-put_other p j k (appended (get p j) v) (λ s. cc (e, (bytes_beq_iff j k).1 s))))
    ]

-- After values were added to fields of a paragraph by AddValue, in any order, each field has the values it had, and
-- behind them those added to it, in the order they were added; GetValue finds the value it found before, where it
-- found one. SetValue then leaves its value alone in the field, which GetValue finds.
pub add_value_lem :
    (p : Paragraph) (es : List (Bytes × Bytes))
    → ((k : Bytes) → get (add_all p es) k ≡ joined (get p k) (values_of k es))
      × ((k w : Bytes) → get_value p k ≡ some w → get_value (add_all p es) k ≡ some w)
      × ((k v : Bytes)
          → (get (set_value (add_all p es) k v) k ≡ some (v ∷ []))
            × (get_value (set_value (add_all p es) k v) k ≡ some v))
unfolding set_value get_value
add_value_lem p es = (
  get-add_all p es,
  (λ k w e. ap first_value (get-add_all p es k) ∙ first_kept (get p k) (values_of k es) w e),
  λ k v. (
    get-put_same (add_all p es) k (v ∷ []),
    ap first_value (get-put_same (add_all p es) k (v ∷ [])),
  ),
)

pub get_end :
    (front : Paragraph) (k : Bytes) (us : List Bytes)
    → get front k ≡ none
    → get (front ++ ((k, us) ∷ [])) k ≡ some us
unfolding get
get_end [] k us h = rw ((bytes_beq_iff k k).1 refl) refl
get_end ((j, ws) ∷ front) k us h = elim (Bool-cases (bytes_beq j k)) [
  | inl e ↦ cc (sym h ∙ ap (λ b. if b then some ws else get front k) e)
  | inr e ↦ rw e (get_end front k us (sym (ap (λ b. if b then some ws else get front k) e) ∙ h))
]

put_new :
    (front : Paragraph) (k : Bytes) (us : List Bytes)
    → get front k ≡ none
    → put front k us ≡ front ++ ((k, us) ∷ [])
unfolding get put
put_new [] k us h = refl
put_new ((j, ws) ∷ front) k us h = elim (Bool-cases (bytes_beq j k)) [
  | inl e ↦ cc (sym h ∙ ap (λ b. if b then some ws else get front k) e)
  | inr e ↦ rw e (
      ap (λ l. (j, ws) ∷ l)
        (put_new front k us (sym (ap (λ b. if b then some ws else get front k) e) ∙ h)))
]

put_end :
    (front : Paragraph) (k : Bytes) (us vs : List Bytes)
    → get front k ≡ none
    → put (front ++ ((k, us) ∷ [])) k vs ≡ front ++ ((k, vs) ∷ [])
unfolding get put
put_end [] k us vs h = rw ((bytes_beq_iff k k).1 refl) refl
put_end ((j, ws) ∷ front) k us vs h = elim (Bool-cases (bytes_beq j k)) [
  | inl e ↦ cc (sym h ∙ ap (λ b. if b then some ws else get front k) e)
  | inr e ↦ rw e (
      ap (λ l. (j, ws) ∷ l)
        (put_end front k us vs (sym (ap (λ b. if b then some ws else get front k) e) ∙ h)))
]

pub add_value-new :
    (front : Paragraph) (k v : Bytes)
    → get front k ≡ none
    → add_value front k v ≡ front ++ ((k, v ∷ []) ∷ [])
unfolding add_value
add_value-new front k v h = ap (λ o. put front k (appended o v)) h ∙ put_new front k (v ∷ []) h

pub add_value-end :
    (front : Paragraph) (k v : Bytes) (us : List Bytes)
    → get front k ≡ none
    → add_value (front ++ ((k, us) ∷ [])) k v ≡ front ++ ((k, us ++ (v ∷ [])) ∷ [])
unfolding add_value
add_value-end front k v us h =
    ap (λ o. put (front ++ ((k, us) ∷ [])) k (appended o v)) (get_end front k us h)
    ∙ put_end front k us (us ++ (v ∷ [])) h
