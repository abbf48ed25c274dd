-- ===== src/Control/Write/Ordered.antt =====
-- control.go: WriteDebianControl writes every field once, whatever it is told to begin and to end with.
use godinstall.Prelude.{
  ◌≡◌, refl, sym, ◌∙◌, ap, subst, inl, inr, Bool, true, false, ◌||◌, List, [], ◌∷◌, ◌++◌, Option,
  none, some, Bytes, bytes_Eq, Bool-cases, if◌then◌else◌,
}
use godinstall.SafeMap.{get}
use godinstall.Control.{Paragraph, parse_control}
use godinstall.Control.RoundTrip.{AreFields, parse-write_fields}
use godinstall.Control.Write.{contains, select, remaining, sort_strings, ordered, write_paragraphs}
use godinstall.Control.Write.Names.{
  Distinct, contains-append, contains-sort_strings, sort_strings-Distinct, or_right,
  between-Distinct,
}
use godinstall.Control.Write.Selected.{
  remaining-outside, remaining-Distinct, if_none, get-select, select-append, select-AreFields,
  remaining_rest,
}

middle : List Bytes → List Bytes → Paragraph → List Bytes
middle start end fields = sort_strings (remaining (start ++ end) fields)

all_names : List Bytes → List Bytes → Paragraph → List Bytes
unfolding middle
all_names start end fields = start ++ (middle start end fields ++ end)

ordered_lem :
    (start end : List Bytes) (fields : Paragraph)
    → ordered start end fields ≡ select fields (all_names start end fields)
unfolding ordered all_names middle
ordered_lem start end fields = sym (
    select-append fields start (middle start end fields ++ end)
    ∙ ap (λ r. select fields start ++ r) (select-append fields (middle start end fields) end))

all_names-Distinct :
    (start end : List Bytes) (fields : Paragraph)
    → AreFields [] fields
    → Distinct (start ++ end)
    → Distinct (all_names start end fields)
unfolding all_names middle
all_names-Distinct start end fields h d =
    between-Distinct start (middle start end fields) end d
      (sort_strings-Distinct (remaining (start ++ end) fields)
        (remaining-Distinct (start ++ end) [] fields h))
      (λ k c.
        contains-sort_strings (remaining (start ++ end) fields) k
        ∙ remaining-outside (start ++ end) fields k c)

outer_or : (a m c : Bool) → a || c ≡ true → a || (m || c) ≡ true
outer_or true m c h = refl
outer_or false m c h = or_right m c h

inner_or : (a m c : Bool) → m ≡ true → a || (m || c) ≡ true
inner_or true m c h = refl
inner_or false m c h = ap (λ b. b || c) h

contains-all_names :
    (start end : List Bytes) (fields : Paragraph) (k : Bytes) (v : List Bytes)
    → get fields k ≡ some v
    → contains (all_names start end fields) k ≡ true
unfolding all_names middle
contains-all_names start end fields k v g =
    contains-append start (middle start end fields ++ end) k
    ∙ (ap (λ b. contains start k || b) (contains-append (middle start end fields) end k) ∙ listed)
  where
    listed : contains start k || (contains (middle start end fields) k || contains end k) ≡ true
    listed = elim (Bool-cases (contains (start ++ end) k)) [
      | inl e ↦
          outer_or (contains start k) (contains (middle start end fields) k) (contains end k)
            (sym (contains-append start end k) ∙ e)
      | inr e ↦
          inner_or (contains start k) (contains (middle start end fields) k) (contains end k) (
            contains-sort_strings (remaining (start ++ end) fields) k
            ∙ remaining_rest (start ++ end) fields k v g e)
    ]

get-ordered :
    (start end : List Bytes) (fields : Paragraph) (k : Bytes)
    → get (ordered start end fields) k ≡ get fields k
get-ordered start end fields k =
    ap (λ p. get p k) (ordered_lem start end fields)
    ∙ (get-select fields (all_names start end fields) k ∙ found (get fields k) refl)
  where
    found :
        (o : Option (List Bytes))
        → get fields k ≡ o
        → (if contains (all_names start end fields) k then get fields k else none) ≡ get fields k
    found none e = if_none (contains (all_names start end fields) k) (get fields k) e
    found (some v) e =
        ap (λ b. if b then get fields k else none) (contains-all_names start end fields k v e)

ordered-AreFields :
    (start end : List Bytes) (fields : Paragraph)
    → AreFields [] fields
    → Distinct (start ++ end)
    → AreFields [] (ordered start end fields)
unfolding get
ordered-AreFields start end fields h d = subst (AreFields []) (sym (ordered_lem start end fields)) (
    select-AreFields fields [] (all_names start end fields) h
      (all_names-Distinct start end fields h d) (λ k c. refl))

-- A paragraph that can be written (its names differ, are not empty and hold no colon or line end, nor white space
-- in front, and each has values, without line ends and without white space at their ends, in lines of at most
-- 65535 bytes) is written by WriteDebianControl, whatever the first and the last fields are, if these are
-- all different. ParseDebianControl reads back one paragraph, in which every field has the same values.
pub parse-write_paragraphs :
    (start end : List Bytes) (fields : Paragraph)
    → AreFields [] fields
    → Distinct (start ++ end)
    → (text : Bytes) × ((write_paragraphs start end (fields ∷ []) ≡ some text)
        × ((p : Paragraph) × ((parse_control text ≡ some (p ∷ []))
              × ((k : Bytes) → get p k ≡ get fields k))))
unfolding write_paragraphs
parse-write_paragraphs start end fields h d =
    let (text, (w, r)) =
      parse-write_fields (ordered start end fields) (ordered-AreFields start end fields h d) in
    (text, (w, (ordered start end fields, (r, get-ordered start end fields))))
