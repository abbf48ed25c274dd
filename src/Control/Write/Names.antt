-- ===== src/Control/Write/Names.antt =====
-- control.go: names in a list, and the order of sort.Strings.
use godinstall.Prelude.{
  ◌≡◌, refl, sym, ◌∙◌, ap, inl, inr, Bool, true, false, ◌||◌, List, [], ◌∷◌, ◌++◌, Bytes, bytes_beq,
  bytes_beq_iff, bytes_Eq, pos, ltb_ℤ, Bool-cases,
}
use godinstall.Strings.{bytes_compare}
use godinstall.Control.Write.{contains, insert, sort_strings}

-- No name twice.
unfoldable pub Distinct : List Bytes → Type 0
Distinct [] = Unit
Distinct (n ∷ names) = (contains names n ≡ false) × Distinct names

pub or_false : (a b : Bool) → a || b ≡ false → (a ≡ false) × (b ≡ false)
or_false true b h = cc h
or_false false b h = (refl, h)

beq_swap : (a b : Bytes) → bytes_beq a b ≡ bytes_beq b a
beq_swap a b = elim (Bool-cases (bytes_beq a b)) [
  | inl e ↦ e ∙ sym ((bytes_beq_iff b a).1 (sym ((bytes_beq_iff a b).0 e)))
  | inr e ↦ elim (Bool-cases (bytes_beq b a)) [
    | inl f ↦ cc (sym e ∙ (bytes_beq_iff a b).1 (sym ((bytes_beq_iff b a).0 f)))
    | inr f ↦ e ∙ sym f
  ]
]

pub contains-append :
    (a b : List Bytes) (k : Bytes) → contains (a ++ b) k ≡ contains a k || contains b k
unfolding contains
contains-append [] b k = refl
contains-append (n ∷ a) b k = elim (Bool-cases (bytes_beq n k)) [
  | inl e ↦ rw e refl
  | inr e ↦ rw e (contains-append a b k)
]

contains-insert :
    (n : Bytes) (names : List Bytes) (k : Bytes)
    → contains (insert n names) k ≡ bytes_beq n k || contains names k
unfolding contains insert
contains-insert n [] k = refl
contains-insert n (m ∷ names) k = elim (Bool-cases (ltb_ℤ (bytes_compare m n) (pos 0))) [
  | inl l ↦ rw l (
      ap (λ b. bytes_beq m k || b) (contains-insert n names k)
      ∙ or_swap (bytes_beq m k) (bytes_beq n k) (contains names k))
  | inr l ↦ rw l refl
]
  where
    or_swap : (a b c : Bool) → a || (b || c) ≡ b || (a || c)
    or_swap true true c = refl
    or_swap true false c = refl
    or_swap false b c = refl

pub contains-sort_strings :
    (names : List Bytes) (k : Bytes) → contains (sort_strings names) k ≡ contains names k
unfolding sort_strings contains
contains-sort_strings [] k = refl
contains-sort_strings (n ∷ names) k =
    contains-insert n (sort_strings names) k
    ∙ ap (λ b. bytes_beq n k || b) (contains-sort_strings names k)

insert-Distinct :
    (n : Bytes) (names : List Bytes)
    → contains names n ≡ false
    → Distinct names
    → Distinct (insert n names)
unfolding insert contains Distinct
insert-Distinct n [] h d = (refl, tt)
insert-Distinct n (m ∷ names) h (g, d) = elim (Bool-cases (ltb_ℤ (bytes_compare m n) (pos 0))) [
  | inl l ↦ rw l (
    contains-insert n names m
        ∙ (ap (λ b. b || contains names m)
              (beq_swap n m ∙ (or_false (bytes_beq m n) (contains names n) h).0)
            ∙ g),
    insert-Distinct n names (or_false (bytes_beq m n) (contains names n) h).1 d,
  )
  | inr l ↦ rw l (h, (g, d))
]

pub sort_strings-Distinct : (names : List Bytes) → Distinct names → Distinct (sort_strings names)
unfolding sort_strings Distinct
sort_strings-Distinct [] d = tt
sort_strings-Distinct (n ∷ names) (h, d) =
    insert-Distinct n (sort_strings names) (contains-sort_strings names n ∙ h)
      (sort_strings-Distinct names d)

pub or_right : (a b : Bool) → b ≡ true → a || b ≡ true
or_right true b h = refl
or_right false b h = h

pub beq_self : (n : Bytes) → bytes_beq n n ≡ true
beq_self n = (bytes_beq_iff n n).1 refl

contains_none :
    (a b : List Bytes) (k : Bytes)
    → contains a k ≡ false
    → contains b k ≡ false
    → contains (a ++ b) k ≡ false
contains_none a b k h g = contains-append a b k ∙ (ap (λ c. c || contains b k) h ∙ g)

-- Names between others, with none of them.
pub between-Distinct :
    (a m b : List Bytes)
    → Distinct (a ++ b)
    → Distinct m
    → ((k : Bytes) → contains (a ++ b) k ≡ true → contains m k ≡ false)
    → Distinct (a ++ (m ++ b))
unfolding Distinct contains
between-Distinct [] [] b d e h = d
between-Distinct [] (n ∷ m) b d (g, e) h = (
  contains_none m b n g (elim (Bool-cases (contains b n)) [
    | inl c ↦ cc (beq_self n, (or_false (bytes_beq n n) (contains m n) (h n c)).0)
    | inr c ↦ c
  ]),
  between-Distinct [] m b d e (λ k c. (or_false (bytes_beq n k) (contains m k) (h k c)).1),
)
between-Distinct (n ∷ a) m b (g, d) e h = (
  contains_none a (m ++ b) n outside.0
      (contains_none m b n (h n (ap (λ c. c || contains (a ++ b) n) (beq_self n))) outside.1),
  between-Distinct a m b d e (λ k c. h k (or_right (bytes_beq n k) (contains (a ++ b) k) c)),
)
  where
    outside : (contains a n ≡ false) × (contains b n ≡ false)
    outside = or_false (contains a n) (contains b n) (sym (contains-append a b n) ∙ g)
