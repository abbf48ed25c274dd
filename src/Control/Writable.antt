-- ===== src/Control/Writable.antt =====
-- A test for the paragraphs of which the text is read back.
use godinstall.Prelude.{
  ℕ, ◌≡◌, refl, Bool, true, false, not, ◌&&◌, ◌||◌, ◌==◌, ltb, length, List, [], ◌∷◌, ◌++◌, Option,
  none, some, Bytes, bytes_beq, bytes_beq_iff, bytes_Eq, All, arith,
}
use godinstall.Strings.{Lacks}
use godinstall.SafeMap.{get, is_some}
use godinstall.Control.{Paragraph, trim_space, line_limit}
use godinstall.Control.Text.{Fits, IsLine, field_lines}
use godinstall.Control.RoundTrip.{IsName, IsValue, IsField, AreFields}

abbrev lacks : ℕ → Bytes → Bool
lacks sep [] = true
lacks sep (c ∷ s) = not (c == sep) && lacks sep s

abbrev line : Bytes → Bool
line s = lacks 10 s && lacks 13 s

abbrev value : Bytes → Bool
value v = line v && bytes_beq (trim_space v) v

abbrev values : List Bytes → Bool
values [] = true
values (v ∷ vs) = value v && values vs

abbrev name : Bytes → Bool
name [] = false
name (c ∷ s) = not ((c == 32) || (c == 9)) && (lacks 58 (c ∷ s) && line (c ∷ s))

abbrev all_fit : List Bytes → Bool
all_fit [] = true
all_fit (l ∷ ls) = ltb (length l) line_limit && all_fit ls

abbrev field : Bytes × List Bytes → Bool
field (n, []) = false
field (n, v ∷ vs) = name n && (all_fit (field_lines (n, v ∷ vs)) && values (v ∷ vs))

unfoldable pub is_writable : Paragraph → Paragraph → Bool
unfolding get
is_writable front [] = true
is_writable front ((n, vs) ∷ fs) =
    field (n, vs) && (not (is_some (get front n)) && is_writable (front ++ ((n, vs) ∷ [])) fs)

both : (a b : Bool) → a && b ≡ true → (a ≡ true) × (b ≡ true)
both true b h = (refl, h)
both false b h = cc h

lacks-Lacks : (sep : ℕ) (s : Bytes) → lacks sep s ≡ true → Lacks sep s
lacks-Lacks sep [] h = tt
lacks-Lacks sep (c ∷ s) h = (ground (arith, h), lacks-Lacks sep s (ground (arith, h)))

line-IsLine : (s : Bytes) → line s ≡ true → IsLine s
line-IsLine s h =
    let (a, b) = both (lacks 10 s) (lacks 13 s) h in (lacks-Lacks 10 s a, lacks-Lacks 13 s b)

values-All : (vs : List Bytes) → values vs ≡ true → All IsValue vs
values-All [] h = tt
values-All (v ∷ vs) h =
    let (a, b) = both (value v) (values vs) h in
    let (l, t) = both (line v) (bytes_beq (trim_space v) v) a in
    ((line-IsLine v l, (bytes_beq_iff (trim_space v) v).0 t), values-All vs b)

denied : (a : Bool) → not a ≡ true → a ≡ false
denied true h = cc h
denied false h = refl

name-IsName : (n : Bytes) → name n ≡ true → IsName n
name-IsName [] h = cc h
name-IsName (c ∷ s) h =
    let (a, b) = both (not ((c == 32) || (c == 9))) (lacks 58 (c ∷ s) && line (c ∷ s)) h in
    let (l, k) = both (lacks 58 (c ∷ s)) (line (c ∷ s)) b in
    (denied ((c == 32) || (c == 9)) a, lacks-Lacks 58 (c ∷ s) l, line-IsLine (c ∷ s) k)

all_fit-All : (ls : List Bytes) → all_fit ls ≡ true → All Fits ls
all_fit-All [] h = tt
all_fit-All (l ∷ ls) h =
    let (a, b) = both (ltb (length l) line_limit) (all_fit ls) h in
    (ground (arith, a), all_fit-All ls b)

field-IsField : (n : Bytes) (vs : List Bytes) → field (n, vs) ≡ true → IsField (n, vs)
field-IsField n [] h = cc h
field-IsField n (v ∷ vs) h =
    let (a, b) = both (name n) (all_fit (field_lines (n, v ∷ vs)) && values (v ∷ vs)) h in
    let (c, d) = both (all_fit (field_lines (n, v ∷ vs))) (values (v ∷ vs)) b in
    (name-IsName n a, (all_fit-All (field_lines (n, v ∷ vs)) c, values-All (v ∷ vs) d))

absent : (o : Option (List Bytes)) → not (is_some o) ≡ true → o ≡ none
absent none h = refl
absent (some v) h = cc h

pub is_writable-AreFields :
    (front fs : Paragraph) → is_writable front fs ≡ true → AreFields front fs
unfolding is_writable
is_writable-AreFields front [] h = tt
is_writable-AreFields front ((n, vs) ∷ fs) h =
    let (a, b) =
      both (field (n, vs)) (not (is_some (get front n)) && is_writable (front ++ ((n, vs) ∷ [])) fs)
        h in
    let (c, d) = both (not (is_some (get front n))) (is_writable (front ++ ((n, vs) ∷ [])) fs) b in
    (
      field-IsField n vs a,
      (absent (get front n) c, is_writable-AreFields (front ++ ((n, vs) ∷ [])) fs d),
    )
