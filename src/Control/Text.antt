-- ===== src/Control/Text.antt =====
-- control.go: the lines that WriteDebianControl writes for a field, and how the scanner finds them.
use godinstall.Prelude.{
  ℕ, ◌≡◌, ◌≢◌, ◌<◌, refl, sym, ◌∙◌, ap, true, false, List, [], ◌∷◌, ◌++◌, Bytes, codes, All,
  All-append, append_assoc, ◌==◌, ltb, length, if◌then◌else◌, arith,
}
use godinstall.Strings.{Lacks, cons_head}
use godinstall.Control.{line_limit, lines, drop_return, scan_lines, write_rest}

-- A line that the scanner takes.
abbrev pub Fits : Bytes → Type 0
Fits l = length l < line_limit

-- A text that can stand in a line.
abbrev pub IsLine : Bytes → Type 0
IsLine l = Lacks 10 l × Lacks 13 l

abbrev pub rest_lines : List Bytes → List Bytes
rest_lines [] = []
rest_lines (v ∷ vs) = (32 ∷ v) ∷ rest_lines vs

abbrev pub field_lines : Bytes × List Bytes → List Bytes
field_lines (name, []) = []
field_lines (name, v ∷ vs) = (name ++ (codes ": " ++ v)) ∷ rest_lines vs

drop_return_lem : (l : Bytes) → Lacks 13 l → drop_return l ≡ l
unfolding drop_return
drop_return_lem [] h = refl
drop_return_lem (c ∷ []) (n, h) = ground (arith, n)
drop_return_lem (c ∷ d ∷ s) (n, h) = ap (λ l. c ∷ l) (drop_return_lem (d ∷ s) h)

lines_cons : (c : ℕ) (s : Bytes) → c ≢ 10 → lines (c ∷ s) ≡ cons_head c (lines s)
unfolding lines
lines_cons c s n = rw (not_feed c n) refl
  where
    not_feed : (c : ℕ) → c ≢ 10 → (c == 10) ≡ false
    not_feed c n = ground (arith, n)

lines-append : (l s : Bytes) → Lacks 10 l → lines (l ++ (10 ∷ s)) ≡ l ∷ lines s
unfolding lines
lines-append [] s h = refl
lines-append (c ∷ l) s (n, h) =
    lines_cons c (l ++ (10 ∷ s)) n ∙ ap (cons_head c) (lines-append l s h)

scan_line :
    (l s : Bytes)
    → IsLine l
    → Fits l
    → scan_lines (lines (l ++ (10 ∷ s))) ≡ l ∷ scan_lines (lines s)
unfolding scan_lines
scan_line l s (a, b) z =
    ap scan_lines (lines-append l s a)
    ∙ ap (λ c. if c then drop_return l ∷ scan_lines (lines s) else []) fits
    ∙ ap (λ d. d ∷ scan_lines (lines s)) (drop_return_lem l b)
  where
    fits : ltb (length l) line_limit ≡ true
    fits = ground (arith, z)

space-IsLine : (v : Bytes) → IsLine v → IsLine (32 ∷ v)
space-IsLine v (a, b) = ((λ e. absurd (omega (arith, e)), a), (λ e. absurd (omega (arith, e)), b))

colon-IsLine : (v : Bytes) → IsLine v → IsLine (58 ∷ 32 ∷ v)
colon-IsLine v (a, b) = (
  (λ e. absurd (omega (arith, e)), (λ e. absurd (omega (arith, e)), a)),
  (λ e. absurd (omega (arith, e)), (λ e. absurd (omega (arith, e)), b)),
)

scan_rest :
    (vs : List Bytes) (s : Bytes)
    → All IsLine vs
    → All Fits (rest_lines vs)
    → scan_lines (lines (write_rest vs ++ s)) ≡ rest_lines vs ++ scan_lines (lines s)
unfolding write_rest
scan_rest [] s h z = refl
scan_rest (v ∷ vs) s ((a, b), h) (z, y) =
    ap (λ t. scan_lines (lines (32 ∷ t))) (append_assoc v (10 ∷ write_rest vs) s)
    ∙ scan_line (32 ∷ v) (write_rest vs ++ s) (space-IsLine v (a, b)) z
    ∙ ap (λ ls. (32 ∷ v) ∷ ls) (scan_rest vs s h y)

field_text :
    (name v t s : Bytes)
    → (name ++ (58 ∷ 32 ∷ (v ++ (10 ∷ t)))) ++ s ≡ (name ++ (58 ∷ 32 ∷ v)) ++ (10 ∷ (t ++ s))
field_text name v t s =
    append_assoc name (58 ∷ 32 ∷ (v ++ (10 ∷ t))) s
    ∙ ap (λ l. name ++ (58 ∷ 32 ∷ l)) (append_assoc v (10 ∷ t) s)
    ∙ sym (append_assoc name (58 ∷ 32 ∷ v) (10 ∷ (t ++ s)))

pub scan_field :
    (name v : Bytes) (vs : List Bytes) (s : Bytes)
    → IsLine name
    → All IsLine (v ∷ vs)
    → All Fits (field_lines (name, v ∷ vs))
    → scan_lines (lines ((name ++ (codes ": " ++ (v ++ (10 ∷ write_rest vs)))) ++ s))
      ≡ field_lines (name, v ∷ vs) ++ scan_lines (lines s)
scan_field name v vs s (na, nb) (hv, h) (z, y) =
    ap (λ t. scan_lines (lines t)) (field_text name v (write_rest vs) s)
    ∙ scan_line (name ++ (58 ∷ 32 ∷ v)) (write_rest vs ++ s)
        (
          All-append (λ c. c ≢ 10) name (58 ∷ 32 ∷ v) na (colon-IsLine v hv).0,
          All-append (λ c. c ≢ 13) name (58 ∷ 32 ∷ v) nb (colon-IsLine v hv).1,
        )
        z
    ∙ ap (λ ls. (name ++ (58 ∷ 32 ∷ v)) ∷ ls) (scan_rest vs s h y)
