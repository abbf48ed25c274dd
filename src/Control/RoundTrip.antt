-- ===== src/Control/RoundTrip.antt =====
-- control.go: ParseDebianControl reads the fields that WriteDebianControl has written.
use godinstall.Prelude.{
  ◌≡◌, refl, sym, ◌∙◌, ap, false, ◌||◌, ◌==◌, List, [], ◌∷◌, ◌++◌, none, some, Bytes, codes, All,
  All-map, append_assoc, append-nil, if◌then◌else◌, bytes_Eq,
}
use godinstall.Strings.{Lacks, cut}
use godinstall.Strings.SplitJoin.{cut-append}
use godinstall.SafeMap.{get}
use godinstall.Control.{
  Paragraph, add_value, trim_from, trim_left, trim_space, lines, scan_lines, State, continue_field,
  start_field, parse_line, then_lines, parse_lines, parse_control, write_rest, write_field,
  before_text, write_fields,
}
use godinstall.Control.Fields.{add_value-new, add_value-end}
use godinstall.Control.Text.{Fits, IsLine, rest_lines, field_lines, scan_field}

-- A name that the parser reads as such: not empty, no colon, no white space in front.
abbrev pub IsName : Bytes → Type 0
IsName [] = ⊥
IsName (c ∷ name) = (((c == 32) || (c == 9)) ≡ false) × Lacks 58 (c ∷ name) × IsLine (c ∷ name)

abbrev pub IsValue : Bytes → Type 0
IsValue v = IsLine v × (trim_space v ≡ v)

abbrev pub IsField : Bytes × List Bytes → Type 0
IsField (name, []) = ⊥
IsField (name, v ∷ vs) =
    IsName name × (All Fits (field_lines (name, v ∷ vs)) × All IsValue (v ∷ vs))

-- Fields to add behind others, no name twice.
abbrev pub AreFields : Paragraph → Paragraph → Type 0
AreFields front [] = Unit
AreFields front ((name, vs) ∷ fs) =
    IsField (name, vs) × ((get front name ≡ none) × AreFields (front ++ ((name, vs) ∷ [])) fs)

abbrev state : Paragraph → Bytes → State
state p field = record { finished = []; currpara = p; currfield = field }

trim_space-space : (v : Bytes) → trim_space (32 ∷ v) ≡ trim_space v
unfolding trim_space trim_left trim_from
trim_space-space v = refl

name_line :
    (p : Paragraph) (field name v : Bytes)
    → IsName name
    → trim_space v ≡ v
    → parse_line (state p field) (name ++ (codes ": " ++ v))
      ≡ some (state (add_value p name v) name)
unfolding parse_line
name_line p field [] v h t = absurd h
name_line p field (c ∷ name) v (n, h, l) t =
    ap
      (λ b.
        if b
        then continue_field (state p field) line field
        else start_field (state p field) (cut 58 line))
      n
    ∙ ap (start_field (state p field)) (cut-append 58 (c ∷ name) (32 ∷ v) h)
    ∙ ap (λ w. some (state (add_value p (c ∷ name) w) (c ∷ name))) (trim_space-space v ∙ t)
  where
    line : Bytes
    line = (c ∷ name) ++ (codes ": " ++ v)

rest_line :
    (p : Paragraph) (name v : Bytes)
    → IsName name
    → trim_space v ≡ v
    → parse_line (state p name) (32 ∷ v) ≡ some (state (add_value p name v) name)
unfolding parse_line
rest_line p [] v h t = absurd h
rest_line p (c ∷ name) v h t =
    ap (λ w. some (state (add_value p (c ∷ name) w) (c ∷ name))) (trim_space-space v ∙ t)

parse_rest :
    (front : Paragraph) (name : Bytes) (us vs : List Bytes) (ls : List Bytes)
    → IsName name
    → get front name ≡ none
    → All IsValue vs
    → parse_lines (state (front ++ ((name, us) ∷ [])) name) (rest_lines vs ++ ls)
      ≡ parse_lines (state (front ++ ((name, us ++ vs) ∷ [])) name) ls
unfolding parse_lines
parse_rest front name us [] ls n g h =
    ap (λ ws. parse_lines (state (front ++ ((name, ws) ∷ [])) name) ls) (sym (append-nil us))
parse_rest front name us (v ∷ vs) ls n g ((l, t), h) =
    ap (then_lines (λ st. parse_lines st (rest_lines vs ++ ls))) (
      rest_line (front ++ ((name, us) ∷ [])) name v n t
      ∙ ap (λ p. some (state p name)) (add_value-end front name v us g))
    ∙ parse_rest front name (us ++ (v ∷ [])) vs ls n g h
    ∙ ap (λ ws. parse_lines (state (front ++ ((name, ws) ∷ [])) name) ls)
        (append_assoc us (v ∷ []) vs)

parse_field :
    (front : Paragraph) (field name v : Bytes) (vs : List Bytes) (ls : List Bytes)
    → IsField (name, v ∷ vs)
    → get front name ≡ none
    → parse_lines (state front field) (field_lines (name, v ∷ vs) ++ ls)
      ≡ parse_lines (state (front ++ ((name, v ∷ vs) ∷ [])) name) ls
unfolding parse_lines
parse_field front field name v vs ls (n, (z, ((l, t), h))) g =
    ap (then_lines (λ st. parse_lines st (rest_lines vs ++ ls))) (
      name_line front field name v n t
      ∙ ap (λ p. some (state p name)) (add_value-new front name v g))
    ∙ parse_rest front name (v ∷ []) vs ls n g h

name-IsLine : (name : Bytes) → IsName name → IsLine name
name-IsLine [] h = absurd h
name-IsLine (c ∷ name) (n, h, l) = l

-- The text of the fields, and what the parser makes of it.
abbrev pub IsRead : Paragraph → Paragraph → Type 0
IsRead front fs =
    (text : Bytes) × ((write_fields fs ≡ some text)
      × ((field : Bytes)
          → parse_lines (state front field) (scan_lines (lines text)) ≡ some ((front ++ fs) ∷ [])))

cons-IsRead :
    (front : Paragraph) (name v : Bytes) (vs : List Bytes) (fs : Paragraph)
    → IsField (name, v ∷ vs)
    → get front name ≡ none
    → IsRead (front ++ ((name, v ∷ vs) ∷ [])) fs
    → IsRead front ((name, v ∷ vs) ∷ fs)
unfolding write_fields write_field
cons-IsRead front name v vs fs (n, (z, h)) g (text, (w, reads)) = (
  (name ++ (codes ": " ++ (v ++ (10 ∷ write_rest vs)))) ++ text,
  (
    ap (before_text (write_field (name, v ∷ vs))) w,
    λ field.
        ap (parse_lines (state front field))
          (scan_field name v vs text (name-IsLine name n) (All-map (v ∷ vs) (λ u k. k.0) h) z)
        ∙ parse_field front field name v vs (scan_lines (lines text)) (n, (z, h)) g
        ∙ reads name
        ∙ ap (λ p. some (p ∷ [])) (append_assoc front ((name, v ∷ vs) ∷ []) fs),
  ),
)

fields-IsRead : (front fs : Paragraph) → AreFields front fs → IsRead front fs
unfolding write_fields lines scan_lines parse_lines
fields-IsRead front [] h = ([], (refl, λ field. ap (λ p. some (p ∷ [])) (sym (append-nil front))))
fields-IsRead front ((name, []) ∷ fs) (f, (g, h)) = absurd f
fields-IsRead front ((name, v ∷ vs) ∷ fs) (f, (g, h)) =
    cons-IsRead front name v vs fs f g (fields-IsRead (front ++ ((name, v ∷ vs) ∷ [])) fs h)

-- Fields with different names, each with at least one value, are written, and ParseDebianControl reads
-- back one paragraph with the same fields and values in the order they were written. Names are not
-- empty and hold no colon or line end, nor white space in front; values hold no line end, nor white
-- space at their ends. No line of the text has more than 65535 bytes.
pub parse-write_fields :
    (fs : Paragraph)
    → AreFields [] fs
    → (text : Bytes) × ((write_fields fs ≡ some text) × (parse_control text ≡ some (fs ∷ [])))
unfolding parse_control
parse-write_fields fs h = (read.0, (read.1.0, read.1.1 []))
  where
    read : IsRead [] fs
    read = fields-IsRead [] fs h
