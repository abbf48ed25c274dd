-- ===== src/DebVersion/RoundTrip.antt =====
-- ParseDebVersion reads back what DebVersion.String prints.
use godinstall.Prelude.{
  ◌≡◌, ◌≢◌, refl, ◌⊎◌, true, false, List, [], ◌∷◌, ◌++◌, some, arith, Bytes, ℤ, pos, negsuc, eqb_ℤ,
  eqb_ℤ_iff, All, All-append, append_assoc, Bool-cases, inl, inr, if◌then◌else◌, suc, ap,
}
use godinstall.Strings.{Lacks, split, join}
use godinstall.Strings.SplitJoin.{
  split-ne-nil, join-split, split_lacking, split_at_last, init-append, last-append, cut_lacking,
  cut-append,
}
use godinstall.Strconv.{parse_int, format_int, digits}
use godinstall.Strconv.RoundTrip.{
  IsDigit, IsInt64, digits-IsDigit, format_nat_lem, parse_int-format_int,
}
use godinstall.DebVersion.{DebVersion, is_empty, to_string, of_parts, with_epoch, parse}

-- What Debian policy asks of a version: a colon needs an epoch, a dash a revision.
pub record IsPrintable (d : DebVersion) : Type 0 where
  pub epoch_fits : IsInt64 d.epoch
  pub no_colon : d.epoch ≡ pos 0 → Lacks b':' d.version × Lacks b':' d.revision
  pub no_dash : Lacks b'-' d.revision
  pub native : d.revision ≡ [] → Lacks b'-' d.version

of_parts_last :
    (e : ℤ) (ps : List Bytes) (r : Bytes)
    → ps ≢ []
    → of_parts e (ps ++ r ∷ []) ≡ record { epoch = e; version = join b'-' ps; revision = r }
of_parts_last e [] r h = absurd (h refl)
of_parts_last e (p ∷ []) r h = unfold join in refl
of_parts_last e (p ∷ q ∷ ps) r h =
    ground (arith, init-append (p ∷ q ∷ ps) r, last-append (p ∷ q ∷ ps) r)

of_parts-split :
    (e : ℤ) (v r : Bytes)
    → Lacks b'-' r
    → of_parts e (split b'-' (v ++ b'-' ∷ r)) ≡ record { epoch = e; version = v; revision = r }
of_parts-split e v r h = rw (
  split_at_last b'-' v r h,
  of_parts_last e (split b'-' v) r (split-ne-nil b'-' v),
  join-split b'-' v,
)

digits-Lacks : (s : Bytes) → All IsDigit s → Lacks b':' s
digits-Lacks [] h = tt
digits-Lacks (c ∷ s) (hc, hs) = (ground arith, digits-Lacks s hs)

format_int-Lacks : (z : ℤ) → Lacks b':' (format_int z)
unfolding format_int
format_int-Lacks (pos n) =
    rw (format_nat_lem n) (digits-Lacks (digits n n) (digits-IsDigit n n (omega arith)))
format_int-Lacks (negsuc n) = (
  ground arith,
  rw (format_nat_lem (suc n))
      (digits-Lacks (digits (suc n) (suc n)) (digits-IsDigit (suc n) (suc n) (omega arith))),
)

-- What stands behind the epoch.
tail_text : DebVersion → Bytes
tail_text d = if is_empty d.revision then d.version else d.version ++ b'-' ∷ d.revision

empty_or_not : (s : Bytes) → (s ≡ []) × (is_empty s ≡ true) ⊎ (is_empty s ≡ false)
empty_or_not [] = inl (refl, refl)
empty_or_not (c ∷ s) = inr refl

of_parts-tail_text :
    (d : DebVersion) → IsPrintable d → of_parts d.epoch (split b'-' (tail_text d)) ≡ d
unfolding tail_text
of_parts-tail_text d p = elim (empty_or_not d.revision) [
  | inl (none_there, e) ↦
      rw (e, split_lacking b'-' d.version (p.native none_there)) (ground (arith, none_there))
  | inr e ↦ rw (e, of_parts-split d.epoch d.version d.revision p.no_dash) refl
]

tail_text-Lacks :
    (d : DebVersion) → Lacks b':' d.version × Lacks b':' d.revision → Lacks b':' (tail_text d)
unfolding tail_text
tail_text-Lacks d (hv, hr) = elim (Bool-cases (is_empty d.revision)) [
  | inl e ↦ rw e hv
  | inr e ↦ rw e (All-append (λ c. c ≢ b':') d.version (b'-' ∷ d.revision) hv (ground arith, hr))
]

to_string_lem :
    (d : DebVersion)
    → to_string d
      ≡ (if eqb_ℤ d.epoch (pos 0) then tail_text d else format_int d.epoch ++ (b':' ∷ tail_text d))
unfolding to_string tail_text
to_string_lem d = ground (
  arith,
  append_assoc (format_int d.epoch) (b':' ∷ []) d.version,
  append_assoc (format_int d.epoch ++ b':' ∷ []) d.version (b'-' ∷ d.revision),
  append_assoc (format_int d.epoch) (b':' ∷ []) (d.version ++ b'-' ∷ d.revision),
)

parse_plain : (s : Bytes) → Lacks b':' s → parse s ≡ some (of_parts (pos 0) (split b'-' s))
unfolding parse
parse_plain s h = ground (arith, cut_lacking b':' s h)

parse_epoch : (e s : Bytes) → Lacks b':' e → parse (e ++ b':' ∷ s) ≡ with_epoch (parse_int e 64) s
unfolding parse
parse_epoch e s h = ground (arith, cut-append b':' e s h)

-- A printable version is read back from its text.
pub parse-to_string : (d : DebVersion) → IsPrintable d → parse (to_string d) ≡ some d
parse-to_string d p = elim (Bool-cases (eqb_ℤ d.epoch (pos 0))) [
  | inl e ↦
      let zero_epoch = (eqb_ℤ_iff d.epoch (pos 0)).0 e in
      rw (
        to_string_lem d,
        e,
        parse_plain (tail_text d) (tail_text-Lacks d (p.no_colon zero_epoch)),
        ← zero_epoch,
        of_parts-tail_text d p,
      )
  | inr e ↦
      rw
        (
          to_string_lem d,
          e,
          parse_epoch (format_int d.epoch) (tail_text d) (format_int-Lacks d.epoch),
          parse_int-format_int d.epoch p.epoch_fits,
        )
        (ap some (of_parts-tail_text d p))
]
