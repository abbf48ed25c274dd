-- ===== src/Changes/Hashes/Listed.antt =====
-- changes.go, changesFileHashes: each file has the three hashes that the lines of the paragraph give for it.
use godinstall.Prelude.{
  ◌≡◌, refl, sym, ◌∙◌, ap, subst, ◌⊎◌, inl, inr, Bool, true, false, not, ◌&&◌, ◌==◌, List, [], ◌∷◌,
  Option, none, some, Bytes, bytes_Eq, int_Eq, pair_Eq, pair_beq, pair_beq_iff, codes, ℤ, length,
  All, Bool-cases, some_inj, if◌then◌else◌,
}
use godinstall.Hex.{decode}
use godinstall.SafeMap.{get, put, check, is_some}
use godinstall.SafeMap.Laws.{get-put_same, get-put_other}
use godinstall.Control.{Paragraph}
use godinstall.Changes.{
  HashSet, FileHashes, Parsed, parsed, wrong, Fault, ◌>>=◌, or_wrong, malformed_entry,
  malformed_hash, mismatch, hash_of,
}
use godinstall.Changes.Hashes.{
  fields, describe, index_of, add_record, add_records, records_of, f2hs, all_in, compare_counts,
  with_hash, join_hashes, changes_file_hashes,
}

-- A line of three or five words, with a hash for a file.
abbrev pub Describes : Bytes → Bytes × ℤ → Bytes → Type 0
Describes line i h =
    (d : Bytes × (Bytes × Bytes)) × ((describe (fields line) ≡ some d)
      × ((decode d.0 ≡ some h) × (index_of d.1 ≡ i)))

pub OnLine : List Bytes → Bytes × ℤ → Bytes → Type 0
OnLine [] i h = ⊥
OnLine (l ∷ ls) i h = Describes l i h ⊎ OnLine ls i h

-- A line of the field, behind the first, has the hash for the file.
pub InField : Option (List Bytes) → Bytes × ℤ → Bytes → Type 0
InField none i h = ⊥
InField (some []) i h = ⊥
InField (some (l ∷ ls)) i h = OnLine ls i h

>>=-parsed :
    {A B : Type 0} (m : Parsed A) (f : A → Parsed B) (b : B)
    → m >>= f ≡ parsed b
    → (a : A) × ((m ≡ parsed a) × (f a ≡ parsed b))
>>=-parsed (parsed a) f b e = (a, (refl, e))
>>=-parsed (wrong x) f b e = cc e

or_wrong-parsed :
    {A : Type 0} (x : Fault) (o : Option A) (a : A) → or_wrong x o ≡ parsed a → o ≡ some a
or_wrong-parsed x none a e = cc e
or_wrong-parsed x (some b) a e = cc e

parsed_inj : {A : Type 0} (a b : A) → parsed a ≡ parsed b → a ≡ b
parsed_inj a b e = cc e

both_true : (b c : Bool) → b && c ≡ true → (b ≡ true) × (c ≡ true)
both_true true c e = (refl, e)
both_true false c e = cc e

-- Every record is one hash, of which `Q` holds.
Records : Bytes → (Bytes × ℤ → Bytes → Type 0) → FileHashes → Type 0
Records name Q m =
    (i : Bytes × ℤ) (v : HashSet) → get m i ≡ some v → (h : Bytes) × ((v ≡ (name, h) ∷ []) × Q i h)

put-Records :
    (name : Bytes) (Q : Bytes × ℤ → Bytes → Type 0) (m : FileHashes) (j : Bytes × ℤ) (g : Bytes)
    → Q j g
    → Records name Q m
    → Records name Q (put m j ((name, g) ∷ []))
unfolding Records
put-Records name Q m j g q r i v e = elim (Bool-cases (pair_beq j i)) [
  | inl same ↦ (
    g,
    (
      sym (
          some_inj ((name, g) ∷ []) v (
            sym (get-put_same m j ((name, g) ∷ []))
            ∙ ap (get (put m j ((name, g) ∷ []))) ((pair_beq_iff j i).0 same)
            ∙ e)),
      subst (λ k. Q k g) ((pair_beq_iff j i).0 same) q,
    ),
  )
  | inr other ↦
      r i v
        (sym (get-put_other m j i ((name, g) ∷ []) (λ s. cc (other, (pair_beq_iff j i).1 s))) ∙ e)
]

add_record-Records :
    (name : Bytes) (Q : Bytes × ℤ → Bytes → Type 0) (m m' : FileHashes) (l : Bytes)
    → ((i : Bytes × ℤ) (h : Bytes) → Describes l i h → Q i h)
    → Records name Q m
    → add_record name m l ≡ parsed m'
    → Records name Q m'
unfolding add_record
add_record-Records name Q m m' l k r e =
    let (d, (o, e')) = >>=-parsed (or_wrong malformed_entry (describe (fields l))) _ m' e in
    let (h, (o', e'')) = >>=-parsed (or_wrong malformed_hash (decode d.0)) _ m' e' in
    subst (Records name Q) (parsed_inj (put m (index_of d.1) ((name, h) ∷ [])) m' e'') (
      put-Records name Q m (index_of d.1) h
        (k (index_of d.1) h (
          d,
          (
            or_wrong-parsed malformed_entry (describe (fields l)) d o,
            (or_wrong-parsed malformed_hash (decode d.0) h o', refl),
          ),
        ))
        r)

add_records-Records :
    (name : Bytes) (Q : Bytes × ℤ → Bytes → Type 0) (ls : List Bytes) (m m' : FileHashes)
    → All (λ l. (i : Bytes × ℤ) (h : Bytes) → Describes l i h → Q i h) ls
    → Records name Q m
    → add_records name ls m ≡ parsed m'
    → Records name Q m'
unfolding add_records
add_records-Records name Q [] m m' k r e = subst (Records name Q) (parsed_inj m m' e) r
add_records-Records name Q (l ∷ ls) m m' (k, ks) r e =
    let (n, (o, e')) = >>=-parsed (add_record name m l) (add_records name ls) m' e in
    add_records-Records name Q ls n m' ks (add_record-Records name Q m n l k r o) e'

lines_given :
    (Q : Bytes × ℤ → Bytes → Type 0) (ls : List Bytes)
    → ((i : Bytes × ℤ) (h : Bytes) → OnLine ls i h → Q i h)
    → All (λ l. (i : Bytes × ℤ) (h : Bytes) → Describes l i h → Q i h) ls
unfolding OnLine
lines_given Q [] k = tt
lines_given Q (l ∷ ls) k = ((λ i h d. k i h (inl d)), lines_given Q ls (λ i h o. k i h (inr o)))

records_of-Records :
    (name : Bytes) (o : Option (List Bytes)) (m : FileHashes)
    → records_of name o ≡ parsed m
    → Records name (InField o) m
unfolding Records InField get
records_of-Records name none m e =
    subst (Records name (InField none)) (parsed_inj [] m e) (λ i v g. cc g)
records_of-Records name (some []) m e = cc e
records_of-Records name (some (l ∷ ls)) m e =
    add_records-Records name (OnLine ls) ls [] m (lines_given (OnLine ls) ls (λ i h o. o))
      (λ i v g. cc g) e

get-all_in :
    (m others : FileHashes) (i : Bytes × ℤ) (v : HashSet)
    → all_in m others ≡ true
    → get m i ≡ some v
    → (w : HashSet) × (get others i ≡ some w)
unfolding all_in get check
get-all_in [] others i v a g = cc g
get-all_in ((j, u) ∷ m) others i v a g =
    found (pair_beq j i) refl
      (get-all_in m others i v (both_true (is_some (get others j)) (all_in m others) a).1) g
  where
    there : (o : Option HashSet) → is_some o ≡ true → (w : HashSet) × (o ≡ some w)
    there none e = cc e
    there (some w) e = (w, refl)

    found :
        (b : Bool)
        → pair_beq j i ≡ b
        → (get m i ≡ some v → (w : HashSet) × (get others i ≡ some w))
        → (if b then some u else get m i) ≡ some v
        → (w : HashSet) × (get others i ≡ some w)
    found true same rest e =
        subst (λ k. (w : HashSet) × (get others k ≡ some w)) ((pair_beq_iff j i).0 same)
          (there (get others j) (both_true (is_some (get others j)) (all_in m others) a).0)
    found false same rest e = rest e

counts_agree :
    (m others : FileHashes) → compare_counts m others ≡ parsed tt → all_in m others ≡ true
unfolding compare_counts
counts_agree m others e =
    passed (not (length others == 0) && not (length others == length m)) (all_in m others) e
  where
    passed :
        (b c : Bool)
        → (if b then wrong mismatch else if c then parsed tt else wrong mismatch) ≡ parsed (tt {0})
        → c ≡ true
    passed true c e = cc e
    passed false true e = refl
    passed false false e = cc e

get-join_hashes :
    (m sha1s sha256s : FileHashes) (i : Bytes × ℤ) (v : HashSet)
    → get (join_hashes m sha1s sha256s) i ≡ some v
    → (w : HashSet) × ((get m i ≡ some w)
        × (v
            ≡ with_hash
                (get sha256s i)
                (codes "sha256")
                (with_hash (get sha1s i) (codes "sha1") w)))
unfolding join_hashes get
get-join_hashes [] sha1s sha256s i v g = cc g
get-join_hashes ((j, u) ∷ m) sha1s sha256s i v g =
    found (pair_beq j i) refl (get-join_hashes m sha1s sha256s i v) g
  where
    joined : Bytes × ℤ → HashSet → HashSet
    joined k w =
        with_hash (get sha256s k) (codes "sha256") (with_hash (get sha1s k) (codes "sha1") w)

    found :
        (b : Bool)
        → pair_beq j i ≡ b
        → (get (join_hashes m sha1s sha256s) i ≡ some v
            → (w : HashSet) × ((get m i ≡ some w) × (v ≡ joined i w)))
        → (if b then some (joined j u) else get (join_hashes m sha1s sha256s) i) ≡ some v
        → (w : HashSet) × (((if b then some u else get m i) ≡ some w) × (v ≡ joined i w))
    found true same rest e = (
      u,
      (refl, sym (some_inj (joined j u) v e) ∙ ap (λ k. joined k u) ((pair_beq_iff j i).0 same)),
    )
    found false other rest e = rest e

-- The hashes of a file in a changes file with the paragraph `para`.
pub IsListed : Paragraph → Bytes × ℤ → HashSet → Type 0
IsListed para i v =
    (md5 : Bytes) × ((sha1 : Bytes) × ((sha256 : Bytes) × ((v
            ≡ (codes "md5", md5) ∷ (codes "sha1", sha1) ∷ (codes "sha256", sha256) ∷ [])
          × (InField (get para (codes "Files")) i md5
              × (InField (get para (codes "Checksums-Sha1")) i sha1
                  × InField (get para (codes "Checksums-Sha256")) i sha256)))))

f2hs-Records :
    (para : Paragraph) (field name : Bytes) (m : FileHashes)
    → f2hs para field name ≡ parsed m
    → Records name (InField (get para field)) m
unfolding f2hs
f2hs-Records para field name m e = records_of-Records name (get para field) m e

three_hashes :
    (para : Paragraph) (m sha1s sha256s : FileHashes) (i : Bytes × ℤ) (v : HashSet)
    → Records (codes "md5") (InField (get para (codes "Files"))) m
    → Records (codes "sha1") (InField (get para (codes "Checksums-Sha1"))) sha1s
    → Records (codes "sha256") (InField (get para (codes "Checksums-Sha256"))) sha256s
    → all_in m sha1s ≡ true
    → all_in m sha256s ≡ true
    → get (join_hashes m sha1s sha256s) i ≡ some v
    → IsListed para i v
unfolding Records IsListed hash_of get put
three_hashes para m sha1s sha256s i v r1 r2 r3 a2 a3 g =
    let (w, (g1, e)) = get-join_hashes m sha1s sha256s i v g in
    let (w2, g2) = get-all_in m sha1s i w a2 g1 in
    let (w3, g3) = get-all_in m sha256s i w a3 g1 in
    let (md5, (e1, l1)) = r1 i w g1 in
    let (sha1, (e2, l2)) = r2 i w2 g2 in
    let (sha256, (e3, l3)) = r3 i w3 g3 in
    (
      md5,
      (
        sha1,
        (
          sha256,
          (
            e
                ∙ (ap
                      (λ u.
                        with_hash (get sha256s i) (codes "sha256")
                          (with_hash (get sha1s i) (codes "sha1") u))
                      e1
                    ∙ (ap
                          (λ o.
                            with_hash (get sha256s i) (codes "sha256")
                              (with_hash o (codes "sha1") ((codes "md5", md5) ∷ [])))
                          (g2 ∙ ap some e2)
                        ∙ ap
                            (λ o.
                              with_hash o (codes "sha256")
                                ((codes "md5", md5) ∷ (codes "sha1", sha1) ∷ []))
                            (g3 ∙ ap some e3))),
            (l1, (l2, l3)),
          ),
        ),
      ),
    )

-- Where changesFileHashes returns no error, every file of its map has just the three hashes md5, sha1 and
-- sha256, and each stands on a line of Files, Checksums-Sha1 and Checksums-Sha256, behind the first one, that
-- names the file with its size.
pub changes_file_hashes_lem :
    (para : Paragraph) (m : FileHashes)
    → changes_file_hashes para ≡ parsed m
    → (i : Bytes × ℤ) (v : HashSet) → get m i ≡ some v
    → IsListed para i v
unfolding changes_file_hashes
changes_file_hashes_lem para m e i v g =
    let (md5s, (e1, c1)) = >>=-parsed (f2hs para (codes "Files") (codes "md5")) _ m e in
    let (sha1s, (e2, c2)) = >>=-parsed (f2hs para (codes "Checksums-Sha1") (codes "sha1")) _ m c1 in
    let (u2, (a2, c3)) = >>=-parsed (compare_counts md5s sha1s) _ m c2 in
    let (sha256s, (e3, c4)) =
      >>=-parsed (f2hs para (codes "Checksums-Sha256") (codes "sha256")) _ m c3 in
    let (u3, (a3, c5)) = >>=-parsed (compare_counts md5s sha256s) _ m c4 in
    three_hashes para md5s sha1s sha256s i v
      (f2hs-Records para (codes "Files") (codes "md5") md5s e1)
      (f2hs-Records para (codes "Checksums-Sha1") (codes "sha1") sha1s e2)
      (f2hs-Records para (codes "Checksums-Sha256") (codes "sha256") sha256s e3)
      (counts_agree md5s sha1s a2) (counts_agree md5s sha256s a3)
      (subst (λ n. get n i ≡ some v) (sym (parsed_inj (join_hashes md5s sha1s sha256s) m c5)) g)
