-- ===== src/Archive/Dists.antt =====
-- archive.go: Dists lists just the distributions that GetDist can find the tag of.
mod Tests
use godinstall.Prelude.{
  ℕ, ◌≡◌, ◌≢◌, refl, sym, ◌∙◌, ap, subst, inl, inr, Bool, true, false, ◌||◌, ◌==◌, ==_iff, is_nil,
  List, [], ◌∷◌, ◌++◌, Option, none, some, Bytes, bytes_beq, bytes_beq_iff, bytes_Eq, codes,
  Bool-cases, some_inj, if◌then◌else◌,
}
use godinstall.SafeMap.{get, put, delete, check}
use godinstall.SafeMap.Laws.{get-put_same, get-put_other, delete_lem}
use godinstall.Release.Index.{StoreId}
use godinstall.Archive.{
  Objects, has_slash, head_tag, trim_prefix, with_dist, dists_of, dists, set_dist, delete_dist,
}

trim_prefix_back : (p s r : Bytes) → trim_prefix p s ≡ some r → s ≡ p ++ r
unfolding trim_prefix
trim_prefix_back [] s r h = some_inj s r h
trim_prefix_back (p ∷ ps) [] r h = cc h
trim_prefix_back (p ∷ ps) (c ∷ s) r h = found (p == c) refl (trim_prefix_back ps s r) h
  where
    found :
        (b : Bool)
        → (p == c) ≡ b
        → (trim_prefix ps s ≡ some r → s ≡ ps ++ r)
        → (if b then trim_prefix ps s else none) ≡ some r
        → c ∷ s ≡ p ∷ (ps ++ r)
    found true e ih k = rw (((==_iff p c).0 e), ih k) refl
    found false e ih k = cc k

trim_prefix-append : (p r : Bytes) → trim_prefix p (p ++ r) ≡ some r
unfolding trim_prefix
trim_prefix-append [] r = refl
trim_prefix-append (p ∷ ps) r = rw ((==_iff p p).1 refl) (trim_prefix-append ps r)

-- The tag of a distribution, if its name has no slash.
abbrev pub head : List (Bytes × StoreId) → Bytes → Option StoreId
head tags name = if has_slash name then none else get tags (head_tag name)

abbrev rest_of : Bytes → Bytes
rest_of [] = []
rest_of (c ∷ s) = s

pub head_tag_inj : (a b : Bytes) → head_tag a ≡ head_tag b → a ≡ b
head_tag_inj a b e = ap (λ s. rest_of (rest_of (rest_of (rest_of (rest_of (rest_of s)))))) e

beq_false : (a b : Bytes) → a ≢ b → bytes_beq a b ≡ false
beq_false a b n = elim (Bool-cases (bytes_beq a b)) [
  | inl e ↦ absurd (n ((bytes_beq_iff a b).0 e))
  | inr e ↦ e
]

module _ (tag : Bytes) (id : StoreId) (tags : List (Bytes × StoreId)) (name : Bytes)
    (ih : get (dists_of tags) name ≡ head tags name) where
  passed_over : tag ≢ head_tag name → get (dists_of tags) name ≡ head ((tag, id) ∷ tags) name
  unfolding get
  passed_over n = ih ∙ rw (beq_false tag (head_tag name) n) refl

  hidden : has_slash name ≡ true → get (dists_of tags) name ≡ head ((tag, id) ∷ tags) name
  unfolding get
  hidden e = ih ∙ (ap (λ b. if b then none else get tags (head_tag name)) e ∙ rw e refl)

  of_head :
      (n : Bytes)
      → tag ≡ head_tag n
      → get (with_dist (some n) id (dists_of tags)) name ≡ head ((tag, id) ∷ tags) name
  unfolding get
  of_head n t = elim (Bool-cases (has_slash n)) [
    | inl s ↦ rw s (elim (Bool-cases (has_slash name)) [
      | inl e ↦ hidden e
      | inr e ↦ passed_over (λ f. cc (sym s ∙ (ap has_slash (head_tag_inj n name (sym t ∙ f)) ∙ e)))
    ])
    | inr s ↦ elim (Bool-cases (bytes_beq n name)) [
      | inl e ↦
          rw
            (
              s,
              e,
              sym (ap has_slash ((bytes_beq_iff n name).0 e)) ∙ s,
              (bytes_beq_iff tag (head_tag name)).1 (t ∙ ap head_tag ((bytes_beq_iff n name).0 e)),
            )
            refl
      | inr e ↦
          rw (s, e)
            (passed_over (λ f. cc (e, (bytes_beq_iff n name).1 (head_tag_inj n name (sym t ∙ f)))))
    ]
  ]

  listed :
      (o : Option Bytes)
      → trim_prefix (codes "heads/") tag ≡ o
      → get (with_dist o id (dists_of tags)) name ≡ head ((tag, id) ∷ tags) name
  listed none e = passed_over (λ f.
      cc (sym e ∙ (ap (trim_prefix (codes "heads/")) f ∙ trim_prefix-append (codes "heads/") name)))
  listed (some n) e = of_head n (trim_prefix_back (codes "heads/") tag n e)

get-dists_of :
    (tags : List (Bytes × StoreId)) (name : Bytes) → get (dists_of tags) name ≡ head tags name
unfolding dists_of get
get-dists_of [] name = elim (Bool-cases (has_slash name)) [ inl e ↦ rw e refl | inr e ↦ rw e refl ]
get-dists_of ((tag, id) ∷ tags) name =
    listed tag id tags name (get-dists_of tags name) (trim_prefix (codes "heads/") tag) refl

-- Another map, with `o` under the name.
abbrev pub WithDist : Objects → Bytes → Option StoreId → Objects → Type 0
WithDist s name o t =
    (get (dists t) name ≡ o)
    × ((other : Bytes) → name ≢ other → get (dists t) other ≡ get (dists s) other)

pub not_empty : (s : Bytes) → s ≢ [] → is_nil s ≡ false
not_empty [] n = absurd (n refl)
not_empty (c ∷ s) n = refl

-- The distributions are a map by their names, which have no slash. SetDist puts the new release under the name,
-- and fails just for a name with a slash and for the empty one; DeleteDist removes the name, and fails just for one that is not there.
-- Neither touches another name. This takes it that no operation on a file fails.
pub dists_lem :
    (s : Objects) (name : Bytes) (id : StoreId)
    → (has_slash name ≡ true
        → (set_dist name id s ≡ none) × ((delete_dist name s ≡ none) × (get (dists s) name ≡ none)))
      × (set_dist [] id s ≡ none)
      × ((has_slash name ≡ false
            → name ≢ []
            → (t : Objects) × ((set_dist name id s ≡ some t) × WithDist s name (some id) t))
          × (((old : StoreId)
                → get (dists s) name ≡ some old
                → (t : Objects) × ((delete_dist name s ≡ some t) × WithDist s name none t))
              × (get (dists s) name ≡ none → delete_dist name s ≡ none)))
unfolding set_dist delete_dist dists check
dists_lem s name id = (
  (λ e. (rw e refl, (rw e refl, get-dists_of s.tags name ∙ rw e refl))),
  refl,
  (
    (λ e n. (
      set_to,
      (
        rw (e, not_empty name n) refl,
        (
          get-dists_of set_to.tags name ∙ rw e (get-put_same s.tags (head_tag name) id),
          λ other n.
              get-dists_of set_to.tags other
              ∙ (ap (λ o. if has_slash other then none else o)
                    (get-put_other s.tags (head_tag name) (head_tag other) id
                      (λ f. n (head_tag_inj name other f)))
                  ∙ sym (get-dists_of s.tags other)),
        ),
      ),
    )),
    (
      (λ old g. by_slash (has_slash name) refl (sym (get-dists_of s.tags name) ∙ g)),
      (λ g. unlisted (has_slash name) refl (sym (get-dists_of s.tags name) ∙ g)),
    ),
  ),
)
  where
    set_to : Objects
    set_to = record s { tags = put s.tags (head_tag name) id }

    deleted : Objects
    deleted = record s { tags = delete s.tags (head_tag name) }

    by_slash :
        {old : StoreId} (b : Bool)
        → has_slash name ≡ b
        → (if b then none else get s.tags (head_tag name)) ≡ some old
        → (t : Objects) × ((delete_dist name s ≡ some t) × WithDist s name none t)
    by_slash true e g = cc g
    by_slash false e g = (
      deleted,
      (
        rw (e, g) refl,
        (
          get-dists_of deleted.tags name ∙ rw e (delete_lem s.tags (head_tag name)).0,
          λ other n.
              get-dists_of deleted.tags other
              ∙ (ap (λ o. if has_slash other then none else o)
                    ((delete_lem s.tags (head_tag name)).2 (head_tag other)
                      (λ f. n (head_tag_inj name other f)))
                  ∙ sym (get-dists_of s.tags other)),
        ),
      ),
    )

    unlisted :
        (b : Bool)
        → has_slash name ≡ b
        → (if b then none else get s.tags (head_tag name)) ≡ none
        → delete_dist name s ≡ none
    unlisted true e g = rw e refl
    unlisted false e g = rw (e, g) refl
