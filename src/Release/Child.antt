-- ===== src/Release/Child.antt =====
-- release.go, NewChild: the release that follows another.
mod Tests
use godinstall.Prelude.{
  ℕ, suc, ◌+◌, ◌%◌, ◌^◌, ◌≤◌, ◌<◌, ◌≡◌, refl, sym, ◌∙◌, ap, List, [], ◌∷◌, Option, none, some,
  Bytes, length, arith,
}
use godinstall.Strconv.{NumError, parse_uint, format_nat}
use godinstall.Strconv.RoundTrip.{parse_uint-format_nat}
use godinstall.Release.Index.{StoreId}
use godinstall.Release.Record.{Release}

-- `ver++` is on 64 bits; a version that is no number stays.
abbrev next_release_version : Bytes → ℕ × Option NumError → Bytes
next_release_version version (ver, none) = format_nat ((ver + 1) % 2 ^ 64)
next_release_version version (ver, some e) = version

-- The release is given with its id and the time.
unfoldable pub new_child : StoreId → ℕ → Release → Release
new_child id now r = record r {
  parent_id = id;
  date = now;
  version = next_release_version r.version (parse_uint r.version);
}

-- One child after the other, each given the id of the one before and the time.
abbrev pub descendant : Release → List (StoreId × ℕ) → Release
descendant r [] = r
descendant r ((id, now) ∷ more) = descendant (new_child id now r) more

new_child-version :
    (id : StoreId) (now n : ℕ) (r : Release)
    → r.version ≡ format_nat n
    → n + 1 < 2 ^ 64
    → (new_child id now r).version ≡ format_nat (n + 1)
unfolding new_child
new_child-version id now n r h l =
    ap (λ v. next_release_version v (parse_uint v)) h
    ∙ ap (next_release_version (format_nat n)) (parse_uint-format_nat n (omega (arith, l)))
    ∙ ap format_nat (in_range n l)
  where
    in_range : (n : ℕ) → n + 1 < 2 ^ 64 → (n + 1) % 2 ^ 64 ≡ n + 1
    in_range n l = omega (arith, l)

-- From a release whose version is a number, the k-th of a line of children has that number plus k, as
-- long as it fits in 64 bits, and it still has the index, the configuration and the trim of
-- the release the line began with.
pub descendant_lem :
    (n : ℕ) (r : Release) (steps : List (StoreId × ℕ))
    → r.version ≡ format_nat n
    → n + length steps < 2 ^ 64
    → ((descendant r steps).version ≡ format_nat (n + length steps))
      × ((descendant r steps).index_id ≡ r.index_id)
      × ((descendant r steps).config_id ≡ r.config_id)
      × ((descendant r steps).trim_after ≡ r.trim_after)
unfolding new_child
descendant_lem n r [] h l = (h ∙ ap format_nat (omega arith), refl, refl, refl)
descendant_lem n r ((id, now) ∷ more) h l =
    (let later =
        descendant_lem (n + 1) (new_child id now r) more
          (new_child-version id now n r h (omega (arith, l))) (omega (arith, l)) in
      (later.0 ∙ ap format_nat (omega arith), later.1, later.2, later.3))
