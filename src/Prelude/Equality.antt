-- ===== src/Prelude/Equality.antt =====
-- Decidable equality as an interface, and the program's strings, which are lists of bytes.
use Prim.Native.Char.{code}
use Prim.Native.String.{String}
use Prim.Native.Nat.{ℕ}
use mathlib.Core.Path.{◌≡◌, refl, ap}
use mathlib.Core.Logic.{◌↔◌, ◌≢◌}
use mathlib.Core.Bool.{Bool, true, false, ◌&&◌}
use mathlib.Core.List.{List, [], ◌∷◌}
use native.Mathlib.Omega.{arith}
use godinstall.Prelude.Tests.{==_iff, ◌==◌ as nat_beq}
use godinstall.Prelude.Int.{ℤ, eqb_ℤ, eqb_ℤ_iff}

pub record Eq {ℓ} (A : Type ℓ) : Type ℓ where
  pub beq : A → A → Bool
  pub beq_iff : (a b : A) → (beq a b ≡ true) ↔ (a ≡ b)

-- A Go string, or a slice of bytes.
abbrev pub Bytes : Type 0
Bytes = List ℕ

-- The code points of a literal: its bytes, if it is ASCII.
abbrev pub codes : String → Bytes
codes String.[] = []
codes (String.◌∷◌ c s) = code c ∷ codes s

abbrev pub bytes_beq : Bytes → Bytes → Bool
bytes_beq [] [] = true
bytes_beq [] (y ∷ ys) = false
bytes_beq (x ∷ xs) [] = false
bytes_beq (x ∷ xs) (y ∷ ys) = nat_beq x y && bytes_beq xs ys

pub bytes_beq-eq : (a b : Bytes) → bytes_beq a b ≡ true → a ≡ b
bytes_beq-eq [] [] h = refl
bytes_beq-eq [] (y ∷ ys) h = cc
bytes_beq-eq (x ∷ xs) [] h = cc
bytes_beq-eq (x ∷ xs) (y ∷ ys) h = ground (arith, bytes_beq-eq xs ys)

pub bytes_beq_refl : (a : Bytes) → bytes_beq a a ≡ true
bytes_beq_refl [] = refl
bytes_beq_refl (x ∷ xs) = ground (arith, bytes_beq_refl xs)

pub bytes_beq_iff : (a b : Bytes) → (bytes_beq a b ≡ true) ↔ (a ≡ b)
bytes_beq_iff a b = (bytes_beq-eq a b, λ e. rw e (bytes_beq_refl b))

instance abbrev pub nat_Eq : Eq ℕ
nat_Eq = record { beq = nat_beq; beq_iff = ==_iff }

instance abbrev pub bytes_Eq : Eq Bytes
bytes_Eq = record { beq = bytes_beq; beq_iff = bytes_beq_iff }

instance abbrev pub int_Eq : Eq ℤ
int_Eq = record { beq = eqb_ℤ; beq_iff = eqb_ℤ_iff }

module _ {ℓ κ} {A : Type ℓ} {B : Type κ} ⦃first : Eq A⦄ ⦃second : Eq B⦄ where
  abbrev pub pair_beq : A × B → A × B → Bool
  pair_beq (a, b) (c, d) = first.beq a c && second.beq b d

  both_beq :
      (p q : Bool) (a c : A) (b d : B)
      → ((p ≡ true) ↔ (a ≡ c))
      → ((q ≡ true) ↔ (b ≡ d))
      → (p && q ≡ true) ↔ ◌≡◌ {A = A × B} (a, b) (c, d)
  both_beq true q a c b d h k = ((λ e. cc (h.0 refl, k.0 e)), λ e. k.1 (ap (λ r. r.1) e))
  both_beq false q a c b d h k = ((λ e. cc e), λ e. cc (h.1 (ap (λ r. r.0) e)))

  pub pair_beq_iff : (r s : A × B) → (pair_beq r s ≡ true) ↔ (r ≡ s)
  pair_beq_iff (a, b) (c, d) =
      both_beq (first.beq a c) (second.beq b d) a c b d (first.beq_iff a c) (second.beq_iff b d)

  instance abbrev pub pair_Eq : Eq (A × B)
  pair_Eq = record { beq = pair_beq; beq_iff = pair_beq_iff }

abbrev pub bool_beq : Bool → Bool → Bool
bool_beq true b = b
bool_beq false true = false
bool_beq false false = true

pub bool_beq_iff : (a b : Bool) → (bool_beq a b ≡ true) ↔ (a ≡ b)
bool_beq_iff true true = (λ e. e, λ e. e)
bool_beq_iff true false = ((λ e. cc e), λ e. cc e)
bool_beq_iff false true = ((λ e. cc e), λ e. cc e)
bool_beq_iff false false = (λ e. refl, λ e. refl)

instance abbrev pub bool_Eq : Eq Bool
bool_Eq = record { beq = bool_beq; beq_iff = bool_beq_iff }

-- Two concrete texts differ where the test says so.
abbrev pub is_nil : Bytes → Bool
is_nil [] = true
is_nil (c ∷ s) = false

pub bytes-ne : (a b : Bytes) → bytes_beq a b ≡ false → a ≢ b
bytes-ne a b h = λ e. cc (bytes_beq_true e, h)
  where
    bytes_beq_true : a ≡ b → bytes_beq a b ≡ true
    bytes_beq_true e = (bytes_beq_iff a b).1 e
