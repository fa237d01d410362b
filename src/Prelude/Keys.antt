-- ===== src/Prelude/Keys.antt =====
-- Equality tests as an interface: identifiers, texts and pairs of keys.
use Prim.Native.Nat.{ℕ}
use Prim.Native.Char.{code}
use Prim.Native.String.{String}
use mathlib.Core.Path.{◌≡◌, refl}
use mathlib.Core.Logic.{◌↔◌, ◌≢◌}
use mathlib.Core.Bool.{Bool, true, false, ◌&&◌, ◌||◌}
use mathlib.Core.List.{List, [], ◌∷◌}
use native.Mathlib.Omega.{arith}
use enterprise_llm_gateway.Prelude.Tests.{nat_beq, nat_beq_iff}

-- A test for equality on keys of one type, with what it decides.
pub record Comparable {ℓ} (K : Type ℓ) : Type ℓ where
  pub equal : K → K → Bool
  pub equal_iff : (j k : K) → (equal j k ≡ true) ↔ (j ≡ k)

module _ {ℓ} {K : Type ℓ} ⦃keys : Comparable K⦄ where
  infix 50 ◌==◌
  abbrev pub ◌==◌ : K → K → Bool
  j == k = keys.equal j k

instance abbrev pub nat_eq : Comparable ℕ
nat_eq = record { equal = nat_beq; equal_iff = nat_beq_iff }

-- A Python `str` as its code points.
abbrev pub Text : Type 0
Text = List ℕ

-- The code points of a literal.
abbrev pub codes : String → Text
codes String.[] = []
codes (String.◌∷◌ c s) = code c ∷ codes s

unfoldable pub text_beq : Text → Text → Bool
text_beq [] [] = true
text_beq [] (d ∷ t) = false
text_beq (c ∷ s) [] = false
text_beq (c ∷ s) (d ∷ t) = nat_beq c d && text_beq s t

pub text_beq_iff : (s t : Text) → (text_beq s t ≡ true) ↔ (s ≡ t)
unfolding text_beq
text_beq_iff [] [] = ground arith
text_beq_iff [] (d ∷ t) = ground arith
text_beq_iff (c ∷ s) [] = ground arith
text_beq_iff (c ∷ s) (d ∷ t) = ground (arith, text_beq_iff s t)

instance unfoldable pub text_eq : Comparable Text
text_eq = record { equal = text_beq; equal_iff = text_beq_iff }

pub beq_refl {ℓ} : {A : Type ℓ} ⦃e : Comparable A⦄ (a : A) → (a == a) ≡ true
beq_refl ⦃e⦄ a = (e.equal_iff a a).1 refl

-- `x in xs`
unfoldable pub mem {ℓ} : {A : Type ℓ} ⦃e : Comparable A⦄ → A → List A → Bool
mem x [] = false
mem x (y ∷ ys) = y == x || mem x ys

module _ {ℓ κ} {A : Type ℓ} {B : Type κ} ⦃ea : Comparable A⦄ ⦃eb : Comparable B⦄ where
  unfoldable pub pair_beq : A × B → A × B → Bool
  pair_beq (a, b) (c, d) = a == c && b == d

  pub pair_beq_iff : (p q : A × B) → (pair_beq p q ≡ true) ↔ (p ≡ q)
  unfolding pair_beq
  pair_beq_iff (a, b) (c, d) = ground (arith, ea.equal_iff a c, eb.equal_iff b d)

  instance unfoldable pub pair_eq : Comparable (A × B)
  pair_eq = record { equal = pair_beq; equal_iff = pair_beq_iff }

  pub pair_beq-ne_left : (a c : A) (b d : B) → a ≢ c → ◌==◌ {K = A × B} (a, b) (c, d) ≡ false
  unfolding pair_eq pair_beq
  pair_beq-ne_left a c b d h = ground (arith, ea.equal_iff a c)

  pub pair_beq-ne_right :
      (a c : A) (b d : B) → (b == d) ≡ false → ◌==◌ {K = A × B} (a, b) (c, d) ≡ false
  unfolding pair_eq pair_beq
  pair_beq-ne_right a c b d h = ground arith
