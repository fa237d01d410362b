-- ===== src/Prelude/Decimal.antt =====
-- The decimal text of a number, `str(n)`, and that it tells numbers apart.
use Prim.Native.Nat.{ℕ, zero, suc, ◌+◌, ◌-◌, ◌*◌, ◌/◌, ◌%◌, ◌≤◌}
use mathlib.Core.Path.{◌≡◌, refl, sym, ap, ◌∙◌}
use mathlib.Core.Logic.{inl, inr}
use mathlib.Core.List.{List, [], ◌∷◌, ◌++◌}
use native.Mathlib.Omega.{arith}
use enterprise_llm_gateway.Prelude.Tests.{ltb, if◌then◌else◌, Bool-cases}
use enterprise_llm_gateway.Prelude.Keys.{Text}

-- The digits of `n`, with fuel: `n` itself is enough.
unfoldable pub digits : ℕ → ℕ → Text
digits zero n = (48 + n) ∷ []
digits (suc f) n =
    let rest = digits f (n / 10) in if ltb n 10 then (48 + n) ∷ [] else rest ++ ((48 + n % 10) ∷ [])

unfoldable pub decimal : ℕ → Text
unfolding digits
decimal n = digits n n

-- The number that a text of digits writes, after `acc`.
read : ℕ → Text → ℕ
read acc [] = acc
read acc (d ∷ ds) = read (acc * 10 + (d - 48)) ds

read-append : (acc : ℕ) (s t : Text) → read acc (s ++ t) ≡ read (read acc s) t
unfolding read
read-append acc [] t = refl
read-append acc (d ∷ s) t = read-append (acc * 10 + (d - 48)) s t

read-digits : (f n : ℕ) → n ≤ f → read 0 (digits f n) ≡ n
unfolding read digits
read-digits zero n h = omega arith
read-digits (suc f) n h =
    let small : read 0 (digits f (n / 10)) ≡ n / 10 = read-digits f (n / 10) (omega arith) in
    elim (Bool-cases (ltb n 10)) [
      | inl low ↦ rw low (omega arith)
      | inr high ↦
          rw (high, read-append 0 (digits f (n / 10)) ((48 + n % 10) ∷ []), small) (omega arith)
    ]

pub decimal-inj : (m n : ℕ) → decimal m ≡ decimal n → m ≡ n
unfolding decimal
decimal-inj m n h =
    sym (read-digits m m (omega arith)) ∙ ap (read 0) h ∙ read-digits n n (omega arith)

pub append-cancel {ℓ} : {A : Type ℓ} (p : List A) {s t : List A} → p ++ s ≡ p ++ t → s ≡ t
append-cancel [] h = h
append-cancel (x ∷ p) h = append-cancel p (cc)
