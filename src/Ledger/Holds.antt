-- ===== src/Ledger/Holds.antt =====
-- The amount held: the sum of the estimates of the reservations that are still `reserved`, and how
-- each operation on one organization's ledger moves it beside the running total `reserved`.
use enterprise_llm_gateway.Prelude.{
  Bool-cases, Option, Text, [], arith, if◌then◌else◌, inl, inr, nat_eq, none, pair_eq, refl, some,
  text_eq, true, ℕ, ◌==◌, ◌∷◌, ◌≡◌,
}
use enterprise_llm_gateway.Prelude.Dict.{Dict, get, map_values, put, values}
use enterprise_llm_gateway.Prelude.Int.{int_laws, pos, ℤ, ◌+ℤ◌, ◌-ℤ◌}
use enterprise_llm_gateway.Ledger.{Reservation, expire, is_reserved, is_stale, return_holds, stale}

abbrev pub held : Reservation → ℤ
held r = if is_reserved r.status then r.estimated_cost.amount else pos 0

unfoldable pub holds : Dict Text Reservation → ℤ
holds [] = pos 0
holds ((k, r) ∷ d) = held r +ℤ holds d

-- What is held under a key.
abbrev pub held_at : Option Reservation → ℤ
held_at none = pos 0
held_at (some r) = held r

pub holds-put :
    (k : Text) (r : Reservation) (d : Dict Text Reservation)
    → holds (put k r d) +ℤ held_at (get k d) ≡ holds d +ℤ held r
unfolding holds put get
holds-put k r [] = omega int_laws
holds-put k r ((j, w) ∷ d) = elim (Bool-cases (j == k)) [
  | inl same ↦ rw same (omega int_laws)
  | inr differ ↦ rw differ (grind (int_laws, holds-put k r d))
]

held-expire :
    (older : ℕ) (r : Reservation)
    → held (expire older r) ≡ (if is_stale older r then pos 0 else held r)
unfolding expire is_stale
held-expire older r = ground arith

move_old : (x a h h' total : ℤ) → a +ℤ h ≡ total -ℤ x +ℤ h' → a +ℤ (x +ℤ h) ≡ total +ℤ (pos 0 +ℤ h')
move_old x a h h' total e = grind int_laws

move_live : (x a h h' total : ℤ) → a +ℤ h ≡ total +ℤ h' → a +ℤ (x +ℤ h) ≡ total +ℤ (x +ℤ h')
move_live x a h h' total e = grind int_laws

held-stale :
    (older : ℕ) (r : Reservation) → is_stale older r ≡ true → held r ≡ r.estimated_cost.amount
unfolding is_stale
held-stale older r h = ground arith

-- The loop that returns the stale holds takes as much from the total as marking them takes from
-- the holds.
pub return_holds-stale :
    (older : ℕ) (d : Dict Text Reservation) (total : ℤ)
    → return_holds (stale older (values d)) total +ℤ holds d
      ≡ total +ℤ holds (map_values (expire older) d)
unfolding return_holds stale values holds map_values
return_holds-stale older [] total = refl
return_holds-stale older ((k, r) ∷ d) total = elim (Bool-cases (is_stale older r)) [
  | inl old ↦
      let rest = stale older (values d) in
      rw old (
        rw (held-expire older r) (
          rw old (
            rw (held-stale older r old) (
              move_old r.estimated_cost.amount
                (return_holds rest (total -ℤ r.estimated_cost.amount)) (holds d)
                (holds (map_values (expire older) d)) total
                (return_holds-stale older d (total -ℤ r.estimated_cost.amount))))))
  | inr live ↦ rw live (
      rw (held-expire older r) (
        rw live (
          move_live (held r) (return_holds (stale older (values d)) total) (holds d)
            (holds (map_values (expire older) d)) total (return_holds-stale older d total))))
]
