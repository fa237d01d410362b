-- ===== src/Money.antt =====
-- application/ports/money.py. An amount is a whole number of 10^-8 units, the exponent to which the
-- code quantizes; the sums that the ledger makes of such amounts are exact, as Decimal's are.
use enterprise_llm_gateway.Prelude.{
  Bool, Option, Text, [], false, if◌then◌else◌, length, nat_beq, nat_eq, none, not, pair_eq, some,
  text_eq, true, ℕ, ◌&&◌, ◌==◌, ◌||◌, ◌∷◌,
}
use enterprise_llm_gateway.Prelude.Int.{ℤ, ◌+ℤ◌}

pub record Money : Type 0 where
  pub amount : ℤ
  pub currency : Text

-- What Python's Unicode tables say of a character: whether it is a letter, an upper-case one, and a
-- lower- or title-case one.
pub record Characters : Type 0 where
  pub alphabetic : ℕ → Bool
  pub uppercase : ℕ → Bool
  pub other_case : ℕ → Bool

module _ (chars : Characters) where
  any_upper : Text → Bool
  any_upper [] = false
  any_upper (c ∷ cs) = chars.uppercase c || any_upper cs

  any_other_case : Text → Bool
  any_other_case [] = false
  any_other_case (c ∷ cs) = chars.other_case c || any_other_case cs

  all_alphabetic : Text → Bool
  all_alphabetic [] = true
  all_alphabetic (c ∷ cs) = chars.alphabetic c && all_alphabetic cs

  -- `str.isupper` and `str.isalpha`
  unfoldable pub isupper : Text → Bool
  unfolding any_upper any_other_case
  isupper t = any_upper t && not (any_other_case t)

  unfoldable pub isalpha : Text → Bool
  unfolding all_alphabetic
  isalpha [] = false
  isalpha (c ∷ cs) = all_alphabetic (c ∷ cs)

  -- `Money.__post_init__`: none is the ValueError.
  unfoldable pub money : ℤ → Text → Option Money
  unfolding isupper isalpha
  money a c =
      if nat_beq (length c) 3 && isupper c && isalpha c
      then some (record { amount = a; currency = c })
      else none

-- `Money.__add__`: none is the ValueError for two currencies.
unfoldable pub add : Money → Money → Option Money
add a b =
    if b.currency == a.currency
    then some (record { amount = a.amount +ℤ b.amount; currency = a.currency })
    else none
