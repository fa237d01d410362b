-- ===== src/Json/Reader.antt =====
-- A reader of JSON text literals, and that it reads back what `dumps_text` writes.
use mathlib.Core.List.{append_assoc}
use mathlib.Core.Path.{subst}
use enterprise_llm_gateway.Prelude.{
  Bool, Option, Text, [], ap, arith, false, if-cases, if◌then◌else◌, leb, ltb, nat_eq, none,
  pair_eq, refl, some, suc, sym, text_eq, true, zero, ℕ, ◌%◌, ◌&&◌, ◌*◌, ◌++◌, ◌+◌, ◌-◌, ◌/◌, ◌<◌,
  ◌==◌, ◌||◌, ◌∙◌, ◌∷◌, ◌≡◌,
}
use enterprise_llm_gateway.Json.{
  dumps_char, dumps_chars, dumps_other, dumps_text, hex_digit, unicode_escape,
}

-- Between characters, after a backslash, or with so many digits of `\uXXXX` to come.
pub data Mode : Type 0 where
  open_text escaped : Mode
  digits : ℕ → ℕ → Mode

unfoldable pub hex_value : ℕ → ℕ
hex_value d = if ltb d 58 then d - 48 else d - 87

-- The character of a short escape.
unfoldable pub short_escape : ℕ → ℕ
short_escape c =
    if c == 110
    then 10
    else if c == 114
    then 13
    else if c == 116
    then 9
    else if c == 102
    then 12
    else if c == 98
    then 8
    else c

abbrev onto_text : ℕ → Option Text → Option Text
onto_text c none = none
onto_text c (some t) = some (c ∷ t)

abbrev is_high : ℕ → Bool
is_high n = leb 55296 n && ltb n 56320

-- The character of a code unit, with the high surrogate before it, if any.
unfoldable pub unit : Option ℕ → ℕ → Option Text → Option Text
unit none n rest = onto_text n rest
unit (some high) n rest = onto_text (65536 + (high - 55296) * 1024 + (n - 56320)) rest

unfoldable pub receive : Option ℕ → ℕ → Option Text → Option Text → Option Text
unfolding unit
receive high n waiting rest = if is_high n then waiting else unit high n rest

unfoldable pub scan : Mode → Option ℕ → Text → Option Text
unfolding hex_value short_escape receive
scan mode high [] = none
scan open_text high (c ∷ t) =
    if c == 34
    then some []
    else elim (c == 92) [ true ↦ scan escaped high t | false ↦ onto_text c (scan open_text none t) ]
scan escaped high (c ∷ t) = elim (c == 117) [
  | true ↦ scan (digits 3 0) high t
  | false ↦ onto_text (short_escape c) (scan open_text none t)
]
scan (digits zero n) high (d ∷ t) =
    let v = n * 16 + hex_value d in
    receive high v (scan open_text (some v) t) (scan open_text none t)
scan (digits (suc k) n) high (d ∷ t) = scan (digits k (n * 16 + hex_value d)) high t

-- The text of a JSON literal, up to its closing quote.
unfoldable pub loads_text : Text → Option Text
unfolding scan
loads_text [] = none
loads_text (c ∷ t) = if c == 34 then scan open_text none t else none

-- The characters of a text are Unicode scalar values.
unfoldable pub is_scalar : ℕ → Bool
is_scalar c = ltb c 55296 || (ltb 57343 c && ltb c 1114112)

unfoldable pub all_scalar : Text → Bool
unfolding is_scalar
all_scalar [] = true
all_scalar (c ∷ t) = is_scalar c && all_scalar t

hex_value-hex_digit : (n : ℕ) → n < 16 → hex_value (hex_digit n) ≡ n
unfolding hex_value hex_digit
hex_value-hex_digit n h = ground arith

hex_parts :
    (n : ℕ)
    → n < 65536
    → ((((n / 4096 % 16) * 16 + n / 256 % 16) * 16 + n / 16 % 16) * 16 + n % 16) ≡ n
hex_parts n h = omega arith

pair_parts :
    (c : ℕ)
    → 65535 < c
    → c < 1114112
    → 65536
        + ((55296 + (c - 65536) / 1024 % 1024) - 55296) * 1024
        + ((56320 + (c - 65536) % 1024) - 56320)
      ≡ c
pair_parts c low high = omega arith

digits_value :
    (n : ℕ)
    → n < 65536
    → (((0 * 16 + hex_value (hex_digit (n / 4096 % 16))) * 16
                + hex_value (hex_digit (n / 256 % 16)))
              * 16
            + hex_value (hex_digit (n / 16 % 16)))
          * 16
        + hex_value (hex_digit (n % 16))
      ≡ n
digits_value n h =
    rw
      (
        hex_value-hex_digit (n / 4096 % 16) (omega arith),
        hex_value-hex_digit (n / 256 % 16) (omega arith),
        hex_value-hex_digit (n / 16 % 16) (omega arith),
        hex_value-hex_digit (n % 16) (omega arith),
      )
      (omega arith)

scan-unicode_escape :
    (high : Option ℕ) (n : ℕ) (t : Text)
    → n < 65536
    → scan open_text high (unicode_escape n ++ t)
      ≡ receive high n (scan open_text (some n) t) (scan open_text none t)
unfolding scan unicode_escape
scan-unicode_escape high n t h =
    ap (λ (v : ℕ). receive high v (scan open_text (some v) t) (scan open_text none t))
      (digits_value n h)

receive-waiting :
    (high : Option ℕ) (n : ℕ) (waiting rest : Option Text)
    → is_high n ≡ true
    → receive high n waiting rest ≡ waiting
unfolding receive
receive-waiting high n waiting rest h = ground (arith, h)

receive-unit :
    (high : Option ℕ) (n : ℕ) (waiting rest : Option Text)
    → is_high n ≡ false
    → receive high n waiting rest ≡ unit high n rest
unfolding receive
receive-unit high n waiting rest h = ground (arith, h)

-- One character, whatever is read after it.
Reads : ℕ → Text → Type 0
Reads c written =
    (t : Text) → scan open_text none (written ++ t) ≡ onto_text c (scan open_text none t)

scan-one : (c : ℕ) → c < 65536 → is_high c ≡ false → Reads c (unicode_escape c)
unfolding Reads
scan-one c low plain t = scan-unicode_escape none c t low ∙ unfold receive unit in rw plain refl

high_surrogate : (c : ℕ) → is_high (55296 + (c - 65536) / 1024 % 1024) ≡ true
high_surrogate c = ground arith

low_surrogate : (c : ℕ) → is_high (56320 + (c - 65536) % 1024) ≡ false
low_surrogate c = ground arith

scan-pair :
    (c : ℕ)
    → 65535 < c
    → c < 1114112
    → Reads c (
        unicode_escape (55296 + (c - 65536) / 1024 % 1024)
        ++ unicode_escape (56320 + (c - 65536) % 1024))
unfolding Reads unicode_escape
scan-pair c low high t =
    let h = 55296 + (c - 65536) / 1024 % 1024 in
    let l = 56320 + (c - 65536) % 1024 in
    let rest = scan open_text none t in
    let more = unicode_escape l ++ t in
    scan-unicode_escape none h more (omega arith)
    ∙ receive-waiting none h (scan open_text (some h) more) (scan open_text none more)
        (high_surrogate c)
    ∙ scan-unicode_escape (some h) l t (omega arith)
    ∙ receive-unit (some h) l (scan open_text (some l) t) rest (low_surrogate c)
    ∙ unfold unit in ap (λ (v : ℕ). onto_text v rest) (pair_parts c low high)

scan-dumps_other :
    (c : ℕ) → is_scalar c ≡ true → (c == 34) ≡ false → (c == 92) ≡ false → Reads c (dumps_other c)
unfolding dumps_other is_scalar
scan-dumps_other c scalar quote slash =
    if-cases (Reads c) (leb 32 c && leb c 126)
      (λ inside. unfold Reads scan in λ t. rw (quote, slash) refl)
      (λ outside.
        if-cases (Reads c) (ltb c 65536)
          (λ low. scan-one c (ground (arith, low)) (ground (arith, scalar, low)))
          (λ high. scan-pair c (ground (arith, high)) (ground (arith, scalar, high))))

Reads-same : (c k : ℕ) (written : Text) → (c == k) ≡ true → Reads k written → Reads c written
Reads-same c k written same h =
    subst (λ (n : ℕ). Reads n written) (sym ((nat_eq.equal_iff c k).0 same)) h

Reads-if :
    (c k : ℕ) (written rest : Text)
    → Reads k written
    → ((c == k) ≡ false → Reads c rest)
    → Reads c (if c == k then written else rest)
Reads-if c k written rest h more =
    if-cases (Reads c) (c == k) (λ same. Reads-same c k written same h) more

-- The short escapes.
Reads-short :
    Reads 34 (92 ∷ 34 ∷ [])
    × Reads 92 (92 ∷ 92 ∷ [])
    × Reads 10 (92 ∷ 110 ∷ [])
    × Reads 13 (92 ∷ 114 ∷ [])
    × Reads 9 (92 ∷ 116 ∷ [])
    × Reads 12 (92 ∷ 102 ∷ [])
    × Reads 8 (92 ∷ 98 ∷ [])
unfolding Reads scan short_escape
Reads-short = (λ t. refl, λ t. refl, λ t. refl, λ t. refl, λ t. refl, λ t. refl, λ t. refl)

scan-dumps_char : (c : ℕ) → is_scalar c ≡ true → Reads c (dumps_char c)
unfolding dumps_char
scan-dumps_char c scalar =
    let (r34, r92, r10, r13, r9, r12, r8) = Reads-short in
    let o = dumps_other c in
    let i8 = if c == 8 then 92 ∷ 98 ∷ [] else o in
    let i12 = if c == 12 then 92 ∷ 102 ∷ [] else i8 in
    let i9 = if c == 9 then 92 ∷ 116 ∷ [] else i12 in
    let i13 = if c == 13 then 92 ∷ 114 ∷ [] else i9 in
    let i10 = if c == 10 then 92 ∷ 110 ∷ [] else i13 in
    let i92 = if c == 92 then 92 ∷ 92 ∷ [] else i10 in
    Reads-if c 34 (92 ∷ 34 ∷ []) i92 r34 (λ quote. Reads-if c 92 (92 ∷ 92 ∷ []) i10 r92 (λ slash.
      Reads-if c 10 (92 ∷ 110 ∷ []) i13 r10 (λ no10. Reads-if c 13 (92 ∷ 114 ∷ []) i9 r13 (λ no13.
        Reads-if c 9 (92 ∷ 116 ∷ []) i12 r9 (λ no9. Reads-if c 12 (92 ∷ 102 ∷ []) i8 r12 (λ no12.
          Reads-if c 8 (92 ∷ 98 ∷ []) o r8 (λ no8. scan-dumps_other c scalar quote slash)))))))

scan-dumps_chars :
    (t tail : Text)
    → all_scalar t ≡ true
    → scan open_text none (dumps_chars t ++ (34 ∷ tail)) ≡ some t
unfolding dumps_chars all_scalar Reads
scan-dumps_chars [] tail h = unfold scan in refl
scan-dumps_chars (c ∷ t) tail h =
    let rest = dumps_chars t ++ (34 ∷ tail) in
    rw
      (
        append_assoc (dumps_char c) (dumps_chars t) (34 ∷ tail),
        scan-dumps_char c (ground (arith, h)) rest,
        scan-dumps_chars t tail (ground (arith, h)),
      )
      refl

-- The literal of a text, escapes and surrogate pairs included, is read back as that text, whatever
-- follows it.
pub loads_text-dumps_text :
    (t tail : Text) → all_scalar t ≡ true → loads_text (dumps_text t ++ tail) ≡ some t
unfolding loads_text dumps_text
loads_text-dumps_text t tail h =
    rw (append_assoc (dumps_chars t) (34 ∷ []) tail) (scan-dumps_chars t tail h)
