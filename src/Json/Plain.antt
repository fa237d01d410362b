-- ===== src/Json/Plain.antt =====
-- JSON text is printable ASCII, whatever it encodes.
use enterprise_llm_gateway.Prelude.{
  Bool, List, Text, [], arith, false, if-cases, leb, ltb, nat_eq, pair_eq, refl, text_eq, true, ℕ,
  ◌%◌, ◌&&◌, ◌++◌, ◌+◌, ◌-◌, ◌/◌, ◌<◌, ◌∷◌, ◌≡◌,
}
use enterprise_llm_gateway.Json.{
  dumps_char, dumps_chars, dumps_dict, dumps_flag, dumps_more, dumps_other, dumps_text, hex_digit,
  unicode_escape,
}

unfoldable pub is_plain : Text → Bool
is_plain [] = true
is_plain (c ∷ t) = leb 32 c && leb c 126 && is_plain t

pub is_plain-append :
    (s t : Text) → is_plain s ≡ true → is_plain t ≡ true → is_plain (s ++ t) ≡ true
unfolding is_plain
is_plain-append [] t hs ht = ht
is_plain-append (c ∷ s) t hs ht = ground (arith, hs, is_plain-append s t (ground (arith, hs)) ht)

is_plain-hex_digit : (n : ℕ) → n < 16 → (leb 32 (hex_digit n) && leb (hex_digit n) 126) ≡ true
unfolding hex_digit
is_plain-hex_digit n h = ground arith

is_plain-unicode_escape : (n : ℕ) → is_plain (unicode_escape n) ≡ true
unfolding unicode_escape is_plain
is_plain-unicode_escape n =
    let a = is_plain-hex_digit (n / 4096 % 16) (omega arith) in
    let b = is_plain-hex_digit (n / 256 % 16) (omega arith) in
    let c = is_plain-hex_digit (n / 16 % 16) (omega arith) in
    let d = is_plain-hex_digit (n % 16) (omega arith) in ground (arith, a, b, c, d)

is_plain-dumps_other : (c : ℕ) → is_plain (dumps_other c) ≡ true
unfolding dumps_other is_plain
is_plain-dumps_other c =
    if-cases (λ (t : Text). is_plain t ≡ true) (leb 32 c && leb c 126)
      (λ inside. ground (arith, inside))
      (λ outside.
        if-cases (λ (t : Text). is_plain t ≡ true) (ltb c 65536) (λ low. is_plain-unicode_escape c)
          (λ high.
            is_plain-append (unicode_escape (55296 + (c - 65536) / 1024 % 1024))
              (unicode_escape (56320 + (c - 65536) % 1024))
              (is_plain-unicode_escape (55296 + (c - 65536) / 1024 % 1024))
              (is_plain-unicode_escape (56320 + (c - 65536) % 1024))))

is_plain-dumps_char : (c : ℕ) → is_plain (dumps_char c) ≡ true
unfolding dumps_char is_plain
is_plain-dumps_char c = ground (arith, is_plain-dumps_other c)

is_plain-dumps_chars : (t : Text) → is_plain (dumps_chars t) ≡ true
unfolding dumps_chars is_plain
is_plain-dumps_chars [] = refl
is_plain-dumps_chars (c ∷ t) =
    is_plain-append (dumps_char c) (dumps_chars t) (is_plain-dumps_char c) (is_plain-dumps_chars t)

pub is_plain-dumps_text : (t : Text) → is_plain (dumps_text t) ≡ true
unfolding dumps_text is_plain
is_plain-dumps_text t = is_plain-append (dumps_chars t) (34 ∷ []) (is_plain-dumps_chars t) refl

pub is_plain-dumps_flag : (b : Bool) → is_plain (dumps_flag b) ≡ true
unfolding dumps_flag is_plain
is_plain-dumps_flag true = refl
is_plain-dumps_flag false = refl

-- Every value's text is plain.
unfoldable pub all_plain : List (Text × Text) → Bool
all_plain [] = true
all_plain ((k, v) ∷ rest) = is_plain v && all_plain rest

is_plain-member :
    (colon k v rest : Text)
    → is_plain colon ≡ true
    → is_plain v ≡ true
    → is_plain rest ≡ true
    → is_plain (dumps_text k ++ (colon ++ (v ++ rest))) ≡ true
is_plain-member colon k v rest hc hv hr =
    is_plain-append (dumps_text k) (colon ++ (v ++ rest)) (is_plain-dumps_text k)
      (is_plain-append colon (v ++ rest) hc (is_plain-append v rest hv hr))

is_plain-dumps_more :
    (comma colon : Text) (members : List (Text × Text))
    → is_plain comma ≡ true
    → is_plain colon ≡ true
    → all_plain members ≡ true
    → is_plain (dumps_more comma colon members) ≡ true
unfolding dumps_more all_plain is_plain
is_plain-dumps_more comma colon [] hs hc h = refl
is_plain-dumps_more comma colon ((k, v) ∷ rest) hs hc h =
    let tail = is_plain-dumps_more comma colon rest hs hc (ground (arith, h)) in
    is_plain-append comma (dumps_text k ++ (colon ++ (v ++ dumps_more comma colon rest))) hs
      (is_plain-member colon k v (dumps_more comma colon rest) hc (ground (arith, h)) tail)

pub is_plain-dumps_dict :
    (comma colon : Text) (members : List (Text × Text))
    → is_plain comma ≡ true
    → is_plain colon ≡ true
    → all_plain members ≡ true
    → is_plain (dumps_dict comma colon members) ≡ true
unfolding dumps_dict all_plain is_plain
is_plain-dumps_dict comma colon [] hs hc h = refl
is_plain-dumps_dict comma colon ((k, v) ∷ rest) hs hc h =
    is_plain-member colon k v (dumps_more comma colon rest) hc (ground (arith, h))
      (is_plain-dumps_more comma colon rest hs hc (ground (arith, h)))
