-- ===== src/Json.antt =====
-- `json.dumps` with ensure_ascii, on the texts and flat dicts that the gateway writes.
pub mod Plain
pub mod Reader
use enterprise_llm_gateway.Prelude.{
  Bool, List, Text, [], codes, if◌then◌else◌, leb, ltb, nat_eq, pair_eq, text_eq, ℕ, ◌%◌, ◌&&◌,
  ◌++◌, ◌+◌, ◌-◌, ◌/◌, ◌==◌, ◌∷◌,
}

-- The four hexadecimal digits of `\uXXXX`.
unfoldable pub hex_digit : ℕ → ℕ
hex_digit n = if ltb n 10 then 48 + n else 87 + n

unfoldable pub unicode_escape : ℕ → Text
unfolding hex_digit
unicode_escape n =
    92
    ∷ 117
    ∷ hex_digit (n / 4096 % 16)
    ∷ hex_digit (n / 256 % 16)
    ∷ hex_digit (n / 16 % 16)
    ∷ hex_digit (n % 16)
    ∷ []

-- A character that has no short escape: itself from the space to the tilde, or one `\uXXXX`, or the
-- two of a surrogate pair.
unfoldable pub dumps_other : ℕ → Text
unfolding unicode_escape
dumps_other c =
    if leb 32 c && leb c 126
    then c ∷ []
    else if ltb c 65536
    then unicode_escape c
    else unicode_escape (55296 + (c - 65536) / 1024 % 1024)
      ++ unicode_escape (56320 + (c - 65536) % 1024)

unfoldable pub dumps_char : ℕ → Text
unfolding dumps_other
dumps_char c =
    if c == 34
    then 92 ∷ 34 ∷ []
    else if c == 92
    then 92 ∷ 92 ∷ []
    else if c == 10
    then 92 ∷ 110 ∷ []
    else if c == 13
    then 92 ∷ 114 ∷ []
    else if c == 9
    then 92 ∷ 116 ∷ []
    else if c == 12
    then 92 ∷ 102 ∷ []
    else if c == 8
    then 92 ∷ 98 ∷ []
    else dumps_other c

unfoldable pub dumps_chars : Text → Text
unfolding dumps_char
dumps_chars [] = []
dumps_chars (c ∷ t) = dumps_char c ++ dumps_chars t

-- `json.dumps` of a `str`, and of a `bool`.
unfoldable pub dumps_text : Text → Text
unfolding dumps_chars
dumps_text t = 34 ∷ (dumps_chars t ++ (34 ∷ []))

unfoldable pub dumps_flag : Bool → Text
dumps_flag b = if b then codes "true" else codes "false"

-- The members of a dict, each a key and the JSON text of its value, after the first.
unfoldable pub dumps_more : Text → Text → List (Text × Text) → Text
unfolding dumps_text
dumps_more item_separator key_separator [] = codes "}"
dumps_more item_separator key_separator ((k, v) ∷ rest) =
    item_separator
    ++ (dumps_text k ++ (key_separator ++ (v ++ dumps_more item_separator key_separator rest)))

-- `json.dumps` of a dict with these separators.
unfoldable pub dumps_dict : Text → Text → List (Text × Text) → Text
unfolding dumps_more
dumps_dict item_separator key_separator [] = codes "{}"
dumps_dict item_separator key_separator ((k, v) ∷ rest) =
    codes "{"
    ++ (dumps_text k ++ (key_separator ++ (v ++ dumps_more item_separator key_separator rest)))

-- The default separators, and the canonical ones.
abbrev pub dumps : List (Text × Text) → Text
dumps members = dumps_dict (codes ", ") (codes ": ") members

abbrev pub dumps_canonical : List (Text × Text) → Text
dumps_canonical members = dumps_dict (codes ",") (codes ":") members
