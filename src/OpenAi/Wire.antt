-- ===== src/OpenAi/Wire.antt =====
-- What an OpenAI-compatible server sends, and what the client reads of it.
use enterprise_llm_gateway.Prelude.{
  Bool, Option, Text, [], codes, if◌then◌else◌, leb, nat_eq, none, pair_eq, some, text_beq, text_eq,
  ℕ, ◌&&◌, ◌==◌, ◌||◌, ◌∷◌,
}
use enterprise_llm_gateway.Prelude.Int.{pos, ℤ}
use enterprise_llm_gateway.Ports.{
  ProviderErrorCategory, ProviderUsage, authentication, invalid_request, rate_limited, server_error,
}

-- A value that `json.loads` returns, or one that is written; a float is known by a number.
mutual
  pub data JsonValue : Type 0 where
    null : JsonValue
    boolean : Bool → JsonValue
    integer : ℤ → JsonValue
    fraction : ℕ → JsonValue
    string : Text → JsonValue
    array : JsonItems → JsonValue
    mapped : JsonMembers → JsonValue

  pub data JsonItems : Type 0 where
    no_item : JsonItems
    item : JsonValue → JsonItems → JsonItems

  pub data JsonMembers : Type 0 where
    no_member : JsonMembers
    member : Text → JsonValue → JsonMembers → JsonMembers

-- `ProviderConnection`, with the timeout in microseconds.
pub record ProviderConnection : Type 0 where
  pub base_url : Text
  pub api_key : Text
  pub timeout : ℕ

-- What json makes of a text: a value, none where it raises a ValueError; or it raises anything else, as
-- `json.loads` raises RecursionError on a text that is nested too deeply.
pub data Loaded : Type 0 where
  loaded : Option JsonValue → Loaded
  load_escaped : Loaded

-- What `client.post` does: it raises `TimeoutException` or another `HTTPError`, or anything else
-- (`InvalidURL`, an error of the body's encoding); or it gives a status and what `response.json()` makes
-- of the body.
pub data Reply : Type 0 where
  call_timed_out call_broken call_escaped : Reply
  replied : ℕ → Loaded → Reply

-- The lines of a streamed body, which ends, or raises a `TimeoutException`, another `HTTPError` or
-- anything else.
pub data Lines : Type 0 where
  line : Text → Lines → Lines
  body_ended body_timed_out body_broken body_escaped : Lines

-- What entering `client.stream` does: it raises likewise, or gives a status and the lines.
pub data StreamReply : Type 0 where
  connect_timed_out connect_broken connect_escaped : StreamReply
  streamed : ℕ → Lines → StreamReply

-- `dict.get`
unfoldable pub member_of : Text → JsonMembers → Option JsonValue
unfolding text_eq text_beq
member_of key no_member = none
member_of key (member k v rest) =
    let found = member_of key rest in if k == key then some v else found

-- The tests `isinstance(…, dict)`, `list` and `int`; a bool is an int.
abbrev pub as_members : Option JsonValue → Option JsonMembers
as_members none = none
as_members (some null) = none
as_members (some (boolean b)) = none
as_members (some (integer n)) = none
as_members (some (fraction n)) = none
as_members (some (string t)) = none
as_members (some (array xs)) = none
as_members (some (mapped ms)) = some ms

abbrev pub first_item : Option JsonValue → Option JsonValue
first_item none = none
first_item (some null) = none
first_item (some (boolean b)) = none
first_item (some (integer n)) = none
first_item (some (fraction n)) = none
first_item (some (string t)) = none
first_item (some (array no_item)) = none
first_item (some (array (item x xs))) = some x
first_item (some (mapped ms)) = none

abbrev pub as_int : Option JsonValue → Option ℤ
as_int none = none
as_int (some null) = none
as_int (some (boolean b)) = some (if b then pos 1 else pos 0)
as_int (some (integer n)) = some n
as_int (some (fraction n)) = none
as_int (some (string t)) = none
as_int (some (array xs)) = none
as_int (some (mapped ms)) = none

abbrev pub as_string : Option JsonValue → Text
as_string none = []
as_string (some null) = []
as_string (some (boolean b)) = []
as_string (some (integer n)) = []
as_string (some (fraction n)) = []
as_string (some (string t)) = t
as_string (some (array xs)) = []
as_string (some (mapped ms)) = []

-- `get` of what may not be a dict.
unfoldable pub get_in : Text → Option JsonMembers → Option JsonValue
unfolding member_of
get_in key none = none
get_in key (some ms) = member_of key ms

-- `_category_for_status`
unfoldable pub category_for_status : ℕ → ProviderErrorCategory
category_for_status status =
    if status == 400
    then invalid_request
    else if status == 401
    then authentication
    else if status == 403
    then authentication
    else if status == 404
    then invalid_request
    else if status == 408
    then ProviderErrorCategory.timeout
    else if status == 422
    then invalid_request
    else if status == 429
    then rate_limited
    else if leb 500 status
    then server_error
    else invalid_request

abbrev pub both_counts : Option ℤ → Option ℤ → Option ProviderUsage
both_counts none completion = none
both_counts (some prompt) none = none
both_counts (some prompt) (some completion) =
    some (record { prompt_tokens = prompt; completion_tokens = completion })

-- `_usage_from`
unfoldable pub usage_from : JsonMembers → Option ProviderUsage
unfolding get_in
usage_from payload =
    let raw = as_members (get_in (codes "usage") (some payload)) in
    both_counts (as_int (get_in (codes "prompt_tokens") raw))
      (as_int (get_in (codes "completion_tokens") raw))

-- `_delta_from`
unfoldable pub delta_from : JsonMembers → Text
unfolding get_in
delta_from event =
    let first = as_members (first_item (get_in (codes "choices") (some event))) in
    let delta = as_members (get_in (codes "delta") first) in
    as_string (get_in (codes "content") delta)

-- `str.isspace` of a character
unfoldable pub is_space : ℕ → Bool
is_space c =
    (leb 9 c && leb c 13)
    || (leb 28 c && leb c 32)
    || c == 133
    || c == 160
    || c == 5760
    || (leb 8192 c && leb c 8202)
    || c == 8232
    || c == 8233
    || c == 8239
    || c == 8287
    || c == 12288

unfoldable pub lstrip : Text → Text
unfolding is_space
lstrip [] = []
lstrip (c ∷ t) = let rest = lstrip t in if is_space c then rest else c ∷ t

abbrev pub onto_stripped : ℕ → Text → Text
onto_stripped c [] = if is_space c then [] else c ∷ []
onto_stripped c (d ∷ t) = c ∷ d ∷ t

unfoldable pub rstrip : Text → Text
unfolding is_space
rstrip [] = []
rstrip (c ∷ t) = onto_stripped c (rstrip t)

-- `str.strip`
unfoldable pub strip_spaces : Text → Text
unfolding lstrip rstrip
strip_spaces t = rstrip (lstrip t)

-- What follows a prefix, none if it does not start the text.
unfoldable pub after_prefix : Text → Text → Option Text
after_prefix [] t = some t
after_prefix (p ∷ ps) [] = none
after_prefix (p ∷ ps) (c ∷ t) = let rest = after_prefix ps t in if p == c then rest else none

-- `_payload_of`
unfoldable pub payload_of : Text → Option Text
unfolding strip_spaces after_prefix
payload_of l = elim (after_prefix (codes "data:") (strip_spaces l)) [
  | none ↦ none
  | some t ↦ some (strip_spaces t)
]
