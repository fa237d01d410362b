-- ===== src/Cache.antt =====
-- adapters/cache/in_memory_response_cache.py and application/execution/cache_key.py. The hash
-- (hashlib) and the text of a UUID are parameters of the key. Times are whole microseconds.
pub mod Laws
mod Tests
use enterprise_llm_gateway.Prelude.{
  Bool, List, Option, Text, [], if◌then◌else◌, leb, nat_eq, none, pair_eq, some, text_eq, ℕ, ◌++◌,
  ◌+◌, ◌∷◌,
}
use enterprise_llm_gateway.Prelude.Dict.{Dict, get, put}
use enterprise_llm_gateway.Prelude.Result.{Result, err, ok}
use enterprise_llm_gateway.Ports.{Content, Payload}

pub record CachedResponse : Type 0 where
  pub provider : Text
  pub model : Text
  pub content : Content

pub record Entry : Type 0 where
  pub response : CachedResponse
  pub expires_at : ℕ

pub record ResponseCache : Type 0 where
  pub entries : Dict (ℕ × Text) Entry
  pub ttl : ℕ
  pub unavailable : Bool

pub data CacheUnavailable : Type 0 where
  cache_unavailable : CacheUnavailable

-- `"\x00".join(…)`
unfoldable pub join_nul : List Text → Text
join_nul [] = []
join_nul (t ∷ []) = t
join_nul (t ∷ u ∷ ts) = t ++ (0 ∷ join_nul (u ∷ ts))

-- The text that is hashed: none is the TypeError or ValueError of json.dumps.
unfoldable pub key_material : (ℕ → Text) → ℕ → Text → Text → Payload → Option Text
unfolding join_nul
key_material uuid_text org provider model payload = elim payload.canonical [
  | none ↦ none
  | some json ↦ some (join_nul (uuid_text org ∷ provider ∷ model ∷ json ∷ []))
]

-- `compute_cache_key(organization_id, provider=…, model=…, payload=…)`
unfoldable pub compute_cache_key :
    (Text → Text) → (ℕ → Text) → ℕ → Text → Text → Payload → Option Text
unfolding key_material
compute_cache_key sha256 uuid_text org provider model payload =
    elim (key_material uuid_text org provider model payload) [
      | none ↦ none
      | some m ↦ some (sha256 m)
    ]

unfresh : ℕ → Option Entry → Option CachedResponse
unfresh now none = none
unfresh now (some e) = if leb e.expires_at now then none else some e.response

unfoldable pub lookup :
    ℕ → ℕ → Text → ResponseCache → Result CacheUnavailable (Option CachedResponse)
unfolding unfresh
lookup now org digest c =
    if c.unavailable then err cache_unavailable else ok (unfresh now (get (org, digest) c.entries))

unfoldable pub insert :
    ℕ
    → ℕ
    → Text
    → CachedResponse
    → ResponseCache
    → Result CacheUnavailable (Unit {0}) × ResponseCache
insert now org digest r c = if c.unavailable then (err cache_unavailable, c) else (
  ok tt,
  record c {
    entries = put (org, digest) (record { response = r; expires_at = now + c.ttl }) c.entries;
  },
)

-- `_safe_get` of the coordinators: an outage is a miss.
unfoldable pub safe_get : ℕ → ℕ → Text → ResponseCache → Option CachedResponse
unfolding lookup
safe_get now org digest c = elim (lookup now org digest c) [ ok r ↦ r | err e ↦ none ]

-- `_safe_put` of the coordinators: an outage drops the write.
unfoldable pub safe_put : ℕ → ℕ → Text → CachedResponse → ResponseCache → ResponseCache
unfolding insert
safe_put now org digest r c = (insert now org digest r c).1
