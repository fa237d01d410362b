-- ===== src/Cache/Tests.antt =====
-- The theorems about the cache at a concrete one.
use enterprise_llm_gateway.Prelude.{
  Text, [], arith, codes, false, mem, nat_eq, pair_beq, pair_eq, refl, some, text_beq, text_eq, ℕ,
  ◌+◌, ◌∷◌, ◌≡◌,
}
use enterprise_llm_gateway.Prelude.Dict.{get, put}
use enterprise_llm_gateway.Prelude.Result.{ok}
use enterprise_llm_gateway.Cache.{CachedResponse, ResponseCache, insert, lookup}
use enterprise_llm_gateway.Cache.Laws.{cons-inj, key_material-inj}
use enterprise_llm_gateway.Ports.{Content, Payload}

abbrev cached : CachedResponse
cached = record {
  provider = codes "openai";
  model = codes "gpt";
  content = Content.text (codes "hi");
}

abbrev empty_cache : ResponseCache
empty_cache = record { entries = []; ttl = 300; unavailable = false }

abbrev payload : Payload
payload = record { repr = codes "r"; canonical = some (codes "json") }

-- Identifiers as texts of one character that is not NUL.
abbrev short_uuid : ℕ → Text
short_uuid n = (n + 1) ∷ []

hit : lookup 10 1 (codes "k") (insert 5 1 (codes "k") cached empty_cache).1 ≡ ok (some cached)
unfolding insert lookup get put pair_eq pair_beq text_eq text_beq
hit = refl

key_material-inj_example :
    let org : ℕ = 1 in
    (org ≡ org)
    × (codes "openai" ≡ codes "openai")
    × (codes "gpt" ≡ codes "gpt")
    × (codes "json" ≡ codes "json")
unfolding mem
key_material-inj_example =
    key_material-inj short_uuid 1 1 (codes "openai") (codes "gpt") (codes "openai") (codes "gpt")
      payload payload (codes "json") (codes "json") (λ o o' same. omega (arith, cons-inj same))
      (λ o. ground arith) (refl, refl, refl, refl) refl refl refl
