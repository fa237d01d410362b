-- ===== src/Cache/Laws.antt =====
-- What the cache gives back, and which requests share an entry.
use enterprise_llm_gateway.Prelude.{
  Text, [], arith, false, if◌then◌else◌, leb, mem, nat_eq, none, pair_eq, refl, some, text_eq, ℕ,
  ◌++◌, ◌+◌, ◌==◌, ◌∷◌, ◌≡◌,
}
use enterprise_llm_gateway.Prelude.Dict.{get-put}
use enterprise_llm_gateway.Prelude.Result.{ok}
use enterprise_llm_gateway.Cache.{
  CachedResponse, Entry, ResponseCache, insert, join_nul, key_material, lookup,
}
use enterprise_llm_gateway.Ports.{Payload}

-- After a write, and until something else is written there, a look-up of the tenant and the digest
-- gives the response before the entry's expiry and nothing from then on; and what any other tenant
-- or digest gives is as before.
lookup-insert :
    (now later org o : ℕ) (digest d : Text) (r : CachedResponse) (c : ResponseCache)
    → c.unavailable ≡ false
    → lookup later o d (insert now org digest r c).1 ≡ (
        if ◌==◌ {K = ℕ × Text} (org, digest) (o, d)
        then ok (if leb (now + c.ttl) later then none else some r)
        else lookup later o d c)
unfolding insert lookup
lookup-insert now later org o digest d r c up =
    let e : Entry = record { response = r; expires_at = now + c.ttl } in
    ground (arith, up, get-put (org, digest) (o, d) e c.entries)

-- The text has no NUL.
abbrev pub NulFree : Text → Type 0
NulFree t = mem 0 t ≡ false

pub cons-inj : {a b : ℕ} {s t : Text} → a ∷ s ≡ b ∷ t → (a ≡ b) × (s ≡ t)
cons-inj h = (cc, cc)

split-inj :
    (s t u v : Text) → NulFree s → NulFree t → s ++ (0 ∷ u) ≡ t ++ (0 ∷ v) → (s ≡ t) × (u ≡ v)
unfolding mem
split-inj [] [] u v f g h = (refl, (cons-inj h).1)
split-inj [] (d ∷ t) u v f g h = let zero_is = (cons-inj h).0 in absurd (ground (arith, g, zero_is))
split-inj (c ∷ s) [] u v f g h = let zero_is = (cons-inj h).0 in absurd (ground (arith, f, zero_is))
split-inj (c ∷ s) (d ∷ t) u v f g h =
    let (first, rest) = cons-inj h in
    let (same, tails) = split-inj s t u v (ground (arith, f)) (ground (arith, g)) rest in
    (cc, tails)

join-inj :
    (a b c d a' b' c' d' : Text)
    → NulFree a
    → NulFree b
    → NulFree c
    → NulFree a'
    → NulFree b'
    → NulFree c'
    → join_nul (a ∷ b ∷ c ∷ d ∷ []) ≡ join_nul (a' ∷ b' ∷ c' ∷ d' ∷ [])
    → (a ≡ a') × (b ≡ b') × (c ≡ c') × (d ≡ d')
unfolding join_nul
join-inj a b c d a' b' c' d' fa fb fc fa' fb' fc' h =
    let (ea, h1) =
      split-inj a a' (b ++ (0 ∷ (c ++ (0 ∷ d)))) (b' ++ (0 ∷ (c' ++ (0 ∷ d')))) fa fa' h in
    let (eb, h2) = split-inj b b' (c ++ (0 ∷ d)) (c' ++ (0 ∷ d')) fb fb' h1 in
    let (ec, ed) = split-inj c c' d d' fc fc' h2 in (ea, eb, ec, ed)

some-inj : {A : Type 0} {a b : A} → some a ≡ some b → a ≡ b
some-inj h = cc

-- What is hashed to a cache key determines the tenant, the provider, the model and the canonical
-- payload, if identifiers have different texts and none of the texts before the payload has a NUL.
pub key_material-inj :
    (uuid_text : ℕ → Text) (org org' : ℕ) (provider model provider' model' : Text)
    (payload payload' : Payload) (json json' : Text)
    → ((o o' : ℕ) → uuid_text o ≡ uuid_text o' → o ≡ o')
    → ((o : ℕ) → NulFree (uuid_text o))
    → NulFree provider × NulFree model × NulFree provider' × NulFree model'
    → payload.canonical ≡ some json
    → payload'.canonical ≡ some json'
    → key_material uuid_text org provider model payload
      ≡ key_material uuid_text org' provider' model' payload'
    → (org ≡ org') × (provider ≡ provider') × (model ≡ model') × (json ≡ json')
unfolding key_material
key_material-inj uuid_text org org' provider model provider' model' payload payload' json json'
      injective clean (p, m, p', m') has has' same =
    let joined : join_nul (uuid_text org ∷ provider ∷ model ∷ json ∷ [])
        ≡ join_nul (uuid_text org' ∷ provider' ∷ model' ∷ json' ∷ []) =
      some-inj (ground (arith, has, has', same)) in
    let (o, p_eq, m_eq, j_eq) =
      join-inj (uuid_text org) provider model json (uuid_text org') provider' model' json'
        (clean org) p m (clean org') p' m' joined in
    (injective org org' o, p_eq, m_eq, j_eq)
