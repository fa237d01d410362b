-- ===== src/OpenAi/Contract.antt =====
-- What both ports promise of a client, and that this one keeps it whatever the wire does.
use mathlib.Core.Path.{subst}
use enterprise_llm_gateway.Prelude.{
  Option, Option-cases, Text, arith, false, if-cases, inl, inr, leb, nat_eq, none, pair_eq, refl,
  some, sym, text_eq, true, ◌≡◌,
}
use enterprise_llm_gateway.Prelude.Dict.{Dict, get}
use enterprise_llm_gateway.OpenAi.{
  JsonMembers, Loaded, body_response, call_escaped, load_escaped, loaded, ProviderConnection,
  Python, Reply, StreamReply, as_members, body_of, call_broken, call_failure, call_timed_out,
  category_for_status, content_from, invoke, malformed_body, replied, reply_response, status_error,
  stream_body_of, timeout_error, transport_error, unconfigured_error, usage_from,
}
use enterprise_llm_gateway.Ports.{
  InferenceRequest, ProviderDescriptor, ProviderErrorCategory, ProviderResponse, absent,
  authentication, server_error,
}
use enterprise_llm_gateway.OpenAi.Events.{
  IsAuthored, ReplyEscapes, bad_body, broken_transport, refused_by, timed_out, unconfigured,
}

module _ (py : Python) where
  -- A response of the unary port: a success has neither an error nor a category; a failure has a
  -- category, a text of the adapter's, no content and no usage.
  pub data IsResponse (r : ProviderResponse) : Type 0 where
    succeeds : r.ok ≡ true → r.error ≡ none → r.error_category ≡ none → IsResponse r
    fails :
        (e : Text) (c : ProviderErrorCategory)
        → r.ok ≡ false
        → r.error ≡ some e
        → IsAuthored e
        → r.error_category ≡ some c
        → r.content ≡ absent
        → r.usage ≡ none
        → IsResponse r

  call_failure-IsResponse :
      (provider : ProviderDescriptor) (c : ProviderErrorCategory) (e : Text)
      → IsAuthored e
      → IsResponse (call_failure provider c e)
  call_failure-IsResponse provider c e h = fails e c refl refl h refl refl refl

  -- What is returned, if anything is, is such a response.
  unfoldable pub Responds : Option ProviderResponse → Type 0
  Responds none = Unit
  Responds (some r) = IsResponse r

  body_response-Responds :
      (provider : ProviderDescriptor) (body : Loaded) → Responds (body_response py provider body)
  unfolding body_response Responds
  body_response-Responds provider load_escaped = tt
  body_response-Responds provider (loaded body) =
      elim (as_members body)
        as (λ o. Responds (elim o as (λ o. Option ProviderResponse) [
          | none ↦ some (call_failure provider server_error malformed_body)
          | some payload ↦ some (record {
            ok = true;
            content = content_from py payload;
            error = none;
            provider = provider.name;
            usage = usage_from payload;
            error_category = none;
          })
        ])) [
          | none ↦ call_failure-IsResponse provider server_error malformed_body bad_body
          | some payload ↦ succeeds refl refl refl
        ]

  reply_response-Responds :
      (provider : ProviderDescriptor) (reply : Reply) → Responds (reply_response py provider reply)
  unfolding reply_response Responds
  reply_response-Responds provider call_timed_out =
      call_failure-IsResponse provider ProviderErrorCategory.timeout timeout_error timed_out
  reply_response-Responds provider call_broken =
      call_failure-IsResponse provider server_error transport_error broken_transport
  reply_response-Responds provider call_escaped = tt
  reply_response-Responds provider (replied status body) =
      if-cases Responds (leb 400 status)
        (λ refused.
          call_failure-IsResponse provider (category_for_status status) (status_error status)
            (refused_by status (ground (arith, refused))))
        (λ fine. body_response-Responds provider body)

  module _ {C : Type 0} (connections : Dict Text ProviderConnection)
      (post : ProviderConnection → JsonMembers → C → Reply × C)
      (open_stream : ProviderConnection → JsonMembers → C → StreamReply × C) where
    -- Calling this provider raises what the client does not catch.
    unfoldable pub CallEscapes : ProviderDescriptor → InferenceRequest → C → Type 0
    CallEscapes provider request c =
        (connection : ProviderConnection) × (get provider.name connections ≡ some connection)
        × ReplyEscapes py (open_stream connection (stream_body_of py provider request) c).0

    invoke-unconfigured :
        (provider : ProviderDescriptor) (request : InferenceRequest) (c : C)
        → get provider.name connections ≡ none
        → (invoke py connections post open_stream provider request c).0
          ≡ some (call_failure provider authentication unconfigured_error)
    unfolding invoke
    invoke-unconfigured provider request c f = ground (arith, f)

    invoke-configured :
        (provider : ProviderDescriptor) (request : InferenceRequest) (c : C)
        (connection : ProviderConnection)
        → get provider.name connections ≡ some connection
        → (invoke py connections post open_stream provider request c).0
          ≡ reply_response py provider (post connection (body_of py provider request) c).0
    unfolding invoke
    invoke-configured provider request c connection f = ground (arith, f)

    -- Whatever the connections and the wire are, a response that the client returns is a success with
    -- neither an error nor a category, or a failure with a category, one of the adapter's own texts, no
    -- content and no usage.
    pub invoke-IsResponse :
        (provider : ProviderDescriptor) (request : InferenceRequest) (c : C) (r : ProviderResponse)
        → (invoke py connections post open_stream provider request c).0 ≡ some r
        → IsResponse r
    unfolding Responds
    invoke-IsResponse provider request c r returned =
        subst Responds returned (elim (Option-cases (get provider.name connections)) [
          | inl f ↦
              subst Responds (sym (invoke-unconfigured provider request c f))
                (call_failure-IsResponse provider authentication unconfigured_error unconfigured)
          | inr (connection, f) ↦
              subst Responds (sym (invoke-configured provider request c connection f)) (
                reply_response-Responds provider
                  (post connection (body_of py provider request) c).0)
        ])
