-- ===== src/OpenAi/Events.antt =====
-- The events of a stream, as the port promises them, and where a stream of this client raises.
use mathlib.Core.Path.{subst}
use enterprise_llm_gateway.Prelude.{
  Bool, Bool-cases, Option, Option-cases, Text, [], arith, codes, false, if-cases, inl, inr, leb,
  nat_eq, none, pair_eq, refl, some, sym, text_eq, true, ℕ, ◌==◌, ◌∷◌, ◌≡◌, ◌≤◌, ◌<◌, ◌⊎◌,
}
use enterprise_llm_gateway.OpenAi.{
  JsonMembers, JsonValue, Loaded, body_escaped, connect_escaped, load_escaped, loaded, Lines,
  Python, StreamReply, as_members, body_broken, body_ended, body_timed_out, category_for_status,
  connect_broken, connect_timed_out, delta_from, drained, emit_delta, latest, line, line_events,
  malformed_body, malformed_event, only, payload_of, reply_events, status_error, stream_failure,
  streamed, timeout_error, transport_error, unconfigured_error, usage_from,
}
use enterprise_llm_gateway.Ports.{ProviderErrorCategory, ProviderUsage, server_error}
use enterprise_llm_gateway.StreamPort.{Upstream, chunk, completed, emit, failed, raises, stopped}

-- The adapter's own texts.
pub data IsAuthored : Text → Type 0 where
  unconfigured : IsAuthored unconfigured_error
  timed_out : IsAuthored timeout_error
  broken_transport : IsAuthored transport_error
  bad_body : IsAuthored malformed_body
  bad_event : IsAuthored malformed_event
  refused_by : (status : ℕ) → 400 ≤ status → IsAuthored (status_error status)

abbrev pub is_nil : Text → Bool
is_nil [] = true
is_nil (c ∷ t) = false

-- Chunks that are not empty, and then one terminal event or none; a failure has a category and a text
-- of the adapter's; nothing is raised unless `P`.
unfoldable pub IsStream : Type 0 → Upstream → Type 0
IsStream P stopped = Unit {0}
IsStream P raises = P
IsStream P (emit (chunk c) u) = (is_nil c ≡ false) × IsStream P u
IsStream P (emit (completed usage) u) = u ≡ stopped
IsStream P (emit (failed f) u) =
    (u ≡ stopped) × IsAuthored f.error × ((c : ProviderErrorCategory) × (f.error_category ≡ some c))

pub IsStream-map : {P Q : Type 0} (u : Upstream) → (P → Q) → IsStream P u → IsStream Q u
unfolding IsStream
IsStream-map stopped f h = tt
IsStream-map raises f h = f h
IsStream-map (emit (chunk c) u) f (some_text, h) = (some_text, IsStream-map u f h)
IsStream-map (emit (completed usage) u) f h = h
IsStream-map (emit (failed e) u) f h = h

-- Reading the body raises what is no HTTPError.
pub BodyEscapes : Lines → Type 0
BodyEscapes (line l ls) = BodyEscapes ls
BodyEscapes body_ended = ⊥
BodyEscapes body_timed_out = ⊥
BodyEscapes body_broken = ⊥
BodyEscapes body_escaped = Unit {0}

emit_delta-IsStream :
    (P : Type 0) (t : Text) (u : Upstream) → IsStream P u → IsStream P (emit_delta t u)
unfolding IsStream
emit_delta-IsStream P [] u h = h
emit_delta-IsStream P (c ∷ t) u h = (refl, h)

pub failure-IsStream :
    (P : Type 0) (c : ProviderErrorCategory) (t : Text)
    → IsAuthored t
    → IsStream P (only (stream_failure c t))
unfolding IsStream
failure-IsStream P c t h = (refl, h, (c, refl))

drained-IsStream :
    (status : ℕ) (ls : Lines) → 400 ≤ status → IsStream (BodyEscapes ls) (drained status ls)
unfolding drained BodyEscapes
drained-IsStream status (line l ls) h = drained-IsStream status ls h
drained-IsStream status body_ended h =
    failure-IsStream _ (category_for_status status) (status_error status) (refused_by status h)
drained-IsStream status body_timed_out h =
    failure-IsStream _ ProviderErrorCategory.timeout timeout_error timed_out
drained-IsStream status body_broken h =
    failure-IsStream _ server_error transport_error broken_transport
drained-IsStream status body_escaped h = unfold IsStream in tt

module _ (py : Python) where
  -- Reading the body, or json on the payload of one of its lines, raises what the client does not
  -- catch.
  unfoldable pub LinesEscape : Lines → Type 0
  LinesEscape (line l ls) =
      ((t : Text) × (payload_of l ≡ some t) × (py.loads t ≡ load_escaped)) ⊎ LinesEscape ls
  LinesEscape body_ended = ⊥
  LinesEscape body_timed_out = ⊥
  LinesEscape body_broken = ⊥
  LinesEscape body_escaped = Unit {0}

  -- So does connecting or the body; that of an error response is not given to json.
  unfoldable pub ReplyEscapes : StreamReply → Type 0
  unfolding BodyEscapes LinesEscape
  ReplyEscapes connect_timed_out = ⊥
  ReplyEscapes connect_broken = ⊥
  ReplyEscapes connect_escaped = Unit {0}
  ReplyEscapes (streamed status ls) =
      ((400 ≤ status) × BodyEscapes ls) ⊎ ((status < 400) × LinesEscape ls)

  line_events-skip :
      (usage : Option ProviderUsage) (l : Text) (ls : Lines)
      → payload_of l ≡ none
      → line_events py usage (line l ls) ≡ line_events py usage ls
  unfolding line_events
  line_events-skip usage l ls f = ground (arith, f)

  line_events-done :
      (usage : Option ProviderUsage) (l t : Text) (ls : Lines)
      → payload_of l ≡ some t
      → (t == codes "[DONE]") ≡ true
      → line_events py usage (line l ls) ≡ only (completed usage)
  unfolding line_events
  line_events-done usage l t ls f g = ground (arith, f, g)

  line_events-bad :
      (usage : Option ProviderUsage) (l t : Text) (ls : Lines) (value : Option JsonValue)
      → payload_of l ≡ some t
      → (t == codes "[DONE]") ≡ false
      → py.loads t ≡ loaded value
      → as_members value ≡ none
      → line_events py usage (line l ls) ≡ only (stream_failure server_error malformed_event)
  unfolding line_events
  line_events-bad usage l t ls value f g j h = ground (arith, f, g, j, h)

  line_events-escaped :
      (usage : Option ProviderUsage) (l t : Text) (ls : Lines)
      → payload_of l ≡ some t
      → (t == codes "[DONE]") ≡ false
      → py.loads t ≡ load_escaped
      → line_events py usage (line l ls) ≡ raises
  unfolding line_events
  line_events-escaped usage l t ls f g j = ground (arith, f, g, j)

  line_events-event :
      (usage : Option ProviderUsage) (l t : Text) (ls : Lines) (value : Option JsonValue)
      (event : JsonMembers)
      → payload_of l ≡ some t
      → (t == codes "[DONE]") ≡ false
      → py.loads t ≡ loaded value
      → as_members value ≡ some event
      → line_events py usage (line l ls)
        ≡ emit_delta (delta_from event) (line_events py (latest (usage_from event) usage) ls)
  unfolding line_events
  line_events-event usage l t ls value event f g j h = ground (arith, f, g, j, h)

  Loaded-cases :
      (z : Loaded) → (z ≡ load_escaped) ⊎ ((value : Option JsonValue) × (z ≡ loaded value))
  Loaded-cases load_escaped = inl refl
  Loaded-cases (loaded value) = inr (value, refl)

  -- An event's line, given what the lines after it are.
  event-IsStream :
      (usage : Option ProviderUsage) (l t : Text) (ls : Lines) (value : Option JsonValue)
      → payload_of l ≡ some t
      → (t == codes "[DONE]") ≡ false
      → py.loads t ≡ loaded value
      → ((later : Option ProviderUsage) → IsStream (LinesEscape ls) (line_events py later ls))
      → IsStream (LinesEscape (line l ls)) (line_events py usage (line l ls))
  unfolding LinesEscape
  event-IsStream usage l t ls value f g j rest =
      let P = LinesEscape (line l ls) in
      elim (Option-cases (as_members value)) [
        | inl h ↦
            subst (IsStream P) (sym (line_events-bad usage l t ls value f g j h))
              (failure-IsStream _ server_error malformed_event bad_event)
        | inr (event, h) ↦
            let later = latest (usage_from event) usage in
            subst (IsStream P) (sym (line_events-event usage l t ls value event f g j h)) (
              emit_delta-IsStream _ (delta_from event) (line_events py later ls)
                (IsStream-map (line_events py later ls) (λ e. inr e) (rest later)))
      ]

  line_events-IsStream :
      (usage : Option ProviderUsage) (ls : Lines)
      → IsStream (LinesEscape ls) (line_events py usage ls)
  unfolding LinesEscape
  line_events-IsStream usage body_ended = unfold IsStream line_events in tt
  line_events-IsStream usage body_timed_out =
      unfold line_events in failure-IsStream _ ProviderErrorCategory.timeout timeout_error timed_out
  line_events-IsStream usage body_broken =
      unfold line_events in failure-IsStream _ server_error transport_error broken_transport
  line_events-IsStream usage body_escaped = unfold IsStream line_events in tt
  line_events-IsStream usage (line l ls) =
      let P = LinesEscape (line l ls) in
      elim (Option-cases (payload_of l)) [
        | inl f ↦
            subst (IsStream P) (sym (line_events-skip usage l ls f))
              (IsStream-map (line_events py usage ls) (λ e. inr e) (line_events-IsStream usage ls))
        | inr (t, f) ↦ elim (Bool-cases (t == codes "[DONE]")) [
          | inl g ↦
              subst (IsStream P) (sym (line_events-done usage l t ls f g)) (unfold IsStream in refl)
          | inr g ↦ elim (Loaded-cases (py.loads t)) [
            | inl j ↦
                subst (IsStream P) (sym (line_events-escaped usage l t ls f g j))
                  (unfold IsStream in inl (t, f, j))
            | inr (value, j) ↦
                event-IsStream usage l t ls value f g j (λ later. line_events-IsStream later ls)
          ]
        ]
      ]

  pub reply_events-IsStream :
      (reply : StreamReply) → IsStream (ReplyEscapes reply) (reply_events py reply)
  unfolding reply_events ReplyEscapes
  reply_events-IsStream connect_timed_out =
      failure-IsStream _ ProviderErrorCategory.timeout timeout_error timed_out
  reply_events-IsStream connect_broken =
      failure-IsStream _ server_error transport_error broken_transport
  reply_events-IsStream connect_escaped = unfold IsStream in tt
  reply_events-IsStream (streamed status ls) =
      if-cases (IsStream (ReplyEscapes (streamed status ls))) (leb 400 status)
        (λ refused.
          let error : 400 ≤ status = ground (arith, refused) in
          IsStream-map (drained status ls) (λ e. inl (error, e)) (drained-IsStream status ls error))
        (λ fine.
          let success : status < 400 = ground (arith, fine) in
          IsStream-map (line_events py none ls) (λ e. inr (success, e))
            (line_events-IsStream none ls))
