-- ===== src/Http/Client.antt =====
-- What a client that reads the event stream and decodes its data sees.
use enterprise_llm_gateway.Prelude.{
  Bool, List, Option, Text, [], ap, arith, codes, false, if◌then◌else◌, map, nat_eq, none, pair_eq,
  refl, some, suc, text_beq, text_eq, true, zero, ℕ, ◌&&◌, ◌==◌, ◌∙◌, ◌∷◌, ◌≡◌,
}
use enterprise_llm_gateway.Http.{Message, delta_message, done_sentinel, frame_messages, render}
use enterprise_llm_gateway.Http.Frames.{read_messages, read_messages-frame_messages, strip}
use enterprise_llm_gateway.Json.{dumps_dict, dumps_more}
use enterprise_llm_gateway.Json.Reader.{all_scalar, loads_text, loads_text-dumps_text}
use enterprise_llm_gateway.Streaming.{InferenceStreamEvent, broken, delivered}

pub data Seen : Type 0 where
  part : Text → Seen
  failure finished unreadable : Seen

abbrev part_of : Option Text → Seen
part_of none = unreadable
part_of (some t) = part t

abbrev delta_of : Option Text → Seen
delta_of none = unreadable
delta_of (some t) = part_of (loads_text t)

-- A message as the client takes it.
unfoldable pub see : Message → Seen
unfolding strip text_eq text_beq
see (some event, t) = failure
see (none, t) = if t == done_sentinel then finished else delta_of (strip (codes "{\"delta\": ") t)

-- What it is meant to see of the events: their texts, and how the stream ended if it pulled that far.
unfoldable pub meant : ℕ → List InferenceStreamEvent → Bool → List Seen
meant zero events through = []
meant (suc n) [] through = if through then [] else finished ∷ []
meant (suc n) (delivered content ∷ events) through = part content ∷ meant n events through
meant (suc n) (broken f ∷ events) through = failure ∷ []

-- Every chunk is a text of Unicode scalar values.
unfoldable pub all_encodable : List InferenceStreamEvent → Bool
unfolding all_scalar
all_encodable [] = true
all_encodable (delivered content ∷ events) = all_scalar content && all_encodable events
all_encodable (broken f ∷ events) = all_encodable events

see-delta :
    (content : Text) → all_scalar content ≡ true → see (delta_message content) ≡ part content
unfolding see strip dumps_dict dumps_more text_eq text_beq
see-delta content h = ap part_of (loads_text-dumps_text content (codes "}") h)

map-frame_messages :
    (n : ℕ) (id : Text) (events : List InferenceStreamEvent) (through : Bool)
    → all_encodable events ≡ true
    → map see (frame_messages n id events through) ≡ meant n events through
unfolding frame_messages meant all_encodable
map-frame_messages zero id events through h = refl
map-frame_messages (suc n) id [] true h = refl
map-frame_messages (suc n) id [] false h = unfold see text_eq text_beq in refl
map-frame_messages (suc n) id (delivered content ∷ events) through h =
    rw
      (
        see-delta content (ground (arith, h)),
        map-frame_messages n id events through (ground (arith, h)),
      )
      refl
map-frame_messages (suc n) id (broken f ∷ events) through h = unfold see in refl

-- A client that reads the body of a streamed response by the SSE standard and decodes the JSON of its
-- data sees exactly the chunks' texts, in order, and then the failure or the final mark, whatever
-- newlines, quotes or frames the texts imitate, if their characters are Unicode scalar values.
pub see-render :
    (n : ℕ) (id : Text) (events : List InferenceStreamEvent) (through : Bool)
    → all_encodable events ≡ true
    → map see (read_messages (render (frame_messages n id events through))) ≡ meant n events through
see-render n id events through h =
    ap (map see) (read_messages-frame_messages n id events through)
    ∙ map-frame_messages n id events through h
