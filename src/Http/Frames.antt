-- ===== src/Http/Frames.antt =====
-- A reader of an event stream, by lines as the SSE standard has it, and that it reads the frames back.
use mathlib.Core.List.{append_assoc}
use enterprise_llm_gateway.Prelude.{
  Bool, List, Option, Text, [], arith, codes, false, if◌then◌else◌, map, nat_eq, none, pair_eq,
  refl, some, suc, text_eq, true, zero, ℕ, ◌&&◌, ◌++◌, ◌==◌, ◌∷◌, ◌≡◌,
}
use enterprise_llm_gateway.Http.{
  ErrorBody, Message, delta_json, error_json, failed_body, frame_messages, render, sse,
}
use enterprise_llm_gateway.Json.{dumps, dumps_flag, dumps_text}
use enterprise_llm_gateway.Json.Plain.{
  all_plain, is_plain, is_plain-append, is_plain-dumps_dict, is_plain-dumps_flag,
  is_plain-dumps_text,
}
use enterprise_llm_gateway.Streaming.{InferenceStreamEvent, broken, delivered}

unfoldable pub onto_line : ℕ → List Text → List Text
onto_line c [] = []
onto_line c (l ∷ ls) = (c ∷ l) ∷ ls

-- The lines that a newline ends.
unfoldable pub lines : Text → List Text
unfolding onto_line
lines [] = []
lines (c ∷ t) = let rest = lines t in if c == 10 then [] ∷ rest else onto_line c rest

-- What follows a prefix.
unfoldable pub strip : Text → Text → Option Text
strip [] t = some t
strip (p ∷ ps) [] = none
strip (p ∷ ps) (c ∷ t) = let rest = strip ps t in if p == c then rest else none

-- The field of a line: an event's name, data, or something else.
pub data Field : Type 0 where
  name_field : Text → Field
  data_field : Text → Field
  blank other : Field

unfoldable pub field_of : Text → Field
unfolding strip
field_of [] = blank
field_of (c ∷ l) = elim (strip (codes "event: ") (c ∷ l)) [
  | some event ↦ name_field event
  | none ↦ elim (strip (codes "data: ") (c ∷ l)) [ some t ↦ data_field t | none ↦ other ]
]

-- The messages of the lines, with the name and the data of the frame so far; a blank line ends one.
unfoldable pub dispatch : Option Text → Option Text → List Field → List Message
dispatch event t [] = []
dispatch event t (name_field e ∷ fs) = dispatch (some e) t fs
dispatch event t (data_field u ∷ fs) = dispatch event (some u) fs
dispatch event none (blank ∷ fs) = dispatch none none fs
dispatch event (some t) (blank ∷ fs) = (event, t) ∷ dispatch none none fs
dispatch event t (other ∷ fs) = dispatch event t fs

unfoldable pub read_messages : Text → List Message
unfolding dispatch field_of lines
read_messages body = dispatch none none (map field_of (lines body))

lines-plain : (l rest : Text) → is_plain l ≡ true → lines (l ++ (10 ∷ rest)) ≡ l ∷ lines rest
unfolding lines is_plain
lines-plain [] rest h = refl
lines-plain (c ∷ l) rest h =
    let tail = lines-plain l rest (ground (arith, h)) in rw tail (ground (arith, h))

-- A frame's name and data have no newline.
unfoldable pub fits : Message → Bool
unfolding is_plain
fits (none, t) = is_plain t
fits (some event, t) = is_plain event && is_plain t

unfoldable pub all_fit : List Message → Bool
unfolding fits
all_fit [] = true
all_fit (m ∷ ms) = fits m && all_fit ms

lines-data :
    (t rest : Text)
    → is_plain t ≡ true
    → lines (codes "data: " ++ (t ++ (10 ∷ 10 ∷ rest))) ≡ (codes "data: " ++ t) ∷ [] ∷ lines rest
unfolding is_plain lines
lines-data t rest h =
    lines-plain (codes "data: " ++ t) (10 ∷ rest) (is_plain-append (codes "data: ") t refl h)

lines-name :
    (event rest : Text)
    → is_plain event ≡ true
    → lines (codes "event: " ++ (event ++ (10 ∷ rest))) ≡ (codes "event: " ++ event) ∷ lines rest
unfolding is_plain
lines-name event rest h =
    lines-plain (codes "event: " ++ event) rest (is_plain-append (codes "event: ") event refl h)

read_messages-data :
    (t rest : Text)
    → is_plain t ≡ true
    → read_messages (sse none t ++ rest) ≡ (none, t) ∷ read_messages rest
unfolding read_messages sse dispatch field_of strip
read_messages-data t rest h = rw (append_assoc t (10 ∷ 10 ∷ []) rest, lines-data t rest h) refl

read_messages-named :
    (event t rest : Text)
    → is_plain event ≡ true
    → is_plain t ≡ true
    → read_messages (sse (some event) t ++ rest) ≡ (some event, t) ∷ read_messages rest
unfolding read_messages sse dispatch field_of strip
read_messages-named event t rest he ht =
    rw
      (
        append_assoc event (10 ∷ (codes "data: " ++ (t ++ (10 ∷ 10 ∷ [])))) rest,
        append_assoc t (10 ∷ 10 ∷ []) rest,
        lines-name event (codes "data: " ++ (t ++ (10 ∷ 10 ∷ rest))) he,
        lines-data t rest ht,
      )
      refl

pub read_messages-render : (ms : List Message) → all_fit ms ≡ true → read_messages (render ms) ≡ ms
unfolding render all_fit fits
read_messages-render [] h = unfold read_messages lines dispatch in refl
read_messages-render ((none, t) ∷ ms) h =
    rw
      (
        read_messages-data t (render ms) (ground (arith, h)),
        read_messages-render ms (ground (arith, h)),
      )
      refl
read_messages-render ((some event, t) ∷ ms) h =
    rw
      (
        read_messages-named event t (render ms) (ground (arith, h)) (ground (arith, h)),
        read_messages-render ms (ground (arith, h)),
      )
      refl

is_plain-delta : (content : Text) → is_plain (delta_json content) ≡ true
unfolding is_plain all_plain
is_plain-delta content =
    is_plain-dumps_dict (codes ", ") (codes ": ") ((codes "delta", dumps_text content) ∷ []) refl
      refl (ground (arith, is_plain-dumps_text content))

is_plain-error : (b : ErrorBody) → is_plain (error_json b) ≡ true
unfolding is_plain all_plain
is_plain-error b =
    let members =
      (codes "type", dumps_text b.error_type)
      ∷ (codes "code", dumps_text b.code)
      ∷ (codes "message", dumps_text b.message)
      ∷ (codes "request_id", dumps_text b.request_id)
      ∷ (codes "retryable", dumps_flag b.retryable)
      ∷ [] in
    let inner : is_plain (dumps members) ≡ true =
      is_plain-dumps_dict (codes ", ") (codes ": ") members refl refl (
        ground (
          arith,
          is_plain-dumps_text b.error_type,
          is_plain-dumps_text b.code,
          is_plain-dumps_text b.message,
          is_plain-dumps_text b.request_id,
          is_plain-dumps_flag b.retryable,
        )) in
    is_plain-dumps_dict (codes ", ") (codes ": ") ((codes "error", dumps members) ∷ []) refl refl
      (ground (arith, inner))

all_fit-frame_messages :
    (n : ℕ) (id : Text) (events : List InferenceStreamEvent) (through : Bool)
    → all_fit (frame_messages n id events through) ≡ true
unfolding frame_messages all_fit fits is_plain
all_fit-frame_messages zero id events through = refl
all_fit-frame_messages (suc n) id [] true = refl
all_fit-frame_messages (suc n) id [] false = refl
all_fit-frame_messages (suc n) id (delivered content ∷ events) through =
    ground (arith, is_plain-delta content, all_fit-frame_messages n id events through)
all_fit-frame_messages (suc n) id (broken f ∷ events) through =
    ground (arith, is_plain-error (failed_body id))

-- Whatever the texts of the chunks and of the identifier, the messages are read back.
pub read_messages-frame_messages :
    (n : ℕ) (id : Text) (events : List InferenceStreamEvent) (through : Bool)
    → let ms = frame_messages n id events through in read_messages (render ms) ≡ ms
read_messages-frame_messages n id events through =
    read_messages-render (frame_messages n id events through)
      (all_fit-frame_messages n id events through)
