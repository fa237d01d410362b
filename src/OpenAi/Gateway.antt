-- ===== src/OpenAi/Gateway.antt =====
-- The streaming coordinator over this client: where the client raises nothing, a stream is opened or
-- refused, and so settled.
use enterprise_llm_gateway.Reservations
use enterprise_llm_gateway.Streaming
use enterprise_llm_gateway.Prelude.{nat_eq, pair_eq, text_eq, ◌≡◌}
use enterprise_llm_gateway.Prelude.Dict.{Dict}
use enterprise_llm_gateway.Prelude.Result.{Result, ok}
use enterprise_llm_gateway.Streaming.{OpenFailure, StreamSession}
use enterprise_llm_gateway.World.{Env, World}

module _ (E : Env) where
  open E use {Client, clock, sha256, uuid_text}

  -- `open` returns a session.
  abbrev Returns : Result OpenFailure StreamSession × World Client → Type 0
  Returns z = (session : StreamSession) × (z.0 ≡ ok session)
