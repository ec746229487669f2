-- ===== src/Llm/ChatCompletions/Examples.antt =====
-- A test of the Chat Completions API, and its theorem at a concrete stream.
use yet_another_go_boilerpla.Base.{ℕ, ◌≡◌, refl, true, Option, none, some, [], ◌∷◌, ◌++◌, lit, ok}
use yet_another_go_boilerpla.Llm.Fake.{Role, Request, Response, stop_end, collect}
use yet_another_go_boilerpla.Llm.Lines.{Body}
use yet_another_go_boilerpla.Llm.ChatCompletions.Defs.{
  Provider, ApiRequest, Json, new_provider, new_request_body, delta_text, add, response,
  stop_reason, stream,
}
use yet_another_go_boilerpla.Llm.ChatCompletions.Parts.{IsFrom, stream-Responds}

-- A decoder for which each chunk says "Hi" and stops.
abbrev json : Json
json = record {
  chunk = λ t. some (record {
    choices = record { content = 34 ∷ []; finish_reason = lit "stop" } ∷ [];
    usage = none;
    error = [];
  });
  string = λ t. some (lit "Hi");
  parts = λ t. none;
}

abbrev send : ApiRequest → Option (ℕ × Body)
send r = some (
  200,
  record {
    bytes = lit "data: {}" ++ 10 ∷ 10 ∷ (lit "data:{}" ++ 13 ∷ 10 ∷ lit "data: [DONE]");
    failing = none;
  },
)

abbrev request : Request
request = record {
  model = lit "m";
  system = [];
  messages = record { role = Role.user; text = lit "Hello" } ∷ [];
  max_tokens = 5;
}

abbrev provider : Provider
provider = record {
  endpoint = lit "http://localhost/v1/chat/completions";
  api_key = [];
  stream_usage = true;
}

abbrev hi_hi : Response
hi_hi = record {
  text = lit "HiHi";
  stop_reason = stop_end;
  usage = record { input_tokens = 0; output_tokens = 0 };
}

endpoint_made : (new_provider (lit "http://localhost/v1/") []).endpoint ≡ provider.endpoint
unfolding new_provider
endpoint_made = refl

streamed : stream json collect send provider request [] ≡ (ok hi_hi, lit "HiHi")
unfolding stream add delta_text response stop_reason
streamed = refl

stream-Responds_example :
    (r : ApiRequest) × (body : Body) × (new_request_body provider request ≡ ok r)
    × IsFrom json send r hi_hi (lit "HiHi") body
stream-Responds_example = stream-Responds json send provider request hi_hi (lit "HiHi") streamed
