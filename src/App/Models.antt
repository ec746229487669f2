-- ===== src/App/Models.antt =====
-- internal/app/models.go: the routers of the models, from the configuration. A provider is the client
-- that the code makes, with its address and its key.
use yet_another_go_boilerpla.Base.{
  ℕ, true, List, [], ◌∷◌, ◌++◌, ◌*◌, Outcome, ok, err, if◌then◌else◌, Text, lit, is_empty,
  trim_suffix, Dict, insert,
}
use yet_another_go_boilerpla.Config.Defs.{Config, development}
use yet_another_go_boilerpla.Llm.Router.{RouteError, resolve}
use yet_another_go_boilerpla.Llm.Anthropic.Defs as Anthropic
use yet_another_go_boilerpla.Llm.ChatCompletions.Defs as ChatCompletions

-- 40 milliseconds
abbrev pub fake_delay : ℕ
fake_delay = 40 * 1_000_000

abbrev pub mistral_url : Text
mistral_url = lit "https://api.mistral.ai/v1"

abbrev pub xai_url : Text
xai_url = lit "https://api.x.ai/v1"

-- anthropic.BaseURL and typesafe.BaseURL
abbrev pub anthropic_url : Text
anthropic_url = lit "https://api.anthropic.com/"

abbrev pub type_safe_url : Text
type_safe_url = lit "https://api.typesafe.ai"

pub data Llm : Type 0 where
  fake : ℕ → Llm
  messages : Anthropic.Provider → Llm
  completions : ChatCompletions.Provider → Llm

-- typesafe.Provider
pub record TypeSafe : Type 0 where
  pub endpoint : Text
  pub api_key : Text

pub data SystemOne : Type 0 where
  uniform : SystemOne
  hosted : TypeSafe → SystemOne

-- typesafe.New
unfoldable pub new_type_safe : Text → Text → TypeSafe
new_type_safe base_url api_key = record {
  endpoint = trim_suffix 47 base_url ++ lit "/v1/systemone";
  api_key = api_key;
}

-- One `if setting != ""` of the registrations.
abbrev pub register_client : {P : Type 0} → Text → Text → P → Dict P → Dict P
register_client name setting p providers =
    if is_empty setting then providers else insert name p providers

abbrev pub with_usage : ChatCompletions.Provider → ChatCompletions.Provider
with_usage p = record p { stream_usage = true }

abbrev pub bedrock_url : Text → Text
bedrock_url region = lit "https://bedrock-runtime." ++ region ++ lit ".amazonaws.com/anthropic/"

-- The providers that newLLM registers.
unfoldable pub llm_providers : Config → Dict Llm
unfolding Anthropic.new_provider ChatCompletions.new_provider
llm_providers cfg =
    register_client (lit "local") cfg.local_llm_url
      (completions (with_usage (ChatCompletions.new_provider cfg.local_llm_url [])))
      (register_client (lit "xai") cfg.xai_api_key
        (completions (with_usage (ChatCompletions.new_provider xai_url cfg.xai_api_key)))
        (register_client (lit "mistral") cfg.mistral_api_key
          (completions (ChatCompletions.new_provider mistral_url cfg.mistral_api_key))
          (register_client (lit "bedrock") cfg.bedrock_api_key
            (messages (Anthropic.new_provider (bedrock_url cfg.bedrock_region) cfg.bedrock_api_key))
            (register_client (lit "anthropic") cfg.anthropic_api_key
              (messages (Anthropic.new_provider anthropic_url cfg.anthropic_api_key))
              ((lit "fake", fake (if development cfg then fake_delay else 0)) ∷ [])))))

-- The providers that newSystemOne registers.
unfoldable pub system_one_providers : Config → Dict SystemOne
unfolding new_type_safe
system_one_providers cfg =
    register_client (lit "typesafe") cfg.type_safe_api_key
      (hosted (new_type_safe type_safe_url cfg.type_safe_api_key)) ((lit "fake", uniform) ∷ [])

abbrev pub router_if :
    {P : Type 0} → Dict P → Outcome RouteError (P × Text) → Outcome RouteError (Dict P)
router_if providers (ok found) = ok providers
router_if providers (err e) = err e

-- The router, where it resolves the configured model.
unfoldable pub router_for : {P : Type 0} → Dict P → Text → Outcome RouteError (Dict P)
unfolding resolve
router_for providers ref = router_if providers (resolve providers ref)

-- newLLM
unfoldable pub new_llm : Config → Outcome RouteError (Dict Llm)
unfolding router_for llm_providers
new_llm cfg = router_for (llm_providers cfg) cfg.llm_model

-- newSystemOne
unfoldable pub new_system_one : Config → Outcome RouteError (Dict SystemOne)
unfolding router_for system_one_providers
new_system_one cfg = router_for (system_one_providers cfg) cfg.system_one_model

pub record Models : Type 0 where
  pub llm : Dict Llm
  pub system_one : Dict SystemOne

-- errors.Join of the errors of the two routers
abbrev pub errors_of : {A : Type 0} → Outcome RouteError A → List RouteError
errors_of (ok a) = []
errors_of (err e) = e ∷ []

abbrev pub join_models :
    Outcome RouteError (Dict Llm)
    → Outcome RouteError (Dict SystemOne)
    → Outcome (List RouteError) Models
join_models (ok llms) (ok systems) = ok (record { llm = llms; system_one = systems })
join_models llms systems = err (errors_of llms ++ errors_of systems)

-- NewModels
unfoldable pub new_models : Config → Outcome (List RouteError) Models
unfolding new_llm new_system_one
new_models cfg = join_models (new_llm cfg) (new_system_one cfg)
