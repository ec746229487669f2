-- ===== src/App/Examples.antt =====
-- Configurations at work: the defaults, and Claude on Bedrock.
use yet_another_go_boilerpla.Base.{
  ◌≡◌, refl, pos, true, false, ◌&&◌, none, some, [], ◌∷◌, ◌++◌, Text, lit, eq_text, lookup, all,
  if◌then◌else◌,
}
use yet_another_go_boilerpla.Config.Defs.{Std, Config, load, validate, is_region, is_model_ref}
use yet_another_go_boilerpla.Config.Regions.{is_host_byte}
use yet_another_go_boilerpla.App.Models.{messages, llm_providers, new_models}
use yet_another_go_boilerpla.App.Served.{
  before_slash, serves_llm, serves_system_one, is_ok, new_models-serves, llm_providers-bedrock,
}

-- The functions of the standard library at the values that the examples pass.
abbrev library : Std
library = record {
  atoi = λ s. if eq_text s (lit "8080") then some (pos 8080) else none;
  to_lower = λ s. s;
  unmarshal_level = λ s. none;
  join_host_port = λ host port. host ++ 58 ∷ port;
  split_host_port = λ s. none;
  parse_addr = λ s. none;
  parse_url = λ s. none;
}

abbrev environment : Text → Text
environment name =
    if eq_text name (lit "ENVIRONMENT")
    then lit "development"
    else if eq_text name (lit "LLM_MODEL")
    then lit "bedrock/claude"
    else if eq_text name (lit "BEDROCK_API_KEY")
    then lit "key"
    else if eq_text name (lit "BEDROCK_REGION")
    then lit "us-gov-west-1"
    else []

loads_region : (load library environment).bedrock_region ≡ lit "us-gov-west-1"
unfolding load
loads_region = refl

abbrev settings : Config
settings = record {
  env = lit "development";
  log_level = pos 0;
  host = lit "localhost";
  port = lit "8080";
  database_url = lit "postgres://localhost";
  client_ip_header = [];
  debug_addr = [];
  llm_model = lit "bedrock/claude";
  system_one_model = lit "fake/uniform";
  anthropic_api_key = [];
  mistral_api_key = [];
  xai_api_key = [];
  type_safe_api_key = [];
  bedrock_api_key = lit "key";
  bedrock_region = lit "us-gov-west-1";
  local_llm_url = [];
  log_level_input = [];
}

IsValid_settings : validate library settings ≡ []
unfolding validate is_region is_model_ref
IsValid_settings = refl

-- A region that would change the host of the address is refused.
refuses_host : is_region (lit "evil.example/us-east-1") ≡ false
unfolding is_region
refuses_host = refl

new_models-serves_example : is_ok (new_models settings) ≡ (
    serves_llm settings (before_slash settings.llm_model)
    && serves_system_one settings (before_slash settings.system_one_model))
new_models-serves_example = new_models-serves library settings IsValid_settings

llm_providers-bedrock_example :
    (lookup (lit "bedrock") (llm_providers settings)
      ≡ some (
          messages (record {
            endpoint =
                lit "https://bedrock-runtime."
                ++ settings.bedrock_region
                ++ lit ".amazonaws.com/anthropic/v1/messages";
            api_key = settings.bedrock_api_key;
          })))
    × (all is_host_byte settings.bedrock_region ≡ true)
llm_providers-bedrock_example = llm_providers-bedrock library settings IsValid_settings refl
