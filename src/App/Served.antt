-- ===== src/App/Served.antt =====
-- internal/app/models.go and internal/platform/config/config.go: which configurations start, and where
-- a key goes.
use yet_another_go_boilerpla.Base.{
  ℕ, ◌≡◌, refl, ◌∙◌, ap, inl, inr, Bool, true, false, not, ◌&&◌, ◌||◌, some, List, [], ◌∷◌, ◌++◌,
  arith, Outcome, ok, err, if◌then◌else◌, ◌==◌, Bool-cases, &&-true, Option-cases, Text, lit,
  eq_text, eq_text→eq, is_empty, cut, trim_suffix, Dict, lookup, lookup-insert_self,
  lookup-insert_ne, has_key, insert, all, All,
}
use yet_another_go_boilerpla.Config.Defs.{
  Std, Config, ConfigError, is_model_ref, is_region, Check, report, checks, model_checks, validate,
  validate_models,
}
use yet_another_go_boilerpla.Config.Regions.{is_host_byte, is_region-all}
use yet_another_go_boilerpla.Llm.Router.{RouteError, resolve, with_model}
use yet_another_go_boilerpla.Llm.Fake.{append_assoc}
use yet_another_go_boilerpla.Llm.Anthropic.Defs as Anthropic
use yet_another_go_boilerpla.App.Models.{
  Llm, SystemOne, messages, register_client, bedrock_url, llm_providers, system_one_providers,
  router_if, router_for, new_llm, new_system_one, join_models, new_models,
}

-- The name of a provider in a reference: the part before the first slash.
abbrev pub before_slash : Text → Text
before_slash [] = []
before_slash (c ∷ s) = if c == 47 then [] else c ∷ before_slash s

-- The comments on the fields of Config: a provider serves once its setting is there.
abbrev pub serves_llm : Config → Text → Bool
serves_llm cfg name =
    eq_text (lit "fake") name
    || not (is_empty cfg.anthropic_api_key) && eq_text (lit "anthropic") name
    || not (is_empty cfg.bedrock_api_key) && eq_text (lit "bedrock") name
    || not (is_empty cfg.mistral_api_key) && eq_text (lit "mistral") name
    || not (is_empty cfg.xai_api_key) && eq_text (lit "xai") name
    || not (is_empty cfg.local_llm_url) && eq_text (lit "local") name

abbrev pub serves_system_one : Config → Text → Bool
serves_system_one cfg name =
    eq_text (lit "fake") name
    || not (is_empty cfg.type_safe_api_key) && eq_text (lit "typesafe") name

abbrev pub is_ok : {E A : Type 0} → Outcome E A → Bool
is_ok (ok a) = true
is_ok (err e) = false

report-nil :
    (cs : List Check) (es : List ConfigError)
    → report cs ++ es ≡ []
    → All (λ c. c.0 ≡ false) cs × (es ≡ [])
report-nil [] es h = (tt, h)
report-nil ((true, e) ∷ cs) es h = absurd (ground (arith, h))
report-nil ((false, e) ∷ cs) es h = let (rest, end) = report-nil cs es h in ((refl, rest), end)

report-nil_self : (cs : List Check) → report cs ≡ [] → All (λ c. c.0 ≡ false) cs
report-nil_self [] h = tt
report-nil_self ((true, e) ∷ cs) h = absurd (ground (arith, h))
report-nil_self ((false, e) ∷ cs) h = (refl, report-nil_self cs h)

not-false : (b : Bool) → not b ≡ false → b ≡ true
not-false b h = ground (arith, h)

-- What a valid configuration says of the models.
valid_models :
    (std : Std) (cfg : Config)
    → validate std cfg ≡ []
    → (is_model_ref cfg.llm_model ≡ true)
      × (is_model_ref cfg.system_one_model ≡ true)
      × ((not (is_empty cfg.bedrock_api_key) && not (is_region cfg.bedrock_region)) ≡ false)
unfolding validate
valid_models std cfg h =
    let (_, models) = report-nil (checks std cfg) (validate_models std cfg) h in
    let all = report-nil_self (model_checks std cfg) models in
    (not-false _ all.0, not-false _ all.1.0, all.1.1.0)

cut-before_slash : (s a b : Text) → cut 47 s ≡ some (a, b) → before_slash s ≡ a
cut-before_slash [] a b h = absurd (ground (arith, h))
cut-before_slash (c ∷ s) a b h = elim (Bool-cases (c == 47)) [
  | inl e ↦ ground (arith, e, h)
  | inr e ↦ elim (Option-cases (cut 47 s)) [
    | inl f ↦ absurd (ground (arith, e, f, h))
    | inr ((x, y), f) ↦ ground (arith, e, f, h, cut-before_slash s x y f)
  ]
]

is_ok-with_model :
    {P : Type 0} (providers ps : Dict P) (name model : Text)
    → is_ok (router_if ps (with_model model (lookup name providers))) ≡ has_key name providers
is_ok-with_model [] ps name model = refl
is_ok-with_model ((k, p) ∷ providers) ps name model =
    ground (arith, is_ok-with_model providers ps name model)

is_ok-router_for :
    {P : Type 0} (providers : Dict P) (ref : Text)
    → is_model_ref ref ≡ true
    → is_ok (router_for providers ref) ≡ has_key (before_slash ref) providers
unfolding is_model_ref router_for resolve
is_ok-router_for providers ref h = elim (Option-cases (cut 47 ref)) [
  | inl e ↦ absurd (ground (arith, rw e at h))
  | inr ((name, model), e) ↦
      let (named, modelled) = &&-true (not (is_empty name)) (not (is_empty model)) (rw e at h) in
      rw (cut-before_slash ref name model e) ground
        (arith, e, named, modelled, is_ok-with_model providers providers name model)
]

has_key-insert_lem :
    {P : Type 0} (k name : Text) (p : P) (providers : Dict P)
    → has_key k (insert name p providers) ≡ (has_key k providers || eq_text name k)
has_key-insert_lem k name p [] = ground arith
has_key-insert_lem k name p ((j, v) ∷ providers) =
    ground (arith, eq_text→eq j name, has_key-insert_lem k name p providers)

has_key-register_client :
    {P : Type 0} (k name setting : Text) (p : P) (providers : Dict P)
    → has_key k (register_client name setting p providers)
      ≡ (has_key k providers || not (is_empty setting) && eq_text name k)
has_key-register_client k name [] p providers = ground arith
has_key-register_client k name (c ∷ s) p providers = has_key-insert_lem k name p providers

if_bool : (a : Bool) → (if a then true else false) ≡ a
if_bool true = refl
if_bool false = refl

llm_providers-serves :
    (cfg : Config) (name : Text) → has_key name (llm_providers cfg) ≡ serves_llm cfg name
unfolding llm_providers
llm_providers-serves cfg name = simp (has_key-register_client, if_bool) refl

system_one_providers-serves :
    (cfg : Config) (name : Text)
    → has_key name (system_one_providers cfg) ≡ serves_system_one cfg name
unfolding system_one_providers
system_one_providers-serves cfg name = simp (has_key-register_client, if_bool) refl

is_ok-join_models :
    (a : Outcome RouteError (Dict Llm)) (b : Outcome RouteError (Dict SystemOne))
    → is_ok (join_models a b) ≡ (is_ok a && is_ok b)
is_ok-join_models (ok a) (ok b) = refl
is_ok-join_models (ok a) (err e) = refl
is_ok-join_models (err e) (ok b) = refl
is_ok-join_models (err e) (err f) = refl

-- A valid configuration starts just if the provider of each of its two models serves: the fake
-- always, another once its setting is there.
pub new_models-serves :
    (std : Std) (cfg : Config)
    → validate std cfg ≡ []
    → is_ok (new_models cfg) ≡ (
        serves_llm cfg (before_slash cfg.llm_model)
        && serves_system_one cfg (before_slash cfg.system_one_model))
unfolding new_models new_llm new_system_one
new_models-serves std cfg h =
    let (llm, system, _) = valid_models std cfg h in
    rw
      (
        is_ok-join_models (new_llm cfg) (new_system_one cfg),
        is_ok-router_for (llm_providers cfg) cfg.llm_model llm,
        is_ok-router_for (system_one_providers cfg) cfg.system_one_model system,
        llm_providers-serves cfg (before_slash cfg.llm_model),
        system_one_providers-serves cfg (before_slash cfg.system_one_model),
      )
      refl

trim_suffix-append :
    (x c : ℕ) (s t : Text) → trim_suffix x (s ++ c ∷ t) ≡ s ++ trim_suffix x (c ∷ t)
trim_suffix-append x c [] t = refl
trim_suffix-append x c (d ∷ []) t = refl
trim_suffix-append x c (d ∷ e ∷ s) t = ap (◌∷◌ d) (trim_suffix-append x c (e ∷ s) t)

and_false : (a b : Bool) → (a && b) ≡ false → a ≡ true → b ≡ false
and_false a b h g = ground (arith, h, g)

lookup-register_ne :
    {P : Type 0} (k name setting : Text) (p : P) (providers : Dict P)
    → eq_text name k ≡ false
    → lookup k (register_client name setting p providers) ≡ lookup k providers
lookup-register_ne k name [] p providers ne = refl
lookup-register_ne k name (c ∷ s) p providers ne = lookup-insert_ne name k p providers ne

lookup-register_self :
    {P : Type 0} (name setting : Text) (p : P) (providers : Dict P)
    → is_empty setting ≡ false
    → lookup name (register_client name setting p providers) ≡ some p
lookup-register_self name [] p providers set = absurd (ground (arith, set))
lookup-register_self name (c ∷ s) p providers set = lookup-insert_self name p providers

bedrock_endpoint :
    (region : Text)
    → trim_suffix 47 (bedrock_url region)
      ≡ lit "https://bedrock-runtime." ++ region ++ lit ".amazonaws.com/anthropic"
bedrock_endpoint region =
    trim_suffix-append 47 46 (lit "https://bedrock-runtime." ++ region)
      (lit "amazonaws.com/anthropic/")

bedrock_provider :
    (region key : Text)
    → Anthropic.new_provider (bedrock_url region) key ≡ record {
      endpoint =
          lit "https://bedrock-runtime." ++ region ++ lit ".amazonaws.com/anthropic/v1/messages";
      api_key = key;
    }
unfolding Anthropic.new_provider
bedrock_provider region key =
    ap {A = Text} (λ e. record { endpoint = e ++ lit "/v1/messages"; api_key = key })
      (bedrock_endpoint region)
    ∙ ap {A = Text} (λ e. record { endpoint = lit "https://bedrock-runtime." ++ e; api_key = key })
        (append_assoc region (lit ".amazonaws.com/anthropic") (lit "/v1/messages"))

-- The provider of Claude on Bedrock, of a valid configuration with its key: it sends the key to the
-- host of the region below amazonaws.com, and the region, a part of that name, has only lowercase
-- letters, digits and dashes.
pub llm_providers-bedrock :
    (std : Std) (cfg : Config)
    → validate std cfg ≡ []
    → is_empty cfg.bedrock_api_key ≡ false
    → (lookup (lit "bedrock") (llm_providers cfg)
        ≡ some (
            messages (record {
              endpoint =
                  lit "https://bedrock-runtime."
                  ++ cfg.bedrock_region
                  ++ lit ".amazonaws.com/anthropic/v1/messages";
              api_key = cfg.bedrock_api_key;
            })))
      × (all is_host_byte cfg.bedrock_region ≡ true)
unfolding llm_providers Anthropic.new_provider
llm_providers-bedrock std cfg h key =
    let (_, _, valid) = valid_models std cfg h in
    (
      lookup-register_ne _ (lit "local") cfg.local_llm_url _ _ refl
          ∙ lookup-register_ne _ (lit "xai") cfg.xai_api_key _ _ refl
          ∙ lookup-register_ne _ (lit "mistral") cfg.mistral_api_key _ _ refl
          ∙ lookup-register_self (lit "bedrock") cfg.bedrock_api_key _ _ key
          ∙ ap (λ p. some (messages p)) (bedrock_provider cfg.bedrock_region cfg.bedrock_api_key),
      is_region-all cfg.bedrock_region
          (not-false _ (and_false (not (is_empty cfg.bedrock_api_key)) _ valid (rw key refl))),
    )
