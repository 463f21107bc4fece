-- ===== src/Providers/Llm.antt =====
-- ragent/providers/llm.py: which provider is used, and what a call cost. Prices are in cents per
-- million tokens, so that a cost is a whole number of hundredths of a millionth of a dollar, where
-- the code has a float. An API key is the empty text where none is set.
pub mod Calls
pub mod Reading
use ragent.Common.{
  true, ℕ, ◌+◌, ◌*◌, String, Bool, false, ◌||◌, not, Option, none, some, List, [], ◌∷◌, str_eq,
  if◌then◌else◌,
}
use ragent.Common.Dict
use ragent.Common.Dict.{Dict}
use ragent.Ingest.Types.{is_none}

-- What an asynchronous generator yields, and whether it then ends by an exception.
pub record Streamed (A : Type 0) : Type 0 where
  pub items : List A
  pub raised : Bool

pub data Tier : Type 0 where
  synthesis utility vision : Tier

-- (input, output)
abbrev pub pricing : Dict (ℕ × ℕ)
pricing =
    ("claude-opus-5", (500, 2500))
    ∷ ("claude-sonnet-5", (300, 1500))
    ∷ ("claude-haiku-4-5", (100, 500))
    ∷ ("gpt-4o", (250, 1000))
    ∷ ("gpt-4o-mini", (15, 60))
    ∷ ("gpt-4.1", (200, 800))
    ∷ ("gpt-4.1-mini", (40, 160))
    ∷ []

pub record Usage : Type 0 where
  pub model : String
  pub provider : String
  pub input_tokens : ℕ
  pub output_tokens : ℕ
  pub latency_ms : ℕ

unfoldable pub priced : Usage → Bool
priced u = not (is_none (Dict.get? pricing u.model))

unfoldable pub cost_usd : Usage → ℕ
cost_usd u =
    let (rate_in, rate_out) = Dict.get_or pricing u.model (0, 0) in
    u.input_tokens * rate_in + u.output_tokens * rate_out

-- The settings that are read.
pub record Settings : Type 0 where
  pub llm_provider : String
  pub anthropic_api_key : String
  pub openai_api_key : String
  pub openai_base_url : String
  pub model_synthesis : String
  pub model_utility : String
  pub model_vision : String
  pub openai_model_synthesis : String
  pub openai_model_utility : String
  pub openai_model_vision : String

-- A provider and what its client is made with.
pub data Provider : Type 0 where
  anthropic_provider : String → Provider
  openai_provider : String → String → Provider

abbrev pub name_of : Provider → String
name_of (anthropic_provider _) = "anthropic"
name_of (openai_provider _ _) = "openai"

unfoldable pub model_for : Settings → Provider → Tier → String
model_for s (anthropic_provider _) synthesis = s.model_synthesis
model_for s (anthropic_provider _) utility = s.model_utility
model_for s (anthropic_provider _) vision = s.model_vision
model_for s (openai_provider _ _) synthesis = s.openai_model_synthesis
model_for s (openai_provider _ _) utility = s.openai_model_utility
model_for s (openai_provider _ _) vision = s.openai_model_vision

-- `OpenAIProvider(...)`, whose client gets a placeholder for an empty key.
unfoldable pub new_openai : Settings → Provider
new_openai s =
    openai_provider (if str_eq s.openai_api_key "" then "not-needed" else s.openai_api_key)
      s.openai_base_url

abbrev pub openai_url : String
openai_url = "https://api.openai.com/v1"

-- What `_provider` does: it raises LLMUnavailable, or returns a provider or None.
pub data Selection : Type 0 where
  unavailable : Selection
  selected : Option Provider → Selection

unfoldable pub select_provider : Settings → Selection
select_provider s =
    if str_eq s.llm_provider "none"
    then selected none
    else if str_eq s.llm_provider "anthropic"
    then if str_eq s.anthropic_api_key ""
      then unavailable
      else selected (some (anthropic_provider s.anthropic_api_key))
    else if str_eq s.llm_provider "openai"
    then selected (some (new_openai s))
    else if not (str_eq s.anthropic_api_key "")
    then selected (some (anthropic_provider s.anthropic_api_key))
    else if not (str_eq s.openai_api_key "") || not (str_eq s.openai_base_url openai_url)
    then selected (some (new_openai s))
    else selected none

unfoldable pub available : Settings → Bool
available s = elim (select_provider s) [ unavailable ↦ false | selected o ↦ not (is_none o) ]

-- `_require`, whose `none` is LLMUnavailable.
unfoldable pub require_provider : Settings → Option Provider
require_provider s = elim (select_provider s) [ unavailable ↦ none | selected o ↦ o ]

-- `none` is LLMUnavailable, which `_provider` raises here too; `some none` is Python's None.
unfoldable pub active_provider : Settings → Option (Option String)
active_provider s = elim (select_provider s) [
  | unavailable ↦ none
  | selected none ↦ some none
  | selected (some p) ↦ some (some (name_of p))
]

-- What /health reports.
pub record Description : Type 0 where
  pub provider : Option String
  pub models : Dict String
  pub base_url : Option String
  pub extractive_fallback : Bool

abbrev pub base_url_of : Settings → Provider → Option String
base_url_of s (anthropic_provider _) = none
base_url_of s (openai_provider _ _) = some s.openai_base_url

unfoldable pub describe : Settings → Option Description
describe s = elim (select_provider s) [
  | unavailable ↦ none
  | selected none ↦
      some (record { provider = none; models = []; base_url = none; extractive_fallback = true })
  | selected (some p) ↦ some (record {
    provider = some (name_of p);
    models =
        ("synthesis", model_for s p synthesis)
        ∷ ("utility", model_for s p utility)
        ∷ ("vision", model_for s p vision)
        ∷ [];
    base_url = base_url_of s p;
    extractive_fallback = false;
  })
]
