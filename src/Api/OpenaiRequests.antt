-- ===== src/Api/OpenaiRequests.antt =====
-- What ragent/api/openai_compat.py reads from a request: the model name, which is a list of code
-- points, and the question. An HTTPException is its status.
pub mod Models
use ragent.Common.{
  ℕ, ◌+◌, ◌-◌, String, Bool, true, false, ◌&&◌, ◌||◌, not, Option, none, some, List, [], ◌∷◌, ◌++◌,
  map, str_eq, if◌then◌else◌, length, is_empty,
}
use ragent.Ingest.Text.{text_eq, Text, codes, strip, drop, is_prefix}
use ragent.Agent.Prompt.{join, newline}

pub data Reply {ℓ} (A : Type ℓ) : Type ℓ where
  ok : A → Reply A
  http_error : ℕ → Reply A
  server_error : Reply A

-- The keys of `STRATEGIES`.
abbrev pub strategies : List String
strategies = "fixed" ∷ "recursive" ∷ "layout" ∷ "semantic" ∷ []

abbrev pub model_prefix : Text
model_prefix = codes "ragent"

-- f"{MODEL_PREFIX}-"
abbrev pub dashed_prefix : Text
dashed_prefix = codes "ragent-"

-- `suffix in STRATEGIES`, with the strategy of that name.
abbrev pub strategy_named : List String → Text → Option String
strategy_named [] suffix = none
strategy_named (s ∷ rest) suffix =
    if text_eq (codes s) suffix then some s else strategy_named rest suffix

-- Without a configured strategy, `chunk_strategies[0]` raises for every model.
unfoldable pub strategy_for : List String → Text → Reply String
strategy_for [] model = server_error
strategy_for (default ∷ _) model =
    if text_eq model model_prefix || is_empty model
    then ok default
    else if is_prefix dashed_prefix model
    then elim (strategy_named strategies (drop (length dashed_prefix) model)) [
      | none ↦ http_error 404
      | some s ↦ ok s
    ]
    else http_error 404

pub data Role : Type 0 where
  system user assistant tool developer : Role

-- A content block: its type, and its text where it has one.
pub record Part : Type 0 where
  pub type_of : String
  pub text : Option Text

pub data Content : Type 0 where
  plain : Text → Content
  parts : List Part → Content
  no_content : Content

pub record ChatMessage : Type 0 where
  pub role : Role
  pub content : Content

-- `part.get("text", "")`
abbrev pub text_or_empty : Option Text → Text
text_or_empty none = []
text_or_empty (some t) = t

abbrev pub text_parts : List Part → List Text
text_parts [] = []
text_parts (p ∷ rest) =
    let more = text_parts rest in
    if str_eq p.type_of "text" then text_or_empty p.text ∷ more else more

unfoldable pub as_text : Content → Text
as_text (plain t) = t
as_text (parts ps) = join newline (text_parts ps)
as_text no_content = []

abbrev pub is_user : Role → Bool
is_user user = true
is_user _ = false

-- `none` where no turn of the user holds text; the last one that does counts.
unfoldable pub last_question : List ChatMessage → Option Text
last_question [] = none
last_question (m ∷ rest) = elim (last_question rest) [
  | some later ↦ some later
  | none ↦
      let text = strip (as_text m.content) in
      if is_user m.role && not (is_empty text) then some text else none
]

unfoldable pub query_of : List ChatMessage → Reply Text
query_of messages = elim (last_question messages) [ none ↦ http_error 400 | some t ↦ ok t ]

pub record ChatCompletionRequest : Type 0 where
  pub model : Text
  pub messages : List ChatMessage
  pub stream : Bool
  pub document_ids : List String

-- The names that `list_models` returns, for the strategies in the order of `sorted`.
unfoldable pub listed_models : List String → List Text
listed_models sorted = model_prefix ∷ map (λ s. dashed_prefix ++ codes s) sorted
