-- ===== src/Pipeline/Handlers.antt =====
-- The handler registry of ragent/pipeline/handlers.py: a dict from stage name to handler. The
-- handlers themselves are a parameter of the model, so they stand for any type here.
pub mod Registry
use ragent.Common.{
  String, Bool, true, false, Option, none, some, List, [], ◌∷◌, map, if◌then◌else◌, contains,
}
use ragent.Common.Dict.{Dict, get?, put}
use ragent.Pipeline.Stages.{Stage, names}

pub data RegistrationError : Type 0 where
  unknown_stage already_registered : String → RegistrationError

pub data Registered {ℓ} (A : Type ℓ) : Type ℓ where
  ok : A → Registered A
  refused : RegistrationError → Registered A

module _ {ℓ} {Handler : Type ℓ} where
  -- `@handler(stage_name)` applied to `fn`: the registry afterwards.
  unfoldable pub handler : List Stage → String → Handler → Dict Handler → Registered (Dict Handler)
  handler pipeline stage_name fn handlers =
      if contains (names pipeline) stage_name
      then (elim (get? handlers stage_name) [
        | none ↦ ok (put handlers stage_name fn)
        | some _ ↦ refused (already_registered stage_name)
      ])
      else refused (unknown_stage stage_name)

  -- `none` is a HandlerNotRegistered.
  unfoldable pub get_handler : String → Dict Handler → Option Handler
  get_handler stage_name handlers = get? handlers stage_name

  unfoldable pub registered_stages : Dict Handler → List String
  registered_stages handlers = map (λ (e : String × Handler). e.0) handlers
