-- ===== src/Pipeline/Handlers/Registry.antt =====
-- What registering a handler does to every lookup.
use ragent.Common.{
  String, ◌≡◌, ◌⊎◌, inl, inr, true, false, none, some, List, contains, str_eq, if◌then◌else◌,
  Option-cases, Bool-cases,
}
use ragent.Common.Dict.{Dict, get?, put, get?-put}
use ragent.Pipeline.Stages.{Stage, names}
use ragent.Pipeline.Handlers.{unknown_stage, already_registered, ok, refused, handler, get_handler}

-- Registering a handler is refused for an unknown stage and for a stage that has one. Otherwise
-- the stage has the new handler and every other stage has what it had.
pub handler_cases :
    {Handler : Type 0} (pipeline : List Stage) (stage : String) (fn : Handler)
    (handlers : Dict Handler)
    → (contains (names pipeline) stage ≡ false)
        × (handler pipeline stage fn handlers ≡ refused (unknown_stage stage))
      ⊎ ((h : Handler) × (get_handler stage handlers ≡ some h)
          × (handler pipeline stage fn handlers ≡ refused (already_registered stage)))
      ⊎ (contains (names pipeline) stage ≡ true)
        × (get_handler stage handlers ≡ none)
        × ((after : Dict Handler) × (handler pipeline stage fn handlers ≡ ok after)
            × ((j : String)
                → get_handler j after
                  ≡ (if str_eq stage j then some fn else get_handler j handlers)))
unfolding handler get_handler
handler_cases pipeline stage fn handlers = elim (Bool-cases (contains (names pipeline) stage)) [
  | inr e ↦ inl (e, rw (e, handler))
  | inl e ↦ elim (Option-cases (get? handlers stage)) [
    | inr (h, found) ↦ inr (inl (h, found, rw (e, found, handler)))
    | inl free ↦ inr (
        inr (
          e,
          free,
          (put handlers stage fn, rw (e, free, handler), λ j. get?-put handlers stage j fn),
        ))
  ]
]
