-- ===== src/Common/Dict.antt =====
-- Python's `dict` with text keys, as a list of entries. No code here observes the order of entries.
use Prim.Native.String.{String}
use mathlib.Core.Path.{◌≡◌}
use mathlib.Core.Option.{Option, none, some}
use mathlib.Core.List.{List, [], ◌∷◌}
use native.Mathlib.Omega.{arith}
use text.Mathlib.Text.{◌==◌}
use text.Mathlib.TextEquality.{eq_iff}
use ragent.Common.Tests.{if◌then◌else◌}

abbrev pub Dict {ℓ} : Type ℓ → Type ℓ
Dict V = List (String × V)

module _ {ℓ} {V : Type ℓ} where
  -- d.get(key)
  unfoldable pub get? : Dict V → String → Option V
  get? [] key = none
  get? ((k, v) ∷ d) key = if k == key then some v else get? d key

  -- d.get(key, default)
  unfoldable pub get_or : Dict V → String → V → V
  get_or [] key default = default
  get_or ((k, v) ∷ d) key default = if k == key then v else get_or d key default

  -- d[key] = value
  unfoldable pub put : Dict V → String → V → Dict V
  put [] key value = (key, value) ∷ []
  put ((k, v) ∷ d) key value = if k == key then (key, value) ∷ d else (k, v) ∷ put d key value

  pub get?-put :
      (d : Dict V) (key j : String) (value : V)
      → get? (put d key value) j ≡ (if key == j then some value else get? d j)
  unfolding get? put
  get?-put [] key j value = ground arith
  get?-put ((k, v) ∷ d) key j value =
      ground (arith, eq_iff k key, eq_iff k j, eq_iff key j, get?-put d key j value)

  pub get_or-put :
      (d : Dict V) (key j : String) (value default : V)
      → get_or (put d key value) j default ≡ (if key == j then value else get_or d j default)
  unfolding get_or put
  get_or-put [] key j value default = ground arith
  get_or-put ((k, v) ∷ d) key j value default =
      ground (arith, eq_iff k key, eq_iff k j, eq_iff key j, get_or-put d key j value default)

pub ruleset dict_laws = (get?-put, get_or-put)
