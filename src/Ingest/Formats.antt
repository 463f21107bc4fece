-- ===== src/Ingest/Formats.antt =====
-- The format families of ragent/ingest/formats.py.
use ragent.Common.{
  ◌≡◌, refl, String, Bool, true, false, Option, none, some, str_eq, if◌then◌else◌, List, [], ◌∷◌,
}

pub data FormatFamily : Type 0 where
  pdf image office web flow : FormatFamily

-- The value of the `StrEnum` member.
unfoldable pub family_value : FormatFamily → String
family_value pdf = "pdf"
family_value image = "image"
family_value office = "office"
family_value web = "web"
family_value flow = "flow"

-- `FormatFamily(text)`, which raises a ValueError for a text that is no member's value.
unfoldable pub family_of : String → Option FormatFamily
family_of text =
    if str_eq text "pdf"
    then some pdf
    else if str_eq text "image"
    then some image
    else if str_eq text "office"
    then some office
    else if str_eq text "web"
    then some web
    else if str_eq text "flow"
    then some flow
    else none

pub family_of-family_value : (f : FormatFamily) → family_of (family_value f) ≡ some f
unfolding family_of family_value
family_of-family_value pdf = refl
family_of-family_value image = refl
family_of-family_value office = refl
family_of-family_value web = refl
family_of-family_value flow = refl

-- `list(FormatFamily)`
abbrev pub all_families : List FormatFamily
all_families = pdf ∷ image ∷ office ∷ web ∷ flow ∷ []

abbrev pub family_eq : FormatFamily → FormatFamily → Bool
family_eq pdf pdf = true
family_eq image image = true
family_eq office office = true
family_eq web web = true
family_eq flow flow = true
family_eq _ _ = false
