-- ===== src/Website/Contact/Prefill.antt =====
-- What the address of the page fills in: apps/website/src/features/contact/lib/prefill.ts.
-- `toLowerCase` is a parameter.
use solva.Prelude.{List, [], ◌∷◌, Option, none, some, if◌then◌else◌, take}
use solva.Prelude.Text.{Text, text_eq, trim}
use solva.Website.Contact.Schema.{Role, roles, role_name, tidy}

pub record ContactPrefill : Type 0 where
  pub organisation : Text
  -- No role is the empty text.
  pub role : Option Role

-- A parameter of the address: missing, once, or several times.
pub data Param : Type 0 where
  absent : Param
  once : Text → Param
  several : List Text → Param

unfoldable pub first : Param → Text
first absent = []
first (once value) = value
first (several []) = []
first (several (value ∷ values)) = value

unfoldable pub find_lower : (Text → Text) → List Role → Text → Option Role
find_lower lower [] wanted = none
find_lower lower (option ∷ options) wanted =
    if text_eq (lower (role_name option)) wanted
    then some option
    else find_lower lower options wanted

unfoldable pub read_prefill : (Text → Text) → Param → Param → ContactPrefill
unfolding first find_lower
read_prefill lower organisation role = record {
  organisation = take 160 (tidy (first organisation));
  role = find_lower lower roles (lower (trim (first role)));
}
