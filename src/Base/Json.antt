-- ===== src/Base/Json.antt =====
-- JSON values, as `map[string]any` and `[]any` of encoding/json: an object is its fields in the order in
-- which the code writes them.
use rain_scanner.Base.Ints.{ℤ}
use rain_scanner.Base.Texts.{Text, text_eq, text_eq_iff}
use rain_scanner.Base.Tests.{if◌then◌else◌}
use mathlib.Core.Path.{◌≡◌, refl}
use mathlib.Core.Bool.{Bool}
use mathlib.Core.Option.{Option, none, some}
use native.Mathlib.Omega.{arith}

mutual
  pub data Json : Type 0 where
    null : Json
    bool : Bool → Json
    num : ℤ → Json
    str : Text → Json
    raw : Text → Json
    arr : Items → Json
    obj : Fields → Json

  pub data Items : Type 0 where
    nil : Items
    cons : Json → Items → Items

  pub data Fields : Type 0 where
    end : Fields
    field : Text → Json → Fields → Fields

-- m[key] = value
unfoldable pub put : Text → Json → Fields → Fields
put k v end = field k v end
put k v (field j w m) = if text_eq j k then field k v m else field j w (put k v m)

-- m[key]
unfoldable pub get : Text → Fields → Option Json
get k end = none
get k (field j w m) = if text_eq j k then some w else get k m

abbrev pub only : Json → Items
only v = cons v nil

pub get-put :
    (k j : Text) (v : Json) (m : Fields)
    → get j (put k v m) ≡ (if text_eq k j then some v else get j m)
unfolding get put
get-put k j v end = refl
get-put k j v (field i w m) =
    ground (arith, text_eq_iff k j, text_eq_iff i k, text_eq_iff i j, get-put k j v m)
