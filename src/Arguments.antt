-- ===== src/Arguments.antt =====
-- autobahn/wamp_arguments.hpp: the empty arguments, and the look-up of a key in a msgpack map.
-- A key written as a `const char*` is compared as the same text.
pub mod Access
use Prim.Native.String.{◌++◌ as append_text}
use text.Mathlib.Text.{◌==◌ as str_eq}
use autobahn_cpp_aw.Common.{String, ◌&&◌, Option, none, some, List, [], ◌∷◌, if◌then◌else◌}
use autobahn_cpp_aw.Exception.{Result, ok, err, out_of_range, type_error, or_throw}
use autobahn_cpp_aw.Msgpack.{
  Msgpack, Object, type_of, same_type, str_type, map_type, list_object, map_object,
}

module _ ⦃m : Msgpack⦄ where
  unfoldable pub empty_details : Object
  empty_details = map_object []

  unfoldable pub empty_arguments : Object
  empty_arguments = list_object []

  unfoldable pub empty_kw_arguments : Object
  empty_kw_arguments = map_object []

  -- the loop over `via.map.ptr`: the value of the first entry whose key is this text
  unfoldable pub find_key : String → List (Object × Object) → Option Object
  find_key key [] = none
  find_key key ((k, v) ∷ rest) =
      if same_type (type_of k) str_type && str_eq key (m.str_text k)
      then some v
      else find_key key rest

  unfoldable pub value_for_key : {T : Type 0} → (Object → Option T) → Object → String → Result T
  value_for_key convert object key =
      if same_type (type_of object) map_type
      then elim (find_key key (m.map_entries object)) [
        | none ↦ err (out_of_range (append_text key " keyword argument doesn't exist"))
        | some v ↦ or_throw (convert v) type_error
      ]
      else err type_error

  unfoldable pub value_for_key_or :
      {T : Type 0} → (Object → Option T) → Object → String → T → Result T
  value_for_key_or convert object key fallback =
      if same_type (type_of object) map_type
      then elim (find_key key (m.map_entries object)) [
        | none ↦ ok fallback
        | some v ↦ or_throw (convert v) type_error
      ]
      else err type_error
