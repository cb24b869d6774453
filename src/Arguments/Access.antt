-- ===== src/Arguments/Access.antt =====
-- What autobahn/wamp_call_result.ipp, wamp_event.ipp and wamp_invocation.ipp each do with the two
-- objects that hold positional and keyword arguments; Accessors has the methods themselves.
use Prim.Native.String.{◌++◌ as append_text}
use autobahn_cpp_aw.Common.{
  ℕ, String, not, ◌||◌, Option, none, some, length, get_elem?, leb, if◌then◌else◌,
}
use autobahn_cpp_aw.Exception.{
  Result, ok, err, out_of_range, type_error, unknown_exception, or_throw,
}
use autobahn_cpp_aw.Msgpack.{Msgpack, Object, type_of, same_type, array_type, map_type}
use autobahn_cpp_aw.Arguments.{find_key}

module _ ⦃m : Msgpack⦄ where
  -- `via.array.size` of an array, 0 of anything else, and the same of a map
  unfoldable pub array_size : Object → ℕ
  array_size o = if same_type (type_of o) array_type then length (m.array_elements o) else 0

  unfoldable pub map_size : Object → ℕ
  map_size o = if same_type (type_of o) map_type then length (m.map_entries o) else 0

  module _ {T : Type 0} (convert : Object → Option T) where
    -- `as<T>()` and `convert(value)`
    unfoldable pub whole : Object → Result T
    whole o = or_throw (convert o) type_error

    -- `lexical_cast` is boost's
    unfoldable pub element : (ℕ → String) → Object → ℕ → Result T
    element lexical_cast o index =
        if not (same_type (type_of o) array_type) || leb (length (m.array_elements o)) index
        then err (out_of_range (append_text "no argument at index " (lexical_cast index)))
        else elim (get_elem? (m.array_elements o) index) [
          | none ↦ err type_error
          | some e ↦ or_throw (convert e) type_error
        ]

    unfoldable pub entry : Object → String → Result T
    entry o key =
        if not (same_type (type_of o) map_type)
        then err type_error
        else elim (find_key key (m.map_entries o)) [
          | none ↦ err (out_of_range (append_text key " keyword argument doesn't exist"))
          | some v ↦ or_throw (convert v) type_error
        ]

    unfoldable pub entry_or : Object → String → T → Result T
    entry_or o key fallback =
        if not (same_type (type_of o) map_type)
        then err type_error
        else elim (find_key key (m.map_entries o)) [
          | none ↦ ok fallback
          | some v ↦ or_throw (convert v) type_error
        ]

    -- with `throw fallback`: the value that is thrown is not a `std::exception`
    unfoldable pub entry_or_throw : Object → String → T → Result T
    entry_or_throw o key fallback =
        if not (same_type (type_of o) map_type)
        then err type_error
        else elim (find_key key (m.map_entries o)) [
          | none ↦ err unknown_exception
          | some v ↦ or_throw (convert v) type_error
        ]
