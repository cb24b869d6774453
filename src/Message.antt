-- ===== src/Message.antt =====
-- autobahn/wamp_message.hpp and wamp_message.ipp: a message is its vector of fields. The memory
-- zone that owns the fields' storage is not modelled.
pub mod Build
pub mod Outgoing
pub mod Print
use autobahn_cpp_aw.Common.{
  ℕ, Bool, Option, none, some, List, leb, if◌then◌else◌, length, get_elem?, set, replicate,
}
use autobahn_cpp_aw.Exception.{Result, ok, err, out_of_range, type_error, or_throw}
use autobahn_cpp_aw.Msgpack.{Msgpack, Object, ObjectType, type_of, same_type}

module _ ⦃m : Msgpack⦄ where
  abbrev pub Message : Type 0
  Message = List Object

  -- `wamp_message(num_fields)`
  unfoldable pub new : ℕ → Message
  new num_fields = replicate num_fields m.nil_object

  unfoldable pub size : Message → ℕ
  size message = length message

  -- `field(index)`: the object itself
  unfoldable pub field : Message → ℕ → Result Object
  field message index =
      if leb (length message) index
      then err (out_of_range "invalid message field index")
      else or_throw (get_elem? message index) (out_of_range "vector")

  -- `field<Type>(index)`, with the conversion `as<Type>()`
  unfoldable pub field_as : {T : Type 0} → (Object → Option T) → Message → ℕ → Result T
  unfolding field
  field_as convert message index = elim (field message index) [
    | ok o ↦ or_throw (convert o) type_error
    | err e ↦ err e
  ]

  unfoldable pub set_field : ℕ → Object → Message → Result Message
  set_field index value message =
      if leb (length message) index
      then err (out_of_range "invalid message field index")
      else ok (set message index value)

  unfoldable pub is_field_type : Message → ℕ → ObjectType → Result Bool
  unfolding field
  is_field_type message index type = elim (field message index) [
    | ok o ↦ ok (same_type (type_of o) type)
    | err e ↦ err e
  ]
