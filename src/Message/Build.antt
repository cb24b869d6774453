-- ===== src/Message/Build.antt =====
-- How the code builds a message: `wamp_message(num_fields)` and a `set_field` for each field.
use autobahn_cpp_aw.Common.{ℕ, List, [], ◌∷◌}
use autobahn_cpp_aw.Exception.{Result, ok, err}
use autobahn_cpp_aw.Msgpack.{Msgpack, Object, number_object}
use autobahn_cpp_aw.MessageType.{MessageType, code}
use autobahn_cpp_aw.Message.{Message, new, set_field}

module _ ⦃m : Msgpack⦄ where
  -- `static_cast<int>(type)` as a field
  abbrev pub type_object : MessageType → Object
  type_object t = number_object (code t)

  set_fields : List (ℕ × Object) → Message → Result Message
  set_fields [] message = ok message
  set_fields ((index, value) ∷ rest) message = elim (set_field index value message) [
    | ok message' ↦ set_fields rest message'
    | err e ↦ err e
  ]

  unfoldable pub build : ℕ → List (ℕ × Object) → Result Message
  unfolding set_fields set_field new
  build num_fields fields = set_fields fields (new num_fields)
