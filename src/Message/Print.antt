-- ===== src/Message/Print.antt =====
-- autobahn/wamp_message.ipp: moving a message, and printing it.
use Prim.Native.String.{◌++◌ as append_text}
use autobahn_cpp_aw.Common.{String, Bool, none, some, List, [], ◌∷◌, if◌then◌else◌}
use autobahn_cpp_aw.Exception.{Result, ok, err, type_error}
use autobahn_cpp_aw.Msgpack.{Msgpack, Object, as_int}
use autobahn_cpp_aw.MessageType.{to_string}
use autobahn_cpp_aw.Message.{Message}

module _ ⦃m : Msgpack⦄ where
  -- the move constructor: the new message, and the other one, whose vector is empty then
  abbrev move_construct : Message → Message × Message
  move_construct other = (other, [])

  -- `operator=`, of itself or of another message; what a vector that was assigned from holds is a
  -- parameter
  abbrev move_assign : (Message → Message) → Bool → Message → Message → Message × Message
  move_assign moved_from is_self message other =
      if is_self then (message, other) else (other, moved_from other)

  -- the fields after the first of them
  abbrev print_fields : (Object → String) → List Object → String
  print_fields print_object [] = ""
  print_fields print_object (o ∷ rest) =
      append_text ", " (append_text (print_object o) (print_fields print_object rest))

  -- `operator<<`: msgpack's own printing of an object is a parameter
  unfoldable print : (Object → String) → Message → Result String
  unfolding to_string
  print print_object [] = ok "unknown []"
  print print_object (o ∷ fields) = elim (as_int o) [
    | none ↦ err type_error
    | some type ↦ elim fields [
      | [] ↦ ok (append_text (to_string type) " []")
      | first ∷ rest ↦ ok (
          append_text (to_string type) (
            append_text " [" (
              append_text (print_object first) (append_text (print_fields print_object rest) "]"))))
    ]
  ]
