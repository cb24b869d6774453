-- ===== src/Accessors/Events.antt =====
-- autobahn/wamp_event.ipp: an event.
use autobahn_cpp_aw.Common.{ℕ, String, Option}
use autobahn_cpp_aw.Exception.{Result, ok, err}
use autobahn_cpp_aw.Msgpack.{Msgpack, Object, as_string}
use autobahn_cpp_aw.Arguments.{empty_arguments, empty_kw_arguments, value_for_key_or}
use autobahn_cpp_aw.Arguments.Access.{
  array_size, map_size, whole, element, entry, entry_or, entry_or_throw,
}
use autobahn_cpp_aw.Client.{Event}

module _ ⦃m : Msgpack⦄ where
  unfoldable pub new_event : Event
  new_event = record { uri = ""; arguments = empty_arguments; kw_arguments = empty_kw_arguments }

  unfoldable pub set_details : Object → Event → Result Event
  set_details details e = elim (value_for_key_or as_string details "topic" "") [
    | ok uri ↦ ok (record e { uri = uri })
    | err x ↦ err x
  ]

  unfoldable pub number_of_arguments : Event → ℕ
  unfolding array_size
  number_of_arguments r = array_size r.arguments

  unfoldable pub number_of_kw_arguments : Event → ℕ
  unfolding map_size
  number_of_kw_arguments r = map_size r.kw_arguments

  -- `boost::lexical_cast<std::string>` is a parameter
  unfoldable pub argument : {T : Type 0} → (Object → Option T) → (ℕ → String) → Event → ℕ → Result T
  unfolding element
  argument convert lexical_cast r index = element convert lexical_cast r.arguments index

  -- `arguments<List>()`, `get_arguments(args)` and `get_each_argument(args...)`: the same conversion
  -- of the whole, to a list, into a list, or into a tuple
  unfoldable pub arguments : {L : Type 0} → (Object → Option L) → Event → Result L
  unfolding whole
  arguments convert r = whole convert r.arguments

  unfoldable pub kw_argument : {T : Type 0} → (Object → Option T) → Event → String → Result T
  unfolding entry
  kw_argument convert r key = entry convert r.kw_arguments key

  unfoldable pub kw_argument_or : {T : Type 0} → (Object → Option T) → Event → String → T → Result T
  unfolding entry_or
  kw_argument_or convert r key fallback = entry_or convert r.kw_arguments key fallback

  -- the overload for a `const char*`
  unfoldable pub kw_argument_or_chars :
      {T : Type 0} → (Object → Option T) → Event → String → T → Result T
  unfolding entry_or_throw
  kw_argument_or_chars convert r key fallback = entry_or_throw convert r.kw_arguments key fallback

  unfoldable pub kw_arguments : {K : Type 0} → (Object → Option K) → Event → Result K
  unfolding whole
  kw_arguments convert r = whole convert r.kw_arguments

  unfoldable pub set_arguments : Object → Event → Event
  set_arguments arguments r = record r { arguments = arguments }

  unfoldable pub set_kw_arguments : Object → Event → Event
  set_kw_arguments kw_arguments r = record r { kw_arguments = kw_arguments }
