-- ===== src/Accessors/Results.antt =====
-- autobahn/wamp_call_result.ipp: the result of a call.
use autobahn_cpp_aw.Common.{ℕ, String, Bool, Option, if◌then◌else◌}
use autobahn_cpp_aw.Exception.{Result}
use autobahn_cpp_aw.Msgpack.{Msgpack, Object}
use autobahn_cpp_aw.Arguments.{empty_arguments, empty_kw_arguments}
use autobahn_cpp_aw.Arguments.Access.{
  array_size, map_size, whole, element, entry, entry_or, entry_or_throw,
}
use autobahn_cpp_aw.Promise.{CallResult}

module _ ⦃m : Msgpack⦄ where
  unfoldable pub new_call_result : CallResult
  new_call_result = record { arguments = empty_arguments; kw_arguments = empty_kw_arguments }

  -- the move constructor: the new result, and what is left of the other
  unfoldable pub move_construct : CallResult → CallResult × CallResult
  unfolding new_call_result
  move_construct other = (other, new_call_result)

  -- `operator=`, of itself or of another result
  unfoldable pub move_assign : Bool → CallResult → CallResult → CallResult × CallResult
  unfolding new_call_result
  move_assign is_self r other = if is_self then (r, other) else (other, new_call_result)

  unfoldable pub number_of_arguments : CallResult → ℕ
  unfolding array_size
  number_of_arguments r = array_size r.arguments

  unfoldable pub number_of_kw_arguments : CallResult → ℕ
  unfolding map_size
  number_of_kw_arguments r = map_size r.kw_arguments

  -- `boost::lexical_cast<std::string>` is a parameter
  unfoldable pub argument :
      {T : Type 0} → (Object → Option T) → (ℕ → String) → CallResult → ℕ → Result T
  unfolding element
  argument convert lexical_cast r index = element convert lexical_cast r.arguments index

  -- `arguments<List>()`, `get_arguments(args)` and `get_each_argument(args...)`: the same conversion
  -- of the whole, to a list, into a list, or into a tuple
  unfoldable pub arguments : {L : Type 0} → (Object → Option L) → CallResult → Result L
  unfolding whole
  arguments convert r = whole convert r.arguments

  unfoldable pub kw_argument : {T : Type 0} → (Object → Option T) → CallResult → String → Result T
  unfolding entry
  kw_argument convert r key = entry convert r.kw_arguments key

  unfoldable pub kw_argument_or :
      {T : Type 0} → (Object → Option T) → CallResult → String → T → Result T
  unfolding entry_or
  kw_argument_or convert r key fallback = entry_or convert r.kw_arguments key fallback

  -- the overload for a `const char*`
  unfoldable pub kw_argument_or_chars :
      {T : Type 0} → (Object → Option T) → CallResult → String → T → Result T
  unfolding entry_or_throw
  kw_argument_or_chars convert r key fallback = entry_or_throw convert r.kw_arguments key fallback

  unfoldable pub kw_arguments : {K : Type 0} → (Object → Option K) → CallResult → Result K
  unfolding whole
  kw_arguments convert r = whole convert r.kw_arguments

  unfoldable pub set_arguments : Object → CallResult → CallResult
  set_arguments arguments r = record r { arguments = arguments }

  unfoldable pub set_kw_arguments : Object → CallResult → CallResult
  set_kw_arguments kw_arguments r = record r { kw_arguments = kw_arguments }
