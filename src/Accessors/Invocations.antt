-- ===== src/Accessors/Invocations.antt =====
-- autobahn/wamp_invocation.ipp: an invocation, as the procedure reads it.
use autobahn_cpp_aw.Common.{ℕ, String, Option}
use autobahn_cpp_aw.Exception.{Result}
use autobahn_cpp_aw.Msgpack.{Msgpack, Object}
use autobahn_cpp_aw.Arguments.Access.{array_size, map_size, whole, element, entry, entry_or}
use autobahn_cpp_aw.Invocation.{Invocation}

module _ ⦃m : Msgpack⦄ where
  unfoldable pub number_of_arguments : Invocation → ℕ
  unfolding array_size
  number_of_arguments r = array_size r.arguments

  unfoldable pub number_of_kw_arguments : Invocation → ℕ
  unfolding map_size
  number_of_kw_arguments r = map_size r.kw_arguments

  -- `boost::lexical_cast<std::string>` is a parameter
  unfoldable pub argument :
      {T : Type 0} → (Object → Option T) → (ℕ → String) → Invocation → ℕ → Result T
  unfolding element
  argument convert lexical_cast r index = element convert lexical_cast r.arguments index

  -- `arguments<List>()`, `get_arguments(args)` and `get_each_argument(args...)`: the same conversion
  -- of the whole, to a list, into a list, or into a tuple
  unfoldable pub arguments : {L : Type 0} → (Object → Option L) → Invocation → Result L
  unfolding whole
  arguments convert r = whole convert r.arguments

  unfoldable pub kw_argument : {T : Type 0} → (Object → Option T) → Invocation → String → Result T
  unfolding entry
  kw_argument convert r key = entry convert r.kw_arguments key

  unfoldable pub kw_argument_or :
      {T : Type 0} → (Object → Option T) → Invocation → String → T → Result T
  unfolding entry_or
  kw_argument_or convert r key fallback = entry_or convert r.kw_arguments key fallback

  -- the overload for a `const char*`
  unfoldable pub kw_argument_or_chars :
      {T : Type 0} → (Object → Option T) → Invocation → String → T → Result T
  unfolding entry_or
  kw_argument_or_chars convert r key fallback = entry_or convert r.kw_arguments key fallback

  unfoldable pub kw_arguments : {K : Type 0} → (Object → Option K) → Invocation → Result K
  unfolding whole
  kw_arguments convert r = whole convert r.kw_arguments

  unfoldable pub set_arguments : Object → Invocation → Invocation
  set_arguments arguments r = record r { arguments = arguments }

  unfoldable pub set_kw_arguments : Object → Invocation → Invocation
  set_kw_arguments kw_arguments r = record r { kw_arguments = kw_arguments }
