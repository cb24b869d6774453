-- ===== src/Options.antt =====
-- autobahn/wamp_call_options.ipp and autobahn/wamp_subscribe_options.ipp: the options of a call
-- and of a subscription, and the msgpack maps that they become.
pub mod Exchange
use text.Mathlib.Text.{◌==◌ as str_eq}
use autobahn_cpp_aw.Common.{
  zero, suc, ℤ, pos, negsuc, String, ◌||◌, Option, none, some, List, [], ◌∷◌, if◌then◌else◌,
}
use autobahn_cpp_aw.Exception.{Result, ok, err, runtime_error}
use autobahn_cpp_aw.Msgpack.{Msgpack, Object, int_object, text_object, map_object}

-- `std::chrono::milliseconds`, as its count
pub record CallOptions : Type 0 where
  pub timeout : ℤ

pub record SubscribeOptions : Type 0 where
  pub matching : Option String

unfoldable pub set_match : String → SubscribeOptions → Result SubscribeOptions
set_match matching o =
    if str_eq matching "exact" || (str_eq matching "prefix" || str_eq matching "wildcard")
    then ok (record o { matching = some matching })
    else err (runtime_error "The value of 'match' must be 'exact', 'prefix', or 'wildcard'.")

unfoldable pub new_subscribe_options : String → Result SubscribeOptions
unfolding set_match
new_subscribe_options matching = set_match matching (record { matching = none })

module _ ⦃m : Msgpack⦄ where
  -- `timeout.count() != 0`
  pub timeout_entries : ℤ → List (String × Object)
  timeout_entries (pos zero) = []
  timeout_entries (pos (suc n)) = ("timeout", int_object (pos (suc n))) ∷ []
  timeout_entries (negsuc n) = ("timeout", int_object (negsuc n)) ∷ []

  -- `object_with_zone<wamp_call_options>`
  unfoldable pub call_options_object : CallOptions → Object
  unfolding timeout_entries
  call_options_object o = map_object (timeout_entries o.timeout)

  -- `object_with_zone<wamp_subscribe_options>`
  unfoldable pub subscribe_options_object : SubscribeOptions → Object
  subscribe_options_object o = elim o.matching [
    | none ↦ map_object []
    | some matching ↦ map_object (("match", text_object matching) ∷ [])
  ]
