-- ===== src/Programs.antt =====
-- The procedures and event handlers of the programs in examples/ (callee.cpp, websocket_callee.cpp,
-- wampcra.cpp, provide_prefix.cpp, subscriber.cpp): what they do with an invocation or an event, beside
-- what they print. `boost::lexical_cast` is a parameter.
pub mod Replying
pub mod Serving
pub mod Secret
use Prim.Native.String.{◌++◌ as append_text}
use text.Mathlib.Text.{◌==◌ as str_eq}
use autobahn_cpp_aw.Common.{
  ℕ, zero, suc, ◌+◌, ◌*◌, ◌%◌, ◌^◌, String, Bool, true, false, Option, none, some, List, [], ◌∷◌,
  if◌then◌else◌,
}
use autobahn_cpp_aw.Exception.{Exception, Result, ok, err, runtime_error}
use autobahn_cpp_aw.Msgpack.{Msgpack, Object, as_uint64, as_string, number_object, list_object}
use autobahn_cpp_aw.Invocation.{Invocation, Reply, Script, return, throws, reply}
use autobahn_cpp_aw.Client.{Event}
use autobahn_cpp_aw.Accessors.Invocations
use autobahn_cpp_aw.Accessors.Events

module _ ⦃m : Msgpack⦄ where
  -- what a reply raises leaves the procedure
  abbrev pub and_then : Script → Option Exception → Script
  and_then next none = next
  and_then next (some e) = throws e

  -- `std::make_tuple(x)` as the arguments of a reply
  abbrev pub one_number : ℕ → Object
  one_number x = list_object (number_object x ∷ [])

  module _ (lexical_cast : ℕ → String) where
    -- `auto a = invocation->argument<uint64_t>(index)`, and the rest of the procedure
    abbrev pub with_argument : Invocation → ℕ → (ℕ → Script) → Script
    with_argument i index rest = elim (Invocations.argument as_uint64 lexical_cast i index) [
      | ok a ↦ rest a
      | err e ↦ throws e
    ]

    -- `add2` of callee.cpp and websocket_callee.cpp, `calculator` and `math` of wampcra.cpp
    unfoldable pub add2 : Invocation → Script
    unfolding Invocations.argument
    add2 i = with_argument i 0 λ a.
        with_argument i 1
          λ b. reply (Reply.result (one_number ((a + b) % 2 ^ 64))) (and_then return)

    -- the loop of `longop` from `i` on, with `n` rounds to go, and the reply behind it; the sleep of
    -- three seconds in each round is left out
    unfoldable pub longop_from : ℕ → ℕ → Script
    longop_from zero i = reply (Reply.result (one_number i)) (and_then return)
    longop_from (suc n) i =
        let rest = longop_from n (suc i) in reply (Reply.progress (one_number i)) (and_then rest)

    -- for an argument below 2 ^ 31: the counter is an `int`
    unfoldable pub longop : Invocation → Script
    unfolding Invocations.argument longop_from
    longop i = with_argument i 0 λ a. longop_from a 0

    -- `calculator` of provide_prefix.cpp; `std::string::substr` is a parameter
    unfoldable pub calculator : (String → ℕ → Result String) → Invocation → Script
    unfolding Invocations.argument
    calculator substr i = with_argument i 0 λ a. with_argument i 1 λ b. elim (substr i.uri 23) [
      | err e ↦ throws e
      | ok suffix ↦
          if str_eq suffix ".add"
          then reply (Reply.result (one_number ((a + b) % 2 ^ 64))) (and_then return)
          else if str_eq suffix ".mul2"
          then reply (Reply.result (one_number (a * b % 2 ^ 64))) (and_then return)
          else throws (runtime_error (append_text "procedure not implemented " i.uri))
    ]

    -- `on_topic1` of subscriber.cpp and `on_topic` of provide_prefix.cpp: what they raise
    unfoldable pub on_topic1 : Event → Result (Unit {0})
    unfolding Events.argument
    on_topic1 event = elim (Events.argument as_string lexical_cast event 0) [
      | ok text ↦ ok tt
      | err e ↦ err e
    ]
