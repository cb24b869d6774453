-- ===== src/Options/Exchange.antt =====
-- autobahn/wamp_call_options.ipp and autobahn/wamp_subscribe_options.ipp: reading the options of a call
-- back, and packing options into a stream, as the object that the bytes denote.
use text.Mathlib.Text.{◌==◌ as str_eq}
use autobahn_cpp_aw.Common.{
  ℕ, zero, suc, ◌<◌, ◌%◌, ◌^◌, ℤ, pos, negsuc, String, Bool, Option, none, some, List, [], ◌∷◌, ◌≡◌,
  arith, is_some, if◌then◌else◌, map,
}
use autobahn_cpp_aw.Exception.{Result, ok, err, type_error}
use autobahn_cpp_aw.Msgpack.{
  Msgpack, Object, as_string_map, int_object, number_object, text_object, map_object,
}
use autobahn_cpp_aw.Options.{CallOptions, SubscribeOptions, call_options_object}

abbrev pub new_call_options : CallOptions
new_call_options = record { timeout = pos 0 }

unfoldable pub set_timeout : ℤ → CallOptions → CallOptions
set_timeout timeout o = record o { timeout = timeout }

unfoldable is_match_set : SubscribeOptions → Bool
is_match_set o = is_some o.matching

-- the entries of the `std::unordered_map<std::string, unsigned>` of a timeout above 0
abbrev pack_entries : ℤ → List (String × ℕ)
pack_entries (pos zero) = []
pack_entries (pos (suc n)) = ("timeout", suc n % 2 ^ 32) ∷ []
pack_entries (negsuc n) = []

module _ ⦃m : Msgpack⦄ where
  abbrev find_option : String → List (String × Object) → Option Object
  find_option key [] = none
  find_option key ((k, v) ∷ rest) = if str_eq k key then some v else find_option key rest

  -- `as<unsigned>()` is a parameter
  unfoldable pub convert_call_options :
      (Object → Option ℕ) → Object → CallOptions → Result CallOptions
  unfolding set_timeout
  convert_call_options as_unsigned object o = elim (as_string_map object) [
    | none ↦ err type_error
    | some options_map ↦ elim (find_option "timeout" options_map) [
      | none ↦ ok o
      | some v ↦ elim (as_unsigned v) [
        | none ↦ err type_error
        | some n ↦ ok (set_timeout (pos n) o)
      ]
    ]
  ]

  unfoldable pub pack_call_options : CallOptions → Object
  pack_call_options o = map_object (map (λ e. (e.0, number_object e.1)) (pack_entries o.timeout))

  unfoldable pack_subscribe_options : SubscribeOptions → Object
  pack_subscribe_options o = elim o.matching [
    | none ↦ map_object []
    | some matching ↦ map_object (("match", text_object matching) ∷ [])
  ]

  module _ (as_unsigned : Object → Option ℕ) (reads_none : as_string_map (map_object []) ≡ some [])
      (reads_one : (k : String) (v : Object)
        → as_string_map (map_object ((k, v) ∷ [])) ≡ some ((k, v) ∷ []))
      (reads_signed : (n : ℕ) → n < 2 ^ 32 → as_unsigned (int_object (pos n)) ≡ some n)
      (reads_unsigned : (n : ℕ) → n < 2 ^ 32 → as_unsigned (number_object n) ≡ some n) where
    -- The options of a call whose timeout fits an `unsigned` come back as they were, from the object
    -- that a CALL carries and from the packed bytes, where msgpack reads back what was written of a map
    -- with at most one entry and of a number below 2 ^ 32.
    pub convert_call_options-call_options_object :
        (o : CallOptions) (n : ℕ)
        → o.timeout ≡ pos n
        → n < 2 ^ 32
        → (convert_call_options as_unsigned (call_options_object o) new_call_options ≡ ok o)
          × (convert_call_options as_unsigned (pack_call_options o) new_call_options ≡ ok o)
    unfolding convert_call_options call_options_object pack_call_options set_timeout
    convert_call_options-call_options_object o zero e fits = ground (arith, reads_none)
    convert_call_options-call_options_object o (suc n) e fits = ground (
      arith,
      reads_one "timeout" (int_object (pos (suc n))),
      reads_one "timeout" (number_object (suc n % 2 ^ 32)),
      reads_signed (suc n) fits,
      reads_unsigned (suc n) fits,
    )
