-- ===== src/MessageType.antt =====
-- autobahn/wamp_message_type.hpp and wamp_message_type.ipp.
use autobahn_cpp_aw.Common.{
  ℕ, ℤ, pos, negsuc, String, Option, none, some, List, [], ◌∷◌, ◌≡◌, refl, arith, ◌==◌,
  if◌then◌else◌,
}

-- `enum class message_type : int`
pub data MessageType : Type 0 where
  hello welcome abort challenge authenticate goodbye heartbeat error : MessageType
  publish published subscribe subscribed unsubscribe unsubscribed event : MessageType
  call cancel result register registered unregister unregistered : MessageType
  invocation interrupt yield : MessageType

-- the enumerators' values, `static_cast<int>(type)`
unfoldable pub code : MessageType → ℕ
code hello = 1
code welcome = 2
code abort = 3
code challenge = 4
code authenticate = 5
code goodbye = 6
code heartbeat = 7
code error = 8
code publish = 16
code published = 17
code subscribe = 32
code subscribed = 33
code unsubscribe = 34
code unsubscribed = 35
code event = 36
code call = 48
code cancel = 49
code result = 50
code register = 64
code registered = 65
code unregister = 66
code unregistered = 67
code invocation = 68
code interrupt = 69
code yield = 70

abbrev pub message_types : List MessageType
message_types =
    hello ∷ welcome ∷ abort ∷ challenge ∷ authenticate ∷ goodbye ∷ heartbeat ∷ error ∷ publish
    ∷ published ∷ subscribe ∷ subscribed ∷ unsubscribe ∷ unsubscribed ∷ event ∷ call ∷ cancel
    ∷ result ∷ register ∷ registered ∷ unregister ∷ unregistered ∷ invocation ∷ interrupt ∷ yield
    ∷ []

find_code : ℕ → List MessageType → Option MessageType
find_code n [] = none
find_code n (t ∷ ts) = if n == code t then some t else find_code n ts

-- `static_cast<message_type>(n)`: `none` is a value that no enumerator has
unfoldable pub of_code : ℕ → Option MessageType
unfolding find_code code
of_code n = find_code n message_types

abbrev pub of_int : ℤ → Option MessageType
of_int (pos n) = of_code n
of_int (negsuc n) = none

-- the map `type_names`; each enumerator has an entry
unfoldable pub type_name : MessageType → String
type_name hello = "hello"
type_name welcome = "welcome"
type_name abort = "abort"
type_name challenge = "challenge"
type_name authenticate = "authenticate"
type_name goodbye = "goodbye"
type_name heartbeat = "heartbeat"
type_name error = "error"
type_name publish = "publish"
type_name published = "published"
type_name subscribe = "subscribe"
type_name subscribed = "subscribed"
type_name unsubscribe = "unsubscribe"
type_name unsubscribed = "unsubscribed"
type_name event = "event"
type_name call = "call"
type_name cancel = "cancel"
type_name result = "result"
type_name register = "register"
type_name registered = "registered"
type_name unregister = "unregister"
type_name unregistered = "unregistered"
type_name invocation = "invocation"
type_name interrupt = "interrupt"
type_name yield = "yield"

unfoldable pub to_string : ℤ → String
unfolding of_code type_name
to_string type = elim (of_int type) [ none ↦ "unknown" | some t ↦ type_name t ]

-- The cast of an enumerator's value is the enumerator.
pub of_code-code : (t : MessageType) → of_code (code t) ≡ some t
unfolding of_code
of_code-code hello = refl
of_code-code welcome = refl
of_code-code abort = refl
of_code-code challenge = refl
of_code-code authenticate = refl
of_code-code goodbye = refl
of_code-code heartbeat = refl
of_code-code error = refl
of_code-code publish = refl
of_code-code published = refl
of_code-code subscribe = refl
of_code-code subscribed = refl
of_code-code unsubscribe = refl
of_code-code unsubscribed = refl
of_code-code event = refl
of_code-code call = refl
of_code-code cancel = refl
of_code-code result = refl
of_code-code register = refl
of_code-code registered = refl
of_code-code unregister = refl
of_code-code unregistered = refl
of_code-code invocation = refl
of_code-code interrupt = refl
of_code-code yield = refl

find_code-code :
    (n : ℕ) (ts : List MessageType) (t : MessageType) → find_code n ts ≡ some t → code t ≡ n
unfolding find_code
find_code-code n [] t h = ground arith
find_code-code n (u ∷ ts) t h = ground (arith, find_code-code n ts t)

-- A natural number that the cast takes to an enumerator is that enumerator's value.
code-of_code : (n : ℕ) (t : MessageType) → of_code n ≡ some t → code t ≡ n
unfolding of_code
code-of_code n t h = find_code-code n message_types t h
