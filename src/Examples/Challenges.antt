-- ===== src/Examples/Challenges.antt =====
-- The theorems on challenges and on reading errors at concrete messages.
use autobahn_cpp_aw.Common.{pos, String, List, [], ◌∷◌, ◌≡◌, refl}
use autobahn_cpp_aw.Exception.{◌>>=◌}
use autobahn_cpp_aw.Message.{Message, field_as}
use autobahn_cpp_aw.MessageType.{of_int, of_code}
use autobahn_cpp_aw.Session.{Session, new_session}
use autobahn_cpp_aw.Session.Incoming.Replies.{reject, process_error}
use autobahn_cpp_aw.Session.Incoming.Factory.{make_wamp_error, process_error-make_wamp_error}
use autobahn_cpp_aw.Sample.{
  Tree, number, text, dictionary, field, empty, sample_msgpack, sample_client,
}

abbrev fresh : Session
fresh = new_session

abbrev details : List (String × Tree)
details =
    ("challenge", text "{}")
    ∷ ("salt", text "salt123")
    ∷ ("iterations", number (pos 1000))
    ∷ ("keylen", number (pos 32))
    ∷ []

abbrev extra : Tree
extra = dictionary (
    field (text "challenge") (text "{}") (
      field (text "salt") (text "salt123") (
        field (text "iterations") (number (pos 1000))
          (field (text "keylen") (number (pos 32)) empty))))

-- an ERROR for a call, with a number in the place of its details
abbrev malformed : Message
malformed =
    number (pos 8)
    ∷ number (pos 48)
    ∷ number (pos 5)
    ∷ number (pos 0)
    ∷ text "com.example.error"
    ∷ []

process_error-make_wamp_error_example :
    process_error malformed fresh
    ≡ (make_wamp_error malformed >>= λ made. reject (of_int made.0) made.1) fresh
unfolding field_as of_code
process_error-make_wamp_error_example = process_error-make_wamp_error malformed fresh refl
