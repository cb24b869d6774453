-- ===== src/Examples/Reading.antt =====
-- The theorems on reading arguments at concrete results, events and invocations.
use autobahn_cpp_aw.Common.{ℕ, pos, String, ◌≡◌}
use autobahn_cpp_aw.Promise.{CallResult}
use autobahn_cpp_aw.Client.{Event}
use autobahn_cpp_aw.Invocation.{new_invocation}
use autobahn_cpp_aw.Accessors.Results as Results
use autobahn_cpp_aw.Accessors.Events as Events
use autobahn_cpp_aw.Accessors.Invocations as Invocations
use autobahn_cpp_aw.Accessors.Reading.{Agrees, kw_argument_or-kw_argument}
use autobahn_cpp_aw.Sample.{
  text, number, items, item, end, dictionary, field, empty, tree_string, sample_msgpack,
  sample_client,
}

abbrev answered : CallResult
answered = record {
  arguments = items (item (text "zero") (item (text "one") end));
  kw_arguments = dictionary (
      field (number (pos 5)) (text "no")
        (field (text "key") (text "first") (field (text "key") (text "second") empty)));
}

abbrev happened : Event
unfolding Events.new_event
happened = Events.new_event

abbrev digits : ℕ → String
digits n = "1"

kw_argument_or-kw_argument_example :
    Agrees tree_string
      (Results.kw_argument tree_string answered "other")
      (Results.kw_argument_or tree_string answered "other" "else")
      (Results.kw_argument_or_chars tree_string answered "other" "else")
      "else"
      "other"
    × Agrees tree_string
        (Events.kw_argument tree_string happened "other")
        (Events.kw_argument_or tree_string happened "other" "else")
        (Events.kw_argument_or_chars tree_string happened "other" "else")
        "else"
        "other"
    × (Invocations.kw_argument_or_chars tree_string new_invocation "other" "else"
        ≡ Invocations.kw_argument_or tree_string new_invocation "other" "else")
kw_argument_or-kw_argument_example =
    kw_argument_or-kw_argument tree_string answered happened new_invocation "other" "else"
