-- ===== src/Session/Incoming/Subscriptions.antt =====
-- The life of a subscription: SUBSCRIBED, EVENT and UNSUBSCRIBED.
use autobahn_cpp_aw.Common.{
  ℕ, String, true, some, List, [], ◌∷◌, ◌≡◌, refl, arith, length, leb, ◌≤◌, if◌then◌else◌,
}
use autobahn_cpp_aw.Common.Table.{find, erase, insert, equal_range, equal_range-erase}
use autobahn_cpp_aw.Exception.{ok}
use autobahn_cpp_aw.Msgpack.{
  Msgpack, Object, type_of, as_uint64, as_string, positive_integer_type, map_type, array_type,
}
use autobahn_cpp_aw.Message.{size}
use autobahn_cpp_aw.Arguments.{empty_arguments, empty_kw_arguments, value_for_key_or}
use autobahn_cpp_aw.Promise.{pending, satisfied, subscription_value, unit_value}
use autobahn_cpp_aw.Client.{Client, Event}
use autobahn_cpp_aw.Session.{Session, SubscribeRequest, UnsubscribeRequest, update}
use autobahn_cpp_aw.Session.Send.{set_promise}
use autobahn_cpp_aw.Session.Incoming.Replies.{process_subscribed, process_unsubscribed}
use autobahn_cpp_aw.Session.Incoming.Invoke.{
  deliver, deliver_all, make_event, process_event, argument_fields,
}
use autobahn_cpp_aw.Session.Incoming.Fields.{
  FitArguments, field-eq, expect_type-fits, request_field-reads, optional_field-absent,
  optional_field-present,
}

module _ ⦃m : Msgpack⦄ ⦃c : Client⦄ where
  abbrev pub subscribed : ℕ → SubscribeRequest → ℕ → Session → Session
  subscribed id request subscription s = record s {
    subscription_handlers = insert subscription request.handler s.subscription_handlers;
    promises = update s.promises request.response (satisfied (subscription_value subscription));
    subscribe_requests = erase id s.subscribe_requests;
  }

  -- A well-formed SUBSCRIBED for a request that waits puts its handler behind those of the same
  -- subscription, gives its future the subscription, forgets the request, and changes nothing else.
  process_subscribed-answers :
      (code o p : Object) (id subscription : ℕ) (request : SubscribeRequest) (s : Session)
      → type_of o ≡ positive_integer_type
      → as_uint64 o ≡ some id
      → type_of p ≡ positive_integer_type
      → as_uint64 p ≡ some subscription
      → find id s.subscribe_requests ≡ some request
      → s.promises request.response ≡ pending
      → process_subscribed (code ∷ o ∷ p ∷ []) s ≡ (ok tt, subscribed id request subscription s)
  unfolding process_subscribed set_promise size
  process_subscribed-answers code o p id subscription request s to vo tp vp known fresh =
      let message = code ∷ o ∷ p ∷ [] in
      ground (
        arith,
        request_field-reads message 1 "SUBSCRIBED - SUBSCRIBED.Request must be an integer" s o id
            refl to vo,
        request_field-reads message 2 "SUBSCRIBED - SUBSCRIBED.Subscription must be an integer" s p
            subscription refl tp vp,
      )

  abbrev pub unsubscribed : ℕ → UnsubscribeRequest → Session → Session
  unsubscribed id request s = record s {
    subscription_handlers = erase request.subscription s.subscription_handlers;
    promises = update s.promises request.response (satisfied unit_value);
    unsubscribe_requests = erase id s.unsubscribe_requests;
  }

  -- A well-formed UNSUBSCRIBED for a request that waits removes every handler of its subscription,
  -- settles its future, forgets the request, and changes nothing else.
  process_unsubscribed-answers :
      (code o : Object) (id : ℕ) (request : UnsubscribeRequest) (s : Session)
      → type_of o ≡ positive_integer_type
      → as_uint64 o ≡ some id
      → find id s.unsubscribe_requests ≡ some request
      → s.promises request.response ≡ pending
      → process_unsubscribed (code ∷ o ∷ []) s ≡ (ok tt, unsubscribed id request s)
  unfolding process_unsubscribed set_promise size
  process_unsubscribed-answers code o id request s to vo known fresh =
      let message = code ∷ o ∷ [] in
      ground (
        arith,
        request_field-reads message 1 "UNSUBSCRIBED - UNSUBSCRIBED.Request must be an integer" s o
            id refl to vo,
      )

  -- the handlers that an event reaches: those up to the first that throws, which is reached too
  abbrev pub reached : List c.Handler → Event → List c.Handler
  reached [] event = []
  reached (h ∷ rest) event = if c.handler_throws h event then h ∷ [] else h ∷ reached rest event

  -- calls, in order, on top of the calls made before
  abbrev pub log_calls :
      List c.Handler → Event → List (c.Handler × Event) → List (c.Handler × Event)
  log_calls [] event log = log
  log_calls (h ∷ rest) event log = log_calls rest event ((h, event) ∷ log)

  deliver-state :
      (handlers : List c.Handler) (event : Event) (s : Session)
      → (deliver handlers event s).1
        ≡ record s { delivered = log_calls (reached handlers event) event s.delivered }
  unfolding deliver
  deliver-state [] event s = refl
  deliver-state (h ∷ rest) event s =
      ground (arith, deliver-state rest event (record s { delivered = (h, event) ∷ s.delivered }))

  deliver_all-eq :
      (handlers : List c.Handler) (event : Event) (s : Session)
      → deliver_all handlers event s
        ≡ (ok tt, record s { delivered = log_calls (reached handlers event) event s.delivered })
  unfolding deliver_all
  deliver_all-eq handlers event s = ground (arith, deliver-state handlers event s)

  abbrev pub event_of : String → List Object → Event
  event_of uri [] = record {
    uri = uri;
    arguments = empty_arguments;
    kw_arguments = empty_kw_arguments;
  }
  event_of uri (a ∷ []) = record { uri = uri; arguments = a; kw_arguments = empty_kw_arguments }
  event_of uri (a ∷ k ∷ rest) = record { uri = uri; arguments = a; kw_arguments = k }

  abbrev list_complaint : String
  list_complaint = "EVENT - EVENT.Arguments must be a list"

  abbrev dictionary_complaint : String
  dictionary_complaint = "EVENT - EVENT.ArgumentsKw must be a dictionary"

  read_arguments :
      (code o p details : Object) (rest : List Object) (uri : String) (s : Session)
      → FitArguments rest
      → let message = code ∷ o ∷ p ∷ details ∷ rest in
        (argument_fields message list_complaint dictionary_complaint s
          ≡ (ok ((event_of uri rest).arguments, (event_of uri rest).kw_arguments), s))
        × (leb (length message) 6 ≡ true)
        × ((event_of uri rest).uri ≡ uri)
  unfolding argument_fields
  read_arguments code o p details [] uri s fit =
      let message = code ∷ o ∷ p ∷ details ∷ [] in
      (
        ground (
          arith,
          optional_field-absent message 4 list_complaint s array_type empty_arguments (omega arith),
          optional_field-absent message 5 dictionary_complaint s map_type empty_kw_arguments
              (omega arith),
        ),
        refl,
        refl,
      )
  read_arguments code o p details (a ∷ []) uri s fit =
      let message = code ∷ o ∷ p ∷ details ∷ a ∷ [] in
      (
        ground (
          arith,
          optional_field-present message 4 list_complaint s array_type empty_arguments a refl fit,
          optional_field-absent message 5 dictionary_complaint s map_type empty_kw_arguments
              (omega arith),
        ),
        refl,
        refl,
      )
  read_arguments code o p details (a ∷ k ∷ []) uri s fit =
      let message = code ∷ o ∷ p ∷ details ∷ a ∷ k ∷ [] in
      (
        ground (
          arith,
          optional_field-present message 4 list_complaint s array_type empty_arguments a refl fit.0,
          optional_field-present message 5 dictionary_complaint s map_type empty_kw_arguments k refl
              fit.1,
        ),
        refl,
        refl,
      )
  read_arguments code o p details (a ∷ k ∷ x ∷ rest) uri s fit = absurd fit

  module _ (code o p details : Object) (rest : List Object) (id publication : ℕ) (uri : String)
      (s : Session) where
    make_event-eq :
        type_of p ≡ positive_integer_type
        → as_uint64 p ≡ some publication
        → type_of details ≡ map_type
        → value_for_key_or as_string details "topic" "" ≡ ok uri
        → FitArguments rest
        → make_event (code ∷ o ∷ p ∷ details ∷ rest) s ≡ (ok (event_of uri rest), s)
    unfolding make_event
    make_event-eq tp vp td topic fit =
        let message = code ∷ o ∷ p ∷ details ∷ rest in
        ground (
          arith,
          request_field-reads message 2 "EVENT - PUBLISHED.Publication must be an id" s p
              publication refl tp vp,
          expect_type-fits message 3 "EVENT - Details must be a dictionary" s map_type details refl
              td,
          field-eq message 3 details refl,
          read_arguments code o p details rest uri s fit,
        )

    -- A well-formed EVENT goes to the handlers of its subscription in the order in which they were
    -- subscribed, up to the first that throws; it never raises and changes nothing else.
    pub process_event-delivers :
        type_of o ≡ positive_integer_type
        → as_uint64 o ≡ some id
        → type_of p ≡ positive_integer_type
        → as_uint64 p ≡ some publication
        → type_of details ≡ map_type
        → value_for_key_or as_string details "topic" "" ≡ ok uri
        → FitArguments rest
        → let event = event_of uri rest in
          let handlers = equal_range id s.subscription_handlers in
          process_event (code ∷ o ∷ p ∷ details ∷ rest) s
          ≡ (ok tt, record s { delivered = log_calls (reached handlers event) event s.delivered })
    unfolding process_event size
    process_event-delivers to vo tp vp td topic fit =
        let message = code ∷ o ∷ p ∷ details ∷ rest in
        ground (
          arith,
          arith,
          request_field-reads message 1 "EVENT - SUBSCRIBED.Subscription must be an integer" s o id
              refl to vo,
          make_event-eq tp vp td topic fit,
          read_arguments code o p details rest uri s fit,
          deliver_all-eq (equal_range id s.subscription_handlers) (event_of uri rest) s,
        )

  dropped_event :
      (code o p details : Object) (rest : List Object) (id : ℕ) (request : UnsubscribeRequest)
      (s : Session)
      → type_of o ≡ positive_integer_type
      → as_uint64 o ≡ some request.subscription
      → length rest ≤ 2
      → process_event (code ∷ o ∷ p ∷ details ∷ rest) (unsubscribed id request s)
        ≡ (ok tt, unsubscribed id request s)
  unfolding process_event size
  dropped_event code o p details rest id request s to vo short =
      let message = code ∷ o ∷ p ∷ details ∷ rest in
      ground (
        arith,
        arith,
        equal_range-erase request.subscription request.subscription s.subscription_handlers,
        request_field-reads message 1 "EVENT - SUBSCRIBED.Subscription must be an integer"
            (unsubscribed id request s) o request.subscription refl to vo,
      )

  -- After a well-formed UNSUBSCRIBED for a request that waits, an EVENT of its subscription,
  -- with at most two fields of arguments, is dropped without a complaint and changes nothing.
  process_event-unsubscribed :
      (ucode u code o p details : Object) (rest : List Object) (id : ℕ)
      (request : UnsubscribeRequest) (s : Session)
      → type_of u ≡ positive_integer_type
      → as_uint64 u ≡ some id
      → find id s.unsubscribe_requests ≡ some request
      → s.promises request.response ≡ pending
      → type_of o ≡ positive_integer_type
      → as_uint64 o ≡ some request.subscription
      → length rest ≤ 2
      → let after = (process_unsubscribed (ucode ∷ u ∷ []) s).1 in
        process_event (code ∷ o ∷ p ∷ details ∷ rest) after ≡ (ok tt, after)
  process_event-unsubscribed ucode u code o p details rest id request s tu vu known fresh to vo
        short =
      rw (process_unsubscribed-answers ucode u id request s tu vu known fresh)
        (dropped_event code o p details rest id request s to vo short)
