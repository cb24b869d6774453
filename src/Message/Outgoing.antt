-- ===== src/Message/Outgoing.antt =====
-- The messages that the WAMP specification lets a client send, beside what autobahn/wamp_session.ipp
-- and autobahn/wamp_invocation.ipp build.
use autobahn_cpp_aw.Common.{ℕ, String, List, [], ◌∷◌}
use autobahn_cpp_aw.Msgpack.{Msgpack, Object, number_object, text_object, map_object}
use autobahn_cpp_aw.Message.{Message}
use autobahn_cpp_aw.Message.Build.{type_object}
use autobahn_cpp_aw.MessageType.{MessageType}

module _ ⦃m : Msgpack⦄ where
  -- `Arguments|list` and `ArgumentsKw|dict` at the end of a message, which users give
  pub data Payload : List Object → Type 0 where
    no_arguments : Payload []
    arguments : (a : Object) → Payload (a ∷ [])
    kw_arguments : (a k : Object) → Payload (a ∷ k ∷ [])

  abbrev Dict : Type 0
  Dict = List (String × Object)

  pub data IsOutgoing : Message → Type 0 where
    -- [HELLO, Realm|uri, Details|dict]
    hello :
        (realm : String) (details : Dict)
        → IsOutgoing (type_object MessageType.hello ∷ text_object realm ∷ map_object details ∷ [])
    -- [AUTHENTICATE, Signature|string, Extra|dict]
    authenticate :
        (signature : String) (extra : Dict)
        → IsOutgoing
            (type_object MessageType.authenticate ∷ text_object signature ∷ map_object extra ∷ [])
    -- [GOODBYE, Details|dict, Reason|uri]
    goodbye :
        (details : Dict) (reason : String)
        → IsOutgoing
            (type_object MessageType.goodbye ∷ map_object details ∷ text_object reason ∷ [])
    -- [ERROR, INVOCATION, INVOCATION.Request|id, Details|dict, Error|uri, …]
    error :
        (id : ℕ) (details : Dict) (uri : String) (rest : List Object)
        → Payload rest
        → IsOutgoing (
            type_object MessageType.error
            ∷ type_object MessageType.invocation
            ∷ number_object id
            ∷ map_object details
            ∷ text_object uri
            ∷ rest)
    -- [PUBLISH, Request|id, Options|dict, Topic|uri, …]
    publish :
        (id : ℕ) (options : Dict) (topic : String) (rest : List Object)
        → Payload rest
        → IsOutgoing (
            type_object MessageType.publish
            ∷ number_object id
            ∷ map_object options
            ∷ text_object topic
            ∷ rest)
    -- [SUBSCRIBE, Request|id, Options|dict, Topic|uri]
    subscribe :
        (id : ℕ) (options : Dict) (topic : String)
        → IsOutgoing (
            type_object MessageType.subscribe
            ∷ number_object id
            ∷ map_object options
            ∷ text_object topic
            ∷ [])
    -- [UNSUBSCRIBE, Request|id, SUBSCRIBED.Subscription|id]
    unsubscribe :
        (id subscription : ℕ)
        → IsOutgoing (
            type_object MessageType.unsubscribe
            ∷ number_object id
            ∷ number_object subscription
            ∷ [])
    -- [CALL, Request|id, Options|dict, Procedure|uri, …]
    call :
        (id : ℕ) (options : Dict) (procedure : String) (rest : List Object)
        → Payload rest
        → IsOutgoing (
            type_object MessageType.call
            ∷ number_object id
            ∷ map_object options
            ∷ text_object procedure
            ∷ rest)
    -- [REGISTER, Request|id, Options|dict, Procedure|uri]
    register :
        (id : ℕ) (options : Dict) (procedure : String)
        → IsOutgoing (
            type_object MessageType.register
            ∷ number_object id
            ∷ map_object options
            ∷ text_object procedure
            ∷ [])
    -- [UNREGISTER, Request|id, REGISTERED.Registration|id]
    unregister :
        (id registration : ℕ)
        → IsOutgoing (
            type_object MessageType.unregister ∷ number_object id ∷ number_object registration ∷ [])
    -- [YIELD, INVOCATION.Request|id, Options|dict, …]
    yield :
        (id : ℕ) (options : Dict) (rest : List Object)
        → Payload rest
        → IsOutgoing (type_object MessageType.yield ∷ number_object id ∷ map_object options ∷ rest)
