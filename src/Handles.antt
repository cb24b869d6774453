-- ===== src/Handles.antt =====
-- autobahn/wamp_publication.ipp, wamp_subscription.ipp and wamp_registration.ipp: the handles that users
-- are given, each around the id of the router. The session's model has the ids themselves.
use autobahn_cpp_aw.Common.{ℕ}

record Publication : Type 0 where
  id : ℕ

abbrev new_publication : Publication
new_publication = record { id = 0 }

abbrev publication_of : ℕ → Publication
publication_of id = record { id = id }

record Subscription : Type 0 where
  id : ℕ

abbrev new_subscription : Subscription
new_subscription = record { id = 0 }

abbrev subscription_of : ℕ → Subscription
subscription_of id = record { id = id }

record Registration : Type 0 where
  id : ℕ

abbrev new_registration : Registration
new_registration = record { id = 0 }

abbrev registration_of : ℕ → Registration
registration_of id = record { id = id }
