-- ===== src/Programs/Secret.antt =====
-- `auth_wamp_session` of examples/wampcra.cpp, which answers the router's challenge.
use autobahn_cpp_aw.Common.{
  ℕ, String, Bool, true, false, List, [], ◌∷◌, ◌++◌, ◌≡◌, arith, some, if◌then◌else◌,
}
use autobahn_cpp_aw.Exception.{Result, ok, err, promise_already_satisfied}
use autobahn_cpp_aw.Msgpack.{Msgpack, Object, type_of, as_string, as_string_map, map_type}
use autobahn_cpp_aw.AuthUtils.{OpenSsl, compute_wcs}
use autobahn_cpp_aw.Client.{Client, Challenge}
use autobahn_cpp_aw.Session.{Session, authenticate_task}
use autobahn_cpp_aw.Session.Incoming.Control.{process_challenge}
use autobahn_cpp_aw.Session.Incoming.Challenges.{
  Describes, authenticate_message, process_challenge-answers,
}

-- OpenSSL, and the bytes of a text and back, which the code takes for the same
module _ ⦃m : Msgpack⦄ (ssl : OpenSsl) (bytes : String → List ℕ) (text : List ℕ → String) where
  -- `m_secret`, and whether the promise `challenge_future` has its value
  pub record AuthWampSession : Type 0 where
    pub secret : String
    pub challenge_future : Bool

  -- the signature that the future yields, or what is raised in its place
  unfoldable pub on_challenge : Challenge → AuthWampSession → Result String × AuthWampSession
  unfolding compute_wcs
  on_challenge challenge a = if a.challenge_future then (err promise_already_satisfied, a) else (
    ok (text (compute_wcs ssl (bytes a.secret) (bytes challenge.challenge))),
    record a { challenge_future = true },
  )

  module _ ⦃c : Client⦄ where
    -- A session that signs with its secret: the first CHALLENGE for `wampcra` is answered with one
    -- AUTHENTICATE, whose signature is the keyed hash of the challenge under the secret, whether the
    -- challenge has a salt or not.
    process_challenge-signs :
        (h w o : Object) (ds : List (String × Object)) (ch : Challenge) (a : AuthWampSession)
        (s : Session)
        → as_string w ≡ some "wampcra"
        → type_of o ≡ map_type
        → as_string_map o ≡ some ds
        → Describes ds ch
        → a.challenge_future ≡ false
        → c.on_challenge ch ≡ (on_challenge ch a).0
        → let signature = text (compute_wcs ssl (bytes a.secret) (bytes ch.challenge)) in
          process_challenge (h ∷ w ∷ o ∷ []) s ≡ (
            ok tt,
            record s { tasks = s.tasks ++ authenticate_task (authenticate_message signature) ∷ [] },
          )
    unfolding on_challenge
    process_challenge-signs h w o ds ch a s vw to e d first signs =
        process_challenge-answers h w o ds ch
          (text (compute_wcs ssl (bytes a.secret) (bytes ch.challenge))) s vw to e d (ground arith)
