-- ===== src/Session/Incoming/Challenges.antt =====
-- CHALLENGE from the router, and the AUTHENTICATE that answers it.
use autobahn_cpp_aw.Common.{ℤ, pos, String, List, [], ◌∷◌, ◌++◌, ◌≡◌, refl, arith, none, some}
use autobahn_cpp_aw.Exception.{ok, err, protocol_error}
use Prim.Native.String.{◌++◌ as append_text}
use autobahn_cpp_aw.Msgpack.{
  Msgpack, Object, type_of, as_string, as_int, as_string_map, map_type, text_object, map_object,
}
use autobahn_cpp_aw.Message.{Message, field, field_as, is_field_type}
use autobahn_cpp_aw.MessageType.{MessageType}
use autobahn_cpp_aw.Message.Build.{build, type_object}
use autobahn_cpp_aw.Client.{Client, Challenge}
use autobahn_cpp_aw.Session.{Session, authenticate_task}
use autobahn_cpp_aw.Session.Requests.{dispatch}
use autobahn_cpp_aw.Session.Tasks.{what}
use autobahn_cpp_aw.Session.Incoming.Control.{
  find_detail, parse_salt, parse_wampcra, parse_challenge, authenticate, process_challenge,
  make_challenge,
}

module _ ⦃m : Msgpack⦄ ⦃c : Client⦄ where
  -- the challenge that the details of a CHALLENGE for `wampcra` describe, with a salt or without
  pub data Describes (ds : List (String × Object)) (ch : Challenge) : Type 0 where
    unsalted :
        (o : Object) (text : String)
        → find_detail "challenge" ds ≡ some o
        → as_string o ≡ some text
        → find_detail "salt" ds ≡ none
        → ch ≡ make_challenge "wampcra" text "" (pos 0) (pos 0)
        → Describes ds ch
    salted :
        (o p i k : Object) (text salt : String) (iterations keylen : ℤ)
        → find_detail "challenge" ds ≡ some o
        → as_string o ≡ some text
        → find_detail "salt" ds ≡ some p
        → as_string p ≡ some salt
        → find_detail "iterations" ds ≡ some i
        → as_int i ≡ some iterations
        → find_detail "keylen" ds ≡ some k
        → as_int k ≡ some keylen
        → ch ≡ make_challenge "wampcra" text salt iterations keylen
        → Describes ds ch

  -- [AUTHENTICATE, Signature|string, Extra|dict]
  abbrev pub authenticate_message : String → Message
  authenticate_message signature =
      type_object MessageType.authenticate ∷ text_object signature ∷ map_object [] ∷ []

  read_details :
      (h w o : Object) (ds : List (String × Object)) (ch : Challenge) (s : Session)
      → as_string_map o ≡ some ds
      → Describes ds ch
      → parse_wampcra (h ∷ w ∷ o ∷ []) s ≡ (ok ch, s)
  unfolding parse_wampcra parse_salt field
  read_details h w o ds ch s e (unsalted x text f g a d) = ground arith
  read_details h w o ds ch s e
        (salted x p i k text salt iterations keylen f g f' g' fi gi fk gk d) =
      ground arith

  authenticate-dispatches :
      (signature : String) (s : Session)
      → authenticate (ok signature) s ≡ (
        ok tt,
        record s { tasks = s.tasks ++ authenticate_task (authenticate_message signature) ∷ [] },
      )
  unfolding authenticate dispatch build
  authenticate-dispatches signature s = refl

  pub process_challenge-answers :
      (h w o : Object) (ds : List (String × Object)) (ch : Challenge) (signature : String)
      (s : Session)
      → as_string w ≡ some "wampcra"
      → type_of o ≡ map_type
      → as_string_map o ≡ some ds
      → Describes ds ch
      → c.on_challenge ch ≡ ok signature
      → process_challenge (h ∷ w ∷ o ∷ []) s ≡ (
        ok tt,
        record s { tasks = s.tasks ++ authenticate_task (authenticate_message signature) ∷ [] },
      )
  unfolding process_challenge parse_challenge is_field_type field_as field
  process_challenge-answers h w o ds ch signature s vw to e d signed =
      ground (arith, read_details h w o ds ch s e d, authenticate-dispatches signature s)

  -- A CHALLENGE for `wampcra` whose details have a salt and lack the iterations is
  -- refused before `on_challenge` is asked, and changes nothing.
  process_challenge-unsalted :
      (h w o x p : Object) (text salt : String) (ds : List (String × Object)) (s : Session)
      → as_string w ≡ some "wampcra"
      → type_of o ≡ map_type
      → as_string_map o ≡ some ds
      → find_detail "challenge" ds ≡ some x
      → as_string x ≡ some text
      → find_detail "salt" ds ≡ some p
      → as_string p ≡ some salt
      → find_detail "iterations" ds ≡ none
      → process_challenge (h ∷ w ∷ o ∷ []) s ≡ (
        err (
            protocol_error (
              append_text "wampcra authentication: Failed parse challange details:"
                "wampcra must always tell a number of iterations when introducing salting ( in details )")),
        s,
      )
  unfolding process_challenge parse_challenge parse_wampcra parse_salt is_field_type field_as field
      what
  process_challenge-unsalted h w o x p text salt ds s vw to e f g f' g' none_there = ground arith
