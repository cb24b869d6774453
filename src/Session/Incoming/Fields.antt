-- ===== src/Session/Incoming/Fields.antt =====
-- The reading of the fields of a message, where they are what the session expects.
use autobahn_cpp_aw.Common.{
  ℕ, zero, suc, ◌<◌, ◌≤◌, String, Option, some, List, [], ◌∷◌, ◌≡◌, arith, length, get_elem?,
}
use autobahn_cpp_aw.Exception.{ok}
use autobahn_cpp_aw.Msgpack.{
  Msgpack, Object, ObjectType, type_of, same_type, as_uint64, positive_integer_type, map_type,
  array_type,
}
use autobahn_cpp_aw.Message.{Message, size, field, field_as, is_field_type}
use autobahn_cpp_aw.Client.{Client}
use autobahn_cpp_aw.Session.{Session}
use autobahn_cpp_aw.Session.Incoming.Replies.{expect_type, optional_field, request_field}

get_elem?-lt {ℓ} :
    {A : Type ℓ} (xs : List A) (i : ℕ) (a : A) → get_elem? xs i ≡ some a → i < length xs
get_elem?-lt [] i a h = ground arith
get_elem?-lt (x ∷ xs) zero a h = omega arith
get_elem?-lt (x ∷ xs) (suc i) a h = omega (arith, get_elem?-lt xs i a h)

module _ ⦃m : Msgpack⦄ where
  -- what may stand behind the last field that a message must have: nothing, a list, or a list and a dictionary
  abbrev pub FitArguments : List Object → Type 0
  FitArguments [] = Unit {0}
  FitArguments (a ∷ []) = type_of a ≡ array_type
  FitArguments (a ∷ k ∷ []) = (type_of a ≡ array_type) × (type_of k ≡ map_type)
  FitArguments (a ∷ k ∷ x ∷ rest) = ⊥

  pub field-eq :
      (message : Message) (i : ℕ) (o : Object)
      → get_elem? message i ≡ some o
      → field message i ≡ ok o
  unfolding field
  field-eq message i o h = ground (arith, get_elem?-lt message i o h)

  pub field_as-eq :
      {T : Type 0} (convert : Object → Option T) (message : Message) (i : ℕ) (o : Object) (v : T)
      → get_elem? message i ≡ some o
      → convert o ≡ some v
      → field_as convert message i ≡ ok v
  unfolding field_as
  field_as-eq convert message i o v h e = ground (arith, field-eq message i o h)

  pub is_field_type-eq :
      (message : Message) (i : ℕ) (t : ObjectType) (o : Object)
      → get_elem? message i ≡ some o
      → is_field_type message i t ≡ ok (same_type (type_of o) t)
  unfolding is_field_type
  is_field_type-eq message i t o h = ground (arith, field-eq message i o h)

module _ ⦃m : Msgpack⦄ ⦃c : Client⦄ (message : Message) (i : ℕ) (complaint : String)
    (s : Session) where
  pub expect_type-fits :
      (t : ObjectType) (o : Object)
      → get_elem? message i ≡ some o
      → type_of o ≡ t
      → expect_type message i t complaint s ≡ (ok tt, s)
  unfolding expect_type
  expect_type-fits t o h e = ground (arith, is_field_type-eq message i t o h)

  pub request_field-reads :
      (o : Object) (n : ℕ)
      → get_elem? message i ≡ some o
      → type_of o ≡ positive_integer_type
      → as_uint64 o ≡ some n
      → request_field message i complaint s ≡ (ok n, s)
  unfolding request_field
  request_field-reads o n h e v =
      ground (
        arith,
        expect_type-fits positive_integer_type o h e,
        field_as-eq as_uint64 message i o n h v,
      )

  pub optional_field-absent :
      (t : ObjectType) (default : Object)
      → length message ≤ i
      → optional_field message i t complaint default s ≡ (ok default, s)
  unfolding optional_field size
  optional_field-absent t default h = ground arith

  pub optional_field-present :
      (t : ObjectType) (default o : Object)
      → get_elem? message i ≡ some o
      → type_of o ≡ t
      → optional_field message i t complaint default s ≡ (ok o, s)
  unfolding optional_field size
  optional_field-present t default o h e =
      ground (arith, get_elem?-lt message i o h, expect_type-fits t o h e, field-eq message i o h)

  -- Reading a field changes nothing, whatever the message.
  pub expect_type-state : (t : ObjectType) → (expect_type message i t complaint s).1 ≡ s
  unfolding expect_type
  expect_type-state t = ground arith

  pub request_field-state : (request_field message i complaint s).1 ≡ s
  unfolding request_field
  request_field-state = ground (arith, expect_type-state positive_integer_type)

  pub optional_field-state :
      (t : ObjectType) (default : Object) → (optional_field message i t complaint default s).1 ≡ s
  unfolding optional_field
  optional_field-state t default = ground (arith, expect_type-state t)
