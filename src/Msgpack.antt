-- ===== src/Msgpack.antt =====
-- msgpack-c is not part of the repository: its objects are a parameter, with the observations and
-- constructions that the code makes of them. Where a conversion throws `msgpack::type_error`, it
-- is `none` here.
use autobahn_cpp_aw.Common.{ℕ, ℤ, String, Bool, true, false, Option, List}

-- `msgpack::type::object_type`, as far as the code tells its values apart
pub data ObjectType : Type 0 where
  positive_integer_type str_type map_type array_type other_type : ObjectType

pub record Msgpack : Type 1 where
  -- `msgpack::object`, `object.type`, and the fields of `object.via`
  pub Object : Type 0
  pub type_of : Object → ObjectType
  pub str_text : Object → String
  pub map_entries : Object → List (Object × Object)
  pub array_elements : Object → List Object
  -- `as<uint64_t>()`, `as<int>()`, `as<std::string>()`, `as<bool>()`, and the conversion to a
  -- `std::unordered_map<std::string, msgpack::object>`, as the list of its entries
  pub as_uint64 : Object → Option ℕ
  pub as_int : Object → Option ℤ
  pub as_string : Object → Option String
  pub as_bool : Object → Option Bool
  pub as_string_map : Object → Option (List (String × Object))
  -- `msgpack::object()`, and `msgpack::object(value, zone)` of a number, a signed number, a text, a truth value,
  -- a vector and a map
  pub nil_object : Object
  pub number_object : ℕ → Object
  pub int_object : ℤ → Object
  pub text_object : String → Object
  pub bool_object : Bool → Object
  pub list_object : List Object → Object
  pub map_object : List (String × Object) → Object

module _ ⦃m : Msgpack⦄ where
  abbrev pub Object : Type 0
  Object = m.Object

  abbrev pub type_of : Object → ObjectType
  type_of = m.type_of

  abbrev pub as_uint64 : Object → Option ℕ
  as_uint64 = m.as_uint64

  abbrev pub as_int : Object → Option ℤ
  as_int = m.as_int

  abbrev pub as_string : Object → Option String
  as_string = m.as_string

  abbrev pub as_bool : Object → Option Bool
  as_bool = m.as_bool

  abbrev pub as_string_map : Object → Option (List (String × Object))
  as_string_map = m.as_string_map

  abbrev pub number_object : ℕ → Object
  number_object = m.number_object

  abbrev pub int_object : ℤ → Object
  int_object = m.int_object

  abbrev pub text_object : String → Object
  text_object = m.text_object

  abbrev pub bool_object : Bool → Object
  bool_object = m.bool_object

  abbrev pub list_object : List Object → Object
  list_object = m.list_object

  abbrev pub map_object : List (String × Object) → Object
  map_object = m.map_object

abbrev pub same_type : ObjectType → ObjectType → Bool
same_type positive_integer_type positive_integer_type = true
same_type str_type str_type = true
same_type map_type map_type = true
same_type array_type array_type = true
same_type other_type other_type = true
same_type _ _ = false
