-- ===== src/Sample.antt =====
-- A concrete msgpack, transport and user, which show that what the development assumes of them can
-- be met: objects as trees, a transport that keeps what it was given until it breaks, and handlers
-- and procedures known by their numbers.
pub mod Network
use autobahn_cpp_aw.Common.{
  true, ℕ, ℤ, pos, String, Bool, Option, none, some, List, [], ◌∷◌, ◌==◌, if◌then◌else◌,
}
use autobahn_cpp_aw.Exception.{ok, std_exception}
use autobahn_cpp_aw.Msgpack.{
  Msgpack, ObjectType, positive_integer_type, str_type, map_type, array_type, other_type,
}
use autobahn_cpp_aw.Message.{Message}
use autobahn_cpp_aw.Invocation.{Invocation, Script, return, throws, reply, Reply}
use autobahn_cpp_aw.Client.{Client}

mutual
  pub data Tree : Type 0 where
    nil : Tree
    number : ℤ → Tree
    text : String → Tree
    truth : Bool → Tree
    items : Trees → Tree
    dictionary : Fields → Tree

  pub data Trees : Type 0 where
    end : Trees
    item : Tree → Trees → Trees

  pub data Fields : Type 0 where
    empty : Fields
    field : Tree → Tree → Fields → Fields

abbrev pub tree_type : Tree → ObjectType
tree_type (number (pos n)) = positive_integer_type
tree_type (text s) = str_type
tree_type (items ts) = array_type
tree_type (dictionary fs) = map_type
tree_type _ = other_type

abbrev pub tree_text : Tree → String
tree_text (text s) = s
tree_text _ = ""

abbrev entries : Fields → List (Tree × Tree)
entries empty = []
entries (field k v rest) = (k, v) ∷ entries rest

abbrev elements : Trees → List Tree
elements end = []
elements (item t rest) = t ∷ elements rest

abbrev pub tree_entries : Tree → List (Tree × Tree)
tree_entries (dictionary fs) = entries fs
tree_entries _ = []

abbrev pub tree_elements : Tree → List Tree
tree_elements (items ts) = elements ts
tree_elements _ = []

abbrev pub tree_number : Tree → Option ℕ
tree_number (number (pos n)) = some n
tree_number _ = none

abbrev pub tree_int : Tree → Option ℤ
tree_int (number n) = some n
tree_int _ = none

abbrev pub tree_string : Tree → Option String
tree_string (text s) = some s
tree_string _ = none

abbrev pub tree_bool : Tree → Option Bool
tree_bool (truth b) = some b
tree_bool _ = none

abbrev named : Fields → List (String × Tree)
named empty = []
named (field k v rest) = (tree_text k, v) ∷ named rest

abbrev pub tree_map : Tree → Option (List (String × Tree))
tree_map (dictionary fs) = some (named fs)
tree_map _ = none

abbrev make_trees : List Tree → Trees
make_trees [] = end
make_trees (t ∷ rest) = item t (make_trees rest)

abbrev make_fields : List (String × Tree) → Fields
make_fields [] = empty
make_fields ((k, v) ∷ rest) = field (text k) v (make_fields rest)

instance abbrev pub sample_msgpack : Msgpack
sample_msgpack = record {
  Object = Tree;
  type_of = tree_type;
  str_text = tree_text;
  map_entries = tree_entries;
  array_elements = tree_elements;
  as_uint64 = tree_number;
  as_int = tree_int;
  as_string = tree_string;
  as_bool = tree_bool;
  as_string_map = tree_map;
  nil_object = nil;
  number_object = λ n. number (pos n);
  int_object = number;
  text_object = text;
  bool_object = truth;
  list_object = λ ts. items (make_trees ts);
  map_object = λ fs. dictionary (make_fields fs);
}

pub record Wire : Type 0 where
  pub sent : List Message
  pub broken : Bool

abbrev pub write : Wire → Message → Wire × Option String
write w message =
    if w.broken then (w, some "broken pipe") else (record w { sent = message ∷ w.sent }, none)

-- procedure 0 answers once, procedure 2 throws, and any other answers twice
abbrev pub answers : ℕ → Invocation → Script
answers p i =
    if p == 0
    then reply (Reply.result i.arguments) (λ _. return)
    else if p == 2
    then throws (std_exception "broken")
    else reply (Reply.result i.arguments) (λ _. reply Reply.empty_result (λ _. return))

instance abbrev pub sample_client : Client
sample_client = record {
  Link = Wire;
  transmit = write;
  Handler = ℕ;
  handler_throws = λ h e. h == 13;
  Procedure = ℕ;
  script = answers;
  on_challenge = λ challenge. ok "signature";
  copy_exception = λ e. e;
  library_what = λ e. "std::exception";
  asserts = true;
}
