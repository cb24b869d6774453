-- ===== src/Sample/Network.antt =====
-- A concrete network: a socket that keeps what is written to it while it is open, and a format for
-- messages of numbers and empty maps, one byte for each behind a byte that counts them.
use autobahn_cpp_aw.Common.{
  ℕ, zero, suc, ◌<◌, ◌≤◌, pos, String, Bool, true, false, Option, none, some, List, [], ◌∷◌, ◌++◌,
  ◌≡◌, arith, length, take, drop, leb, ◌==◌, if◌then◌else◌,
}
use autobahn_cpp_aw.Exception.{Result, ok, std_exception}
use autobahn_cpp_aw.Message.{Message}
use autobahn_cpp_aw.Transport.{Network}
use autobahn_cpp_aw.Transport.WebSocket.{Endpoint}
use autobahn_cpp_aw.Client.{Client}
use autobahn_cpp_aw.Session.Connection.{over_socket}
use autobahn_cpp_aw.Sample.{
  Tree, Trees, dictionary, empty, number, items, item, end, tree_elements, sample_msgpack,
  sample_client,
}

pub record Pipe : Type 0 where
  pub open_end : Bool
  pub broken_end : Bool
  pub log : List ℕ

abbrev pub pipe_write : Pipe → List ℕ → Pipe × Option String
pipe_write p bytes =
    if p.broken_end then (p, some "broken pipe") else (record p { log = p.log ++ bytes }, none)

abbrev pub numbers : List Tree → List ℕ
numbers [] = []
numbers (number (pos n) ∷ rest) = n ∷ numbers rest
numbers (dictionary fields ∷ rest) = 128 ∷ numbers rest
numbers (_ ∷ rest) = 0 ∷ numbers rest

abbrev pub trees : List ℕ → Trees
trees [] = end
trees (n ∷ rest) = item (if n == 128 then dictionary empty else number (pos n)) (trees rest)

abbrev pub pack_numbers : Message → List ℕ
pack_numbers message = length message ∷ numbers message

abbrev pub next_numbers : List ℕ → Result (Option (Tree × List ℕ))
next_numbers [] = ok none
next_numbers (k ∷ bytes) =
    if leb k (length bytes) then ok (some (items (trees (take k bytes)), drop k bytes)) else ok none

length-drop : (k : ℕ) (bytes : List ℕ) → length (drop k bytes) ≤ length bytes
length-drop zero bytes = omega arith
length-drop (suc k) [] = omega arith
length-drop (suc k) (b ∷ bytes) = omega (arith, length-drop k bytes)

pub next_numbers-shrinks :
    (u u' : List ℕ) (o : Tree) → next_numbers u ≡ ok (some (o, u')) → length u' < length u
next_numbers-shrinks [] u' o h = ground arith
next_numbers-shrinks (k ∷ bytes) u' o h = ground (arith, length-drop k bytes)

instance abbrev pub sample_network : Network
sample_network = record {
  ErrorCode = String;
  message = λ e. e;
  system_error = λ e text. std_exception text;
  print_error = λ text e. text;
  print_number = λ x. "?";
  Socket = Pipe;
  is_open = λ p. p.open_end;
  write = pipe_write;
  close = λ p. (record p { open_end = false });
  opened = λ p. (record p { open_end = true });
  pack = pack_numbers;
  Unpacker = List ℕ;
  consume = λ u bytes. u ++ bytes;
  next = next_numbers;
  held = length;
  next_shrinks = next_numbers-shrinks;
  as_fields = λ o. some (tree_elements o);
  Callback = ℕ;
}

abbrev pub user : Client
user = sample_client

-- the user of the samples, over a raw socket
instance abbrev pub socket_client : Client
socket_client = over_socket user

-- an endpoint of websockets that keeps the frames it was given
instance abbrev pub sample_endpoint : Endpoint String
sample_endpoint = record {
  Connections = List (List ℕ);
  get_connection = λ cs uri. (cs, none);
  connect = λ cs. cs;
  send = λ cs payload. (payload ∷ cs, none);
  close = λ cs. ok cs;
}
