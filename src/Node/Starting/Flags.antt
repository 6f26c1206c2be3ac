-- ===== src/Node/Starting/Flags.antt =====
-- cmd/node/main.go, `main`: which command the flags ask for.
use chainlang.Prelude.{
  ℕ, Bool, false, not, ◌&&◌, List, [], ◌∷◌, Bytes, bytes_eq, ◌==◌, nat_beq, if◌then◌else◌,
}
use chainlang.Config.{min_fee}

pub record Flags : Type 0 where
  pub data_dir : Bytes
  pub init_chain : Bool
  pub init_join : Bytes
  pub run_node : Bool
  pub keygen : Bytes
  pub send_to : Bytes
  pub send_amount : ℕ
  pub send_fee : ℕ
  pub send_key : Bytes
  pub send_api : Bytes
  pub send_nonce : ℕ
  pub p2p_listen : Bytes
  pub p2p_seeds : Bytes
  pub api_port : Bytes

-- "./data"
abbrev default_data_dir : Bytes
default_data_dir = b'.' ∷ b'/' ∷ b'd' ∷ b'a' ∷ b't' ∷ b'a' ∷ []

-- "http://localhost:8080"
abbrev default_api : Bytes
default_api =
    b'h' ∷ b't' ∷ b't' ∷ b'p' ∷ b':' ∷ b'/' ∷ b'/' ∷ b'l' ∷ b'o' ∷ b'c' ∷ b'a' ∷ b'l' ∷ b'h' ∷ b'o'
    ∷ b's' ∷ b't' ∷ b':' ∷ b'8' ∷ b'0' ∷ b'8' ∷ b'0' ∷ []

-- The flags of a command line with none.
abbrev pub default_flags : Flags
default_flags = record {
  data_dir = default_data_dir;
  init_chain = false;
  init_join = [];
  run_node = false;
  keygen = [];
  send_to = [];
  send_amount = 0;
  send_fee = min_fee;
  send_key = [];
  send_api = default_api;
  send_nonce = 0;
  p2p_listen = b':' ∷ b'3' ∷ b'0' ∷ b'3' ∷ b'0' ∷ [];
  p2p_seeds = [];
  api_port = b'8' ∷ b'0' ∷ b'8' ∷ b'0' ∷ [];
}

-- The call that `main` makes, with its arguments.
pub data Command : Type 0 where
  keygen_command : Bytes → Command
  send_command : Bytes → Bytes → ℕ → ℕ → ℕ → Bytes → Command
  init_command : Bytes → Command
  init_join_command : Bytes → Bytes → Command
  run_command : Bytes → Bytes → List Bytes → Bytes → Command
  usage : Command

abbrev push_char : ℕ → List Bytes → List Bytes
push_char c [] = (c ∷ []) ∷ []
push_char c (field ∷ fields) = (c ∷ field) ∷ fields

abbrev drop_empty : Bytes → List Bytes → List Bytes
drop_empty [] fields = fields
drop_empty (c ∷ cs) fields = (c ∷ cs) ∷ fields

-- The text between the commas, the first part first; there is always a part.
unfoldable pub parts : Bytes → List Bytes
parts [] = [] ∷ []
parts (c ∷ cs) = let rest = parts cs in if nat_beq c b',' then [] ∷ rest else push_char c rest

unfoldable pub not_empty : List Bytes → List Bytes
not_empty [] = []
not_empty (field ∷ fields) = drop_empty field (not_empty fields)

-- `strings.FieldsFunc` at commas: the parts that are not empty.
unfoldable pub fields_func : Bytes → List Bytes
unfolding parts not_empty
fields_func text = not_empty (parts text)

unfoldable pub choose : Flags → Command
unfolding fields_func
choose f =
    if not (f.keygen == [])
    then keygen_command f.keygen
    else if not (f.send_to == []) && not (f.send_key == [])
    then send_command f.send_key f.send_to f.send_amount f.send_fee f.send_nonce f.send_api
    else if f.init_chain
    then init_command f.data_dir
    else if not (f.init_join == [])
    then init_join_command f.data_dir f.init_join
    else if f.run_node
    then run_command f.data_dir f.p2p_listen (fields_func f.p2p_seeds) f.api_port
    else usage
