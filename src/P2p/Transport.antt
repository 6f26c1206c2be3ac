-- ===== src/P2p/Transport.antt =====
-- p2p/transport.go: messages on a stream of bytes. The stream is what the other side has written;
-- the deadlines are not modelled.
pub mod Framing
use chainlang.Prelude.{
  ℕ, Bool, true, false, Option, none, some, [], ◌∷◌, ◌++◌, Bytes, nat_beq, if◌then◌else◌,
}
use chainlang.P2p.Messages.{
  Kind, kind_hello, Payload, hello_payload, Wire, encode_message, decode_message,
}

-- net.Conn.Write: the stream so far and the bytes to write give the stream, and whether the error is
-- nil.
abbrev pub Link : Type 0
Link = Bytes → Bytes → Bytes × Bool

abbrev push_byte : ℕ → Option (Bytes × Bytes) → Option (Bytes × Bytes)
push_byte c none = none
push_byte c (some (line, rest)) = some (c ∷ line, rest)

-- bufio.Reader.ReadBytes('\n'): the line with its delimiter, and what follows. `none` is an error: the
-- stream ends first.
unfoldable pub read_bytes : Bytes → Option (Bytes × Bytes)
read_bytes [] = none
read_bytes (c ∷ cs) =
    let rest = read_bytes cs in if nat_beq c 10 then some (c ∷ [], cs) else push_byte c rest

-- `line[:len(line)-1]` if the last byte is a newline.
unfoldable pub without_newline : Bytes → Bytes
without_newline [] = []
without_newline (c ∷ []) = if nat_beq c 10 then [] else c ∷ []
without_newline (c ∷ d ∷ cs) = c ∷ without_newline (d ∷ cs)

module _ (wire : Wire) where
  abbrev send_text : Link → Bytes → Option Bytes → Bytes × Bool
  send_text link stream none = (stream, false)
  send_text link stream (some text) = link stream (text ++ 10 ∷ [])

  unfoldable pub send : Link → Bytes → Kind → Option Payload → Bytes × Bool
  unfolding encode_message
  send link stream kind payload = send_text link stream (encode_message wire kind payload)

  abbrev pub decode_line : Bytes → Option (Kind × Bytes)
  unfolding decode_message
  decode_line [] = none
  decode_line (c ∷ cs) = decode_message wire (c ∷ cs)

  abbrev read_line : Option (Bytes × Bytes) → Option (Kind × Bytes) × Bytes
  unfolding decode_line without_newline
  read_line none = (none, [])
  read_line (some (line, rest)) = (decode_line (without_newline line), rest)

  -- The message, or `none` for an error, and what is left of the stream.
  unfoldable pub read_message : Bytes → Option (Kind × Bytes) × Bytes
  unfolding read_bytes read_line
  read_message stream = read_line (read_bytes stream)

-- `Server`, with what `getHeight` returns, whether there is a callback, and the listener, told apart by a
-- number; `none` is a nil listener.
pub record Server : Type 0 where
  pub listen_addr : Bytes
  pub genesis_hash : Bytes
  pub height : ℕ
  pub has_callback : Bool
  pub lis : Option ℕ

-- `NewServer`
abbrev pub new_server : Bytes → Bytes → ℕ → Server
new_server listen_addr genesis_hash height = record {
  listen_addr = listen_addr;
  genesis_hash = genesis_hash;
  height = height;
  has_callback = false;
  lis = none;
}

-- `OnConn`, with a callback that is not nil.
abbrev pub on_conn : Server → Server
on_conn server = record server { has_callback = true }

abbrev listening : Server → Option ℕ → Server × Bool
listening server none = (server, false)
listening server (some lis) = (record server { lis = some lis }, true)

-- `Listen`, with `net.Listen` on an address; the second result says whether the error is nil. The accept
-- loop starts with the new listener.
unfoldable pub listen : (Bytes → Option ℕ) → Server → Server × Bool
listen open_listener server = listening server (open_listener server.listen_addr)

abbrev closed_listener : (ℕ → Bool) → Option ℕ → Bool
closed_listener close_lis none = true
closed_listener close_lis (some lis) = close_lis lis

-- `Close`, with the `Close` of a listener: whether the error is nil.
unfoldable pub close : (ℕ → Bool) → Server → Bool
close close_lis server = closed_listener close_lis server.lis

-- A connection is closed, or handed to the callback with what was written to it.
pub data Admitted : Type 0 where
  turned_away : Admitted
  handed_on : Bytes → Admitted

module _ (wire : Wire) where
  abbrev greeting : Server → Payload
  greeting server = hello_payload (record {
    genesis_hash = server.genesis_hash;
    listen_addr = server.listen_addr;
    height = server.height;
  })

  abbrev greeted : Server → Bytes × Bool → Admitted
  greeted server (stream, false) = turned_away
  greeted server (stream, true) = if server.has_callback then handed_on stream else turned_away

  -- One round of `acceptLoop`.
  unfoldable pub admit : Link → Server → Admitted
  unfolding send
  admit link server = greeted server (send wire link [] kind_hello (some (greeting server)))
