-- ===== src/P2p/Peers.antt =====
-- p2p/peers.go: the connected peers by remote address. What the calls do outside the set is kept beside
-- it: the connections they closed, and the callbacks they started.
pub mod Bounds
use chainlang.Prelude.{
  ℕ, Bool, true, false, ◌||◌, Option, none, some, List, [], ◌∷◌, map, Bytes, bytes_eq, ◌==◌, leb,
  length, if◌then◌else◌, is_some,
}
use chainlang.Prelude.Map.{Map, lookup, insert, erase}

-- A connection, told apart by a number, with the address that `RemoteAddr` returns.
pub record Conn : Type 0 where
  pub id : ℕ
  pub remote : Bytes

pub record PeerSet : Type 0 where
  pub peers : Map Bytes Conn
  pub max_peers : ℕ
  pub seeds : List Bytes
  pub listen_addr : Bytes
  pub closed : List Conn
  pub started : List Conn

unfoldable pub new_peer_set : ℕ → List Bytes → Bytes → PeerSet
new_peer_set max seeds listen = record {
  peers = [];
  max_peers = max;
  seeds = seeds;
  listen_addr = listen;
  closed = [];
  started = [];
}

abbrev pub close : PeerSet → Conn → PeerSet
close p c = record p { closed = c ∷ p.closed }

abbrev pub start : PeerSet → Conn → PeerSet
start p c = record p { started = c ∷ p.started }

abbrev pub enter : PeerSet → Conn → Bytes → PeerSet
enter p c remote = record p { peers = insert remote c p.peers }

-- The last argument says whether a callback was given.
unfoldable pub add_peer : PeerSet → Conn → Bytes → Bool → PeerSet × Bool
unfolding lookup insert
add_peer p c remote callback =
    if leb p.max_peers (length p.peers)
    then (close p c, false)
    else if is_some (lookup remote p.peers)
    then (close p c, false)
    else (if callback then start (enter p c remote) c else enter p c remote, true)

abbrev pub start_if : PeerSet × Bool → Conn → PeerSet
start_if (p, true) c = start p c
start_if (p, false) c = p

abbrev pub dialled : PeerSet → Option Conn → PeerSet
dialled p none = p
dialled p (some c) = start_if (add_peer p c c.remote false) c

-- `dial` is the dialer: `none` is an error.
unfoldable pub try_connect : (Bytes → Option Conn) → PeerSet → Bytes → PeerSet
unfolding add_peer
try_connect dial p addr =
    if addr == [] || addr == p.listen_addr
    then p
    else if leb p.max_peers (length p.peers)
    then p
    else dialled p (dial addr)

abbrev pub seed_dialled : PeerSet → Option Conn → PeerSet
seed_dialled p none = p
seed_dialled p (some c) = (add_peer p c c.remote true).0

unfoldable pub connect_each : (Bytes → Option Conn) → PeerSet → List Bytes → PeerSet
unfolding add_peer
connect_each dial p [] = p
connect_each dial p (seed ∷ seeds) =
    if seed == [] || seed == p.listen_addr
    then connect_each dial p seeds
    else if leb p.max_peers (length p.peers)
    then p
    else connect_each dial (seed_dialled p (dial seed)) seeds

unfoldable pub connect_to_seeds : (Bytes → Option Conn) → PeerSet → PeerSet
unfolding connect_each
connect_to_seeds dial p = connect_each dial p p.seeds

abbrev pub drop_found : PeerSet → Bytes → Option Conn → PeerSet
drop_found p remote none = p
drop_found p remote (some c) = record p { peers = erase remote p.peers; closed = c ∷ p.closed }

unfoldable pub remove_peer : PeerSet → Bytes → PeerSet
unfolding lookup erase
remove_peer p remote = drop_found p remote (lookup remote p.peers)

-- The connections that a broadcast sends to.
unfoldable pub broadcast : PeerSet → List Conn
broadcast p = map (λ (entry : Bytes × Conn). entry.1) p.peers

unfoldable pub peer_count : PeerSet → ℕ
peer_count p = length p.peers
