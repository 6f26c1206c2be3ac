-- ===== src/Tests/Dialling.antt =====
-- A dialled peer, whose callback adds it again.
use chainlang.Prelude.{◌≡◌, refl, true, false, Option, some, [], ◌∷◌, Bytes, bytes_beq}
use chainlang.Prelude.Map.{lookup, insert}
use chainlang.P2p.Peers.{Conn, PeerSet, close, new_peer_set, add_peer, try_connect, remove_peer}
use chainlang.P2p.Peers.Bounds.{
  IsValidSet, created, connected, accepted, removed, Reachable-IsValidSet, add_peer_again,
}

abbrev conn_one : Conn
conn_one = record { id = 1; remote = b'a' ∷ [] }

abbrev dial_one : Bytes → Option Conn
dial_one addr = some conn_one

abbrev empty_set : PeerSet
empty_set = new_peer_set 2 [] (b'l' ∷ [])

abbrev dialled_set : PeerSet
dialled_set = try_connect dial_one empty_set (b'a' ∷ [])

dialled_set-started : dialled_set.started ≡ conn_one ∷ []
unfolding try_connect new_peer_set add_peer bytes_beq lookup insert
dialled_set-started = refl

-- The callback of the connection finds the address and closes the connection, and `RemovePeer` follows.
abbrev called_back : PeerSet
called_back = (add_peer dialled_set conn_one (b'a' ∷ []) false).0

called_back-closed : called_back.closed ≡ conn_one ∷ []
unfolding try_connect new_peer_set add_peer bytes_beq lookup insert
called_back-closed = refl

Reachable-IsValidSet_example : IsValidSet (remove_peer called_back (b'a' ∷ []))
Reachable-IsValidSet_example = Reachable-IsValidSet (
    removed (b'a' ∷ [])
      (accepted conn_one (b'a' ∷ []) false (connected dial_one (b'a' ∷ []) created)))

first_add : (add_peer empty_set conn_one (b'a' ∷ []) false).1 ≡ true
unfolding new_peer_set add_peer lookup
first_add = refl

refused_again :
    add_peer (add_peer empty_set conn_one (b'a' ∷ []) false).0 conn_one (b'a' ∷ []) false
    ≡ (close (add_peer empty_set conn_one (b'a' ∷ []) false).0 conn_one, false)
refused_again = add_peer_again empty_set conn_one conn_one (b'a' ∷ []) false false first_add
