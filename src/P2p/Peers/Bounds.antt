-- ===== src/P2p/Peers/Bounds.antt =====
-- The set never holds more than `maxPeers` peers or an address twice, and a second `AddPeer` for an
-- address is refused.
use chainlang.Prelude.{
  ℕ, ◌+◌, ◌≤◌, ◌≡◌, ap, true, false, Bool, ◌||◌, Option, none, some, List, [], ◌∷◌, Bytes, bytes_eq,
  ◌==◌, arith, leb, length, Bool-cases, Option-cases, inl, inr, is_some, if◌then◌else◌,
}
use chainlang.Prelude.Map.{
  Map, lookup, insert, erase, IsProper, insert-IsProper, lookup-insert_self, lookup-erase,
}
use chainlang.P2p.Peers.{
  Conn, PeerSet, new_peer_set, close, enter, add_peer, start_if, dialled, try_connect, seed_dialled,
  connect_each, connect_to_seeds, remove_peer, peer_count,
}

abbrev Anything : Conn → Type 0
Anything c = Unit

pub record IsValidSet (p : PeerSet) : Type 0 where
  pub bounded : peer_count p ≤ p.max_peers
  pub distinct : IsProper Anything p.peers

length-insert_new :
    (k : Bytes) (c : Conn) (m : Map Bytes Conn)
    → lookup k m ≡ none
    → length (insert k c m) ≡ length m + 1
unfolding lookup insert
length-insert_new k c [] e = omega arith
length-insert_new k c ((j, w) ∷ m) e = elim (Bool-cases (j == k)) [
  | inl hit ↦ cc (rw hit at e)
  | inr miss ↦ rw miss (omega (arith, length-insert_new k c m (rw miss at e)))
]

length-erase : (k : Bytes) (m : Map Bytes Conn) → length (erase k m) ≤ length m
unfolding erase
length-erase k [] = omega arith
length-erase k ((j, w) ∷ m) = ground (arith, length-erase k m)

erase-IsProper :
    (k : Bytes) (m : Map Bytes Conn) → IsProper Anything m → IsProper Anything (erase k m)
unfolding erase
erase-IsProper k [] h = tt
erase-IsProper k ((j, w) ∷ m) h = elim (Bool-cases (j == k)) [
  | inl hit ↦ rw hit (erase-IsProper k m h.2)
  | inr miss ↦ rw miss (ground (arith, lookup-erase k j m, h.0), tt, erase-IsProper k m h.2)
]

pub add_peer-IsValidSet :
    (p : PeerSet) (c : Conn) (remote : Bytes) (callback : Bool)
    → IsValidSet p
    → IsValidSet (add_peer p c remote callback).0
unfolding add_peer peer_count
add_peer-IsValidSet p c remote callback h =
    let bound = h.bounded in
    elim (Bool-cases (leb p.max_peers (length p.peers))) [
      | inl full ↦ rw full (record { bounded = bound; distinct = h.distinct })
      | inr room ↦ elim (Option-cases (lookup remote p.peers)) [
        | inr (old, known) ↦ rw (room, known) (record { bounded = bound; distinct = h.distinct })
        | inl fresh ↦
            let more = length-insert_new remote c p.peers fresh in
            let fits : length (insert remote c p.peers) ≤ p.max_peers = ground arith in
            let proper = insert-IsProper Anything remote c p.peers tt h.distinct in
            elim (Bool-cases callback) [
              | inl given ↦ rw (room, fresh, given) (record { bounded = fits; distinct = proper })
              | inr missing ↦
                  rw (room, fresh, missing) (record { bounded = fits; distinct = proper })
            ]
      ]
    ]

start_if-IsValidSet : (r : PeerSet × Bool) (c : Conn) → IsValidSet r.0 → IsValidSet (start_if r c)
unfolding peer_count
start_if-IsValidSet (p, true) c h = record { bounded = h.bounded; distinct = h.distinct }
start_if-IsValidSet (p, false) c h = h

dialled-IsValidSet : (p : PeerSet) (o : Option Conn) → IsValidSet p → IsValidSet (dialled p o)
dialled-IsValidSet p none h = h
dialled-IsValidSet p (some c) h =
    start_if-IsValidSet (add_peer p c c.remote false) c (add_peer-IsValidSet p c c.remote false h)

seed_dialled-IsValidSet :
    (p : PeerSet) (o : Option Conn) → IsValidSet p → IsValidSet (seed_dialled p o)
seed_dialled-IsValidSet p none h = h
seed_dialled-IsValidSet p (some c) h = add_peer-IsValidSet p c c.remote true h

IsValidSet-if :
    (b : Bool) {p q : PeerSet} → IsValidSet p → IsValidSet q → IsValidSet (if b then p else q)
IsValidSet-if true h k = h
IsValidSet-if false h k = k

pub try_connect-IsValidSet :
    (dial : Bytes → Option Conn) (p : PeerSet) (addr : Bytes)
    → IsValidSet p
    → IsValidSet (try_connect dial p addr)
unfolding try_connect
try_connect-IsValidSet dial p addr h =
    IsValidSet-if (addr == [] || addr == p.listen_addr) h
      (IsValidSet-if (leb p.max_peers (length p.peers)) h (dialled-IsValidSet p (dial addr) h))

connect_each-IsValidSet :
    (dial : Bytes → Option Conn) (p : PeerSet) (seeds : List Bytes)
    → IsValidSet p
    → IsValidSet (connect_each dial p seeds)
unfolding connect_each
connect_each-IsValidSet dial p [] h = h
connect_each-IsValidSet dial p (seed ∷ seeds) h =
    IsValidSet-if (seed == [] || seed == p.listen_addr) (connect_each-IsValidSet dial p seeds h) (
      IsValidSet-if (leb p.max_peers (length p.peers)) h (
        connect_each-IsValidSet dial (seed_dialled p (dial seed)) seeds
          (seed_dialled-IsValidSet p (dial seed) h)))

pub remove_peer-IsValidSet :
    (p : PeerSet) (remote : Bytes) → IsValidSet p → IsValidSet (remove_peer p remote)
unfolding remove_peer peer_count
remove_peer-IsValidSet p remote h = elim (Option-cases (lookup remote p.peers)) [
  | inl missing ↦ rw missing h
  | inr (c, known) ↦
      let bound = h.bounded in
      let fits : length (erase remote p.peers) ≤ p.max_peers =
        omega (arith, length-erase remote p.peers) in
      rw known (record { bounded = fits; distinct = erase-IsProper remote p.peers h.distinct })
]

-- The calls that change a peer set, in any order; the dialer may answer differently each time.
pub data Reachable (max : ℕ) (seeds : List Bytes) (listen : Bytes) : PeerSet → Type 0 where
  created : Reachable max seeds listen (new_peer_set max seeds listen)
  connected :
      {p : PeerSet}
      → (dial : Bytes → Option Conn) → (addr : Bytes) → Reachable max seeds listen p
      → Reachable max seeds listen (try_connect dial p addr)
  seeded :
      {p : PeerSet}
      → (dial : Bytes → Option Conn) → Reachable max seeds listen p
      → Reachable max seeds listen (connect_to_seeds dial p)
  accepted :
      {p : PeerSet}
      → (c : Conn) → (remote : Bytes) → (callback : Bool) → Reachable max seeds listen p
      → Reachable max seeds listen (add_peer p c remote callback).0
  removed :
      {p : PeerSet}
      → (remote : Bytes) → Reachable max seeds listen p
      → Reachable max seeds listen (remove_peer p remote)

-- A peer set made by `NewPeerSet` and changed only by `TryConnect`, `ConnectToSeeds`, `AddPeer` and
-- `RemovePeer`, in any number and order, holds at most its maximum of peers and no address twice.
pub Reachable-IsValidSet :
    {max : ℕ} {seeds : List Bytes} {listen : Bytes} {p : PeerSet}
    → Reachable max seeds listen p
    → IsValidSet p
unfolding new_peer_set peer_count connect_to_seeds
Reachable-IsValidSet created = record { bounded = omega arith; distinct = tt }
Reachable-IsValidSet (connected {p} dial addr r) =
    try_connect-IsValidSet dial p addr (Reachable-IsValidSet r)
Reachable-IsValidSet (seeded {p} dial r) =
    connect_each-IsValidSet dial p p.seeds (Reachable-IsValidSet r)
Reachable-IsValidSet (accepted {p} c remote callback r) =
    add_peer-IsValidSet p c remote callback (Reachable-IsValidSet r)
Reachable-IsValidSet (removed {p} remote r) =
    remove_peer-IsValidSet p remote (Reachable-IsValidSet r)

is_some-enter :
    (p : PeerSet) (c : Conn) (remote : Bytes)
    → is_some (lookup remote (enter p c remote).peers) ≡ true
is_some-enter p c remote = ap is_some (lookup-insert_self remote c p.peers)

refused :
    (p : PeerSet) (d : Conn) (remote : Bytes) (callback : Bool)
    → is_some (lookup remote p.peers) ≡ true
    → add_peer p d remote callback ≡ (close p d, false)
unfolding add_peer
refused p d remote callback known = ground arith

added_known :
    (p : PeerSet) (c : Conn) (remote : Bytes) (callback : Bool)
    → (add_peer p c remote callback).1 ≡ true
    → is_some (lookup remote (add_peer p c remote callback).0.peers) ≡ true
unfolding add_peer
added_known p c remote callback h = let entered = is_some-enter p c remote in ground arith

-- Where a peer was added under an address, adding any connection under that address again is refused
-- and closes that connection.
pub add_peer_again :
    (p : PeerSet) (c d : Conn) (remote : Bytes) (callback callback' : Bool)
    → (add_peer p c remote callback).1 ≡ true
    → add_peer (add_peer p c remote callback).0 d remote callback'
      ≡ (close (add_peer p c remote callback).0 d, false)
add_peer_again p c d remote callback callback' h =
    refused (add_peer p c remote callback).0 d remote callback' (added_known p c remote callback h)
