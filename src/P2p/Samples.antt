-- ===== src/P2p/Samples.antt =====
-- A toy network of two nodes for the tests.
use ruvname.Prelude.{
  ℕ, ◌+◌, ◌*◌, ◌/◌, ◌%◌, pos, true, false, none, some, [], ◌∷◌, Option, replicate,
}
use ruvname.Bytes.{Bytes}
use ruvname.Dns.Address.{ipv4, v4}
use ruvname.Blockchain.Samples.{host, one_block, second}
use ruvname.P2p.Address.{SocketAddr}
use ruvname.P2p.State.{State}
use ruvname.P2p.Message.{Message}
use ruvname.P2p.Peer.{Peer, new_peer}
use ruvname.P2p.Peers.{Peers, AddrText, new_peers_table}
use ruvname.P2p.Peers.Update.{Chances}
use ruvname.P2p.Framing.{ByteOrder, Read}
use ruvname.P2p.Network.{Env, Network}
use ruvname.P2p.Network.Events.{Input}

abbrev pub far : SocketAddr
far = record { ip = v4 (ipv4 8 8 4 4); port = 6890 }

abbrev pub near : SocketAddr
near = record { ip = v4 (ipv4 9 9 9 9); port = 6890 }

abbrev pub texts : AddrText
texts = record { parse_addr = λ text. some near; addr_text = λ a. a.port ∷ [] }

abbrev pub with_state : State → Peer
with_state s = record (new_peer far s false 0) { public = true }

abbrev pub table : State → Peers
table s = record (new_peers_table (5 ∷ [])) { peers = (1, with_state s) ∷ [] }

-- A message is its kind and its fields, and a block is named by its index.
abbrev pub toy_cbor : Message → Bytes
toy_cbor (Message.block index payload) = index ∷ payload
toy_cbor m = 0 ∷ []

abbrev pub read_toy : Bytes → Option Message
read_toy [] = none
read_toy (x ∷ xs) = some (Message.block x xs)

abbrev read_word : Bytes → Option (ℕ × Bytes)
read_word [] = none
read_word (x ∷ []) = none
read_word (x ∷ y ∷ rest) = some (x * 256 + y, rest)

abbrev pub big_endian : ByteOrder
big_endian = record { write_u16 = λ n. (n / 256) ∷ (n % 256) ∷ []; read_u16 = read_word }

-- A commutative agreement on keys.
abbrev agree : Bytes → Bytes → Bytes
agree [] ys = []
agree (x ∷ xs) [] = []
agree (x ∷ xs) (y ∷ ys) = (x + y) ∷ []

abbrev pub env : Env
env = record {
  host = host;
  texts = texts;
  order = big_endian;
  now = 0;
  utc = pos 86400;
  fuel = 10;
  wrong_hashes = [];
  cbor = toy_cbor;
  from_cbor = read_toy;
  as_bytes = λ b. b.index ∷ [];
  from_bytes = λ bytes. some second;
  diffie_hellman = agree;
  encrypt = λ c bytes. some bytes;
  decrypt = λ c bytes. some bytes;
}

-- A node with one block, and a connection 1 in some state.
abbrev pub node : (key : ℕ) → State → Network
node key s = record {
  chain = one_block;
  app_version = 48 ∷ [];
  origin = [];
  public = true;
  secret_key = replicate 32 key;
  public_key = replicate 32 key;
  token = 2;
  peers = table s;
  future_blocks = [];
  seen_blocks = [];
}

abbrev pub input : Input
input = record {
  stream = [];
  reads = Read.available 9 ∷ [];
  writes = [];
  written = true;
  nonce = replicate 12 3;
  packet = replicate 64 7;
  chance = false;
}

abbrev pub chances : Chances
chances = record {
  random_time = 0;
  asks_peers = λ token. true;
  requests_blocks = true;
  choose_multiple = λ tokens amount. tokens;
  choose = 0;
  connects = true;
}
