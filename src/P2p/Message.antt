-- ===== src/P2p/Message.antt =====
-- src/p2p/message.rs: the messages between nodes. A text is its bytes.
use ruvname.Prelude.{ℕ, Bool, List}
use ruvname.Bytes.{Bytes}

-- The field `block` of `Block` is `payload`.
pub data Message : Type 0 where
  error : Message
  hand : (app_version origin : Bytes) (version : ℕ) (public : Bool) (rand_id : Bytes) → Message
  shake :
      (app_version origin : Bytes) (version : ℕ) (public : Bool) (rand_id : Bytes) (height : ℕ)
      → Message
  ping : (height : ℕ) (hash : Bytes) → Message
  pong : (height : ℕ) (hash : Bytes) → Message
  twin : Message
  loop : Message
  get_peers : Message
  peers : (addrs : List Bytes) → Message
  get_block : (index : ℕ) → Message
  block : (index : ℕ) (payload : Bytes) → Message
