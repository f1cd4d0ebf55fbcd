-- ===== src/Lib.antt =====
-- ruvname: a decentralised name system. A small blockchain keeps the owners and the records of
-- domains; a peer-to-peer network spreads its blocks; a DNS server answers from it.
--
-- Parts. `Prelude` has the shared names, lists, signed integers and machine words. `Bytes` is
-- src/bytes.rs with the hash tests of src/blockchain/hash_utils.rs. `Blockchain` is src/blockchain:
-- `Block` the blocks and transactions (block.rs, transaction.rs, types.rs), `Table` the SQL statements
-- of chain.rs over the tables of data/create_db.sql, `Chain` the state and the questions of chain.rs,
-- `Chain.Signers` the choice of signers, `Chain.Check` the check of an arriving block, and
-- `Chain.Update` the operations that change the chain; `Filter` is filter.rs, the answers to DNS queries
-- from the chain. `Dns` is src/dns: `Address` and `Record` the
-- records of protocol.rs, `Buffer` and `Name` the buffers and names of buffer.rs, `Packet` and `Wire`
-- the headers, questions and records of protocol.rs on a buffer, `Cache` cache.rs, and `Server` the
-- answering of a request in server.rs. `P2p` is src/p2p: `State`, `Peer` and `Message` the connections and their messages, `Peers` the table of
-- peers.rs with `Peers.Update` the timer's work on it, `Framing` the bytes on a stream, and `Network`
-- network.rs: `Network.Blocks` handle_block, `Network.Messages` handle_message, and `Network.Events`
-- the handlers of a socket that can be read or written. A block that arrives goes from
-- `Network.Events` through `Network.Messages` and `Network.Blocks` to `Chain.Check` and `Chain.Update`.
--
-- How state and operations correspond. A struct is a record with its fields, an enum a data type, a
-- method a function that returns the new state. Fields that antt reserves or that clash are renamed
-- (`data` is `payload` or `value`). The database is two lists of rows, and a SQL statement is a
-- function named for what it selects; an error of the database other than a duplicate key is not
-- modelled. A panic, a failed `unwrap` and an index out of range are `none` or `panic`; an early
-- return of `check_block` is `quit`. Log output and events are dropped.
--
-- Numbers. u64 and u32 wrap as in a release build (`add64`, `sub64`, `sub32`); i64 times are integers
-- that are taken not to overflow. A text is the list of its bytes.
--
-- Code outside the repository is a parameter: the record `Blockchain.Block.Host` has the hashes, the
-- signature check, bincode and serde_json. The lower case of a label, which needs the tables of
-- Unicode, is a parameter of `read_qname`.
--
-- Fuel. The loops of `get_block_signers` and of `read_qname` have no bound in the source, and do not
-- always end: on `fuel` rounds they give `endless` if they have not ended. For a name that is laid
-- out in the buffer the rounds that it needs are counted by `Dns.Name.Layout.NameAt`.
--
-- A packet buffer is the record `PacketBuffer` of its methods, which three states fill; its errors,
-- a panic and a loop without end are `Outcome`. The cache keeps its maps as lists of pairs, each
-- reading of the clock is an argument, and so is the order in which a loop goes through a hash set
-- (`Iteration`). `Dns.Server.resolve_cnames` counts its levels down from 11, the
-- depth at which the code returns.
--
-- Network. Each handler is a function from the network to the new one and what it returns; an
-- `Instant` is a number of nanoseconds, and one reading of the clock serves a whole call. Hash maps are
-- lists of pairs. Random choices are arguments (`Chances`, `Input`), and so are the bytes that have
-- arrived and the way in which the socket hands them over (`Read`, `Write`). The crates for CBOR, X25519
-- and ChaCha20-Poly1305 are in the record `P2p.Network.Env`. The loop over future blocks has the number
-- of these blocks plus one as its fuel.
--
-- Not modelled: the web interface, the miner, the key store's files, the poll registry, the timers of
-- the network's main loop, the bootstrap of connections, and the sockets and threads of the DNS
-- servers, which are input and output; the table of options, the list of the domains of a key and the
-- counts of domains and users; the resolver, an interface in `Dns.Server`, the local zones and the hosts
-- filter.
pub mod Prelude
pub mod Bytes
pub mod Dns
pub mod Blockchain
pub mod P2p
