-- ===== src/Blockchain/Constants.antt =====
-- src/commons/constants.rs: the constants that the blockchain uses.
use ruvname.Prelude.{ℕ, ◌*◌}
use ruvname.Bytes.{Bytes, codes}

abbrev pub chain_version : ℕ
chain_version = 1

abbrev pub origin_difficulty : ℕ
origin_difficulty = 28

abbrev pub domain_difficulty : ℕ
domain_difficulty = 24

abbrev pub signer_difficulty : ℕ
signer_difficulty = 16

abbrev pub keystore_difficulty : ℕ
keystore_difficulty = 23

abbrev pub blocks_without_discount : ℕ
blocks_without_discount = 4999

abbrev pub block_signers_start : ℕ
block_signers_start = 35

abbrev pub block_signers_all : ℕ
block_signers_all = 7

abbrev pub block_signers_min : ℕ
block_signers_min = 4

abbrev pub limited_confidence_depth : ℕ
limited_confidence_depth = 4

abbrev pub new_domains_interval : ℕ
new_domains_interval = 86400

abbrev pub one_week : ℕ
one_week = 86400 * 7

abbrev pub domain_lifetime : ℕ
domain_lifetime = 86400 * 365

abbrev pub domain_renew_time : ℕ
domain_renew_time = 86400 * 30

abbrev pub max_records : ℕ
max_records = 30

abbrev pub max_data_len : ℕ
max_data_len = 255

abbrev pub u32_max : ℕ
u32_max = 4294967295

abbrev pub class_origin : Bytes
class_origin = codes "origin"

abbrev pub class_domain : Bytes
class_domain = codes "domain"

abbrev pub listen_port : ℕ
listen_port = 6890

abbrev pub min_connected_nodes_start_sync : ℕ
min_connected_nodes_start_sync = 4

abbrev pub max_reconnects : ℕ
max_reconnects = 5

abbrev pub max_nodes : ℕ
max_nodes = 15
