-- ===== src/Blockchain/Chain/Domains.antt =====
-- Who can take a domain: `is_id_available` of chain.rs.
use ruvname.Prelude.{
  ℕ, ◌≡◌, refl, ◌↔◌, ◌⊎◌, ℤ, pos, ◌+ℤ◌, ◌<ℤ◌, +ℤ_parts, true, Option, none, some, arith,
}
use ruvname.Bytes.{Bytes}
use ruvname.Bytes.Equality.{same_hash→eq, same_hash_iff}
use ruvname.Blockchain.Constants.{domain_lifetime, domain_renew_time}
use ruvname.Blockchain.Table.{DomainRow, select_domain}
use ruvname.Blockchain.Chain.{Chain, state_at, is_id_available, owned_or_free, row_state}

-- Nobody has the identity, or the key signed its last domain transaction, or that one is older than
-- the lifetime and the time for renewal together.
abbrev pub CanTake : Option DomainRow → ℤ → Bytes → Type 0
CanTake none now key = Unit
CanTake (some r) now key =
    (r.signing ≡ key) ⊎ (r.timestamp +ℤ pos domain_lifetime +ℤ pos domain_renew_time <ℤ now)

owned_or_free_iff :
    (row : Option DomainRow) (now : ℤ) (key : Bytes)
    → (owned_or_free key (row_state row now) ≡ true) ↔ CanTake row now key
unfolding state_at
owned_or_free_iff none now key = (λ h. tt, λ h. refl)
owned_or_free_iff (some r) now key = (
  λ h. ground (arith, same_hash→eq r.signing key),
  λ h. ground (
    arith,
    same_hash_iff r.signing key,
    +ℤ_parts r.timestamp (pos domain_lifetime),
    +ℤ_parts (r.timestamp +ℤ pos domain_lifetime) (pos domain_renew_time),
  ),
)

-- A key can take an identity exactly if nobody has it, or the key itself signed the last domain
-- transaction below the height, or that one is older than the lifetime and the time for renewal
-- together.
pub is_id_available_iff :
    (c : Chain) (height : ℕ) (now : ℤ) (identity key : Bytes)
    → (is_id_available c height now identity key ≡ true)
      ↔ CanTake (select_domain c.db identity height) now key
unfolding is_id_available
is_id_available_iff c height now identity key =
    owned_or_free_iff (select_domain c.db identity height) now key
