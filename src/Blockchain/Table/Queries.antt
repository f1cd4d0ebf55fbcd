-- ===== src/Blockchain/Table/Queries.antt =====
-- The statements against what SQL says of them: the row with the greatest id that passes, and what
-- a DELETE leaves.
use ruvname.Prelude.{
  ℕ, ◌<◌, ◌^◌, ◌≡◌, refl, inl, inr, Bool, true, false, Option, none, some, List, [], ◌∷◌, ◌==◌,
  if◌then◌else◌, arith, is_some, Bool-cases, All, ltb,
}
use ruvname.Prelude.{ℤ}
use ruvname.Blockchain.Block.{Block, Transaction, Host}
use ruvname.Blockchain.Table.{
  BlockRow, DomainRow, Db, row_of_block, row_of_transaction, add_block_to_table, insert_domain,
  id_lt, last_by, later, by_id, insert, delete_from,
}

-- Below 2 ^ 63 the signed comparison is that of the numbers.
pub id_lt_small : (a b : ℕ) → a < 2 ^ 63 → b < 2 ^ 63 → id_lt a b ≡ ltb a b
unfolding id_lt
id_lt_small a b ha hb = ground arith

module _ {ℓ} {Row : Type ℓ} (id : Row → ℕ) where
  -- No row but that of `r` has its id.
  abbrev pub AllSmall : List Row → Type 0
  AllSmall [] = Unit
  AllSmall (r ∷ rows) = (id r < 2 ^ 63) × AllSmall rows

  later-passes :
      (p : Row → Bool) (x : Row) (best : Option Row) (r : Row)
      → ((b : Row) → best ≡ some b → p b ≡ true)
      → p x ≡ true
      → later id x best ≡ r
      → p r ≡ true
  unfolding later
  later-passes p x none r old new h = rw (← h) new
  later-passes p x (some b) r old new h = ground (arith, old b)

  -- The row that `last_by` finds passes the test.
  pub last_by-passes :
      (p : Row → Bool) (rows : List Row) (r : Row) → last_by id p rows ≡ some r → p r ≡ true
  unfolding last_by
  last_by-passes p [] r h = cc
  last_by-passes p (x ∷ rows) r h = elim (Bool-cases (p x)) [
    | inl px ↦
        later-passes p x (last_by id p rows) r (λ b e. last_by-passes p rows b e) px (ground arith)
    | inr px ↦ last_by-passes p rows r (ground arith)
  ]

  -- Where no row passes, there is none to find.
  pub last_by-none :
      (p : Row → Bool) (rows : List Row) → All (λ r. p r ≡ false) rows → last_by id p rows ≡ none
  unfolding last_by
  last_by-none p [] h = refl
  last_by-none p (x ∷ rows) (hx, h) = rw hx (last_by-none p rows h)

  pub by_id-id : (n : ℕ) (rows : List Row) (r : Row) → by_id id n rows ≡ some r → id r ≡ n
  unfolding by_id
  by_id-id n [] r h = cc
  by_id-id n (x ∷ rows) r h = ground (arith, by_id-id n rows r)

  -- A row that was inserted is found under its id, and every other id is as before.
  pub by_id-insert :
      (r : Row) (rows rows' : List Row) (n : ℕ)
      → insert id r rows ≡ some rows'
      → by_id id n rows' ≡ (if id r == n then some r else by_id id n rows)
  unfolding insert by_id
  by_id-insert r rows rows' n h = ground arith

  -- A DELETE from an id on leaves the rows below it as they were, and no other.
  pub by_id-delete_from :
      (k n : ℕ) (rows : List Row)
      → by_id id n (delete_from id k rows) ≡ (if id_lt n k then by_id id n rows else none)
  unfolding by_id delete_from
  by_id-delete_from k n [] = ground arith
  by_id-delete_from k n (x ∷ rows) = ground (arith, by_id-delete_from k n rows)

  pub insert_new :
      (r : Row) (rows : List Row)
      → is_some (by_id id (id r) rows) ≡ false
      → insert id r rows ≡ some (r ∷ rows)
  unfolding insert
  insert_new r rows h = rw h

  pub by_id-cons :
      (r : Row) (rows : List Row) (n : ℕ)
      → by_id id n (r ∷ rows) ≡ (if id r == n then some r else by_id id n rows)
  unfolding by_id
  by_id-cons r rows n = refl

pub add_block_to_table_new :
    (host : Host) (db : Db) (b : Block)
    → is_some (by_id (λ (r : BlockRow). r.id) b.index db.blocks) ≡ false
    → add_block_to_table host db b ≡ some (record db { blocks = row_of_block host b ∷ db.blocks })
unfolding add_block_to_table row_of_block
add_block_to_table_new host db b h =
    ground (arith, insert_new (λ (r : BlockRow). r.id) (row_of_block host b) db.blocks h)

pub insert_domain_new :
    (db : Db) (index : ℕ) (timestamp : ℤ) (t : Transaction)
    → is_some (by_id (λ (r : DomainRow). r.id) index db.domains) ≡ false
    → insert_domain db index timestamp t
      ≡ some (record db { domains = row_of_transaction index timestamp t ∷ db.domains })
unfolding insert_domain
insert_domain_new db index timestamp t h = ground (
  arith,
  insert_new (λ (r : DomainRow). r.id) (row_of_transaction index timestamp t) db.domains h,
)
