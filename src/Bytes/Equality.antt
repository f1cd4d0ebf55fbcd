-- ===== src/Bytes/Equality.antt =====
-- `same_hash` of hash_utils.rs, whose loop never leaves early, against equality.
use ruvname.Prelude.{◌≡◌, refl, ◌↔◌, true, false, [], ◌∷◌, arith, length}
use ruvname.Bytes.{Bytes, same_loop, same_hash}

same_loop-false : (a b : Bytes) → same_loop false a b ≡ false
unfolding same_loop
same_loop-false [] b = refl
same_loop-false (x ∷ a) [] = refl
same_loop-false (x ∷ a) (y ∷ b) = ground (arith, same_loop-false a b)

same_loop_sound : (a b : Bytes) → length a ≡ length b → same_loop true a b ≡ true → a ≡ b
unfolding same_loop
same_loop_sound [] [] e h = refl
same_loop_sound [] (y ∷ b) e h = absurd (ground arith)
same_loop_sound (x ∷ a) [] e h = absurd (ground arith)
same_loop_sound (x ∷ a) (y ∷ b) e h = ground (arith, same_loop_sound a b, same_loop-false a b)

same_loop_self : (a : Bytes) → same_loop true a a ≡ true
unfolding same_loop
same_loop_self [] = refl
same_loop_self (x ∷ a) = ground (arith, same_loop_self a)

pub same_hash→eq : (a b : Bytes) → same_hash a b ≡ true → a ≡ b
unfolding same_hash
same_hash→eq a b h = ground (arith, same_loop_sound a b)

pub same_hash_self : (a : Bytes) → same_hash a a ≡ true
unfolding same_hash
same_hash_self a = ground (arith, same_loop_self a)

-- The test that never leaves its loop early is true exactly on equal byte strings.
pub same_hash_iff : (a b : Bytes) → (same_hash a b ≡ true) ↔ (a ≡ b)
same_hash_iff a b = (same_hash→eq a b, λ e. rw e (same_hash_self b))
