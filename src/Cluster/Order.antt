-- ===== src/Cluster/Order.antt =====
-- The comparison operators of `LHCVersion` and the numbers of `ClusterMessage`, in cluster.h.
use lhcluster.Common.{ℕ, ◌≡◌, refl, true, not, ◌||◌, arith}
use lhcluster.Cluster.{
  Version, version_eq, version_lt, version_ne, version_gt, version_le, version_ge, message_number,
  message_of,
}

-- The six comparisons of two versions agree with one another: `!=` negates `==`, `>` swaps `<`,
-- `<=` is `<` or `==`, `>=` is `>` or `==`, and `<=` is the negation of `>`.
pub version_comparisons :
    (a b : Version)
    → (version_ne a b ≡ not (version_eq a b))
      × (version_gt a b ≡ version_lt b a)
      × (version_le a b ≡ (version_lt a b || version_eq a b))
      × (version_ge a b ≡ (version_gt a b || version_eq a b))
      × (version_le a b ≡ not (version_gt a b))
unfolding version_ne version_eq version_gt version_lt version_le version_ge
version_comparisons a b = (refl, ground arith, ground arith, ground arith, ground arith)

-- `<=` on versions is transitive.
pub version_le_trans :
    (a b c : Version) → version_le a b ≡ true → version_le b c ≡ true → version_le a c ≡ true
unfolding version_le
version_le_trans a b c p q = ground (arith, p, q)

-- Two versions that are `<=` both ways are the same.
pub version_le_antisym : (a b : Version) → version_le a b ≡ true → version_le b a ≡ true → a ≡ b
unfolding version_le
version_le_antisym a b p q = ground (arith, p, q)

-- Casting a number to `ClusterMessage` and back gives the number, so distinct numbers are distinct
-- messages.
pub message_number-message_of : (n : ℕ) → message_number (message_of n) ≡ n
unfolding message_number message_of
message_number-message_of n = ground arith
