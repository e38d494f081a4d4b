-- ===== src/ConnTable/Links.antt =====
-- What one connection more, or one less, does to the sets of the table and to the counts by node.
use topdisc_testbed.Base.{
  ℕ, ◌+◌, ◌≡◌, ◌<◌, true, false, not, ◌&&◌, ◌||◌, ◌==◌, has, insert, delete, arith, count_below,
  bit, sum_below-change, has-insert, has-delete,
}
use topdisc_testbed.ConnTable.{ConnTable, connect, unlink}

module _ (c : ConnTable) (from j : ℕ) where
  pub has-connect :
      (i k : ℕ)
      → has ((connect c from j).out_peers i) k
        ≡ (has (c.out_peers i) k || ((from == i) && (j == k)))
  unfolding connect
  has-connect i k = ground (arith, has-insert j k (c.out_peers from))

  pub has_peers-connect :
      (i k : ℕ)
      → has ((connect c from j).peers i) k
        ≡ (has (c.peers i) k || ((from == i) && (j == k) || (j == i) && (from == k)))
  unfolding connect
  has_peers-connect i k = ground (
    arith,
    has-insert j k (c.peers from),
    has-insert from k (c.peers j),
    has-insert from k (insert j (c.peers from)),
  )

  pub has-unlink :
      (i k : ℕ)
      → has ((unlink c from j).out_peers i) k
        ≡ (has (c.out_peers i) k && not ((from == i) && (j == k)))
  unfolding unlink
  has-unlink i k = ground (arith, has-delete j k (c.out_peers from))

  pub has_peers-unlink :
      (i k : ℕ)
      → has ((unlink c from j).peers i) k
        ≡ (has (c.peers i) k && not ((from == i) && (j == k) || (j == i) && (from == k)))
  unfolding unlink
  has_peers-unlink i k = ground (
    arith,
    has-delete j k (c.peers from),
    has-delete from k (c.peers j),
    has-delete from k (delete j (c.peers from)),
  )

  -- the nodes that dialed `k`, before and after
  dialers-connect :
      (k : ℕ)
      → from < c.size
      → count_below c.size (λ i. has (c.out_peers i) k)
          + bit (has ((connect c from j).out_peers from) k)
        ≡ count_below c.size (λ i. has ((connect c from j).out_peers i) k)
          + bit (has (c.out_peers from) k)
  dialers-connect k h = sum_below-change c.size from _ _ h λ i ne. ground (arith, has-connect i k)

  dialers-unlink :
      (k : ℕ)
      → from < c.size
      → count_below c.size (λ i. has (c.out_peers i) k)
          + bit (has ((unlink c from j).out_peers from) k)
        ≡ count_below c.size (λ i. has ((unlink c from j).out_peers i) k)
          + bit (has (c.out_peers from) k)
  dialers-unlink k h = sum_below-change c.size from _ _ h λ i ne. ground (arith, has-unlink i k)

  pub count-connect :
      (k : ℕ)
      → from < c.size
      → has (c.out_peers from) j ≡ false
      → count_below c.size (λ i. has ((connect c from j).out_peers i) k)
        ≡ count_below c.size (λ i. has (c.out_peers i) k) + bit (j == k)
  count-connect k h new = ground (arith, dialers-connect k h, has-connect from k)

  pub count-unlink :
      (k : ℕ)
      → from < c.size
      → has (c.out_peers from) j ≡ true
      → count_below c.size (λ i. has ((unlink c from j).out_peers i) k) + bit (j == k)
        ≡ count_below c.size (λ i. has (c.out_peers i) k)
  count-unlink k h old = ground (arith, dialers-unlink k h, has-unlink from k)
