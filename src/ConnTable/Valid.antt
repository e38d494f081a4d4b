-- ===== src/ConnTable/Valid.antt =====
-- The representation invariant of the connection table, and each operation's preservation of it.
use topdisc_testbed.Base.{
  ℕ, ◌≡◌, ◌≤◌, ◌<◌, true, false, ◌||◌, Option, some, List, has, length, arith, count_below,
  IsDistinct, length-insert, length-delete, insert-IsDistinct, delete-IsDistinct, ◌≢◌,
}
use topdisc_testbed.ConnTable.{ConnTable, connect, unlink}
use topdisc_testbed.ConnTable.Links.{
  has-connect, has-unlink, has_peers-connect, has_peers-unlink, count-connect, count-unlink,
}

-- The links of a table agree with its counts and keep to its quotas.
pub record IsConsistent (size : ℕ) (idx_of : ℕ → Option ℕ) (out inbound : ℕ → ℕ)
    (peers out_peers : ℕ → List ℕ) (max_out max_in : ℕ) : Type 0 where
  pub out_count : (i : ℕ) → out i ≡ length (out_peers i)
  pub in_count : (j : ℕ) → inbound j ≡ count_below size (λ i. has (out_peers i) j)
  pub out_bound : (i : ℕ) → out i ≤ max_out
  pub in_bound : (j : ℕ) → inbound j ≤ max_in
  pub distinct : (i : ℕ) → IsDistinct (out_peers i)
  pub symmetric : (i j : ℕ) → has (peers i) j ≡ (has (out_peers i) j || has (out_peers j) i)
  pub one_way : (i j : ℕ) → has (out_peers i) j ≡ true → has (out_peers j) i ≡ false
  pub in_range : (i j : ℕ) → has (out_peers i) j ≡ true → (i < size) × (j < size)
  pub index_range : (id j : ℕ) → idx_of id ≡ some j → j < size

abbrev pub IsValid : ConnTable → Type 0
IsValid c = IsConsistent c.size c.idx_of c.out c.inbound c.peers c.out_peers c.max_out c.max_in

module _ (c : ConnTable) (v : IsValid c) (from j : ℕ) where
  -- `dial` makes a connection only past its guards.
  pub connect-IsValid :
      from < c.size
      → j < c.size
      → j ≢ from
      → has (c.peers from) j ≡ false
      → c.out from < c.max_out
      → c.inbound j < c.max_in
      → IsValid (connect c from j)
  unfolding connect
  connect-IsValid hf hj ne new free room = record {
    out_count = λ i. ground (arith, v.out_count i, length-insert j (c.out_peers from) fresh);
    in_count = λ k. ground (arith, v.in_count k, count-connect c from j k hf fresh, connect);
    out_bound = λ i. ground (arith, v.out_bound i);
    in_bound = λ k. ground (arith, v.in_bound k);
    distinct =
        λ i. ground (arith, v.distinct i, insert-IsDistinct j (c.out_peers from) (v.distinct from));
    symmetric = λ i k. ground (
      arith,
      v.symmetric i k,
      has-connect c from j i k,
      has-connect c from j k i,
      has_peers-connect c from j i k,
    );
    one_way = λ i k. ground (
      arith,
      v.one_way i k,
      v.symmetric from j,
      has-connect c from j i k,
      has-connect c from j k i,
    );
    in_range = λ i k. ground (arith, v.in_range i k, has-connect c from j i k);
    index_range = v.index_range;
  }
    where
      fresh : has (c.out_peers from) j ≡ false
      fresh = ground (arith, v.symmetric from j)

  -- `dropConn` takes away a connection that is there.
  pub unlink-IsValid : has (c.out_peers from) j ≡ true → IsValid (unlink c from j)
  unfolding unlink
  unlink-IsValid old = record {
    out_count = λ i.
        ground (arith, v.out_count i, length-delete j (c.out_peers from) (v.distinct from) old);
    in_count = λ k. ground (arith, v.in_count k, count-unlink c from j k from_range old, unlink);
    out_bound = λ i. ground (arith, v.out_bound i);
    in_bound = λ k. ground (arith, v.in_bound k);
    distinct =
        λ i. ground (arith, v.distinct i, delete-IsDistinct j (c.out_peers from) (v.distinct from));
    symmetric = λ i k. ground (
      arith,
      v.symmetric i k,
      v.one_way from j,
      has-unlink c from j i k,
      has-unlink c from j k i,
      has_peers-unlink c from j i k,
    );
    one_way =
        λ i k. ground (arith, v.one_way i k, has-unlink c from j i k, has-unlink c from j k i);
    in_range = λ i k. ground (arith, v.in_range i k, has-unlink c from j i k);
    index_range = v.index_range;
  }
    where
      from_range : from < c.size
      from_range = (v.in_range from j old).0
