-- ===== src/ConnTable/Balance.antt =====
-- The handshake law: every connection fills one outbound and one inbound slot.
use topdisc_testbed.Base.{
  ◌≡◌, has, sum_below, count_below, sum_below-ext, bit, ◌∙◌, sym, length-eq-count, sum_below-swap,
}
use topdisc_testbed.ConnTable.{ConnTable, live}
use topdisc_testbed.ConnTable.Valid.{IsValid}

-- In a valid table as many outbound as inbound slots are in use, over all nodes.
pub out-eq-inbound : (c : ConnTable) → IsValid c → live c ≡ sum_below c.size c.inbound
unfolding live
out-eq-inbound c v =
    sum_below-ext c.size c.out (λ i. count_below c.size (λ j. has (c.out_peers i) j))
      (λ i h.
        v.out_count i
        ∙ length-eq-count c.size (c.out_peers i) (v.distinct i) (λ j p. (v.in_range i j p).1))
    ∙ sum_below-swap c.size c.size (λ i j. bit (has (c.out_peers i) j))
    ∙ sum_below-ext c.size _ c.inbound (λ j h. sym (v.in_count j))
