-- ===== src/Host/Tests.antt =====
-- Runs and examples of the netlink parser.
use topdisc_testbed.Base.{
  ℕ, ◌≡◌, ◌≤◌, ◌<◌, ◌*◌, find, List, [], ◌∷◌, some, none, true, arith, refl, length, replicate,
}
use topdisc_testbed.Host.ByteOrder.{little_endian}
use topdisc_testbed.Host.Netlink.{QdiscStats, Dump, parse_qdisc_dump}
use topdisc_testbed.Host.Termination.{parse_qdisc_dump_terminates}
use topdisc_testbed.Host.RoundTrip.{encode_attributes}
use topdisc_testbed.Host.Messages.{Message, encode_messages}
use topdisc_testbed.Host.Qdiscs.{
  Qdisc, IsQdisc, words, queue, nested, attributes, qdisc_content, qdisc_message, roots,
  dump_messages, parse_qdisc_dump-dump_messages,
}

abbrev bytes : List ℕ
bytes = 20 ∷ 0 ∷ 0 ∷ 0 ∷ 3 ∷ 0 ∷ replicate 14 0

parse_qdisc_dump_terminates_example :
    (d : Dump) × (parse_qdisc_dump little_endian bytes ≡ some d) × (36 * length d.qs ≤ length bytes)
parse_qdisc_dump_terminates_example = parse_qdisc_dump_terminates little_endian bytes

abbrev netem : ℕ → Qdisc
netem parent = record {
  flags = replicate 10 0;
  stats = record {
    ifindex = 5;
    qlen = 2;
    backlog = 3000;
    drops = 17;
    requeues = 0;
    overlims = 70000;
  };
  qdisc_handle = 65536;
  parent = parent;
  info = 2;
  stats_flags = 2;
  queue_flags = 0;
  options = (1, 110 ∷ 101 ∷ 116 ∷ []) ∷ [];
  other_stats = (1, replicate 16 0) ∷ [];
  more = [];
}

netem-IsQdisc : (parent : ℕ) → parent < 4294967296 → IsQdisc little_endian (netem parent)
unfolding topdisc_testbed.Host.Netlink.align4 find little_endian words queue nested attributes
    qdisc_content qdisc_message encode_attributes
netem-IsQdisc parent h = record {
  fits = record {
    ifindex = omega arith;
    qlen = omega arith;
    backlog = omega arith;
    drops = omega arith;
    requeues = omega arith;
    overlims = omega arith;
  };
  parent_fits = h;
  first_stats = refl;
  first_queue = refl;
  outer_fits = (omega arith, omega arith, (omega arith, omega arith, tt));
  nested_fits = (omega arith, omega arith, (omega arith, omega arith, tt));
  message_fits = record { typ_fits = omega arith; flags_length = refl; length_fits = omega arith };
}

abbrev last : Message
last = record { typ = 3; flags = replicate 10 0; content = replicate 4 0 }

parse_qdisc_dump-dump_messages_example :
    parse_qdisc_dump little_endian (
      encode_messages little_endian
        (dump_messages little_endian (netem 4294967295 ∷ netem 1 ∷ []) last))
    ≡ some (record { qs = (netem 1).stats ∷ []; is_done = true; err = none })
unfolding roots
parse_qdisc_dump-dump_messages_example =
    parse_qdisc_dump-dump_messages little_endian (netem 4294967295 ∷ netem 1 ∷ []) last
      (netem-IsQdisc 4294967295 (omega arith), (netem-IsQdisc 1 (omega arith), tt))
      (record { typ_fits = omega arith; flags_length = refl; length_fits = omega arith }) refl
