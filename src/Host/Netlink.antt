-- ===== src/Host/Netlink.antt =====
-- netns.go: parseQdiscDump, rtattr and align4. A loop that runs out of fuel has no result.
use topdisc_testbed.Base.{
  ℕ, zero, suc, ◌+◌, ◌-◌, ◌*◌, ◌/◌, ◌%◌, Bool, true, false, not, ◌&&◌, ◌||◌, Option, none, some,
  List, [], ◌∷◌, ◌++◌, if◌then◌else◌, ltb, leb, ◌==◌, length, drop, take, or_else,
}
use topdisc_testbed.Host.ByteOrder.{ByteOrder}

abbrev pub nlmsg_hdr_len : ℕ
nlmsg_hdr_len = 16

abbrev pub tcmsg_len : ℕ
tcmsg_len = 20

abbrev pub nlmsg_done : ℕ
nlmsg_done = 3

abbrev pub nlmsg_error : ℕ
nlmsg_error = 2

abbrev pub rtm_new_qdisc : ℕ
rtm_new_qdisc = 36

abbrev pub tca_stats2 : ℕ
tca_stats2 = 7

abbrev pub tca_stats_queue : ℕ
tca_stats_queue = 3

abbrev pub tc_h_root : ℕ
tc_h_root = 4294967295

pub record QdiscStats : Type 0 where
  pub ifindex : ℕ  -- int32
  pub qlen : ℕ
  pub backlog : ℕ
  pub drops : ℕ
  pub requeues : ℕ
  pub overlims : ℕ

-- The two errors that a dump ends with.
pub data NetlinkError : Type 0 where
  bad_message_length : ℕ → NetlinkError
  errno : ℕ → NetlinkError  -- int32

pub record Dump : Type 0 where
  pub qs : List QdiscStats
  pub is_done : Bool
  pub err : Option NetlinkError

-- `(n + 3) &^ 3`
unfoldable pub align4 : ℕ → ℕ
align4 n = (n + 3) / 4 * 4

-- `b[i:j]`
abbrev pub slice {ℓ} : {A : Type ℓ} → List A → ℕ → ℕ → List A
slice b i j = take (j - i) (drop i b)

-- What the handling of a message does: the dump returns, or its loop goes on.
pub data Turn : Type 0 where
  returns : Dump → Turn
  goes_on : List QdiscStats → Turn

-- To the next message, unless this was the last.
unfoldable pub then_next : Turn → Bool → (List QdiscStats → Option Dump) → Option Dump
then_next (returns d) last next = some d
then_next (goes_on qs) true next = some (record { qs = qs; is_done = false; err = none })
then_next (goes_on qs) false next = next qs

module _ (ne : ByteOrder) where
  open ne use {uint16, uint32}

  -- The loop of `rtattr`; the inner option is nil or the payload.
  unfoldable pub rtattr_from : ℕ → List ℕ → ℕ → Option (Option (List ℕ))
  rtattr_from zero b typ = none
  rtattr_from (suc fuel) b typ =
      let l = uint16 b in
      let t = uint16 (drop 2 b) % 16384 in
      let rest = rtattr_from fuel (drop (align4 l) b) typ in
      if ltb (length b) 4
      then some none
      else if ltb l 4 || ltb (length b) l
      then some none
      else if t == typ
      then some (some (slice b 4 l))
      else if leb (length b) (align4 l)
      then some none
      else rest

  -- Each round leaves at least four bytes fewer, so one round more than there are bytes is enough.
  unfoldable pub rtattr : List ℕ → ℕ → Option (List ℕ)
  rtattr b typ = or_else (rtattr_from (length b + 1) b typ) none

  unfoldable pub empty_stats : ℕ → QdiscStats
  empty_stats i = record {
    ifindex = i;
    qlen = 0;
    backlog = 0;
    drops = 0;
    requeues = 0;
    overlims = 0;
  }

  -- `if v := rtattr(st, tcaStatsQueue); len(v) >= 20 { ... }`; nil has length 0.
  unfoldable pub queue_stats : QdiscStats → Option (List ℕ) → QdiscStats
  queue_stats q none = q
  queue_stats q (some v) =
      if leb 20 (length v)
      then record q {
        qlen = uint32 v;
        backlog = uint32 (drop 4 v);
        drops = uint32 (drop 8 v);
        requeues = uint32 (drop 12 v);
        overlims = uint32 (drop 16 v);
      }
      else q

  -- `if st := rtattr(msg[tcmsgLen:], tcaStats2); st != nil { ... }`
  unfoldable pub stats2 : QdiscStats → Option (List ℕ) → QdiscStats
  stats2 q none = q
  stats2 q (some st) = queue_stats q (rtattr st tca_stats_queue)

  -- The qdisc of a message of type rtmNewQdisc.
  unfoldable pub read_qdisc : List ℕ → QdiscStats
  read_qdisc msg =
      stats2 (empty_stats (uint32 (drop 4 msg))) (rtattr (drop tcmsg_len msg) tca_stats2)

  -- `-e` of an int32
  unfoldable pub negate : ℕ → ℕ
  negate e = (4294967296 - e) % 4294967296

  -- The switch on a message's type.
  unfoldable pub handle : ℕ → List ℕ → List QdiscStats → Turn
  handle typ msg qs =
      if typ == nlmsg_done
      then returns (record { qs = qs; is_done = true; err = none })
      else if typ == nlmsg_error
      then (if leb 4 (length msg) && not (uint32 msg == 0)
          then returns
              (record { qs = qs; is_done = true; err = some (errno (negate (uint32 msg))) })
          else goes_on qs)
      else if typ == rtm_new_qdisc
      then (if leb tcmsg_len (length msg) && (uint32 (drop 12 msg) == tc_h_root)
          then goes_on (qs ++ (read_qdisc msg ∷ []))
          else goes_on qs)
      else goes_on qs

  -- The loop of `parseQdiscDump`, from the qdiscs found so far.
  unfoldable pub parse_from : ℕ → List ℕ → List QdiscStats → Option Dump
  parse_from zero b qs = none
  parse_from (suc fuel) b qs =
      let l = uint32 b in
      if ltb (length b) nlmsg_hdr_len
      then some (record { qs = qs; is_done = false; err = none })
      else if ltb l nlmsg_hdr_len || ltb (length b) l
      then some (record { qs = qs; is_done = false; err = some (bad_message_length l) })
      else then_next (handle (uint16 (drop 4 b)) (slice b nlmsg_hdr_len l) qs)
          (leb (length b) (align4 l)) (parse_from fuel (drop (align4 l) b))

  unfoldable pub parse_qdisc_dump : List ℕ → Option Dump
  parse_qdisc_dump b = parse_from (length b + 1) b []
