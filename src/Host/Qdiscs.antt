-- ===== src/Host/Qdiscs.antt =====
-- The kernel's dump of its qdiscs, and the root qdiscs that the parser finds in it.
use topdisc_testbed.Base.{
  ℕ, zero, suc, ◌+◌, ◌*◌, ◌%◌, ◌<◌, ◌≡◌, Bool, true, false, none, some, List, [], ◌∷◌, ◌++◌, arith,
  refl, leb, ◌==◌, length, drop, length-append, if_ind, if◌then◌else◌, ap, get_or, drop-append,
  drop-add, find, ◌∙◌,
}
use mathlib.Core.List.{append_assoc, append-nil}
use topdisc_testbed.Host.ByteOrder.{ByteOrder}
use topdisc_testbed.Host.Netlink.{
  QdiscStats, returns, goes_on, rtattr, empty_stats, queue_stats, stats2, handle, read_qdisc,
  parse_qdisc_dump,
}
use topdisc_testbed.Host.RoundTrip.{
  IsAttributes, by_type, encode_attributes, rtattr-encode_attributes,
}
use topdisc_testbed.Host.Messages.{
  Message, IsMessage, AreMessages, encode_messages, handle_all, unless_returned,
  parse_qdisc_dump-encode_messages,
}

-- A qdisc: its message's flags, its handle, parent and info, the two flag bits of the attributes
-- that hold its statistics and its queue statistics, the attributes before either, and the bytes
-- after the five numbers that the parser reads of these.
pub record Qdisc : Type 0 where
  pub flags : List ℕ
  pub stats : QdiscStats
  pub qdisc_handle : ℕ
  pub parent : ℕ
  pub info : ℕ
  pub stats_flags : ℕ
  pub queue_flags : ℕ
  pub options : List (ℕ × List ℕ)
  pub other_stats : List (ℕ × List ℕ)
  pub more : List ℕ

pub record Fits (s : QdiscStats) : Type 0 where
  pub ifindex : s.ifindex < 4294967296
  pub qlen : s.qlen < 4294967296
  pub backlog : s.backlog < 4294967296
  pub drops : s.drops < 4294967296
  pub requeues : s.requeues < 4294967296
  pub overlims : s.overlims < 4294967296

append-if :
    (b : Bool) (qs : List QdiscStats) (s : QdiscStats) (rs : List QdiscStats)
    → (if b then qs ++ (s ∷ []) else qs) ++ rs ≡ qs ++ (if b then s ∷ rs else rs)
append-if true qs s rs = append_assoc qs (s ∷ []) rs
append-if false qs s rs = refl

find-last :
    (t tagged : ℕ) (attrs : List (ℕ × List ℕ)) (v : List ℕ)
    → tagged % 16384 ≡ t
    → find t (by_type attrs) ≡ none
    → find t (by_type (attrs ++ ((tagged, v) ∷ []))) ≡ some v
unfolding find
find-last t tagged [] v e h = ground arith
find-last t tagged ((k, w) ∷ attrs) v e h = ground (arith, find-last t tagged attrs v e)

module _ (ne : ByteOrder) where
  open ne use {uint32, put_uint32, length-put_uint32, uint32-put_uint32}

  unfoldable pub words : List ℕ → List ℕ
  words [] = []
  words (w ∷ ws) = put_uint32 w ++ words ws

  drop-word : (m w : ℕ) (rest : List ℕ) → drop (4 + m) (put_uint32 w ++ rest) ≡ drop m rest
  drop-word m w rest =
      drop-add 4 m (put_uint32 w ++ rest)
      ∙ ap (drop m) (drop-append 4 (put_uint32 w) rest (length-put_uint32 w))

  uint32-words :
      (k : ℕ) (ws rest : List ℕ)
      → k < length ws
      → uint32 (drop (k * 4) (words ws ++ rest)) ≡ get_or ws k 0 % 4294967296
  unfolding words
  uint32-words k [] rest h = absurd (omega arith)
  uint32-words zero (w ∷ ws) rest h = rw append_assoc (uint32-put_uint32 w (words ws ++ rest))
  uint32-words (suc k) (w ∷ ws) rest h =
      let next : suc k * 4 ≡ 4 + k * 4 = omega arith in
      rw (append_assoc, next, drop-word (k * 4) w (words ws ++ rest))
        (uint32-words k ws rest (omega arith))

  length-words : (ws : List ℕ) → length (words ws) ≡ length ws * 4
  unfolding words
  length-words [] = refl
  length-words (w ∷ ws) =
      omega (arith, length-append (put_uint32 w) (words ws), length-put_uint32 w, length-words ws)

  abbrev pub queue_words : QdiscStats → List ℕ
  queue_words s = s.qlen ∷ s.backlog ∷ s.drops ∷ s.requeues ∷ s.overlims ∷ []

  -- The parts of a qdisc's message.
  unfoldable pub queue : Qdisc → List ℕ
  queue k = words (queue_words k.stats) ++ k.more

  unfoldable pub nested : Qdisc → List (ℕ × List ℕ)
  nested k = k.other_stats ++ ((3 + k.queue_flags * 16384, queue k) ∷ [])

  unfoldable pub attributes : Qdisc → List (ℕ × List ℕ)
  attributes k = k.options ++ ((7 + k.stats_flags * 16384, encode_attributes ne (nested k)) ∷ [])

  unfoldable pub qdisc_content : Qdisc → List ℕ
  qdisc_content k =
      words (0 ∷ k.stats.ifindex ∷ k.qdisc_handle ∷ k.parent ∷ k.info ∷ [])
      ++ encode_attributes ne (attributes k)

  unfoldable pub qdisc_message : Qdisc → Message
  qdisc_message k = record { typ = 36; flags = k.flags; content = qdisc_content k }

  -- What fits the fields of the messages, and is no second attribute of a type that is looked up.
  pub record IsQdisc (k : Qdisc) : Type 0 where
    pub fits : Fits k.stats
    pub parent_fits : k.parent < 4294967296
    pub first_stats : find 7 (by_type k.options) ≡ none
    pub first_queue : find 3 (by_type k.other_stats) ≡ none
    pub outer_fits : IsAttributes (attributes k)
    pub nested_fits : IsAttributes (nested k)
    pub message_fits : IsMessage (qdisc_message k)

  module _ (s : QdiscStats) (more : List ℕ) (f : Fits s) where
    queue_word :
        (i : ℕ)
        → i < 5
        → get_or (queue_words s) i 0 < 4294967296
        → uint32 (drop (i * 4) (words (queue_words s) ++ more)) ≡ get_or (queue_words s) i 0
    queue_word i h l = omega (arith, l, uint32-words i (queue_words s) more h)

    queue_stats-words :
        queue_stats ne (empty_stats ne s.ifindex) (some (words (queue_words s) ++ more)) ≡ s
    unfolding queue_stats empty_stats
    queue_stats-words =
        if_ind (λ q. q ≡ s) (leb 20 (length (words (queue_words s) ++ more)))
          (λ _.
            rw
              (
                queue_word 0 (omega arith) f.qlen,
                queue_word 1 (omega arith) f.backlog,
                queue_word 2 (omega arith) f.drops,
                queue_word 3 (omega arith) f.requeues,
                queue_word 4 (omega arith) f.overlims,
              )
              refl)
          (λ short. absurd (
            ground
              (arith, length-append (words (queue_words s)) more, length-words (queue_words s))))

  read_qdisc-content : (k : Qdisc) → IsQdisc k → read_qdisc ne (qdisc_content k) ≡ k.stats
  unfolding read_qdisc stats2 qdisc_content attributes nested queue
  read_qdisc-content k w =
      let ws = 0 ∷ k.stats.ifindex ∷ k.qdisc_handle ∷ k.parent ∷ k.info ∷ [] in
      let rest = encode_attributes ne (attributes k) in
      let index : uint32 (drop 4 (qdisc_content k)) ≡ k.stats.ifindex =
        omega (arith, w.fits.ifindex, uint32-words 1 ws rest (omega arith)) in
      let outer : rtattr ne (drop 20 (qdisc_content k)) 7 ≡ some (encode_attributes ne (nested k)) =
        rw
          (
            drop-append 20 (words ws) rest (length-words ws),
            rtattr-encode_attributes ne (attributes k) 7 w.outer_fits,
          )
          (find-last 7 (7 + k.stats_flags * 16384) k.options (encode_attributes ne (nested k))
            (omega arith) w.first_stats) in
      let inner : rtattr ne (encode_attributes ne (nested k)) 3 ≡ some (queue k) =
        rw (rtattr-encode_attributes ne (nested k) 3 w.nested_fits) (
          find-last 3 (3 + k.queue_flags * 16384) k.other_stats (queue k) (omega arith)
            w.first_queue) in
      rw (index, outer, inner) (queue_stats-words k.stats k.more w.fits)

  -- The root qdiscs of a list.
  unfoldable pub roots : List Qdisc → List QdiscStats
  roots [] = []
  roots (k ∷ ks) = if k.parent == 4294967295 then k.stats ∷ roots ks else roots ks

  abbrev pub AreQdiscs : List Qdisc → Type 0
  AreQdiscs [] = Unit
  AreQdiscs (k ∷ ks) = IsQdisc k × AreQdiscs ks

  handle-content :
      (k : Qdisc) (qs : List QdiscStats)
      → IsQdisc k
      → handle ne 36 (qdisc_content k) qs
        ≡ goes_on (if k.parent == 4294967295 then qs ++ (k.stats ∷ []) else qs)
  unfolding handle qdisc_content
  handle-content k qs w =
      let ws = 0 ∷ k.stats.ifindex ∷ k.qdisc_handle ∷ k.parent ∷ k.info ∷ [] in
      let rest = encode_attributes ne (attributes k) in
      let up : uint32 (drop 12 (qdisc_content k)) ≡ k.parent =
        omega (arith, w.parent_fits, uint32-words 3 ws rest (omega arith)) in
      rw (up, read_qdisc-content k w)
        (ground (arith, length-append (words ws) rest, length-words ws))

  -- The messages of a dump: one for each qdisc, and the last.
  unfoldable pub dump_messages : List Qdisc → Message → List Message
  dump_messages [] last = last ∷ []
  dump_messages (k ∷ ks) last = qdisc_message k ∷ dump_messages ks last

  dump_messages-AreMessages :
      (ks : List Qdisc) (last : Message)
      → AreQdiscs ks
      → IsMessage last
      → AreMessages (dump_messages ks last)
  unfolding dump_messages
  dump_messages-AreMessages [] last w l = (l, tt)
  dump_messages-AreMessages (k ∷ ks) last w l =
      (w.0.message_fits, dump_messages-AreMessages ks last w.1 l)

  handle-done :
      (c : List ℕ) (qs : List QdiscStats)
      → handle ne 3 c qs ≡ returns (record { qs = qs; is_done = true; err = none })
  unfolding handle
  handle-done c qs = refl

  handle_all-dump :
      (ks : List Qdisc) (last : Message) (qs : List QdiscStats)
      → AreQdiscs ks
      → last.typ ≡ 3
      → handle_all ne (dump_messages ks last) qs
        ≡ record { qs = qs ++ roots ks; is_done = true; err = none }
  unfolding handle_all dump_messages qdisc_message roots unless_returned
  handle_all-dump [] last qs w l =
      ap (λ t. unless_returned (handle ne t last.content qs) (handle_all ne [])) l
      ∙ rw (handle-done last.content qs, append-nil) refl
  handle_all-dump (k ∷ ks) last qs w e =
      ap (λ t. unless_returned t (handle_all ne (dump_messages ks last))) (handle-content k qs w.0)
      ∙ handle_all-dump ks last (if k.parent == 4294967295 then qs ++ (k.stats ∷ []) else qs) w.1 e
      ∙ ap (λ found. record { qs = found; is_done = true; err = none })
          (append-if (k.parent == 4294967295) qs k.stats (roots ks))

  -- From the kernel's dump, whatever the byte order, the order of the qdiscs, the attributes that
  -- stand before the statistics and the flag bits of all (NLA_F_NESTED), the parser reads the
  -- statistics of exactly the root qdiscs, in order, and the end of the dump.
  pub parse_qdisc_dump-dump_messages :
      (ks : List Qdisc) (last : Message)
      → AreQdiscs ks
      → IsMessage last
      → last.typ ≡ 3
      → parse_qdisc_dump ne (encode_messages ne (dump_messages ks last))
        ≡ some (record { qs = roots ks; is_done = true; err = none })
  parse_qdisc_dump-dump_messages ks last w l e =
      parse_qdisc_dump-encode_messages ne (dump_messages ks last)
        (dump_messages-AreMessages ks last w l)
      ∙ ap some (handle_all-dump ks last [] w e)
