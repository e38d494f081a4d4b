-- ===== src/Host/Messages.antt =====
-- A buffer of netlink messages as the kernel writes it, and what the parser makes of it.
use topdisc_testbed.Base.{
  ℕ, zero, suc, ◌+◌, ◌≤◌, ◌<◌, ◌≡◌, false, Option, none, some, List, [], ◌∷◌, ◌++◌, arith, refl,
  ◌==◌, length, drop, length-append, ap, Bool-cases, inl, inr, drop-append, sym,
}
use mathlib.Core.List.{append_assoc}
use topdisc_testbed.Host.ByteOrder.{ByteOrder}
use topdisc_testbed.Host.Netlink.{
  QdiscStats, Dump, Turn, returns, goes_on, align4, slice, then_next, handle, parse_from,
  parse_qdisc_dump,
}
use topdisc_testbed.Host.RoundTrip.{
  frame, padding, slice-frame, drop-frame, length-frame, le-align4,
}

-- A message: its type, the ten bytes of flags, sequence number and port, and its content.
pub record Message : Type 0 where
  pub typ : ℕ
  pub flags : List ℕ
  pub content : List ℕ

pub record IsMessage (m : Message) : Type 0 where
  pub typ_fits : m.typ < 65536
  pub flags_length : length m.flags ≡ 10
  pub length_fits : 16 + length m.content < 4294967296

abbrev pub AreMessages : List Message → Type 0
AreMessages [] = Unit
AreMessages (m ∷ ms) = IsMessage m × AreMessages ms

unfoldable pub unless_returned : Turn → (List QdiscStats → Dump) → Dump
unless_returned (returns d) next = d
unless_returned (goes_on qs) next = next qs

module _ (ne : ByteOrder) where
  open ne use {
    uint16, uint32, put_uint16, put_uint32, length-put_uint16, length-put_uint32, uint16-put_uint16,
    uint32-put_uint32,
  }

  abbrev pub message_header : Message → List ℕ
  message_header m = put_uint32 (16 + length m.content) ++ (put_uint16 m.typ ++ m.flags)

  unfoldable pub encode_messages : List Message → List ℕ
  encode_messages [] = []
  encode_messages (m ∷ ms) = frame (message_header m) 16 m.content (encode_messages ms)

  -- The messages handled one after the other, until one returns or none is left.
  unfoldable pub handle_all : List Message → List QdiscStats → Dump
  handle_all [] qs = record { qs = qs; is_done = false; err = none }
  handle_all (m ∷ ms) qs = unless_returned (handle ne m.typ m.content qs) (handle_all ms)

  -- One round of the loop, on bytes that begin with a message.
  parse_from-head :
      (fuel : ℕ) (l : ℕ) (m : Message) (b rest : List ℕ) (qs : List QdiscStats)
      → uint32 b ≡ l
      → uint16 (drop 4 b) ≡ m.typ
      → slice b 16 l ≡ m.content
      → drop (align4 l) b ≡ rest
      → 16 ≤ l
      → length b ≡ align4 l + length rest
      → parse_from ne (suc fuel) b qs
        ≡ then_next (handle ne m.typ m.content qs) (length rest == 0) (parse_from ne fuel rest)
  unfolding parse_from align4
  parse_from-head fuel l m b rest qs el et ev er h len = rw (el, et, ev, er) (ground arith)

  header-uint32 :
      (m : Message) (rest : List ℕ)
      → IsMessage m
      → uint32 (message_header m ++ rest) ≡ 16 + length m.content
  header-uint32 m rest w = rw append_assoc (
      omega (
        arith,
        w.length_fits,
        uint32-put_uint32 (16 + length m.content) ((put_uint16 m.typ ++ m.flags) ++ rest),
      ))

  header-typ :
      (m : Message) (rest : List ℕ)
      → IsMessage m
      → uint16 (drop 4 (message_header m ++ rest)) ≡ m.typ
  header-typ m rest w =
      rw
        (
          append_assoc,
          drop-append 4 (put_uint32 (16 + length m.content)) ((put_uint16 m.typ ++ m.flags) ++ rest)
              (length-put_uint32 (16 + length m.content)),
          append_assoc,
        )
        (omega (arith, w.typ_fits, uint16-put_uint16 m.typ (m.flags ++ rest)))

  length-header : (m : Message) → IsMessage m → length (message_header m) ≡ 16
  length-header m w = omega (
    arith,
    w.flags_length,
    length-append (put_uint32 (16 + length m.content)) (put_uint16 m.typ ++ m.flags),
    length-append (put_uint16 m.typ) m.flags,
    length-put_uint32 (16 + length m.content),
    length-put_uint16 m.typ,
  )

  length-encode_messages :
      (m : Message) (ms : List Message)
      → IsMessage m
      → 16 + length (encode_messages ms) ≤ length (encode_messages (m ∷ ms))
  unfolding encode_messages
  length-encode_messages m ms w = omega (
    arith,
    le-align4 (16 + length m.content),
    length-frame (message_header m) 16 m.content (encode_messages ms) (length-header m w),
  )

  encode_messages-empty :
      (ms : List Message) (qs : List QdiscStats)
      → AreMessages ms
      → length (encode_messages ms) ≡ 0
      → handle_all ms qs ≡ record { qs = qs; is_done = false; err = none }
  unfolding handle_all
  encode_messages-empty [] qs w e = refl
  encode_messages-empty (m ∷ ms) qs w e = absurd (omega (arith, e, length-encode_messages m ms w.0))

  then_next-handle_all :
      (t : Turn) (ms : List Message) (next : List QdiscStats → Option Dump)
      → AreMessages ms
      → ((qs : List QdiscStats) → next qs ≡ some (handle_all ms qs))
      → then_next t (length (encode_messages ms) == 0) next
        ≡ some (unless_returned t (handle_all ms))
  unfolding then_next unless_returned
  then_next-handle_all (returns d) ms next w h = refl
  then_next-handle_all (goes_on found) ms next w h =
      elim (Bool-cases (length (encode_messages ms) == 0)) [
        | inl e ↦ rw e (ap some (sym (encode_messages-empty ms found w (ground arith))))
        | inr e ↦ rw e (h found)
      ]

  parse_from-encode :
      (fuel : ℕ) (ms : List Message) (qs : List QdiscStats)
      → AreMessages ms
      → length (encode_messages ms) < fuel
      → parse_from ne fuel (encode_messages ms) qs ≡ some (handle_all ms qs)
  unfolding encode_messages handle_all parse_from
  parse_from-encode zero ms qs w f = absurd (omega arith)
  parse_from-encode (suc fuel) [] qs w f = refl
  parse_from-encode (suc fuel) (m ∷ ms) qs w f =
      let n = 16 + length m.content in
      let h = message_header m in
      let v = m.content in
      let rest = encode_messages ms in
      let e = length-header m w.0 in
      rw
        (parse_from-head fuel n m (frame h 16 v rest) rest qs
          (header-uint32 m (v ++ (padding n ++ rest)) w.0)
          (header-typ m (v ++ (padding n ++ rest)) w.0) (slice-frame h 16 v rest e)
          (drop-frame h 16 v rest e) (omega arith) (length-frame h 16 v rest e))
        (then_next-handle_all (handle ne m.typ v qs) ms (parse_from ne fuel rest) w.1 (λ found.
          parse_from-encode fuel ms found w.1 (omega (arith, f, length-encode_messages m ms w.0))))

  -- The parser handles the messages of a buffer one after the other, whatever their types and
  -- contents, and stops at the first that ends the dump.
  pub parse_qdisc_dump-encode_messages :
      (ms : List Message)
      → AreMessages ms
      → parse_qdisc_dump ne (encode_messages ms) ≡ some (handle_all ms [])
  unfolding parse_qdisc_dump
  parse_qdisc_dump-encode_messages ms w =
      parse_from-encode (length (encode_messages ms) + 1) ms [] w (omega arith)
