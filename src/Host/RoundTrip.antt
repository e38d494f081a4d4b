-- ===== src/Host/RoundTrip.antt =====
-- What the kernel writes and the parser reads: attributes and messages, padded to four bytes.
use topdisc_testbed.Base.{
  ℕ, zero, suc, ◌+◌, ◌-◌, ◌%◌, ◌≤◌, ◌<◌, ◌≡◌, none, some, List, [], ◌∷◌, ◌++◌, arith, refl, ◌==◌,
  length, drop, length-append, if◌then◌else◌, or_else, ap, replicate, length-replicate, take-append,
  drop-append, find,
}
use mathlib.Core.List.{append_assoc}
use topdisc_testbed.Host.ByteOrder.{ByteOrder}
use topdisc_testbed.Host.Netlink.{align4, slice, rtattr_from, rtattr}

-- Bytes that fill up to a multiple of four.
abbrev pub padding : ℕ → List ℕ
padding n = replicate (align4 n - n) 0

-- Each attribute, with the 16 bits of its type and flags, fits its header.
abbrev pub IsAttributes : List (ℕ × List ℕ) → Type 0
IsAttributes [] = Unit
IsAttributes ((t, v) ∷ attrs) = (t < 65536) × (length v + 4 < 65536) × IsAttributes attrs

-- The attributes by their types, without the two flag bits NLA_F_NESTED and NLA_F_NET_BYTEORDER.
abbrev pub by_type : List (ℕ × List ℕ) → List (ℕ × List ℕ)
by_type [] = []
by_type ((t, v) ∷ attrs) = (t % 16384, v) ∷ by_type attrs

-- A header of n bytes, its content, the padding and what follows.
abbrev pub frame : List ℕ → ℕ → List ℕ → List ℕ → List ℕ
frame h n v rest = h ++ (v ++ (padding (n + length v) ++ rest))

pub le-align4 : (n : ℕ) → n ≤ align4 n
unfolding align4
le-align4 n = omega arith

length-padded : (n : ℕ) → n + length (padding n) ≡ align4 n
length-padded n = omega (arith, le-align4 n, length-replicate {A = ℕ} (align4 n - n) 0)

module _ (h : List ℕ) (n : ℕ) (v rest : List ℕ) (e : length h ≡ n) where
  pub slice-frame : slice (frame h n v rest) n (n + length v) ≡ v
  slice-frame =
      rw (drop-append n h (v ++ (padding (n + length v) ++ rest)) e)
        (take-append (n + length v - n) v (padding (n + length v) ++ rest) (omega arith))

  pub drop-frame : drop (align4 (n + length v)) (frame h n v rest) ≡ rest
  drop-frame =
      rw (← append_assoc, ← append_assoc)
        (drop-append (align4 (n + length v)) ((h ++ v) ++ padding (n + length v)) rest (
          omega (
            arith,
            e,
            length-append (h ++ v) (padding (n + length v)),
            length-append h v,
            length-padded (n + length v),
          )))

  pub length-frame : length (frame h n v rest) ≡ align4 (n + length v) + length rest
  length-frame = omega (
    arith,
    e,
    length-append h (v ++ (padding (n + length v) ++ rest)),
    length-append v (padding (n + length v) ++ rest),
    length-append (padding (n + length v)) rest,
    length-padded (n + length v),
  )

module _ (ne : ByteOrder) where
  open ne use {uint16, uint32, put_uint16, put_uint32, length-put_uint16, uint16-put_uint16}

  -- The header of an attribute of n bytes.
  abbrev pub attribute_header : ℕ → ℕ → List ℕ
  attribute_header n t = put_uint16 n ++ put_uint16 t

  unfoldable pub encode_attributes : List (ℕ × List ℕ) → List ℕ
  encode_attributes [] = []
  encode_attributes ((t, v) ∷ attrs) =
      frame (attribute_header (4 + length v) t) 4 v (encode_attributes attrs)

  -- One round of the loop, on bytes that begin with an attribute.
  rtattr_from-head :
      (fuel : ℕ) (l t : ℕ) (v b rest : List ℕ) (typ : ℕ)
      → uint16 b ≡ l
      → uint16 (drop 2 b) % 16384 ≡ t
      → slice b 4 l ≡ v
      → drop (align4 l) b ≡ rest
      → 4 ≤ l
      → length b ≡ align4 l + length rest
      → rtattr_from ne (suc fuel) b typ ≡ (
          if t == typ
          then some (some v)
          else if length rest == 0
          then some none
          else rtattr_from ne fuel rest typ)
  unfolding rtattr_from align4
  rtattr_from-head fuel l t v b rest typ el et ev er h len = rw (el, et, ev, er) (ground arith)

  header-uint16 : (n t : ℕ) (rest : List ℕ) → n < 65536 → uint16 (attribute_header n t ++ rest) ≡ n
  header-uint16 n t rest h =
      rw append_assoc (omega (arith, uint16-put_uint16 n (put_uint16 t ++ rest)))

  header-typ :
      (n t : ℕ) (rest : List ℕ)
      → t < 65536
      → uint16 (drop 2 (attribute_header n t ++ rest)) % 16384 ≡ t % 16384
  header-typ n t rest h =
      rw (append_assoc, drop-append 2 (put_uint16 n) (put_uint16 t ++ rest) (length-put_uint16 n))
        (omega (arith, uint16-put_uint16 t rest))

  length-header : (n t : ℕ) → length (attribute_header n t) ≡ 4
  length-header n t =
      omega (
        arith,
        length-append (put_uint16 n) (put_uint16 t),
        length-put_uint16 n,
        length-put_uint16 t,
      )

  find-empty :
      (attrs : List (ℕ × List ℕ)) (typ : ℕ)
      → length (encode_attributes attrs) ≡ 0
      → find typ (by_type attrs) ≡ none
  unfolding encode_attributes find
  find-empty [] typ e = refl
  find-empty ((t, v) ∷ attrs) typ e = absurd (
      omega (
        arith,
        e,
        le-align4 (4 + length v),
        length-frame (attribute_header (4 + length v) t) 4 v (encode_attributes attrs)
            (length-header (4 + length v) t),
      ))

  rtattr_from-encode :
      (fuel : ℕ) (attrs : List (ℕ × List ℕ)) (typ : ℕ)
      → IsAttributes attrs
      → length (encode_attributes attrs) < fuel
      → rtattr_from ne fuel (encode_attributes attrs) typ ≡ some (find typ (by_type attrs))
  unfolding encode_attributes find rtattr_from
  rtattr_from-encode zero attrs typ w f = absurd (omega arith)
  rtattr_from-encode (suc fuel) [] typ w f = refl
  rtattr_from-encode (suc fuel) ((t, v) ∷ attrs) typ w f =
      let n = 4 + length v in
      let h = attribute_header n t in
      let rest = encode_attributes attrs in
      let e = length-header n t in
      rw
        (rtattr_from-head fuel n (t % 16384) v (frame h 4 v rest) rest typ
          (header-uint16 n t (v ++ (padding n ++ rest)) (omega (arith, w.1)))
          (header-typ n t (v ++ (padding n ++ rest)) w.0) (slice-frame h 4 v rest e)
          (drop-frame h 4 v rest e) (omega arith) (length-frame h 4 v rest e))
        (ground (
          arith,
          find-empty attrs typ,
          rtattr_from-encode fuel attrs typ w.2
              (omega (arith, le-align4 n, length-frame h 4 v rest e)),
        ))

  -- The parser finds in the kernel's attributes the content of the first of the type, whatever its
  -- flags.
  pub rtattr-encode_attributes :
      (attrs : List (ℕ × List ℕ)) (typ : ℕ)
      → IsAttributes attrs
      → rtattr ne (encode_attributes attrs) typ ≡ find typ (by_type attrs)
  unfolding rtattr
  rtattr-encode_attributes attrs typ w =
      ap (λ o. or_else o none)
        (rtattr_from-encode (length (encode_attributes attrs) + 1) attrs typ w (omega arith))
