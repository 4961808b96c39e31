-- ===== src/Tcp/Framing.antt =====
-- A packet that travels over a stream of bytes: what is written is read back, part by part.
use libhdcp.Base.{
  ℕ, zero, suc, ◌+◌, ◌≡◌, refl, sym, ap, ◌∙◌, List, [], ◌∷◌, ◌++◌, arith, length, ok, take, drop,
  take-append, drop-append,
}
use mathlib.Core.Path.{ap₂}
use libhdcp.Packet.Format.{header_at, known_type, blocks_of, header_size, PacketType, BlockView}
use libhdcp.Packet.Parse.{
  Packet, header, header_view, payload, size, check_header, check_payload, parse_header,
  parse_payload,
}
use libhdcp.Packet.Checks.{parse_header_iff, parse_payload_iff}
use libhdcp.Packet.View.{header_at-take, take-nil}
use native.Mathlib.Nat.{zero-add, suc-add}
use libhdcp.Packet.RoundTrip.{Carries, IsWhole}
use libhdcp.Tcp.Endpoint.{wire, put_header, put_payload}

take-add : (m n : ℕ) (v : List ℕ) → take (m + n) v ≡ take m v ++ take n (drop m v)
take-add zero n v = rw zero-add refl
take-add (suc m) n [] = rw (suc-add m n) (sym (take-nil n))
take-add (suc m) n (x ∷ v) = rw (suc-add m n, take-add m n v) refl

-- The packets have the same header and the same payload; behind these they may differ.
pub record Same (p q : Packet) : Type 0 where
  pub same_header : header_view q ≡ header_view p
  pub same_payload : payload q ≡ payload p

pub header_lem : (p q : Packet) → header_view q ≡ header_view p → header q ≡ header p
header_lem p q h =
    sym (header_at-take header_size q.data_ (omega arith))
    ∙ ap header_at h
    ∙ header_at-take header_size p.data_ (omega arith)

pub length-header_view : (p : Packet) → IsWhole p → length (header_view p) ≡ header_size
unfolding check_header
length-header_view p w =
    ((parse_header_iff (header_view p) (header p)).0 w.header_checked).0.has_size

pub length-payload : (p : Packet) → IsWhole p → length (payload p) ≡ (header p).len
unfolding check_payload
length-payload p w = sym ((parse_payload_iff (payload p) (header p)).0 w.payload_checked).has_size

pub wire_lem : (p : Packet) → IsWhole p → wire p ≡ header_view p ++ payload p
wire_lem p w =
    let n = (header p).len in
    let total : size p ≡ header_size + n = omega (arith, length-payload p w) in
    ap (λ k. take k p.data_) total ∙ take-add header_size n p.data_

-- The copy that arrived passes both checks as well.
pub Same-IsWhole : (p q : Packet) → Same p q → IsWhole p → IsWhole q
unfolding check_header check_payload
Same-IsWhole p q s w =
    let h = header_lem p q s.same_header in
    record {
      header_checked = ap parse_header s.same_header ∙ w.header_checked ∙ ap ok (sym h);
      payload_checked = ap₂ parse_payload s.same_payload h ∙ w.payload_checked;
    }

-- The accessors of the same packet answer the same.
pub Same-Carries :
    (p q : Packet) (n : ℕ) (t : PacketType) (bs : List BlockView)
    → Same p q
    → Carries p n t bs
    → Carries q n t bs
Same-Carries p q n t bs s c =
    let h = header_lem p q s.same_header in
    record {
      has_id = ap (λ x. x.id) h ∙ c.has_id;
      has_version = ap (λ x. x.ver) h ∙ c.has_version;
      has_type = ap (λ x. known_type x.type) h ∙ c.has_type;
      has_nb_block = ap (λ x. x.n_block) h ∙ c.has_nb_block;
      has_blocks = ap blocks_of s.same_payload ∙ c.has_blocks;
      has_size = ap (λ v. length v + header_size) s.same_payload ∙ c.has_size;
      is_whole = Same-IsWhole p q s c.is_whole;
    }

-- The two reads of a packet put its header and its payload into the array, whatever was there.
pub put_header-view :
    (p r : Packet) → IsWhole p → header_view (put_header (header_view p) r) ≡ header_view p
put_header-view p r w =
    let tail = drop (length (header_view p)) r.data_ in
    ap (λ k. take k (header_view p ++ tail)) (sym (length-header_view p w))
    ∙ take-append (header_view p) tail

pub put_payload-Same :
    (p r : Packet) → IsWhole p → header_view r ≡ header_view p → Same p (put_payload (payload p) r)
put_payload-Same p r w h =
    let q = put_payload (payload p) r in
    let n = length-header_view p w in
    let tail = payload p ++ drop (header_size + length (payload p)) r.data_ in
    let stored : q.data_ ≡ header_view p ++ tail = ap (λ v. v ++ tail) h in
    let view : header_view q ≡ header_view p =
      ap (take header_size) stored
      ∙ ap (λ k. take k (header_view p ++ tail)) (sym n)
      ∙ take-append (header_view p) tail in
    let after : drop header_size q.data_ ≡ tail =
      ap (drop header_size) stored
      ∙ ap (λ k. drop k (header_view p ++ tail)) (sym n)
      ∙ drop-append (header_view p) tail in
    let len : (header q).len ≡ length (payload p) =
      ap (λ x. x.len) (header_lem p q view) ∙ sym (length-payload p w) in
    record {
      same_header = view;
      same_payload =
          ap₂ take len after
          ∙ take-append (payload p) (drop (header_size + length (payload p)) r.data_);
    }
