-- ===== src/Packet/View.antt =====
-- The constructor `Packet(std::string_view)`: what it accepts, and what it stores.
use libhdcp.Base.{
  ℕ, zero, suc, ◌+◌, ◌≤◌, ◌<◌, ◌≡◌, ◌≢◌, refl, sym, ap, ◌∙◌, List, [], ◌∷◌, arith, length, leb,
  some, All, take, drop, ok, sop_not_found, invalid_buffer_size, guard, >>=-eq-ok, get_or-take,
}
use mathlib.Core.Path.{ap₂}
use native.Mathlib.Nat.{zero-add, suc-add, le_refl}
use libhdcp.Packet.Format.{IsByte, Header, header_at, header_size, u16_at, le16}
use libhdcp.Packet.Format
use libhdcp.Packet.Parse.{
  Packet, find, or_throw, parse_header, parse_payload, from_view, check_header, check_payload,
  header, header_view, payload, view_at, copy_front,
}
use libhdcp.Packet.Checks.{IsHeader, parse_header_iff}

-- How a view was accepted: where the start of packet stood, and the header behind it.
pub record Accepts (v : List ℕ) (p : Packet) (pos : ℕ) (h : Header) : Type 0 where
  pub found : find v (le16 Format.sop) ≡ some pos
  pub parsed : parse_header (take header_size (drop pos v)) ≡ ok h
  pub whole : pos + header_size + h.len ≤ length v
  pub checked : parse_payload (take h.len (drop (pos + header_size) v)) h ≡ ok tt
  pub stored : p.data_ ≡ take (header_size + h.len) v

view_at-ok : (from n : ℕ) (v w : List ℕ) → view_at from n v ≡ ok w → w ≡ take n (drop from v)
view_at-ok from n v w e = ground arith

copy_front-ok : (n : ℕ) (v : List ℕ) (p : Packet) → copy_front n v ≡ ok p → p.data_ ≡ take n v
copy_front-ok n v p e = ground arith

pub from_view-Accepts :
    (v : List ℕ) (p : Packet) → from_view v ≡ ok p → (pos : ℕ) × (h : Header) × Accepts v p pos h
unfolding from_view
from_view-Accepts v p e =
    let (pos, found, e1) = >>=-eq-ok (or_throw (find v (le16 Format.sop)) sop_not_found) _ e in
    let (_, fits, e2) =
      >>=-eq-ok (guard (leb (pos + header_size) (length v)) invalid_buffer_size) _ e1 in
    let (front, seen, e3) = >>=-eq-ok (view_at pos header_size v) _ e2 in
    let (h, parsed, e4) = >>=-eq-ok (parse_header front) _ e3 in
    let (_, whole, e5) =
      >>=-eq-ok (guard (leb (pos + header_size + h.len) (length v)) invalid_buffer_size) _ e4 in
    let (content, read, e6) = >>=-eq-ok (view_at (pos + header_size) h.len v) _ e5 in
    let (u, checked, e7) = >>=-eq-ok (parse_payload content h) _ e6 in
    (
      pos,
      h,
      record {
        found = ground arith;
        parsed = rw (view_at-ok pos header_size v front seen) at parsed;
        whole = ground arith;
        checked = rw (view_at-ok (pos + header_size) h.len v content read) at checked;
        stored = copy_front-ok (header_size + h.len) v p e7;
      },
    )

take-take_le : (m n : ℕ) (v : List ℕ) → m ≤ n → take m (take n v) ≡ take m v
take-take_le zero n v h = refl
take-take_le (suc m) zero v h = absurd (omega arith)
take-take_le (suc m) (suc n) [] h = refl
take-take_le (suc m) (suc n) (x ∷ v) h = ap (◌∷◌ x) (take-take_le m n v (omega arith))

pub take-nil : (n : ℕ) → take {A = ℕ} n [] ≡ []
take-nil zero = refl
take-nil (suc n) = refl

drop-take : (m n : ℕ) (v : List ℕ) → drop m (take (m + n) v) ≡ take n (drop m v)
drop-take zero n v = rw zero-add
drop-take (suc m) n [] = rw (suc-add m n) (sym (take-nil n))
drop-take (suc m) n (x ∷ v) = rw (suc-add m n) (drop-take m n v)

-- Fields that a cut leaves whole.
pub header_at-take : (n : ℕ) (v : List ℕ) → header_size ≤ n → header_at (take n v) ≡ header_at v
header_at-take n v h =
    let kept = λ (i : ℕ) (k : i < header_size). get_or-take n v i 0 (omega arith) in
    rw (
      kept 0 (omega arith),
      kept 1 (omega arith),
      kept 2 (omega arith),
      kept 3 (omega arith),
      kept 4 (omega arith),
      kept 5 (omega arith),
      kept 6 (omega arith),
      kept 7 (omega arith),
      kept 8 (omega arith),
      kept 9 (omega arith),
      kept 10 (omega arith),
      kept 11 (omega arith),
      kept 12 (omega arith),
    )

-- What the header view of the stored packet is.
header_view_lem :
    (v : List ℕ) (p : Packet) (pos : ℕ) (h : Header)
    → Accepts v p pos h
    → header_view p ≡ take header_size v
header_view_lem v p pos h a =
    rw a.stored (take-take_le header_size (header_size + h.len) v (omega arith))

aligned_lem :
    (v : List ℕ) (p : Packet) (h : Header)
    → Accepts v p 0 h
    → (check_header p ≡ ok (header p)) × (check_payload p ≡ ok tt)
unfolding check_header check_payload
aligned_lem v p h a =
    let fields : h ≡ header p =
      ((parse_header_iff _ h).0 a.parsed).1
      ∙ header_at-take header_size v (omega arith)
      ∙ rw a.stored (sym (header_at-take (header_size + h.len) v (omega arith))) in
    let len : u16_at p.data_ 3 ≡ h.len = ap (λ g. g.len) (sym fields) in
    let content : payload p ≡ take h.len (drop header_size v) =
      rw (len, a.stored, drop-take header_size h.len v)
        (take-take_le h.len h.len (drop header_size v) (le_refl h.len)) in
    (
      ap parse_header (header_view_lem v p 0 h a) ∙ a.parsed ∙ ap ok fields,
      ap₂ parse_payload content (sym fields) ∙ a.checked,
    )

-- If the start of packet stands at the front of the view, then the stored packet passes both
-- checks again.
pub from_view-aligned :
    (v : List ℕ) (p : Packet)
    → from_view v ≡ ok p
    → find v (le16 Format.sop) ≡ some 0
    → (check_header p ≡ ok (header p)) × (check_payload p ≡ ok tt)
from_view-aligned v p e front =
    let (pos, h, a) = from_view-Accepts v p e in
    let at_front : pos ≡ 0 = ground (arith, a.found) in aligned_lem v p h (rw at_front at a)

find-front :
    (v : List ℕ) → All IsByte v → IsHeader (take header_size v) → find v (le16 Format.sop) ≡ some 0
unfolding find
find-front [] b h = ground arith
find-front (x ∷ []) b h = ground arith
find-front (x ∷ y ∷ v) b h = ground arith

-- If the start of packet stands further behind, then the stored packet does not pass the check of
-- its header: what is copy_front begins at the front of the view, not at the start of packet.
pub from_view-misaligned :
    (v : List ℕ) (p : Packet) (k : ℕ) (h : Header)
    → All IsByte v
    → from_view v ≡ ok p
    → find v (le16 Format.sop) ≡ some (suc k)
    → check_header p ≢ ok h
unfolding check_header
from_view-misaligned v p k h bytes e behind good =
    let (pos, g, a) = from_view-Accepts v p e in
    let valid = ((parse_header_iff _ h).0 good).0 in
    cc (behind, find-front v bytes (rw (header_view_lem v p pos g a) at valid))
