-- ===== src/Share/Header.antt =====
-- The block header of src/share.c, read back field by field.
use simplepool.Prelude.{
  ℕ, ◌+◌, ◌^◌, ◌<◌, ◌≡◌, refl, sym, ap, subst, subst₂, ◌∙◌, some, List, [], ◌++◌, arith, length,
  length-append, append_assoc, append-nil,
}
use simplepool.Bytes.{IsU32, u32_le, rd_u32}
use simplepool.Bytes.Ints.{length-le_bytes}
use simplepool.Bytes.Varint.{around, rd_u32-u32_le}
use simplepool.Share.{build_header}

-- A field that stands behind `off` bytes.
field_at :
    (h pre : List ℕ) (v : ℕ) (post : List ℕ) (off : ℕ)
    → IsU32 v
    → length h < 2 ^ 63
    → around pre (u32_le v) post ≡ h
    → length pre ≡ off
    → rd_u32 h off ≡ some (v, off + 4)
field_at h pre v post off small short whole place =
    subst₂ (λ (b : List ℕ) (n : ℕ). rd_u32 b n ≡ some (v, n + 4)) whole place
      (rd_u32-u32_le pre v post small (subst (λ (b : List ℕ). length b < 2 ^ 63) (sym whole) short))

last_right : (a b c d : List ℕ) → a ++ (b ++ (c ++ d)) ≡ a ++ b ++ c ++ d
last_right a b c d = sym (append_assoc a b (c ++ d)) ∙ sym (append_assoc (a ++ b) c d)

all_right : (a b c d e f : List ℕ) → a ++ (b ++ (c ++ (d ++ (e ++ f)))) ≡ a ++ b ++ c ++ d ++ e ++ f
all_right a b c d e f = last_right a b c (d ++ (e ++ f)) ∙ last_right (a ++ b ++ c) d e f

length-word : (v : ℕ) → length (u32_le v) ≡ 4
unfolding u32_le
length-word v = length-le_bytes 4 0 v

-- A header of 32-byte hashes is 80 bytes long, and its version, time, bits and nonce stand at the
-- offsets 0, 68, 72 and 76.
pub build_header-fields :
    (version : ℕ) (prev root : List ℕ) (ntime nbits nonce : ℕ)
    → length prev ≡ 32
    → length root ≡ 32
    → IsU32 version
    → IsU32 ntime
    → IsU32 nbits
    → IsU32 nonce
    → let h : List ℕ = build_header version prev root ntime nbits nonce in
      (length h ≡ 80)
      × (rd_u32 h 0 ≡ some (version, 4))
      × (rd_u32 h 68 ≡ some (ntime, 72))
      × (rd_u32 h 72 ≡ some (nbits, 76))
      × (rd_u32 h 76 ≡ some (nonce, 80))
unfolding build_header
build_header-fields version prev root ntime nbits nonce lp lr sv st sb sn =
    let v : List ℕ = u32_le version in
    let t : List ℕ = u32_le ntime in
    let b : List ℕ = u32_le nbits in
    let n : List ℕ = u32_le nonce in
    let a1 = length-append v prev in
    let a2 = length-append (v ++ prev) root in
    let a3 = length-append (v ++ prev ++ root) t in
    let a4 = length-append (v ++ prev ++ root ++ t) b in
    let a5 = length-append (v ++ prev ++ root ++ t ++ b) n in
    let l1 = length-word version in
    let l2 = length-word ntime in
    let l3 = length-word nbits in
    let l4 = length-word nonce in
    let size : length (v ++ prev ++ root ++ t ++ b ++ n) ≡ 80 = omega arith in
    let h : List ℕ = v ++ prev ++ root ++ t ++ b ++ n in
    let short : length h < 2 ^ 63 = omega (arith, size) in
    (
      size,
      field_at h [] version (prev ++ (root ++ (t ++ (b ++ n)))) 0 sv short
          (all_right v prev root t b n) refl,
      field_at h (v ++ prev ++ root) ntime (b ++ n) 68 st short
          (last_right (v ++ prev ++ root) t b n) (omega arith),
      field_at h (v ++ prev ++ root ++ t) nbits n 72 sb short
          (sym (append_assoc (v ++ prev ++ root ++ t) b n)) (omega arith),
      field_at h (v ++ prev ++ root ++ t ++ b) nonce [] 76 sn short
          (ap (λ (x : List ℕ). v ++ prev ++ root ++ t ++ b ++ x) (append-nil n)) (omega arith),
    )
