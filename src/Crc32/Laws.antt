-- ===== src/Crc32/Laws.antt =====
-- Checksums are computed piece by piece, and a change of one byte always shows.
use Prim.Native.Nat.{bit_xor}
use jubatus.Base.{
  ℕ, ◌+◌, ◌*◌, ◌/◌, ◌%◌, ◌<◌, ◌==◌, ==_iff, if◌then◌else◌, ◌≡◌, refl, sym, ap, ◌∙◌, [], ◌∷◌, ◌++◌,
  ltb, ltb→lt, &&_true, ◌&&◌, true, ◌≢◌, arith,
}
use jubatus.Base.Bits.{
  every_below, every_below_lem, bit_xor_cancel, bit_xor_inj_left, bit_xor_inj_right, bit_xor-shr8,
  bit_xor-shr24, bit_xor-word, zero-bit_xor_lem,
}
use jubatus.Base.Text.{Text}
use jubatus.Crc32.{crc_table, crc_step, crc_loop, calc_crc32}

crc_loop-append : (xs ys : Text) (c : ℕ) → crc_loop (xs ++ ys) c ≡ crc_loop ys (crc_loop xs c)
unfolding crc_loop
crc_loop-append [] ys c = refl
crc_loop-append (x ∷ xs) ys c = crc_loop-append xs ys (crc_step x c)

-- The checksum of a buffer in two pieces is the checksum of the second piece, started from the
-- checksum of the first.
pub calc_crc32-append :
    (xs ys : Text) (c : ℕ) → calc_crc32 (xs ++ ys) c ≡ calc_crc32 ys (calc_crc32 xs c)
unfolding calc_crc32
calc_crc32-append xs ys c = rw (
  bit_xor_cancel (crc_loop xs (bit_xor c 0xFFFFFFFF)) 0xFFFFFFFF,
  crc_loop-append xs ys (bit_xor c 0xFFFFFFFF),
)

-- A round run backwards, with the lost low bits zero.
undo : ℕ → ℕ
undo c =
    if c / 0x80000000 == 1 then bit_xor c 0xEDB88320 * 2 % 0x100000000 + 1 else c * 2 % 0x100000000

index_of : ℕ → ℕ
index_of t = undo (undo (undo (undo (undo (undo (undo (undo (t * 0x1000000)))))))) % 256

table_check :
    every_below 256
      (λ i. (index_of (crc_table i / 0x1000000) == i) && ltb (crc_table i) 0x100000000)
    ≡ true
unfolding every_below index_of undo crc_table
table_check = refl

table_entry :
    (i : ℕ) → i < 256 → (index_of (crc_table i / 0x1000000) ≡ i) × (crc_table i < 0x100000000)
table_entry i h =
    let p =
      &&_true (index_of (crc_table i / 0x1000000) == i) (ltb (crc_table i) 0x100000000)
        (every_below_lem 256 _ table_check i h) in
    ((==_iff _ i).0 p.0, ltb→lt _ _ p.1)

abbrev slot : ℕ → ℕ → ℕ
slot b c = bit_xor b c % 256

slot_small : (b c : ℕ) → slot b c < 256
slot_small b c = omega arith

crc_step-word : (b c : ℕ) → c < 0x100000000 → crc_step b c < 0x100000000
unfolding crc_step
crc_step-word b c h =
    bit_xor-word (c / 256) (crc_table (slot b c)) (omega arith)
      (table_entry (slot b c) (slot_small b c)).1

-- The top byte of the new checksum is the table entry's.
crc_step_top :
    (b c : ℕ) → c < 0x100000000 → crc_step b c / 0x1000000 ≡ crc_table (slot b c) / 0x1000000
unfolding crc_step
crc_step_top b c h =
    let z : c / 256 / 0x1000000 ≡ 0 = omega arith in
    bit_xor-shr24 (c / 256) (crc_table (slot b c)) ∙ rw (z, zero-bit_xor_lem) refl

crc_step-slot :
    (a b c d : ℕ)
    → c < 0x100000000
    → d < 0x100000000
    → crc_step a c ≡ crc_step b d
    → slot a c ≡ slot b d
crc_step-slot a b c d hc hd e =
    sym (table_entry (slot a c) (slot_small a c)).0
    ∙ ap index_of
        (sym (crc_step_top a c hc) ∙ ap (λ (t : ℕ). t / 0x1000000) e ∙ crc_step_top b d hd)
    ∙ (table_entry (slot b d) (slot_small b d)).0

byte_xor_high : (b c : ℕ) → b < 256 → bit_xor b c / 256 ≡ c / 256
byte_xor_high b c h =
    let z : b / 256 ≡ 0 = omega arith in bit_xor-shr8 b c ∙ rw (z, zero-bit_xor_lem) refl

crc_step_inj_state :
    (b c d : ℕ) → b < 256 → c < 0x100000000 → d < 0x100000000 → crc_step b c ≡ crc_step b d → c ≡ d
unfolding crc_step
crc_step_inj_state b c d hb hc hd e =
    let i = crc_step-slot b b c d hc hd e in
    let high =
      bit_xor_inj_right (c / 256) (d / 256) (crc_table (slot b d))
        (sym (ap (λ (t : ℕ). bit_xor (c / 256) (crc_table t)) i) ∙ e) in
    bit_xor_inj_left c d b (omega (arith, i, high, byte_xor_high b c hb, byte_xor_high b d hb))

crc_step_inj_byte :
    (a b c : ℕ) → a < 256 → b < 256 → c < 0x100000000 → crc_step a c ≡ crc_step b c → a ≡ b
crc_step_inj_byte a b c ha hb hc e =
    bit_xor_inj_right a b c
      (omega (arith, crc_step-slot a b c c hc hc e, byte_xor_high a c ha, byte_xor_high b c hb))

-- Every element of a buffer is a byte.
abbrev pub Bytes : Text → Type 0
Bytes [] = Unit {0}
Bytes (b ∷ bs) = (b < 256) × Bytes bs

pub Bytes-append : (xs ys : Text) → Bytes xs → Bytes ys → Bytes (xs ++ ys)
Bytes-append [] ys hx hy = hy
Bytes-append (x ∷ xs) ys hx hy = (hx.0, Bytes-append xs ys hx.1 hy)

pub Bytes-left : (xs ys : Text) → Bytes (xs ++ ys) → Bytes xs
Bytes-left [] ys h = tt
Bytes-left (x ∷ xs) ys h = (h.0, Bytes-left xs ys h.1)

pub Bytes-right : (xs ys : Text) → Bytes (xs ++ ys) → Bytes ys
Bytes-right [] ys h = h
Bytes-right (x ∷ xs) ys h = Bytes-right xs ys h.1

crc_loop_inj :
    (ys : Text) (c d : ℕ)
    → Bytes ys
    → c < 0x100000000
    → d < 0x100000000
    → crc_loop ys c ≡ crc_loop ys d
    → c ≡ d
unfolding crc_loop
crc_loop_inj [] c d h hc hd e = e
crc_loop_inj (b ∷ ys) c d h hc hd e = crc_step_inj_state b c d h.0 hc hd (
    crc_loop_inj ys (crc_step b c) (crc_step b d) h.1 (crc_step-word b c hc) (crc_step-word b d hd)
      e)

crc_loop_byte :
    (xs ys : Text) (a b c : ℕ)
    → Bytes xs
    → a < 256
    → b < 256
    → Bytes ys
    → c < 0x100000000
    → crc_loop (xs ++ (a ∷ ys)) c ≡ crc_loop (xs ++ (b ∷ ys)) c
    → a ≡ b
unfolding crc_loop
crc_loop_byte [] ys a b c hx ha hb hy hc e = crc_step_inj_byte a b c ha hb hc (
    crc_loop_inj ys (crc_step a c) (crc_step b c) hy (crc_step-word a c hc) (crc_step-word b c hc)
      e)
crc_loop_byte (x ∷ xs) ys a b c hx ha hb hy hc e =
    crc_loop_byte xs ys a b (crc_step x c) hx.1 ha hb hy (crc_step-word x c hc) e

-- Two buffers of bytes that differ in exactly one byte have different checksums, from any start
-- value of 32 bits.
pub calc_crc32_detects :
    (xs ys : Text) (a b c : ℕ)
    → Bytes xs
    → a < 256
    → b < 256
    → Bytes ys
    → c < 0x100000000
    → a ≢ b
    → calc_crc32 (xs ++ (a ∷ ys)) c ≢ calc_crc32 (xs ++ (b ∷ ys)) c
unfolding calc_crc32
calc_crc32_detects xs ys a b c hx ha hb hy hc ne e = ne (
    crc_loop_byte xs ys a b (bit_xor c 0xFFFFFFFF) hx ha hb hy
      (bit_xor-word c 0xFFFFFFFF hc (omega arith)) (bit_xor_inj_right _ _ 0xFFFFFFFF e))

crc_loop-word : (ys : Text) (c : ℕ) → c < 0x100000000 → crc_loop ys c < 0x100000000
unfolding crc_loop
crc_loop-word [] c h = h
crc_loop-word (b ∷ ys) c h = crc_loop-word ys (crc_step b c) (crc_step-word b c h)

pub calc_crc32-word : (ys : Text) (c : ℕ) → c < 0x100000000 → calc_crc32 ys c < 0x100000000
unfolding calc_crc32
calc_crc32-word ys c h =
    bit_xor-word (crc_loop ys (bit_xor c 0xFFFFFFFF)) 0xFFFFFFFF
      (crc_loop-word ys (bit_xor c 0xFFFFFFFF) (bit_xor-word c 0xFFFFFFFF h (omega arith)))
      (omega arith)
