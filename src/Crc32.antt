-- ===== src/Crc32.antt =====
-- jubatus/server/common/crc32.cpp: the table and the checksum loop, over the bytes of the buffer.
pub mod Laws
mod Tests
use Prim.Native.Nat.{bit_xor}
use jubatus.Base.{ℕ, zero, suc, ◌+◌, ◌/◌, ◌%◌, ◌==◌, if◌then◌else◌, List, [], ◌∷◌}
use jubatus.Base.Text.{Text}

-- `c = (c >> 1) ^ (c & 1 ? 0xEDB88320 : 0)`
pub crc_round : ℕ → ℕ
crc_round c = bit_xor (c / 2) (if c % 2 == 1 then 0xEDB88320 else 0)

crc_rounds : ℕ → ℕ → ℕ
unfolding crc_round
crc_rounds zero c = c
crc_rounds (suc j) c = crc_rounds j (crc_round c)

-- `crc_table_[i]`
pub crc_table : ℕ → ℕ
unfolding crc_rounds
crc_table i = crc_rounds 8 i

-- The body of the loop, for one byte of the buffer.
pub crc_step : ℕ → ℕ → ℕ
unfolding crc_table
crc_step b crc = bit_xor (crc / 256) (crc_table (bit_xor b crc % 256))

pub crc_loop : Text → ℕ → ℕ
unfolding crc_step
crc_loop [] crc = crc
crc_loop (b ∷ buf) crc = crc_loop buf (crc_step b crc)

pub calc_crc32 : Text → ℕ → ℕ
unfolding crc_loop
calc_crc32 buf crc = bit_xor (crc_loop buf (bit_xor crc 0xFFFFFFFF)) 0xFFFFFFFF
