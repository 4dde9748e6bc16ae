-- ===== src/Crc32/Tests.antt =====
-- Checksums of known texts.
use jubatus.Base.{◌≡◌, refl}
use jubatus.Base.Text.{codes}
use jubatus.Crc32.{calc_crc32}

check_value : calc_crc32 (codes "123456789") 0 ≡ 0xCBF43926
unfolding calc_crc32
check_value = refl
