-- ===== src/Crc/Runs.antt =====
-- A checksum, and runs of the masking.
use distributed_system_based.Base.{◌≡◌, refl}
use distributed_system_based.Crc.{mask}

mask_runs : mask 0x12345678 ≡ 1332940608
unfolding mask
mask_runs = refl
