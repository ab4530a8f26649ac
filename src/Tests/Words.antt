-- ===== src/Tests/Words.antt =====
-- The mixing of hashes at single words.
use adventure.Base.{◌≡◌, arith}
use adventure.Murmur.{fmix64}
use adventure.Murmur.Mix.{unmix64, unmix64-fmix64}

unmix64-fmix64_example : unmix64 (fmix64 0x0123456789abcdef) ≡ 0x0123456789abcdef
unmix64-fmix64_example = unmix64-fmix64 0x0123456789abcdef (omega arith)
