-- ===== src/Tests.antt =====
-- Runs of the theorems on concrete data, and the data they share.
mod Access
mod Cache
mod Frontier
mod Client
mod Engine
mod Commands
mod Extended
mod Collections
mod Log
use wavicle.Prelude.{ℕ, ◌+◌, ◌*◌, ◌/◌, Bytes, List, [], ◌∷◌}
use wavicle.Core.{Hash, Platform, zeros}

-- A stand-in for SHA-256 that keeps the text.
abbrev pub plain_hash : Bytes → Bytes
plain_hash s = s

unfoldable pub checksum : Bytes → ℕ
checksum [] = 0
checksum (b ∷ s) = b + checksum s

-- A stand-in for SHA3-256: 32 bytes, the sum first.
unfoldable pub sum_hash : Bytes → Hash
unfolding checksum
sum_hash s = checksum s ∷ zeros 31

abbrev pub host : Platform
host = record {
  sha3 = sum_hash;
  format_float = λ n. n ∷ [];
  unix_nano = λ t. t;
  ninety_percent = λ n. n * 9 / 10;
  eighty_percent = λ n. n * 8 / 10;
}
