-- ===== src/Codec/Words.antt =====
-- encoding/binary's big-endian words, and int64Bits and int64FromBits of typed_encoding.go.
pub mod Laws
use hyper_gnomon.Base.{ℕ, zero, suc, ◌+◌, ◌-◌, ◌*◌, ◌/◌, ◌%◌, ◌^◌, List, [], ◌∷◌, ◌++◌}
use hyper_gnomon.Base.{ltb, if◌then◌else◌}
use hyper_gnomon.Base.Int.{ℤ, pos, negsuc}
use hyper_gnomon.Codec.{Bytes}

-- The `n` low bytes of a word, highest first: `AppendUint64` is at 8, `AppendUint32` at 4.
unfoldable pub be_bytes : ℕ → ℕ → Bytes
be_bytes zero v = []
be_bytes (suc n) v = be_bytes n (v / 256) ++ (v % 256 ∷ [])

-- The word that a slice holds, read from the highest byte.
unfoldable pub be_fold : ℕ → Bytes → ℕ
be_fold acc [] = acc
be_fold acc (x ∷ xs) = be_fold (acc * 256 + x) xs

abbrev pub be_uint : Bytes → ℕ
be_uint b = be_fold 0 b

-- The two's complement pattern of an int64, and back.
unfoldable pub int64_bits : ℤ → ℕ
int64_bits (pos n) = n % 2 ^ 64
int64_bits (negsuc n) = (2 ^ 64 - 1 - n % 2 ^ 64)

unfoldable pub int64_from_bits : ℕ → ℤ
int64_from_bits n = if ltb n (2 ^ 63) then pos n else negsuc (2 ^ 64 - 1 - n)
