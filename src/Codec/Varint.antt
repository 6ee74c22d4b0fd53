-- ===== src/Codec/Varint.antt =====
-- encoding/binary's unsigned varints, and uvarintLen of typed_encoding.go.
-- A byte's `& 0x7f` is `% 128` and its `| 0x80`, on seven bits, is `+ 128`; the groups of a number
-- do not overlap, so that `x | g << s` is `x + g * 2 ^ s`.
pub mod Laws
use hyper_gnomon.Base.{ℕ, zero, suc, ◌+◌, ◌*◌, ◌/◌, ◌%◌, ◌^◌, List, [], ◌∷◌, ◌++◌}
use hyper_gnomon.Base.{Option, none, some, ◌&&◌, ltb, ◌==◌, if◌then◌else◌}
use hyper_gnomon.Codec.{Bytes}

-- The loop of `AppendUvarint`, on fuel: a uint64 takes ten rounds at most.
unfoldable pub uvarint_bytes : ℕ → ℕ → Bytes
uvarint_bytes zero x = []
uvarint_bytes (suc f) x =
    let rest = uvarint_bytes f (x / 128) in if ltb x 128 then x ∷ [] else (x % 128 + 128) ∷ rest

unfoldable pub append_uvarint : Bytes → ℕ → Bytes
append_uvarint dst x = dst ++ uvarint_bytes 10 x

-- The loop of `Uvarint` from index `i`, shift `s` and value `x` on. `none` stands for a length of
-- 0 or less, which both a cut-off and an overlong number give.
unfoldable pub uvarint_loop : Bytes → ℕ → ℕ → ℕ → Option (ℕ × ℕ)
uvarint_loop [] i s x = none
uvarint_loop (b ∷ rest) i s x =
    let more = uvarint_loop rest (i + 1) (s + 7) (x + b % 128 * 2 ^ s) in
    if i == 10
    then none
    else if ltb b 128
    then (if (i == 9) && ltb 1 b then none else some (x + b * 2 ^ s, i + 1))
    else more

-- The number at the front of a slice, and how many bytes it takes.
unfoldable pub uvarint : Bytes → Option (ℕ × ℕ)
uvarint b = uvarint_loop b 0 0 0

-- `n := 1; for u >= 0x80 { u >>= 7; n++ }`, on fuel.
unfoldable pub uvarint_len_loop : ℕ → ℕ → ℕ → ℕ
uvarint_len_loop zero u n = n
uvarint_len_loop (suc f) u n =
    let rest = uvarint_len_loop f (u / 128) (n + 1) in if ltb u 128 then n else rest

unfoldable pub uvarint_len : ℕ → ℕ
uvarint_len u = uvarint_len_loop 10 u 1
