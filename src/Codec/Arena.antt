-- ===== src/Codec/Arena.antt =====
-- ownedCut of typed_encoding.go: the decoders copy all their strings into one buffer that they own
-- and return views of it. A view is an offset and a length; it is read when the record is complete,
-- so that a later write over its bytes would show.
pub mod Laws
use hyper_gnomon.Base.{ℕ, zero, suc, ◌+◌, ◌-◌, List, [], ◌∷◌, leb, ◌==◌, if◌then◌else◌, length}
use hyper_gnomon.Base.{replicate, copy_at, slice, map}
use hyper_gnomon.Codec.{Bytes, Result, ok, err, panic, ◌>>=◌}
use hyper_gnomon.Codec.LenString.{loc_len_string}

-- `sbuf` and `off`.
pub record Arena : Type 0 where
  pub sbuf : Bytes
  pub off : ℕ

abbrev pub View : Type 0
View = ℕ × ℕ

abbrev pub Range : Type 0
Range = ℕ × ℕ

-- `sbuf = make([]byte, total)`; with no bytes to hold it stays nil.
abbrev pub make_arena : ℕ → Arena
make_arena total = record { sbuf = replicate total 0; off = 0 }

-- The slice of `sbuf` panics where the buffer is too short.
unfoldable pub owned_cut : Arena → Bytes → ℕ → ℕ → Result (View × Arena)
owned_cut a b st en =
    let n = en - st in
    if n == 0
    then ok ((0, 0), a)
    else if leb (a.off + n) (length a.sbuf)
    then ok ((a.off, n), record { sbuf = copy_at a.off (slice b st en) a.sbuf; off = a.off + n })
    else panic

abbrev pub view_string : Bytes → View → Bytes
view_string sbuf (o, n) = slice sbuf o (o + n)

-- `k` rounds of locLenString: the ranges, and the position behind the last.
unfoldable pub loc_ranges : ℕ → Bytes → ℕ → Result (List Range × ℕ)
loc_ranges zero b pos = ok ([], pos)
loc_ranges (suc k) b pos = do
  (st, en, next) ← loc_len_string b pos
  (rs, end) ← loc_ranges k b next
  ok ((st, en) ∷ rs, end)

-- The sum of the widths.
unfoldable pub total_width : List Range → ℕ
total_width [] = 0
total_width ((st, en) ∷ rs) = (en - st) + total_width rs

-- One ownedCut for each range, in order.
unfoldable pub cut_all : Arena → Bytes → List Range → Result (List View × Arena)
cut_all a b [] = ok ([], a)
cut_all a b ((st, en) ∷ rs) = do
  (v, a') ← owned_cut a b st en
  (vs, a'') ← cut_all a' b rs
  ok (v ∷ vs, a'')

-- The strings that the views of one arena of the right size show.
unfoldable pub coalesce : Bytes → List Range → Result (List Bytes)
coalesce b rs = do
  (vs, a) ← cut_all (make_arena (total_width rs)) b rs
  ok (map (view_string a.sbuf) vs)

-- `k` rounds of locLenString and ownedCut: the views, the position behind them and the arena.
unfoldable pub cut_strings : ℕ → Bytes → ℕ → Arena → Result (List View × ℕ × Arena)
cut_strings zero b pos a = ok ([], pos, a)
cut_strings (suc k) b pos a = do
  (st, en, next) ← loc_len_string b pos
  (v, a') ← owned_cut a b st en
  (vs, end, a'') ← cut_strings k b next a'
  ok (v ∷ vs, end, a'')
