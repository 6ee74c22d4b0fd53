-- ===== src/Codec/Variables.antt =====
-- The SCIDVariable slices: their encoder, its sizing pass, and the decoder's two passes.
pub mod Laws
pub mod Passes
pub mod RoundTrip
use hyper_gnomon.Base.{ℕ, zero, suc, ◌+◌, ◌-◌, ◌*◌, List, [], ◌∷◌, ◌++◌, map, some, none, Bool, not}
use hyper_gnomon.Base.{◌||◌, ◌&&◌, ◌==◌, ltb, leb, if◌then◌else◌, length, slice, drop, get_or}
use hyper_gnomon.Base.Int.{ℤ}
use hyper_gnomon.Codec.{Bytes, Result, ok, err, panic, ◌>>=◌, invalid_scid_variables}
use hyper_gnomon.Codec.Words.{be_bytes, be_fold, be_uint}
use hyper_gnomon.Codec.Varint.{append_uvarint, uvarint, uvarint_len}
use hyper_gnomon.Codec.Decimal.{itoa_base10}
use hyper_gnomon.Codec.Arena.{Arena, View, make_arena, owned_cut, view_string}

-- What an interface{} may hold. A float64 is given by the int64 that Go's conversion makes of it;
-- `other` is any other type, and nil.
pub data Value : Type 0 where
  string : Bytes → Value
  uint64 : ℕ → Value
  int64 : ℤ → Value
  int : ℤ → Value
  float64 : ℤ → Value
  other : Value

pub record ScidVariable : Type 0 where
  pub key : Value
  pub value : Value

abbrev pub tag_scid_variables_v1 : ℕ
tag_scid_variables_v1 = 0x02

abbrev pub var_kind_string : ℕ
var_kind_string = 0x01

abbrev pub var_kind_uint64 : ℕ
var_kind_uint64 = 0x02

unfoldable pub to_string_best : Value → Bytes
to_string_best (string x) = x
to_string_best (int64 x) = itoa_base10 x
to_string_best (int x) = itoa_base10 x
to_string_best (float64 x) = itoa_base10 x
to_string_best (uint64 x) = []
to_string_best other = []

abbrev pub append_string_field : Bytes → Bytes → Bytes
append_string_field dst s =
    let dst1 = dst ++ (var_kind_string ∷ []) in
    let dst2 = append_uvarint dst1 (length s) in dst2 ++ s

unfoldable pub append_var_field : Bytes → Value → Bytes
append_var_field dst (string x) = append_string_field dst x
append_var_field dst (uint64 x) = (dst ++ (var_kind_uint64 ∷ [])) ++ be_bytes 8 x
append_var_field dst v = append_string_field dst (to_string_best v)

unfoldable pub size_var_field : Value → ℕ
size_var_field (string x) = 1 + uvarint_len (length x) + length x
size_var_field (uint64 x) = 1 + 8
size_var_field v = let s = to_string_best v in 1 + uvarint_len (length s) + length s

-- `for _, v := range vars`
unfoldable pub append_vars : Bytes → List ScidVariable → Bytes
append_vars dst [] = dst
append_vars dst (v ∷ vs) = append_vars (append_var_field (append_var_field dst v.key) v.value) vs

unfoldable pub size_vars : ℕ → List ScidVariable → ℕ
size_vars size [] = size
size_vars size (v ∷ vs) = size_vars (size + (size_var_field v.key + size_var_field v.value)) vs

unfoldable pub marshal_scid_variables_typed_append : Bytes → List ScidVariable → Bytes
marshal_scid_variables_typed_append dst vars =
    let dst1 = dst ++ (tag_scid_variables_v1 ∷ []) in
    let dst2 = dst1 ++ be_bytes 4 (length vars) in append_vars dst2 vars

-- The capacity that MarshalSCIDVariablesTyped asks for.
unfoldable pub marshal_size : List ScidVariable → ℕ
marshal_size vars = size_vars (1 + 4) vars

unfoldable pub marshal_scid_variables_typed : List ScidVariable → Bytes
unfolding marshal_scid_variables_typed_append
marshal_scid_variables_typed vars = marshal_scid_variables_typed_append [] vars

unfoldable pub read_string_body : Bytes → ℕ → ℕ → Result (Value × ℕ)
read_string_body b n pos =
    if ltb (length b - pos) n
    then err invalid_scid_variables
    else let end = pos + n in
      if ltb (length b) end then err invalid_scid_variables else ok (string (slice b pos end), end)

unfoldable pub read_kind : Bytes → ℕ → ℕ → Result (Value × ℕ)
unfolding read_string_body
read_kind b kind pos =
    if kind == var_kind_string
    then elim (uvarint (drop pos b)) [
      | none ↦ err invalid_scid_variables
      | some (n, n_len) ↦ read_string_body b n (pos + n_len)
    ]
    else if kind == var_kind_uint64
    then (if ltb (length b) (pos + 8)
        then err invalid_scid_variables
        else ok (uint64 (be_uint (slice b pos (pos + 8))), pos + 8))
    else err invalid_scid_variables

-- The field at `pos` and the position behind it.
unfoldable pub read_var_field : Bytes → ℕ → Result (Value × ℕ)
unfolding read_kind
read_var_field b pos =
    if leb (length b) pos
    then err invalid_scid_variables
    else read_kind b (get_or b pos 0) (pos + 1)

-- What locVarField finds: the range of a string, or a number.
pub data Located : Type 0 where
  at_range : ℕ → ℕ → Located
  number : ℕ → Located

unfoldable pub loc_string_body : Bytes → ℕ → ℕ → Result (Located × ℕ)
loc_string_body b n pos =
    if ltb (length b - pos) n
    then err invalid_scid_variables
    else let end = pos + n in ok (at_range pos end, end)

unfoldable pub loc_kind : Bytes → ℕ → ℕ → Result (Located × ℕ)
unfolding loc_string_body
loc_kind b kind pos =
    if kind == var_kind_string
    then elim (uvarint (drop pos b)) [
      | none ↦ err invalid_scid_variables
      | some (n, n_len) ↦ loc_string_body b n (pos + n_len)
    ]
    else if kind == var_kind_uint64
    then (if ltb (length b) (pos + 8)
        then err invalid_scid_variables
        else ok (number (be_uint (slice b pos (pos + 8))), pos + 8))
    else err invalid_scid_variables

unfoldable pub loc_var_field : Bytes → ℕ → Result (Located × ℕ)
unfolding loc_kind
loc_var_field b pos =
    if leb (length b) pos then err invalid_scid_variables else loc_kind b (get_or b pos 0) (pos + 1)

abbrev pub located_width : Located → ℕ
located_width (at_range st en) = en - st
located_width (number u) = 0

-- The first pass over `k` fields: the sum of the string bytes.
unfoldable pub fields_total : ℕ → Bytes → ℕ → Result ℕ
fields_total zero b p = ok 0
fields_total (suc k) b p = do
  (f, next) ← loc_var_field b p
  total ← fields_total k b next
  ok (located_width f + total)

-- A field of the second pass: a view of the buffer, or a number.
pub data Cut : Type 0 where
  viewed : View → Cut
  number : ℕ → Cut

abbrev pub cut_located : Arena → Bytes → Located → Result (Cut × Arena)
cut_located a b (at_range st en) = owned_cut a b st en >>= λ q. ok (viewed q.0, q.1)
cut_located a b (Located.number u) = ok (Cut.number u, a)

-- The second pass over `k` fields.
unfoldable pub cut_fields : ℕ → Bytes → ℕ → Arena → Result (List Cut × Arena)
cut_fields zero b pos a = ok ([], a)
cut_fields (suc k) b pos a = do
  (f, next) ← loc_var_field b pos
  (c, a') ← cut_located a b f
  (cs, a'') ← cut_fields k b next a'
  ok (c ∷ cs, a'')

abbrev pub show_cut : Bytes → Cut → Value
show_cut sbuf (viewed v) = string (view_string sbuf v)
show_cut sbuf (Cut.number u) = uint64 u

-- Each variable is two fields, its key and its value.
unfoldable pub pair_up : List Value → List ScidVariable
pair_up [] = []
pair_up (k ∷ []) = []
pair_up (k ∷ v ∷ vs) = record { key = k; value = v } ∷ pair_up vs

abbrev pub double : ℕ → ℕ
double zero = zero
double (suc n) = suc (suc (double n))

unfoldable pub read_variables : ℕ → Bytes → Result (List ScidVariable)
read_variables n b = do
  total ← fields_total (double n) b 5
  (cs, a) ← cut_fields (double n) b 5 (make_arena total)
  ok (pair_up (map (show_cut a.sbuf) cs))

unfoldable pub unmarshal_scid_variables_typed : Bytes → Result (List ScidVariable)
unfolding read_variables
unmarshal_scid_variables_typed b =
    if ltb (length b) 5 || not (get_or b 0 0 == tag_scid_variables_v1)
    then err invalid_scid_variables
    else let n = be_uint (slice b 1 5) in
      if ltb (length b - 5) (n * 4) then err invalid_scid_variables else read_variables n b

unfoldable pub is_scid_variables_typed : Bytes → Bool
is_scid_variables_typed b = leb 1 (length b) && get_or b 0 0 == tag_scid_variables_v1
