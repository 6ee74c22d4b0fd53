-- ===== src/Codec/Variables/RoundTrip.antt =====
-- SCIDVariable slices: the encoder's layout and exact size, and the round trip.
use hyper_gnomon.Base.{ℕ, suc, ◌+◌, ◌-◌, ◌*◌, ◌^◌, ◌≤◌, ◌<◌, ◌≡◌, refl, sym, ap, ◌∙◌, arith}
use hyper_gnomon.Base.{
  List, [], ◌∷◌, ◌++◌, map, some, append_assoc, append-nil, length, length-append, All,
}
use hyper_gnomon.Base.{
  slice, slice_middle, drop, drop-append_self, get_or, get_or-append, ltb, leb, lt→not-leb,
  le→not-ltb, false,
}
use hyper_gnomon.Codec.{Bytes, IsU64, ok}
use hyper_gnomon.Codec.Words.{be_bytes, be_fold}
use hyper_gnomon.Codec.Words.Laws.{word_found, length-be_bytes}
use hyper_gnomon.Codec.Decimal.{itoa_base10}
use hyper_gnomon.Codec.Varint.{append_uvarint, uvarint, uvarint_bytes, uvarint_len}
use hyper_gnomon.Codec.Varint.Laws.{uvarint-bytes, uvarint_len-bytes, length-uvarint_bytes_pos}
use hyper_gnomon.Codec.LenString.Laws.{len_string}
use hyper_gnomon.Codec.Variables.{
  Value, string, uint64, int64, int, float64, other, ScidVariable, tag_scid_variables_v1,
}
use hyper_gnomon.Codec.Variables.{
  to_string_best, append_var_field, append_string_field, size_var_field, append_vars, size_vars,
}
use hyper_gnomon.Codec.Variables.{
  marshal_scid_variables_typed_append, marshal_scid_variables_typed, marshal_size,
}
use hyper_gnomon.Codec.Variables.{
  read_string_body, read_kind, read_var_field, pair_up, double, unmarshal_scid_variables_typed,
}
use hyper_gnomon.Codec.Variables.Laws.{read_fields}
use hyper_gnomon.Codec.Variables.Passes.{
  direct_variables, direct_scid_variables_typed, unmarshal-direct_scid_variables_typed,
}

-- What a value comes back as: the other numbers as the text of itoaBase10, all else as the empty
-- text.
abbrev pub normal : Value → Value
normal (string s) = string s
normal (uint64 x) = uint64 x
normal (int64 x) = string (itoa_base10 x)
normal (int x) = string (itoa_base10 x)
normal (float64 x) = string (itoa_base10 x)
normal other = string []

abbrev pub normal_variable : ScidVariable → ScidVariable
normal_variable v = record { key = normal v.key; value = normal v.value }

-- Strings have uint64 lengths, and numbers are uint64s.
abbrev pub IsEncodable : Value → Type 0
IsEncodable (uint64 x) = IsU64 x
IsEncodable (string s) = IsU64 (length s)
IsEncodable v = IsU64 (length (to_string_best v))

abbrev text_bytes : Bytes → Bytes
text_bytes s = 1 ∷ len_string s

abbrev field_bytes : Value → Bytes
field_bytes (string s) = text_bytes s
field_bytes (uint64 x) = 2 ∷ be_bytes 8 x
field_bytes v = text_bytes (to_string_best v)

append_string_field_lem : (dst s : Bytes) → append_string_field dst s ≡ dst ++ text_bytes s
unfolding append_uvarint
append_string_field_lem dst s = simp append_assoc

append_var_field_lem : (dst : Bytes) (v : Value) → append_var_field dst v ≡ dst ++ field_bytes v
unfolding append_var_field
append_var_field_lem dst (string s) = append_string_field_lem dst s
append_var_field_lem dst (uint64 x) = append_assoc dst (2 ∷ []) (be_bytes 8 x)
append_var_field_lem dst (int64 x) = append_string_field_lem dst (to_string_best (int64 x))
append_var_field_lem dst (int x) = append_string_field_lem dst (to_string_best (int x))
append_var_field_lem dst (float64 x) = append_string_field_lem dst (to_string_best (float64 x))
append_var_field_lem dst other = append_string_field_lem dst (to_string_best other)

length-text_bytes :
    (s : Bytes) → IsU64 (length s) → length (text_bytes s) ≡ 1 + uvarint_len (length s) + length s
length-text_bytes s h =
    omega (arith, length-append (uvarint_bytes 10 (length s)) s, uvarint_len-bytes (length s) h)

size_var_field_lem : (v : Value) → IsEncodable v → size_var_field v ≡ length (field_bytes v)
unfolding size_var_field
size_var_field_lem (string s) h = sym (length-text_bytes s h)
size_var_field_lem (uint64 x) h = omega (arith, length-be_bytes 8 x)
size_var_field_lem (int64 x) h = sym (length-text_bytes (to_string_best (int64 x)) h)
size_var_field_lem (int x) h = sym (length-text_bytes (to_string_best (int x)) h)
size_var_field_lem (float64 x) h = sym (length-text_bytes (to_string_best (float64 x)) h)
size_var_field_lem other h = sym (length-text_bytes (to_string_best other) h)

-- A string behind its kind and its length is read where it stands.
text_found :
    (s : Bytes) (pos : ℕ) {b : Bytes} (pre post : Bytes)
    → b ≡ pre ++ (text_bytes s ++ post)
    → pos ≡ length pre
    → IsU64 (length s)
    → read_var_field b pos ≡ ok (string s, pos + length (text_bytes s))
unfolding read_var_field read_kind read_string_body
text_found s pos {b} pre post e at h =
    rw (room, kind_found, number_found)
      (rw (inside, fits, body) (ap (λ (t : ℕ). ok (string s, t)) reached))
  where
    front : Bytes
    front = uvarint_bytes 10 (length s)

    kind : Bytes
    kind = pre ++ (1 ∷ [])

    start : ℕ
    start = pos + 1 + length front

    at_length : b ≡ kind ++ (front ++ (s ++ post))
    at_length = e ∙ simp append_assoc

    at_body : b ≡ (kind ++ front) ++ (s ++ post)
    at_body = at_length ∙ sym (append_assoc kind front (s ++ post))

    start_lem : start ≡ length (kind ++ front)
    start_lem = omega (arith, at, length-append pre (1 ∷ []), length-append kind front)

    total : length b ≡ start + length s + length post
    total =
        ap length at_body
        ∙ omega (arith, start_lem, length-append (kind ++ front) (s ++ post), length-append s post)

    room : leb (length b) pos ≡ false
    room = lt→not-leb _ _ (omega (arith, total))

    kind_found : get_or b pos 0 ≡ 1
    kind_found = rw (at, e) (get_or-append pre (len_string s ++ post) 1 0)

    number_found : uvarint (drop (pos + 1) b) ≡ some (length s, length front)
    number_found =
        let behind : pos + 1 ≡ length kind = omega (arith, at, length-append pre (1 ∷ [])) in
        rw (behind, at_length, drop-append_self kind (front ++ (s ++ post)))
          (uvarint-bytes (length s) (s ++ post) h)

    inside : ltb (length b - start) (length s) ≡ false
    inside = le→not-ltb _ _ (omega (arith, total))

    fits : ltb (length b) (start + length s) ≡ false
    fits = le→not-ltb _ _ (omega (arith, total))

    body : slice b start (start + length s) ≡ s
    body = rw (start_lem, at_body) (slice_middle (kind ++ front) s post)

    reached : start + length s ≡ pos + length (text_bytes s)
    reached = omega (arith, length-append front s)

number_found :
    (x : ℕ) (pos : ℕ) {b : Bytes} (pre post : Bytes)
    → b ≡ pre ++ ((2 ∷ be_bytes 8 x) ++ post)
    → pos ≡ length pre
    → IsU64 x
    → read_var_field b pos ≡ ok (uint64 x, pos + length (2 ∷ be_bytes 8 x))
unfolding read_var_field read_kind
number_found x pos {b} pre post e at h =
    rw (room, kind_found, fits, word) (ap (λ (t : ℕ). ok (uint64 x, t)) reached)
  where
    kind : Bytes
    kind = pre ++ (2 ∷ [])

    behind : pos + 1 ≡ length kind
    behind = omega (arith, at, length-append pre (2 ∷ []))

    at_word : b ≡ kind ++ (be_bytes 8 x ++ post)
    at_word = e ∙ simp append_assoc

    total : length b ≡ pos + 1 + 8 + length post
    total =
        ap length at_word
        ∙ omega (
          arith,
          behind,
          length-append kind (be_bytes 8 x ++ post),
          length-append (be_bytes 8 x) post,
          length-be_bytes 8 x,
        )

    room : leb (length b) pos ≡ false
    room = lt→not-leb _ _ (omega (arith, total))

    kind_found : get_or b pos 0 ≡ 2
    kind_found = rw (at, e) (get_or-append pre (be_bytes 8 x ++ post) 2 0)

    fits : ltb (length b) (pos + 1 + 8) ≡ false
    fits = le→not-ltb _ _ (omega (arith, total))

    word : be_fold 0 (slice b (pos + 1) (pos + 1 + 8)) ≡ x
    word = word_found 8 x (pos + 1) (pos + 1 + 8) kind post at_word behind refl h

    reached : pos + 1 + 8 ≡ pos + length (2 ∷ be_bytes 8 x)
    reached = omega (arith, length-be_bytes 8 x)

field_found :
    (v : Value) (pos : ℕ) {b : Bytes} (pre post : Bytes)
    → b ≡ pre ++ (field_bytes v ++ post)
    → pos ≡ length pre
    → IsEncodable v
    → read_var_field b pos ≡ ok (normal v, pos + length (field_bytes v))
unfolding to_string_best
field_found (string s) pos pre post e at h = text_found s pos pre post e at h
field_found (uint64 x) pos pre post e at h = number_found x pos pre post e at h
field_found (int64 x) pos pre post e at h =
    text_found (to_string_best (int64 x)) pos pre post e at h
field_found (int x) pos pre post e at h = text_found (to_string_best (int x)) pos pre post e at h
field_found (float64 x) pos pre post e at h =
    text_found (to_string_best (float64 x)) pos pre post e at h
field_found other pos pre post e at h = text_found (to_string_best other) pos pre post e at h

-- The fields of the variables in the order in which they are written.
abbrev values : List ScidVariable → List Value
values [] = []
values (v ∷ vs) = v.key ∷ v.value ∷ values vs

abbrev fields_bytes : List Value → Bytes
fields_bytes [] = []
fields_bytes (v ∷ vs) = field_bytes v ++ fields_bytes vs

fields_found :
    (vs : List Value) (pos : ℕ) {b : Bytes} (pre post : Bytes)
    → b ≡ pre ++ (fields_bytes vs ++ post)
    → pos ≡ length pre
    → All IsEncodable vs
    → read_fields (length vs) b pos ≡ ok (map normal vs)
unfolding read_fields
fields_found [] pos pre post e at h = refl
fields_found (v ∷ vs) pos {b} pre post e at h =
    rw
      (
        field_found v pos pre (fields_bytes vs ++ post) whole at h.0,
        fields_found vs (pos + length (field_bytes v)) (pre ++ field_bytes v) post
            (whole ∙ sym (append_assoc pre (field_bytes v) (fields_bytes vs ++ post)))
            (omega (arith, at, length-append pre (field_bytes v))) h.1,
      )
      refl
  where
    whole : b ≡ pre ++ (field_bytes v ++ (fields_bytes vs ++ post))
    whole = e ∙ ap (λ (t : Bytes). pre ++ t) (append_assoc (field_bytes v) (fields_bytes vs) post)

length-values : (vars : List ScidVariable) → length (values vars) ≡ double (length vars)
length-values [] = refl
length-values (v ∷ vs) = ap (λ (t : ℕ). suc (suc t)) (length-values vs)

pair_up-values :
    (vars : List ScidVariable) → pair_up (map normal (values vars)) ≡ map normal_variable vars
unfolding pair_up
pair_up-values [] = refl
pair_up-values (v ∷ vs) = ap (λ (t : List ScidVariable). normal_variable v ∷ t) (pair_up-values vs)

append_vars_lem :
    (dst : Bytes) (vars : List ScidVariable)
    → append_vars dst vars ≡ dst ++ fields_bytes (values vars)
unfolding append_vars
append_vars_lem dst [] = sym (append-nil dst)
append_vars_lem dst (v ∷ vs) =
    append_vars_lem (append_var_field (append_var_field dst v.key) v.value) vs
    ∙ simp (append_var_field_lem, append_assoc)

abbrev encoded : List ScidVariable → Bytes
encoded vars = tag_scid_variables_v1 ∷ (be_bytes 4 (length vars) ++ fields_bytes (values vars))

shape : (vars : List ScidVariable) → marshal_scid_variables_typed vars ≡ encoded vars
unfolding marshal_scid_variables_typed marshal_scid_variables_typed_append
shape vars = append_vars_lem (tag_scid_variables_v1 ∷ be_bytes 4 (length vars)) vars

-- Keys and values can be encoded.
abbrev pub AllEncodable : List ScidVariable → Type 0
AllEncodable vars = All IsEncodable (values vars)

size_vars_lem :
    (size : ℕ) (vars : List ScidVariable)
    → AllEncodable vars
    → size_vars size vars ≡ size + length (fields_bytes (values vars))
unfolding size_vars
size_vars_lem size [] h = omega arith
size_vars_lem size (v ∷ vs) h = omega (
  arith,
  size_vars_lem (size + (size_var_field v.key + size_var_field v.value)) vs h.1.1,
  size_var_field_lem v.key h.0,
  size_var_field_lem v.value h.1.0,
  length-append (field_bytes v.key) (field_bytes v.value ++ fields_bytes (values vs)),
  length-append (field_bytes v.value) (fields_bytes (values vs)),
)

-- The capacity that MarshalSCIDVariablesTyped asks for is the length of the encoding, if the values
-- can be encoded: sizeVarField counts what appendVarField writes.
pub marshal_size-scid_variables :
    (vars : List ScidVariable)
    → AllEncodable vars
    → marshal_size vars ≡ length (marshal_scid_variables_typed vars)
unfolding marshal_size
marshal_size-scid_variables vars h = rw (shape vars) (
    omega (
      arith,
      size_vars_lem 5 vars h,
      length-be_bytes 4 (length vars),
      length-append (be_bytes 4 (length vars)) (fields_bytes (values vars)),
    ))

two-le-length-text : (s : Bytes) → 2 ≤ length (text_bytes s)
two-le-length-text s =
    omega
      (arith, length-append (uvarint_bytes 10 (length s)) s, length-uvarint_bytes_pos 9 (length s))

two-le-length-field_bytes : (v : Value) → 2 ≤ length (field_bytes v)
two-le-length-field_bytes (uint64 x) = omega (arith, length-be_bytes 8 x)
two-le-length-field_bytes (string s) = two-le-length-text s
two-le-length-field_bytes (int64 x) = two-le-length-text (to_string_best (int64 x))
two-le-length-field_bytes (int x) = two-le-length-text (to_string_best (int x))
two-le-length-field_bytes (float64 x) = two-le-length-text (to_string_best (float64 x))
two-le-length-field_bytes other = two-le-length-text (to_string_best other)

four_each : (vars : List ScidVariable) → length vars * 4 ≤ length (fields_bytes (values vars))
four_each [] = omega arith
four_each (v ∷ vs) = omega (
  arith,
  four_each vs,
  two-le-length-field_bytes v.key,
  two-le-length-field_bytes v.value,
  length-append (field_bytes v.key) (field_bytes v.value ++ fields_bytes (values vs)),
  length-append (field_bytes v.value) (fields_bytes (values vs)),
)

module _ (vars : List ScidVariable) (junk b : Bytes) (short : length vars < 2 ^ 32)
    (h : AllEncodable vars) (e : b ≡ encoded vars ++ junk) where
  abbrev header : Bytes
  header = tag_scid_variables_v1 ∷ be_bytes 4 (length vars)

  width : length header ≡ 5
  width = omega (arith, length-be_bytes 4 (length vars))

  at_fields : b ≡ header ++ (fields_bytes (values vars) ++ junk)
  at_fields = e ∙ append_assoc header (fields_bytes (values vars)) junk

  total : length b ≡ 5 + length (fields_bytes (values vars)) + length junk
  total =
      ap length at_fields
      ∙ omega (
        arith,
        width,
        length-append header (fields_bytes (values vars) ++ junk),
        length-append (fields_bytes (values vars)) junk,
      )

  header_room : ltb (length b) 5 ≡ false
  header_room = le→not-ltb _ _ (omega (arith, total))

  tag_found : get_or b 0 0 ≡ tag_scid_variables_v1
  tag_found = rw e

  count_found : be_fold 0 (slice b 1 5) ≡ length vars
  count_found =
      word_found 4 (length vars) 1 5 (tag_scid_variables_v1 ∷ [])
        (fields_bytes (values vars) ++ junk) at_fields refl refl short

  count_room : ltb (length b - 5) (length vars * 4) ≡ false
  count_room = le→not-ltb _ _ (omega (arith, total, four_each vars))

  variables_found : read_fields (double (length vars)) b 5 ≡ ok (map normal (values vars))
  variables_found =
      rw (← length-values vars) (fields_found (values vars) 5 header junk at_fields (sym width) h)

  direct-shape : direct_scid_variables_typed b ≡ ok (map normal_variable vars)
  unfolding direct_scid_variables_typed direct_variables
  direct-shape =
      rw (header_room, tag_found, count_found, count_room)
        (rw (variables_found, pair_up-values vars) refl)

-- A slice of fewer than 2^32 variables whose values can be encoded is decoded from its typed
-- encoding, also with other bytes behind it, to the same variables, where an int64, an int and a
-- float64 come back as the text that itoaBase10 writes of the number, and a value that is none of
-- these, a string or a uint64 comes back as the empty string.
pub unmarshal-marshal_scid_variables_typed :
    (vars : List ScidVariable) (junk : Bytes)
    → length vars < 2 ^ 32
    → AllEncodable vars
    → unmarshal_scid_variables_typed (marshal_scid_variables_typed vars ++ junk)
      ≡ ok (map normal_variable vars)
unmarshal-marshal_scid_variables_typed vars junk short h =
    unmarshal-direct_scid_variables_typed (marshal_scid_variables_typed vars ++ junk)
    ∙ direct-shape vars junk (marshal_scid_variables_typed vars ++ junk) short h
        (ap (λ (t : Bytes). t ++ junk) (shape vars))
