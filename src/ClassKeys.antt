-- ===== src/ClassKeys.antt =====
-- indexer/classkeys.go: which variables of a contract a refresh asks the daemon for, and the
-- variables that it makes of the answer.
pub mod Answers
pub mod Schedule
mod Examples
use hyper_gnomon.Base.{
  ℕ, zero, suc, ◌+◌, ◌-◌, ◌%◌, ◌^◌, List, [], ◌∷◌, ◌++◌, Bool, true, false, ◌&&◌, Option, none,
  some,
}
use hyper_gnomon.Base.{length, take, get_or, ltb, leb, ◌==◌, if◌then◌else◌}
use hyper_gnomon.Base.Texts.{Bytes, bytes_eq, text}
use hyper_gnomon.Codec.Variables.{ScidVariable, string}

abbrev pub full_refresh_every : ℕ
full_refresh_every = 10

abbrev pub doc_keys : List Bytes
doc_keys =
    text "var_header_name"
    ∷ text "var_header_description"
    ∷ text "var_header_icon"
    ∷ text "nameHdr"
    ∷ text "descrHdr"
    ∷ text "iconURLHdr"
    ∷ text "dURL"
    ∷ text "docType"
    ∷ text "subDir"
    ∷ text "docVersion"
    ∷ text "fileCheckC"
    ∷ text "fileCheckS"
    ∷ []

-- `classKeys[class]`; a missing key gives nil.
unfoldable pub class_keys : Bytes → List Bytes
class_keys class = if bytes_eq class (text "TELA-DOC-1") then doc_keys else []

-- The counters by class, each the bit pattern of an int64.
abbrev pub Counters : Type 0
Counters = List (Bytes × ℕ)

-- `LoadOrStore` and `Add(1)`: the new count and the counters.
unfoldable pub bump : Bytes → Counters → ℕ × Counters
bump class [] = (1, (class, 1) ∷ [])
bump class ((c, n) ∷ more) =
    let rest = bump class more in
    if bytes_eq c class
    then ((n + 1) % 2 ^ 64, (c, (n + 1) % 2 ^ 64) ∷ more)
    else (rest.0, (c, n) ∷ rest.1)

-- The magnitude of the int64 with the bit pattern n, which a remainder of zero depends on.
unfoldable pub magnitude : ℕ → ℕ
magnitude n = if ltb n (2 ^ 63) then n else 2 ^ 64 - n

-- `none` is nil, the full manifest.
unfoldable pub pick_refresh_keys : Bytes → Counters → Option (List Bytes) × Counters
pick_refresh_keys class counters =
    let keys = class_keys class in
    let (n, counters') = bump class counters in
    if length keys == 0
    then (none, counters)
    else if magnitude n % full_refresh_every == 0
    then (none, counters')
    else (some keys, counters')

abbrev pub not_available : Bytes → Bool
not_available v = leb 13 (length v) && bytes_eq (take 13 v) (text "NOT AVAILABLE")

-- `for i := 0; i < n; i++`, from `i` on with `k` rounds left.
unfoldable pub zip_loop : ℕ → ℕ → List Bytes → List Bytes → List ScidVariable
zip_loop zero i keys values = []
zip_loop (suc k) i keys values =
    let rest = zip_loop k (i + 1) keys values in
    let v = get_or values i [] in
    if not_available v
    then rest
    else record { key = string (get_or keys i []); value = string v } ∷ rest

unfoldable pub sc_vars_from_key_values : List Bytes → List Bytes → List ScidVariable
sc_vars_from_key_values keys values =
    let n = length keys in
    zip_loop (if ltb (length values) n then length values else n) 0 keys values

-- The parameters of a GetSC call.
pub record GetScParams : Type 0 where
  pub scid : Bytes
  pub variables : Bool
  pub keys_string : List Bytes

unfoldable pub build_get_sc_params : Bytes → Option (List Bytes) → GetScParams
build_get_sc_params scid none = record { scid = scid; variables = true; keys_string = [] }
build_get_sc_params scid (some keys) = record { scid = scid; variables = false; keys_string = keys }
