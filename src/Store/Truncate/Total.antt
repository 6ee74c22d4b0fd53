-- ===== src/Store/Truncate/Total.antt =====
-- A truncation ends without an error if all names that it writes under are keys of the database.
use hyper_gnomon.Base.{
  ℕ, zero, suc, ◌+◌, ◌-◌, ◌/◌, ◌%◌, ◌^◌, ◌≤◌, ◌==◌, ◌++◌, ◌≡◌, refl, sym, subst, inl, inr, arith,
  length, le→leb, if_yes, if_no, length-append, List, [], ◌∷◌, Option, none, some, Bool-cases, All,
}
use hyper_gnomon.Base.Int.{ℤ, pos, negsuc}
use hyper_gnomon.Base.Texts.{Bytes}
use hyper_gnomon.Base.Dict.{has, keys}
use hyper_gnomon.Base.Strconv.{put_digits, format_int}
use hyper_gnomon.Codec.AddrScid
use hyper_gnomon.Codec.AddrScid.{AddrScidEntry}
use hyper_gnomon.Codec.Words.{be_bytes, int64_bits}
use hyper_gnomon.Codec.Words.Laws.{length-be_bytes}
use hyper_gnomon.Store.Keys.Laws.{length-enc_height}
use hyper_gnomon.Codec.Install.{InstallRecord}
use hyper_gnomon.Codec.ClassMeta.{ClassMeta}
use hyper_gnomon.Store.Keys.{enc_height}
use hyper_gnomon.Store.Touch.{Entries, lookup}
use hyper_gnomon.Store.Bolt.{Engine, IsLawful, IsKey, IsValue}
use hyper_gnomon.Store.Truncate.{
  Rows, ◌>>=◌, addr_op, addr_ops, apply_ops, apply_addr_scid_rollback, set_pointer, lower_pointers,
  max_surviving_sc_vars_height, put_count, int_at, trim_stats, trim_snapshots, new_count, new_last,
  sc_count, last_indexed_height, drop_entities, installed_above, survivors, affected_scids, Db,
  truncate_to_height, not_below_zero,
}
use hyper_gnomon.Store.Truncate.Survivors.{key_of}

abbrev Succeeds : {A : Type 0} → Option A → Type 0
Succeeds {A} o = (a : A) × (o ≡ some a)

then-Succeeds :
    {A B : Type 0} (m : Option A) (next : A → Option B)
    → Succeeds m
    → ((a : A) → Succeeds (next a))
    → Succeeds (m >>= next)
then-Succeeds none next h k = cc (h.1)
then-Succeeds (some a) next h k = k a

-- The values that a truncation writes are short.
short-IsValue : (v : Bytes) → length v ≤ 64 → IsValue v
short-IsValue v h = le→leb (length v) (2 ^ 31 - 2) (omega (arith, h))

enc_height-IsValue : (h : ℤ) → IsValue (enc_height h)
enc_height-IsValue h = short-IsValue (enc_height h) (omega (arith, length-enc_height h))

length-put_digits : (f n : ℕ) (acc : Bytes) → length (put_digits f n acc) ≤ f + length acc
unfolding put_digits
length-put_digits zero n acc = omega arith
length-put_digits (suc f) n acc = ground (arith, length-put_digits f (n / 10) ((48 + n % 10) ∷ acc))

format_int-IsValue : (z : ℤ) → IsValue (format_int z)
unfolding format_int
format_int-IsValue (pos n) =
    short-IsValue (put_digits 20 n []) (omega (arith, length-put_digits 20 n []))
format_int-IsValue (negsuc n) =
    short-IsValue (45 ∷ put_digits 20 (n + 1) []) (omega (arith, length-put_digits 20 (n + 1) []))

entry-IsValue : (e : AddrScidEntry) → IsValue (AddrScid.marshal_typed_append e [])
unfolding AddrScid.marshal_typed_append
entry-IsValue e =
    let word : (z : ℤ) → Bytes = λ z. be_bytes 8 (int64_bits z) in
    let one = 1 ∷ word e.first_height in
    let two = one ++ word e.last_height in
    short-IsValue (two ++ word e.count) (
      omega (
        arith,
        length-append two (word e.count),
        length-append one (word e.last_height),
        length-be_bytes 8 (int64_bits e.first_height),
        length-be_bytes 8 (int64_bits e.last_height),
        length-be_bytes 8 (int64_bits e.count),
      ))

-- A text that is put, where one is.
Fits : Option Bytes → Type 0
Fits none = Unit {0}
Fits (some v) = IsValue v

addr_op-Fits : (o : Option AddrScidEntry) → Fits (addr_op o)
unfolding Fits
addr_op-Fits none = tt
addr_op-Fits (some e) = entry-IsValue e

new_count-Fits : (n : ℕ) (o : Option ℤ) → Fits (new_count n o)
unfolding Fits
new_count-Fits n none = tt
new_count-Fits n (some cur) = elim (Bool-cases (n == 0)) [
  | inl e ↦ subst Fits (sym (if_yes (n == 0) none _ e)) tt
  | inr e ↦ subst Fits (sym (if_no (n == 0) none _ e)) (format_int-IsValue _)
]

sc_count-IsKey : IsKey sc_count
sc_count-IsKey = (refl, refl)

last_indexed_height-IsKey : IsKey last_indexed_height
last_indexed_height-IsKey = (refl, refl)

module _ (D : Engine) (L : IsLawful D) where
  apply_ops-Succeeds :
      (aff : List Bytes) (acc : Entries) (addr : Bytes) (m : Rows) (b : D.Bucket)
      → All IsKey (keys m)
      → Succeeds (apply_ops D (addr_ops aff acc addr m) b)
  unfolding apply_ops Fits
  apply_ops-Succeeds aff acc addr [] b h = (b, refl)
  apply_ops-Succeeds aff acc addr ((k, v) ∷ m) b h = elim (Bool-cases (has k aff)) [
    | inr away ↦ rw away (apply_ops-Succeeds aff acc addr m b h.1)
    | inl near ↦ rw near (
        one (addr_op (lookup (key_of addr k) acc)) (addr_op-Fits (lookup (key_of addr k) acc))
          (λ c. apply_ops-Succeeds aff acc addr m c h.1))
  ]
    where
      one :
          (o : Option Bytes)
          → Fits o
          → ((c : D.Bucket) → Succeeds (apply_ops D (addr_ops aff acc addr m) c))
          → Succeeds (apply_ops D ((k, o) ∷ addr_ops aff acc addr m) b)
      one none fits rest = rest (D.delete k b)
      one (some w) fits rest = then-Succeeds (D.put k w b) _ (L.put_key k w b h.0 fits) rest

  -- Every entry of every address has a key of the database, as a bucket that bbolt filled does.
  abbrev pub HasKeys : List (Bytes × D.Bucket) → Type 0
  HasKeys [] = Unit {0}
  HasKeys ((addr, b) ∷ l) = All IsKey (keys (D.entries b)) × HasKeys l

  rollback-Succeeds :
      (aff : List Bytes) (acc : Entries) (l : List (Bytes × D.Bucket))
      → HasKeys l
      → Succeeds (apply_addr_scid_rollback D aff acc l)
  unfolding apply_addr_scid_rollback
  rollback-Succeeds aff acc [] h = ([], refl)
  rollback-Succeeds aff acc ((addr, b) ∷ l) h =
      then-Succeeds (apply_ops D (addr_ops aff acc addr (D.entries b)) b) _
        (apply_ops-Succeeds aff acc addr (D.entries b) b h.0)
        (λ b'.
          then-Succeeds (apply_addr_scid_rollback D aff acc l) _ (rollback-Succeeds aff acc l h.1)
            (λ l'. ((addr, b') ∷ l', refl)))

  set_pointer-Succeeds :
      (scid : Bytes) (max : ℤ) (b : D.Bucket) → IsKey scid → Succeeds (set_pointer D scid max b)
  unfolding set_pointer
  set_pointer-Succeeds scid (pos zero) b h = (D.delete scid b, refl)
  set_pointer-Succeeds scid (pos (suc n)) b h =
      L.put_key scid (enc_height (pos (suc n))) b h (enc_height-IsValue (pos (suc n)))
  set_pointer-Succeeds scid (negsuc n) b h =
      L.put_key scid (enc_height (negsuc n)) b h (enc_height-IsValue (negsuc n))

  lower_pointers-Succeeds :
      (h : ℤ) (vars : D.Bucket) (l : List Bytes) (b : D.Bucket)
      → All IsKey l
      → Succeeds (lower_pointers D h vars l b)
  unfolding lower_pointers
  lower_pointers-Succeeds h vars [] b k = (b, refl)
  lower_pointers-Succeeds h vars (scid ∷ l) b k =
      then-Succeeds (set_pointer D scid (max_surviving_sc_vars_height D vars scid h) b) _
        (set_pointer-Succeeds scid (max_surviving_sc_vars_height D vars scid h) b k.0)
        (λ c. lower_pointers-Succeeds h vars l c k.1)

  put_count-Succeeds : (o : Option Bytes) (b : D.Bucket) → Fits o → Succeeds (put_count D o b)
  unfolding put_count Fits
  put_count-Succeeds none b fits = (b, refl)
  put_count-Succeeds (some v) b fits = L.put_key sc_count v b sc_count-IsKey fits

  trim_stats-Succeeds : (h : ℤ) (n : ℕ) (b : D.Bucket) → Succeeds (trim_stats D h n b)
  unfolding trim_stats
  trim_stats-Succeeds h n b =
      then-Succeeds (put_count D (new_count n (int_at D sc_count b)) b) _
        (put_count-Succeeds (new_count n (int_at D sc_count b)) b
          (new_count-Fits n (int_at D sc_count b)))
        (λ c.
          L.put_key last_indexed_height (format_int (new_last h (int_at D last_indexed_height c))) c
            last_indexed_height-IsKey (format_int-IsValue _))

module _ (D : Engine) (L : IsLawful D) (mi : Bytes → Option InstallRecord)
    (mc : Bytes → Option ClassMeta) where
  -- A truncation ends without an error, if the affected contracts and the contracts that the
  -- addresses have entries for are keys that the database takes (not empty, of at most 32768
  -- bytes), and the database has the assumed laws.
  pub truncate_to_height_total :
      (height : ℤ) (s : Db D)
      → HasKeys D L s.addr_scids
      → All IsKey (affected_scids D (not_below_zero height) s)
      → (t : Db D) × (truncate_to_height D mi mc height s ≡ some t)
  unfolding truncate_to_height
  truncate_to_height_total height s ha hk =
      let h = not_below_zero height in
      let aff = affected_scids D h s in
      then-Succeeds (apply_addr_scid_rollback D aff (survivors D mi h aff s) s.addr_scids) _
        (rollback-Succeeds D L aff (survivors D mi h aff s) s.addr_scids ha)
        (λ addrs.
          then-Succeeds (lower_pointers D h (trim_snapshots D h s.sc_vars) aff s.sc_vars_latest) _
            (lower_pointers-Succeeds D L h (trim_snapshots D h s.sc_vars) aff s.sc_vars_latest hk)
            (λ latest.
              then-Succeeds
                (trim_stats D h (drop_entities D mc (installed_above D h s []) s 0).1 s.stats) _
                (trim_stats-Succeeds D L h (drop_entities D mc (installed_above D h s []) s 0).1
                  s.stats)
                (λ stats. (_, refl))))
