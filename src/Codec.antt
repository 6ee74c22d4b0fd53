-- ===== src/Codec.antt =====
-- structures/typed_encoding.go: the typed v1 encodings of the records that the store keeps.
pub mod Words
pub mod Varint
pub mod LenString
pub mod Arena
pub mod AddrScid
pub mod Install
pub mod NormalTx
pub mod ScCode
pub mod SctxTurbo
pub mod TelaContent
pub mod ClassMeta
pub mod Decimal
pub mod Variables
mod Examples
mod RecordExamples
pub use hyper_gnomon.Base.Texts.{Bytes}
use hyper_gnomon.Base.{ℕ, ◌<◌, ◌^◌, ◌≡◌, refl, ◌≢◌, ◌⊎◌, inl, inr, List, Option}

abbrev pub IsByte : ℕ → Type 0
IsByte b = b < 256

abbrev pub IsU64 : ℕ → Type 0
IsU64 n = n < 2 ^ 64

-- The package's error values.
pub data Error : Type 0 where
  invalid_addr_scid_entry invalid_install_record invalid_normal_tx : Error
  invalid_sctx_parse_turbo invalid_scid_variables invalid_class_meta : Error
  invalid_sc_code_entry invalid_tela_content_entry : Error

-- A (value, error) pair of a parsing helper, or a run-time panic.
pub data Result {ℓ} (R : Type ℓ) : Type ℓ where
  panic : Result R
  err : Error → Result R
  ok : R → Result R

infixl 5 ◌>>=◌
abbrev pub ◌>>=◌ {ℓ κ} : {R : Type ℓ} {S : Type κ} → Result R → (R → Result S) → Result S
panic >>= next = panic
err x >>= next = err x
ok r >>= next = next r

-- What a decoding method leaves behind: the receiver, which it may have overwritten in part, and
-- the error; or a run-time panic.
pub data Decoded {ℓ} (R : Type ℓ) : Type ℓ where
  returns : R → Option Error → Decoded R
  panics : Decoded R

pub >>=-eq-ok {ℓ κ} :
    {R : Type ℓ} {S : Type κ} (first : Result R) (next : R → Result S) {s : S}
    → (first >>= next) ≡ ok s
    → (r : R) × (first ≡ ok r) × (next r ≡ ok s)
>>=-eq-ok panic next h = cc
>>=-eq-ok (err x) next h = cc
>>=-eq-ok (ok r) next h = (r, refl, h)

pub Result-cases {ℓ} :
    {A : Type ℓ} (m : Result A) → ((a : A) × (m ≡ ok a)) ⊎ ((e : Error) × (m ≡ err e)) ⊎ (m ≡ panic)
Result-cases (ok a) = inl (a, refl)
Result-cases (err e) = inr (inl (e, refl))
Result-cases panic = inr (inr refl)

pub >>=-ne-panic {ℓ κ} :
    {A : Type ℓ} {B : Type κ} (m : Result A) (f : A → B) → m ≢ panic → (m >>= λ t. ok (f t)) ≢ panic
>>=-ne-panic (ok a) f h = λ e. cc
>>=-ne-panic (err x) f h = λ e. cc
>>=-ne-panic panic f h = absurd (h refl)
