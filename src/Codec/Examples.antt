-- ===== src/Codec/Examples.antt =====
-- The codec's theorems at concrete records and inputs.
use hyper_gnomon.Base.{
  ap, ◌-◌, ◌^◌, ◌≡◌, ◌≢◌, refl, arith, [], ◌∷◌, ◌++◌, none, replicate, Bool, true, ◌&&◌, ltb, All,
}
use hyper_gnomon.Base.Int.{pos, negsuc, neg_part}
use hyper_gnomon.Base.Texts.{Bytes, text}
use hyper_gnomon.Codec.{returns, IsByte}
use hyper_gnomon.Codec.Words.{be_fold, int64_from_bits}
use hyper_gnomon.Codec.AddrScid
use hyper_gnomon.Codec.Install
use hyper_gnomon.Codec.NormalTx
use hyper_gnomon.Codec.ScCode
use hyper_gnomon.Codec.TelaContent
use hyper_gnomon.Codec.TelaContent.Laws.{unmarshal-marshal_tela_content}

abbrev blank_entry : AddrScid.AddrScidEntry
blank_entry = record { first_height = pos 0; last_height = pos 0; count = pos 0 }

abbrev touched : AddrScid.AddrScidEntry
touched = record { first_height = pos 1200000; last_height = pos 1300007; count = pos 42 }

abbrev install : Install.InstallRecord
install = record { owner = text "dero1qy"; entrypoint = text "Initialize"; fees = 2500 }

abbrev no_install : Install.InstallRecord
no_install = record { owner = []; entrypoint = []; fees = 0 }

abbrev transfer : NormalTx.NormalTx
transfer = record { txid = text "ab12"; scid = text "cd34"; fees = 80; height = pos 99 }

abbrev no_transfer : NormalTx.NormalTx
no_transfer = record { txid = []; scid = []; fees = 0; height = pos 0 }

abbrev contract : ScCode.ScCodeEntry
contract = record { code = text "Function Initialize() Uint64"; install_height = pos 17 }

abbrev no_contract : ScCode.ScCodeEntry
no_contract = record { code = []; install_height = pos 0 }

abbrev page : TelaContent.TelaContentEntry
page = record { body = text "<html>"; mime = text "text/html"; etag = text "e1"; height = pos 5 }

abbrev no_page : TelaContent.TelaContentEntry
no_page = record { body = []; mime = []; etag = []; height = pos 0 }

unmarshal-marshal_tela_content_example :
    TelaContent.unmarshal_typed no_page (TelaContent.marshal_typed page) ≡ returns page none
unmarshal-marshal_tela_content_example =
    unmarshal-marshal_tela_content no_page page
      (record { height = omega arith; mime = omega arith; etag = omega arith })

not_least : negsuc 1233 ≢ negsuc (2 ^ 63 - 1)
not_least e = omega (arith, ap neg_part e)

-- A list whose bytes are tested one by one.
all_bytes : Bytes → Bool
all_bytes [] = true
all_bytes (x ∷ xs) = ltb x 256 && all_bytes xs

All-decided : (b : Bytes) → all_bytes b ≡ true → All IsByte b
unfolding all_bytes
All-decided [] h = _
All-decided (x ∷ xs) h = (ground (arith, h), All-decided xs (ground (arith, h)))

abbrev entry_bytes : Bytes
entry_bytes = 1 ∷ replicate 24 0

entry_decoded : AddrScid.unmarshal_typed touched entry_bytes ≡ returns blank_entry none
unfolding AddrScid.unmarshal_typed be_fold int64_from_bits
entry_decoded = refl

abbrev code_bytes : Bytes
code_bytes = 3 ∷ (replicate 8 0 ++ text "End")

abbrev short_code : ScCode.ScCodeEntry
short_code = record { code = text "End"; install_height = pos 0 }

code_decoded : ScCode.unmarshal_typed no_contract code_bytes ≡ returns short_code none
unfolding ScCode.unmarshal_typed be_fold int64_from_bits
code_decoded = refl
