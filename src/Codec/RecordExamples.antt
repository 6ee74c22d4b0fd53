-- ===== src/Codec/RecordExamples.antt =====
-- The theorems on the records with many strings, at concrete records and inputs.
use hyper_gnomon.Base.{ℕ, ◌≡◌, ◌≢◌, refl, arith, List, [], ◌∷◌, ◌++◌, map, length, none}
use hyper_gnomon.Base.Int.{pos, negsuc}
use hyper_gnomon.Base.Texts.{text}
use hyper_gnomon.Codec.{ok, panic, returns}
use hyper_gnomon.Codec.Decimal.{itoa_base10}
use hyper_gnomon.Codec.ClassMeta
use hyper_gnomon.Codec.ClassMeta.Laws.{unmarshal-direct_class_meta}
use hyper_gnomon.Codec.ClassMeta.RoundTrip.{unmarshal-marshal_class_meta, marshal_size-class_meta}
use hyper_gnomon.Codec.SctxTurbo
use hyper_gnomon.Codec.SctxTurbo.Laws.{
  unmarshal-direct_turbo_typed, unmarshal-marshal_turbo_typed, direct_turbo_typed,
}
use hyper_gnomon.Codec.Variables
use hyper_gnomon.Codec.Variables.{ScidVariable, string, uint64, int64}
use hyper_gnomon.Codec.Variables.Passes.{
  unmarshal-direct_scid_variables_typed, unmarshal_scid_variables_typed-ne-panic,
  direct_scid_variables_typed,
}
use hyper_gnomon.Codec.Variables.RoundTrip.{
  unmarshal-marshal_scid_variables_typed, normal_variable, AllEncodable,
}

abbrev app : ClassMeta.ClassMeta
app = record {
  class = text "TELA-INDEX-1";
  tags = text "tela" ∷ text "web" ∷ [];
  name = text "home";
  desc = [];
  icon_url = text "icon.png";
  durl = text "home.tela";
  version = text "1.2";
  install_height = pos 1000;
  last_height = pos 1001;
  image = [];
  alt_image = text "alt";
  audio = [];
  video = [];
  images_json = [];
}

abbrev no_app : ClassMeta.ClassMeta
no_app = record {
  class = [];
  tags = [];
  name = [];
  desc = [];
  icon_url = [];
  durl = [];
  version = [];
  install_height = pos 0;
  last_height = pos 0;
  image = [];
  alt_image = [];
  audio = [];
  video = [];
  images_json = [];
}

unmarshal-marshal_class_meta_example :
    ClassMeta.unmarshal_typed no_app (ClassMeta.marshal_typed app) ≡ returns app none
unmarshal-marshal_class_meta_example = unmarshal-marshal_class_meta no_app app (record {
  install_height = omega arith;
  last_height = omega arith;
  tag_count = omega arith;
  tags = (omega arith, (omega arith, _));
  fields =
      (omega arith, (omega arith, (omega arith, (omega arith, (omega arith, (omega arith, _))))));
  media = (omega arith, (omega arith, (omega arith, (omega arith, (omega arith, _)))));
})

marshal_size-class_meta_example : ClassMeta.marshal_size app ≡ length (ClassMeta.marshal_typed app)
marshal_size-class_meta_example = marshal_size-class_meta app (record {
  install_height = omega arith;
  last_height = omega arith;
  tag_count = omega arith;
  tags = (omega arith, (omega arith, _));
  fields =
      (omega arith, (omega arith, (omega arith, (omega arith, (omega arith, (omega arith, _))))));
  media = (omega arith, (omega arith, (omega arith, (omega arith, (omega arith, _)))));
})

unmarshal-direct_class_meta_example :
    ClassMeta.unmarshal_typed no_app (ClassMeta.marshal_typed app ++ (1 ∷ 200 ∷ []))
    ≡ ClassMeta.Laws.direct_typed no_app (ClassMeta.marshal_typed app ++ (1 ∷ 200 ∷ []))
unmarshal-direct_class_meta_example =
    unmarshal-direct_class_meta no_app (ClassMeta.marshal_typed app ++ (1 ∷ 200 ∷ []))

abbrev call : SctxTurbo.SctxParse ℕ ℕ
call = record {
  txid = text "ab12";
  scid = text "cd34";
  entrypoint = text "Rate";
  method = 1;
  sc_args = [];
  sender = text "dero1qy";
  payloads = [];
  fees = 70;
  height = pos 321;
}

abbrev no_call : SctxTurbo.SctxParse ℕ ℕ
no_call = record {
  txid = [];
  scid = [];
  entrypoint = [];
  method = 0;
  sc_args = 1 ∷ [];
  sender = [];
  payloads = [];
  fees = 0;
  height = pos 0;
}

unmarshal-marshal_turbo_typed_example :
    SctxTurbo.unmarshal_turbo_typed no_call (SctxTurbo.marshal_turbo_typed call ++ (9 ∷ []))
    ≡ returns call none
unfolding SctxTurbo.can_marshal_turbo_typed
unmarshal-marshal_turbo_typed_example =
    unmarshal-marshal_turbo_typed no_call call (9 ∷ [])
      (record {
        fees = omega arith;
        height = omega arith;
        txid = omega arith;
        scid = omega arith;
        entrypoint = omega arith;
        sender = omega arith;
      })
      refl

unmarshal-direct_turbo_typed_example :
    SctxTurbo.unmarshal_turbo_typed call (text "not a record at all")
    ≡ direct_turbo_typed call (text "not a record at all")
unmarshal-direct_turbo_typed_example =
    unmarshal-direct_turbo_typed call (text "not a record at all")

abbrev vars : List ScidVariable
vars =
    record { key = string (text "owner"); value = string (text "dero1qy") }
    ∷ (record { key = string (text "count"); value = uint64 12 }
        ∷ (record { key = uint64 3; value = int64 (negsuc 4) } ∷ []))

vars_encodable : AllEncodable vars
unfolding Variables.to_string_best itoa_base10
vars_encodable =
    (omega arith, (omega arith, (omega arith, (omega arith, (omega arith, (omega arith, _))))))

unmarshal-marshal_scid_variables_typed_example :
    Variables.unmarshal_scid_variables_typed
      (Variables.marshal_scid_variables_typed vars ++ (5 ∷ []))
    ≡ ok (map normal_variable vars)
unmarshal-marshal_scid_variables_typed_example =
    unmarshal-marshal_scid_variables_typed vars (5 ∷ []) (omega arith) vars_encodable

unmarshal-direct_scid_variables_typed_example :
    Variables.unmarshal_scid_variables_typed (2 ∷ 255 ∷ 255 ∷ 255 ∷ 255 ∷ 1 ∷ [])
    ≡ direct_scid_variables_typed (2 ∷ 255 ∷ 255 ∷ 255 ∷ 255 ∷ 1 ∷ [])
unmarshal-direct_scid_variables_typed_example =
    unmarshal-direct_scid_variables_typed (2 ∷ 255 ∷ 255 ∷ 255 ∷ 255 ∷ 1 ∷ [])

unmarshal_scid_variables_typed-ne-panic_example :
    Variables.unmarshal_scid_variables_typed (2 ∷ 0 ∷ 0 ∷ 0 ∷ 1 ∷ 1 ∷ 255 ∷ 1 ∷ 7 ∷ []) ≢ panic
unmarshal_scid_variables_typed-ne-panic_example =
    unmarshal_scid_variables_typed-ne-panic (2 ∷ 0 ∷ 0 ∷ 0 ∷ 1 ∷ 1 ∷ 255 ∷ 1 ∷ 7 ∷ [])
