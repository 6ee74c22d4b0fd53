-- ===== src/Store/Truncate/Examples.antt =====
-- A store of two contracts, one of them installed above the height, that is truncated to height 10.
use hyper_gnomon.Base.{
  ◌≡◌, ◌⊎◌, if◌then◌else◌, refl, sym, subst, arith, [], ◌∷◌, true, false, Option, none, some, All,
}
use hyper_gnomon.Base.Int.{ℤ, pos}
use hyper_gnomon.Base.Texts.{Bytes, bytes_eq, text}
use hyper_gnomon.Base.Dict.{get, has}
use hyper_gnomon.Base.Strconv.{parse_int, format_int}
use hyper_gnomon.Codec.AddrScid
use hyper_gnomon.Codec.Install
use hyper_gnomon.Codec.Install.{InstallRecord}
use hyper_gnomon.Codec.ClassMeta.{ClassMeta}
use hyper_gnomon.Codec.Words.{be_bytes, be_fold, int64_bits, int64_from_bits}
use hyper_gnomon.Store.Keys.Laws.{IsPlain}
use hyper_gnomon.Store.Keys.{install_key_scid, split_height_key, append_norm_tx_key}
use hyper_gnomon.Store.DecimalKeys.{split_sc_vars_key}
use hyper_gnomon.Store.Truncate.{addr_op}
use hyper_gnomon.Store.Truncate.Detail.{Settled, truncate_to_height-detail}
use hyper_gnomon.Store.Truncate.Pointers.{IsGreatest, pointer, truncate_to_height-pointers}
use hyper_gnomon.Store.Truncate.Recount.{recount}
use hyper_gnomon.Store.Truncate.Rollback.{truncate_to_height-recount}
use hyper_gnomon.Store.Keys.{enc_height, install_key, append_height_key}
use hyper_gnomon.Store.Keys.Order.{less_bytes}
use hyper_gnomon.Store.DecimalKeys.{sc_vars_key, invocation_key}
use hyper_gnomon.Store.Bolt.{at_key, IsKey}
use hyper_gnomon.Store.Bolt.Memory.{memory, memory-IsLawful, fill}
use hyper_gnomon.Store.Truncate.{Db, affected_scids, truncate_to_height}
use hyper_gnomon.Store.Truncate.Total.{HasKeys, truncate_to_height_total}

abbrev no_install : Bytes → Option InstallRecord
no_install v = none

abbrev no_class : Bytes → Option ClassMeta
no_class v = none

abbrev start : Db memory
start = record {
  block_hashes = fill ((enc_height (pos 5), text "h5") ∷ (enc_height (pos 12), text "h12") ∷ []);
  installs = fill (
      (
        install_key (pos 5) (text "a"),
        Install.marshal_typed
            (record { owner = text "x"; entrypoint = text "Initialize"; fees = 7 }),
      )
      ∷ (
        install_key (pos 12) (text "b"),
        Install.marshal_typed
            (record { owner = text "x"; entrypoint = text "Initialize"; fees = 7 }),
      )
      ∷ []);
  heights = fill (
      (append_height_key [] (text "a") (pos 5), 1 ∷ [])
      ∷ (append_height_key [] (text "a") (pos 12), 2 ∷ [])
      ∷ []);
  sc_vars = fill (
      (sc_vars_key (text "a") (pos 5), text "v")
      ∷ (sc_vars_key (text "a") (pos 12), text "w")
      ∷ []);
  sc_vars_latest = fill ((text "a", enc_height (pos 12)) ∷ []);
  norm_txs = fill [];
  class_prefix = fill [];
  class_idx = fill [];
  owners = fill ((text "a", text "x") ∷ (text "b", text "x") ∷ []);
  sc_code = fill ((text "b", text "code") ∷ []);
  invalid = fill [];
  owner_scids = fill [];
  tela_content = fill [];
  stats = fill ((text "sc_count", text "2") ∷ (text "lastindexedheight", text "12") ∷ []);
  invocations = λ scid. elim (bytes_eq scid (text "a")) [
    | true ↦ some (
        fill (
          (invocation_key (text "x") (text "t1") (pos 5) (text "Rate"), text "d")
          ∷ (invocation_key (text "x") (text "t2") (pos 12) (text "Rate"), text "d")
          ∷ []))
    | false ↦ none
  ];
  addr_scids =
      (
        text "x",
        fill (
            (
              text "a",
              AddrScid.marshal_typed_append
                  (record { first_height = pos 5; last_height = pos 12; count = pos 2 }) [],
            )
            ∷ (
              text "b",
              AddrScid.marshal_typed_append
                  (record { first_height = pos 12; last_height = pos 12; count = pos 1 }) [],
            )
            ∷ []),
      )
      ∷ [];
}

start-HasKeys : HasKeys memory memory-IsLawful start.addr_scids
unfolding less_bytes bytes_eq
start-HasKeys = (((refl, refl), ((refl, refl), tt)), tt)

affected : affected_scids memory (pos 10) start ≡ text "b" ∷ text "a" ∷ []
unfolding affected_scids less_bytes bytes_eq install_key be_bytes int64_bits int64_from_bits
    install_key_scid sc_vars_key format_int split_sc_vars_key parse_int append_height_key
    split_height_key be_fold
affected = refl

affected-keys : All IsKey (affected_scids memory (pos 10) start)
affected-keys = subst (All IsKey) (sym affected) ((refl, refl), ((refl, refl), tt))

truncate_to_height_total_example :
    (t : Db memory) × (truncate_to_height memory no_install no_class (pos 10) start ≡ some t)
truncate_to_height_total_example =
    truncate_to_height_total memory memory-IsLawful no_install no_class (pos 10) start start-HasKeys
      affected-keys

after : (t : Db memory) × (truncate_to_height memory no_install no_class (pos 10) start ≡ some t)
after =
    truncate_to_height_total memory memory-IsLawful no_install no_class (pos 10) start start-HasKeys
      affected-keys

IsPlain-a : IsPlain (text "a")
IsPlain-a = ((λ e. omega (arith, e)), tt)

IsPlain-x : IsPlain (text "x")
IsPlain-x = ((λ e. omega (arith, e)), tt)

truncate_to_height-detail_example :
    Settled memory memory-IsLawful no_install no_class 10 12
      (append_height_key [] (text "a") (pos 12))
      start.heights
      after.0.heights
    × Settled memory memory-IsLawful no_install no_class 10 12
        (sc_vars_key (text "a") (pos 12))
        start.sc_vars
        after.0.sc_vars
    × Settled memory memory-IsLawful no_install no_class 10 12
        (append_norm_tx_key [] (text "x") (pos 12) (text "t1") (text "a"))
        start.norm_txs
        after.0.norm_txs
    × Settled memory memory-IsLawful no_install no_class 10 12
        (install_key (pos 12) (text "a"))
        start.installs
        after.0.installs
    × Settled memory memory-IsLawful no_install no_class 10 12
        (enc_height (pos 12))
        start.block_hashes
        after.0.block_hashes
truncate_to_height-detail_example =
    truncate_to_height-detail memory memory-IsLawful no_install no_class 10 12 start after.0
      (text "a") (text "x") (text "t1") (omega arith) (omega arith) IsPlain-a IsPlain-x after.1

truncate_to_height-pointers_example :
    ((has (text "a") (affected_scids memory (pos 10) start) ≡ true)
      × ((max : ℤ) × IsGreatest memory (text "a") (pos 10) after.0.sc_vars max
          × (at_key memory (text "a") after.0.sc_vars_latest ≡ pointer max)))
    ⊎ ((has (text "a") (affected_scids memory (pos 10) start) ≡ false)
        × (at_key memory (text "a") after.0.sc_vars_latest
            ≡ at_key memory (text "a") start.sc_vars_latest))
truncate_to_height-pointers_example =
    truncate_to_height-pointers memory memory-IsLawful no_install no_class (pos 10) start after.0
      (text "a") after.1

abbrev of_x : memory.Bucket
of_x = fill (
    (
      text "a",
      AddrScid.marshal_typed_append
          (record { first_height = pos 5; last_height = pos 12; count = pos 2 }) [],
    )
    ∷ (
      text "b",
      AddrScid.marshal_typed_append
          (record { first_height = pos 12; last_height = pos 12; count = pos 1 }) [],
    )
    ∷ [])

x_found : get (text "x") start.addr_scids ≡ some of_x
unfolding bytes_eq
x_found = refl

a_found :
    at_key memory (text "a") of_x
    ≡ some (
        AddrScid.marshal_typed_append
          (record { first_height = pos 5; last_height = pos 12; count = pos 2 })
          [])
unfolding bytes_eq less_bytes
a_found = refl

truncate_to_height-recount_example :
    (sub' : memory.Bucket) × (get (text "x") after.0.addr_scids ≡ some sub')
    × (at_key memory (text "a") sub' ≡ (
        if has (text "a") (affected_scids memory (pos 10) start)
        then addr_op (recount memory no_install (pos 10) start (text "x") (text "a"))
        else some (
            AddrScid.marshal_typed_append
              (record { first_height = pos 5; last_height = pos 12; count = pos 2 })
              [])))
truncate_to_height-recount_example =
    truncate_to_height-recount memory memory-IsLawful no_install no_class (pos 10) start after.0
      (text "x") (text "a")
      (AddrScid.marshal_typed_append
        (record { first_height = pos 5; last_height = pos 12; count = pos 2 }) [])
      of_x after.1 x_found a_found
