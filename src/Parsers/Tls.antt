-- ===== src/Parsers/Tls.antt =====
-- parse_tls_handshake of parsers/tls_quic_handshake.py. The objects of dpkt are records of the
-- attributes that the code reads, `none` for one that the object has not.
pub mod Hellos
mod Tests
use sih.Parsers.Outcome.{Outcome, ok, refused, failed}
use sih.Prelude.{
  ◌++◌, ◌∷◌, [], List, some, none, Option, ◌&&◌, Bool, String, ℕ, if◌then◌else◌, nat_beq,
}

-- An extension, with whether dpkt.ssl.TLSExtension reads its data without an exception.
pub record Extension : Type 0 where
  pub value : Option ℕ
  pub is_readable : Bool

pub record Hello : Type 0 where
  pub type : ℕ
  pub ciphers : Option (List ℕ)
  pub extensions : Option (List Extension)
  pub cipher : Option ℕ

pub record TlsRecord : Type 0 where
  pub type : ℕ
  pub record_data : List ℕ

-- dpkt.ssl.tls_multi_factory, and dpkt.ssl.TLSHandshake where `none` is an exception.
pub record DpktSsl : Type 0 where
  pub tls_multi_factory : List ℕ → Outcome (List TlsRecord)
  pub handshake : List ℕ → Option Hello

pub record Handshake : Type 0 where
  pub sni : Option String
  pub ciphers : List ℕ
  pub extensions : List ℕ

abbrev pub empty_handshake : Handshake
empty_handshake = record { sni = none; ciphers = []; extensions = [] }

-- The body of the loop over the extensions, and the loop: an extension without a value is an
-- exception that leaves it, with what was read so far.
abbrev pub read_extension : ℕ → Extension → Handshake → Handshake
read_extension value ext result =
    let seen = record result { extensions = result.extensions ++ value ∷ [] } in
    if nat_beq value 0 && ext.is_readable
    then record seen { sni = some "<extracted_sni>" }
    else seen

abbrev pub when_set : Option ℕ → (ℕ → Handshake) → Handshake → Handshake
when_set none next result = result
when_set (some value) next result = next value

unfoldable pub read_extensions : List Extension → Handshake → Handshake
read_extensions [] result = result
read_extensions (ext ∷ extensions) result =
    let next : ℕ → Handshake =
      λ value. read_extensions extensions (read_extension value ext result) in
    when_set ext.value next result

abbrev pub set_ciphers : Option (List ℕ) → Handshake → Handshake
set_ciphers none result = result
set_ciphers (some ciphers) result = record result { ciphers = ciphers }

abbrev pub add_cipher : Option ℕ → Handshake → Handshake
add_cipher none result = result
add_cipher (some cipher) result = record result { ciphers = result.ciphers ++ cipher ∷ [] }

abbrev pub some_extensions : Option (List Extension) → List Extension
some_extensions none = []
some_extensions (some extensions) = extensions

-- The body of the branches on the type of the handshake: a ClientHello, a ServerHello, another.
unfoldable pub read_hello : Hello → Handshake → Handshake
unfolding read_extensions
read_hello hs result =
    if nat_beq hs.type 1
    then read_extensions (some_extensions hs.extensions) (set_ciphers hs.ciphers result)
    else if nat_beq hs.type 2
    then add_cipher hs.cipher result
    else result

abbrev pub read_decoded : Option Hello → Handshake → Handshake
unfolding read_hello
read_decoded none result = result
read_decoded (some hs) result = read_hello hs result

abbrev pub read_data : DpktSsl → List ℕ → Handshake → Handshake
read_data dpkt [] result = result
read_data dpkt (byte ∷ data_left) result = read_decoded (dpkt.handshake (byte ∷ data_left)) result

unfoldable pub read_record : DpktSsl → TlsRecord → Handshake → Handshake
unfolding read_hello
read_record dpkt record_read result =
    if nat_beq record_read.type 23
    then result
    else if nat_beq record_read.type 22
    then read_data dpkt record_read.record_data result
    else result

unfoldable pub read_records : DpktSsl → List TlsRecord → Handshake → Handshake
unfolding read_record
read_records dpkt [] result = result
read_records dpkt (record_read ∷ records) result =
    read_records dpkt records (read_record dpkt record_read result)

unfoldable pub read_factory : DpktSsl → Outcome (List TlsRecord) → Outcome Handshake
unfolding read_records
read_factory dpkt (ok records) = ok (read_records dpkt records empty_handshake)
read_factory dpkt refused = refused
read_factory dpkt failed = failed

unfoldable pub parse_tls_handshake : DpktSsl → List ℕ → Outcome Handshake
unfolding read_factory
parse_tls_handshake dpkt [] = refused
parse_tls_handshake dpkt (byte ∷ payload) =
    if nat_beq byte 22 then read_factory dpkt (dpkt.tls_multi_factory (byte ∷ payload)) else refused
