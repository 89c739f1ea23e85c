-- ===== src/Parsers/Tls/Tests.antt =====
-- A payload of three records: a ClientHello, application data and a ServerHello.
use sih.Parsers.Outcome.{ok}
use sih.Prelude.{
  ◌∷◌, [], List, some, none, Option, false, true, refl, ◌≡◌, ℕ, if◌then◌else◌, nat_beq,
}
use sih.Parsers.Tls.{
  read_decoded, read_extensions, read_hello, read_record, read_records, read_factory,
  parse_tls_handshake, DpktSsl, Hello, TlsRecord, Handshake,
}
use sih.Parsers.Tls.Hellos.{
  parse_tls_handshake-IsRead, any_name, all_values, parse_tls_handshake-only_handshakes, handshakes,
}

abbrev tls_record : ℕ → List ℕ → TlsRecord
tls_record type bytes = record { type = type; record_data = bytes }

abbrev client : Hello
client = record {
  type = 1;
  ciphers = some (49195 ∷ 49199 ∷ []);
  extensions = some (
      record { value = some 10; is_readable = false }
      ∷ record { value = some 0; is_readable = true }
      ∷ []);
  cipher = none;
}

abbrev server : Hello
server = record { type = 2; ciphers = none; extensions = none; cipher = some 49199 }

abbrev hello_of : List ℕ → Option Hello
hello_of [] = none
hello_of (byte ∷ bytes) = if nat_beq byte 1 then some client else some server

-- The last byte says whether there is application data in between.
abbrev split_records : List ℕ → List TlsRecord
split_records [] = []
split_records (a ∷ []) = tls_record 22 (1 ∷ []) ∷ tls_record 22 (2 ∷ []) ∷ []
split_records (a ∷ b ∷ bytes) =
    tls_record 22 (1 ∷ []) ∷ tls_record 23 (b ∷ []) ∷ tls_record 22 (2 ∷ []) ∷ []

abbrev dpkt : DpktSsl
dpkt = record { tls_multi_factory = λ bytes. ok (split_records bytes); handshake = hello_of }

parse_tls_handshake-only_handshakes_example :
    parse_tls_handshake dpkt (22 ∷ []) ≡ parse_tls_handshake dpkt (22 ∷ 7 ∷ [])
unfolding handshakes
parse_tls_handshake-only_handshakes_example =
    parse_tls_handshake-only_handshakes dpkt [] (7 ∷ []) (split_records (22 ∷ []))
      (split_records (22 ∷ 7 ∷ [])) refl refl refl

parse_tls_handshake-IsRead_example :
    (result : Handshake) × (parse_tls_handshake dpkt (22 ∷ 7 ∷ []) ≡ ok result)
    × (result.extensions ≡ all_values dpkt (split_records (22 ∷ 7 ∷ [])))
    × (result.sni
        ≡ (if any_name dpkt (split_records (22 ∷ 7 ∷ [])) then some "<extracted_sni>" else none))
parse_tls_handshake-IsRead_example =
    parse_tls_handshake-IsRead dpkt (7 ∷ []) (split_records (22 ∷ 7 ∷ [])) refl

parsed :
    parse_tls_handshake dpkt (22 ∷ 7 ∷ [])
    ≡ ok (record {
      sni = some "<extracted_sni>";
      ciphers = 49195 ∷ 49199 ∷ 49199 ∷ [];
      extensions = 10 ∷ 0 ∷ [];
    })
unfolding parse_tls_handshake read_factory read_records read_record read_hello read_extensions
    read_decoded
parsed = refl
