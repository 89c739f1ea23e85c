-- ===== src/Parsers/Tls/Hellos.antt =====
-- What the handshake of a payload holds, by the messages in its records.
use sih.Parsers.Outcome.{ok}
use sih.Prelude.{
  true, append_assoc, arith, append-nil, ◌++◌, ◌∷◌, [], List, some, none, Option, ◌||◌, ◌&&◌, false,
  Bool, inr, inl, ◌∙◌, ap, sym, refl, ◌≡◌, String, ℕ, Option-cases, if◌then◌else◌, nat_beq,
}
use sih.Parsers.Tls.{
  add_cipher, read_decoded, set_ciphers, read_data, read_hello, read_extension, empty_handshake,
  read_record, read_factory, Handshake, some_extensions, read_extensions, Extension, TlsRecord,
  DpktSsl, read_records, parse_tls_handshake, Hello,
}

-- The records of type 22, which alone count.
unfoldable pub handshakes : List TlsRecord → List TlsRecord
handshakes [] = []
handshakes (r ∷ records) =
    let rest = handshakes records in if nat_beq r.type 22 then r ∷ rest else rest

abbrev cons_value : Option ℕ → List ℕ → List ℕ
cons_value none rest = []
cons_value (some value) rest = value ∷ rest

-- The types of the extensions before the first that has none.
unfoldable pub values_of : List Extension → List ℕ
values_of [] = []
values_of (ext ∷ extensions) = let rest = values_of extensions in cons_value ext.value rest

abbrev is_named : Option ℕ → Bool → Bool → Bool
is_named none readable rest = false
is_named (some value) readable rest = nat_beq value 0 && readable || rest

-- Whether a readable extension of type 0 is among those.
unfoldable pub names_server : List Extension → Bool
names_server [] = false
names_server (ext ∷ extensions) =
    let rest = names_server extensions in is_named ext.value ext.is_readable rest

-- The extensions of the message, of a ClientHello alone.
abbrev client_extensions : Option Hello → List Extension
client_extensions none = []
client_extensions (some hs) = if nat_beq hs.type 1 then some_extensions hs.extensions else []

abbrev decoded : DpktSsl → List ℕ → Option Hello
decoded dpkt [] = none
decoded dpkt (byte ∷ data_left) = dpkt.handshake (byte ∷ data_left)

abbrev sent : DpktSsl → TlsRecord → List Extension
sent dpkt r = if nat_beq r.type 22 then client_extensions (decoded dpkt r.record_data) else []

unfoldable pub all_values : DpktSsl → List TlsRecord → List ℕ
all_values dpkt [] = []
all_values dpkt (r ∷ records) = values_of (sent dpkt r) ++ all_values dpkt records

unfoldable pub any_name : DpktSsl → List TlsRecord → Bool
any_name dpkt [] = false
any_name dpkt (r ∷ records) = names_server (sent dpkt r) || any_name dpkt records

abbrev marked : Bool → Option String → Option String
marked b sni = if b then some "<extracted_sni>" else sni

read_records-handshakes :
    (dpkt : DpktSsl) (records : List TlsRecord) (h : Handshake)
    → read_records dpkt records h ≡ read_records dpkt (handshakes records) h
unfolding read_records handshakes read_record
read_records-handshakes dpkt [] h = refl
read_records-handshakes dpkt (r ∷ records) h =
    ground (arith, read_records-handshakes dpkt records (read_record dpkt r h))

-- Two payloads of the record type 22 that dpkt splits into records, with the same handshake records
-- in the same order, have the same result: no other record has an influence on it, whatever its
-- bytes are.
pub parse_tls_handshake-only_handshakes :
    (dpkt : DpktSsl) (rest1 rest2 : List ℕ) (records1 records2 : List TlsRecord)
    → dpkt.tls_multi_factory (22 ∷ rest1) ≡ ok records1
    → dpkt.tls_multi_factory (22 ∷ rest2) ≡ ok records2
    → handshakes records1 ≡ handshakes records2
    → parse_tls_handshake dpkt (22 ∷ rest1) ≡ parse_tls_handshake dpkt (22 ∷ rest2)
unfolding parse_tls_handshake read_factory
parse_tls_handshake-only_handshakes dpkt rest1 rest2 records1 records2 h1 h2 same =
    ap (read_factory dpkt) h1
    ∙ ap ok (
        read_records-handshakes dpkt records1 empty_handshake
        ∙ ap (λ records. read_records dpkt records empty_handshake) same
        ∙ sym (read_records-handshakes dpkt records2 empty_handshake))
    ∙ sym (ap (read_factory dpkt) h2)

IsAdded : Handshake → List ℕ → Bool → Handshake → Type 0
IsAdded h values named result =
    (result.extensions ≡ h.extensions ++ values) × (result.sni ≡ marked named h.sni)

IsAdded-none : (h : Handshake) → IsAdded h [] false h
unfolding IsAdded
IsAdded-none h = (sym (append-nil h.extensions), refl)

IsAdded-trans :
    (v1 v2 : List ℕ) (b1 b2 : Bool) (h1 h2 h3 : Handshake)
    → IsAdded h1 v1 b1 h2
    → IsAdded h2 v2 b2 h3
    → IsAdded h1 (v1 ++ v2) (b1 || b2) h3
unfolding IsAdded
IsAdded-trans v1 v2 b1 b2 h1 h2 h3 p q = (
  q.0 ∙ ap (λ (l : List ℕ). l ++ v2) p.0 ∙ append_assoc h1.extensions v1 v2,
  q.1 ∙ ap (marked b2) p.1 ∙ marked_twice b1 b2,
)
  where
    marked_twice : (c1 c2 : Bool) → marked c2 (marked c1 h1.sni) ≡ marked (c1 || c2) h1.sni
    marked_twice c1 c2 = ground arith

IsAdded-read_extension :
    (value : ℕ) (ext : Extension) (h : Handshake)
    → IsAdded h (value ∷ []) (nat_beq value 0 && ext.is_readable) (read_extension value ext h)
unfolding IsAdded
IsAdded-read_extension value ext h = ground arith

IsAdded-read_extensions :
    (extensions : List Extension) (h : Handshake)
    → IsAdded h (values_of extensions) (names_server extensions) (read_extensions extensions h)
unfolding read_extensions values_of names_server
IsAdded-read_extensions [] h = IsAdded-none h
IsAdded-read_extensions (ext ∷ extensions) h = elim (Option-cases ext.value) [
  | inl missing ↦ rw missing (IsAdded-none h)
  | inr (value, present) ↦ rw present (
      IsAdded-trans (value ∷ []) (values_of extensions) (nat_beq value 0 && ext.is_readable)
        (names_server extensions) h (read_extension value ext h) _
        (IsAdded-read_extension value ext h)
        (IsAdded-read_extensions extensions (read_extension value ext h)))
]

-- The ciphers play no part.
IsAdded-read_hello :
    (hs : Hello) (h : Handshake)
    → IsAdded h
        (values_of (client_extensions (some hs)))
        (names_server (client_extensions (some hs)))
        (read_hello hs h)
unfolding read_hello
IsAdded-read_hello hs h = by_type (nat_beq hs.type 1) (nat_beq hs.type 2)
  where
    of_ciphers :
        (ciphers : Option (List ℕ)) (extensions : List Extension)
        → IsAdded h
            (values_of extensions)
            (names_server extensions)
            (read_extensions extensions (set_ciphers ciphers h))
    of_ciphers none extensions = IsAdded-read_extensions extensions h
    of_ciphers (some ciphers) extensions =
        unfold IsAdded in
        unfold IsAdded in IsAdded-read_extensions extensions (record h { ciphers = ciphers })

    of_cipher : (cipher : Option ℕ) → IsAdded h [] false (add_cipher cipher h)
    of_cipher none = IsAdded-none h
    of_cipher (some cipher) = unfold IsAdded in (sym (append-nil h.extensions), refl)

    by_type :
        (client server : Bool)
        → IsAdded h
            (values_of (if client then some_extensions hs.extensions else []))
            (names_server (if client then some_extensions hs.extensions else []))
            (if client
              then read_extensions (some_extensions hs.extensions) (set_ciphers hs.ciphers h)
              else if server
              then add_cipher hs.cipher h
              else h)
    by_type true server = of_ciphers hs.ciphers (some_extensions hs.extensions)
    by_type false true = unfold values_of names_server in of_cipher hs.cipher
    by_type false false = unfold values_of names_server in IsAdded-none h

IsAdded-read_data :
    (dpkt : DpktSsl) (bytes : List ℕ) (h : Handshake)
    → IsAdded h
        (values_of (client_extensions (decoded dpkt bytes)))
        (names_server (client_extensions (decoded dpkt bytes)))
        (read_data dpkt bytes h)
unfolding values_of names_server read_decoded
IsAdded-read_data dpkt [] h = IsAdded-none h
IsAdded-read_data dpkt (byte ∷ bytes) h = elim (Option-cases (dpkt.handshake (byte ∷ bytes))) [
  | inl failing ↦ rw failing (IsAdded-none h)
  | inr (hs, read) ↦ rw read (IsAdded-read_hello hs h)
]

IsAdded-read_record :
    (dpkt : DpktSsl) (r : TlsRecord) (h : Handshake)
    → IsAdded h (values_of (sent dpkt r)) (names_server (sent dpkt r)) (read_record dpkt r h)
unfolding read_record values_of names_server
IsAdded-read_record dpkt r h =
    ground (arith, IsAdded-read_data dpkt r.record_data h, IsAdded-none h)

IsAdded-read_records :
    (dpkt : DpktSsl) (records : List TlsRecord) (h : Handshake)
    → IsAdded h (all_values dpkt records) (any_name dpkt records) (read_records dpkt records h)
unfolding read_records all_values any_name
IsAdded-read_records dpkt [] h = IsAdded-none h
IsAdded-read_records dpkt (r ∷ records) h =
    IsAdded-trans (values_of (sent dpkt r)) (all_values dpkt records) (names_server (sent dpkt r))
      (any_name dpkt records) h (read_record dpkt r h) _ (IsAdded-read_record dpkt r h)
      (IsAdded-read_records dpkt records (read_record dpkt r h))

-- On a payload of the record type 22 that dpkt splits into records: the extensions are the types of
-- the extensions of all ClientHello messages, in order, where a message's own end before the first
-- that has no type; and the server name is marked exactly where a readable one of type 0 is among
-- them.
pub parse_tls_handshake-IsRead :
    (dpkt : DpktSsl) (rest : List ℕ) (records : List TlsRecord)
    → dpkt.tls_multi_factory (22 ∷ rest) ≡ ok records
    → (result : Handshake) × (parse_tls_handshake dpkt (22 ∷ rest) ≡ ok result)
      × (result.extensions ≡ all_values dpkt records)
      × (result.sni ≡ marked (any_name dpkt records) none)
unfolding parse_tls_handshake read_factory
parse_tls_handshake-IsRead dpkt rest records h =
    let added = IsAdded-read_records dpkt records empty_handshake in
    (
      read_records dpkt records empty_handshake,
      ap (read_factory dpkt) h,
      unfold IsAdded in added.0,
      unfold IsAdded in added.1,
    )
