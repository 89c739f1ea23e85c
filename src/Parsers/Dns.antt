-- ===== src/Parsers/Dns.antt =====
-- parse_dns of parsers/dns_parser.py. dpkt's reading of the bytes is a parameter; an attribute that
-- an answer has not is `none`.
use sih.Parsers.Outcome.{Outcome, ok, refused, failed}
use sih.Prelude.{◌∷◌, [], List, some, none, Option, String, ℕ}

pub record Query : Type 0 where
  pub name : String
  pub type : ℕ

pub record Answer : Type 0 where
  pub name : String
  pub type : ℕ
  pub ttl : ℕ

pub record ResourceRecord : Type 0 where
  pub name : Option String
  pub type : Option ℕ
  pub ttl : Option ℕ

pub record Message : Type 0 where
  pub qd : List Query
  pub an : List ResourceRecord

pub record Lookups : Type 0 where
  pub queries : List Query
  pub answers : List Answer

abbrev pub add_answer : Option String → Option ℕ → Option ℕ → List Answer → List Answer
add_answer (some name) (some type) (some ttl) answers =
    record { name = name; type = type; ttl = ttl } ∷ answers
add_answer (some name) (some type) none answers = answers
add_answer (some name) none ttl answers = answers
add_answer none type ttl answers = answers

-- The loop over the answers.
unfoldable pub read_answers : List ResourceRecord → List Answer
read_answers [] = []
read_answers (a ∷ an) = add_answer a.name a.type a.ttl (read_answers an)

unfoldable pub read_message : Outcome Message → Outcome Lookups
unfolding read_answers
read_message (ok dns) = ok (record { queries = dns.qd; answers = read_answers dns.an })
read_message refused = refused
read_message failed = failed

unfoldable pub parse_dns : (List ℕ → Outcome Message) → List ℕ → Outcome Lookups
unfolding read_message
parse_dns dns [] = refused
parse_dns dns (byte ∷ payload) = read_message (dns (byte ∷ payload))
