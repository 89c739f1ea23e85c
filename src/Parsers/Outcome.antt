-- ===== src/Parsers/Outcome.antt =====
-- How a call of dpkt, or a parser over it, ends.

-- `refused` is, for dpkt, one of the exceptions that the parser catches and, for the parser, its
-- result None; `failed` is any other exception.
pub data Outcome (A : Type 0) : Type 0 where
  ok : A → Outcome A
  refused : Outcome A
  failed : Outcome A
