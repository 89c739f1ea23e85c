-- ===== src/Features/Dns.antt =====
-- DGADNSFeatureExtractor of features/dga_dns_features.py and DNSExfiltrationFeatures of
-- features/dns_exfil_features.py. A message is what parsers/dns_parser.py reads of it, and whether it
-- has `nxdomain`, which that parser never sets.
use sih.Features.Numbers.{Numbers}
use sih.Features.Online.{Ewma, update_ewma, get_ewma, new_ewma}
use sih.Parsers.Dns.{Query}
use Prim.Native.String.{count}
use Prim.Native.Char.{code}
use sih.Prelude.{
  ◌∷◌, [], List, some, none, Option, ◌||◌, Bool, String, ◌+◌, ℕ, if◌then◌else◌, nat_beq, ltb,
}
use sih.Dict.{put, lookup}
use sih.Prelude.Eq.{string_eq, ◌==◌, nat_eq}

pub record DnsParsed : Type 0 where
  pub queries : List Query
  pub nxdomain : Option Bool

-- The code points of a text
unfoldable pub chars : String → List ℕ
chars String.[] = []
chars (String.◌∷◌ c s) = code c ∷ chars s

abbrev or_zero_count : Option ℕ → ℕ
or_zero_count none = 0
or_zero_count (some n) = n

-- freqs[char] = freqs.get(char, 0) + 1, for every char of the rest
unfoldable pub freqs : List ℕ → List (ℕ × ℕ) → List (ℕ × ℕ)
unfolding lookup
freqs [] counts = counts
freqs (c ∷ rest) counts = freqs rest (put c (or_zero_count (lookup c counts) + 1) counts)

module _ (nu : Numbers) where
  open nu use {F, int, tenths, plus, minus, times, over, negated, log2}

  unfoldable pub subtract_terms : (length : ℕ) → (ent : F) → List (ℕ × ℕ) → F
  subtract_terms n ent [] = ent
  subtract_terms n ent ((c, occurrences) ∷ counts) =
      let p = over (int occurrences) (int n) in
      subtract_terms n (minus ent (times p (log2 p))) counts

  -- `_shannon_entropy` of the first module
  unfoldable pub shannon_entropy : String → F
  unfolding subtract_terms freqs chars
  shannon_entropy text =
      if text == "" then int 0 else subtract_terms (count text) (int 0) (freqs (chars text) [])

  unfoldable pub sum_terms : (length : ℕ) → (total : F) → List (ℕ × ℕ) → F
  sum_terms n total [] = total
  sum_terms n total ((c, occurrences) ∷ counts) =
      let p = over (int occurrences) (int n) in sum_terms n (plus total (times p (log2 p))) counts

  -- `_shannon_entropy` of the second: the sum over the different characters in order
  unfoldable pub summed_entropy : String → F
  unfolding sum_terms freqs chars
  summed_entropy text =
      if text == "" then int 0 else negated (sum_terms (count text) (int 0) (freqs (chars text) []))

  pub record DgaExtractor : Type 0 where
    pub nxdomain_ewma : Ewma nu
    pub query_length_ewma : Ewma nu
    pub query_entropy_ewma : Ewma nu

  abbrev pub new_dga : DgaExtractor
  new_dga = record {
    nxdomain_ewma = new_ewma nu (tenths 1);
    query_length_ewma = new_ewma nu (tenths 1);
    query_entropy_ewma = new_ewma nu (tenths 1);
  }

  unfoldable pub update_queries : List Query → DgaExtractor → DgaExtractor
  unfolding update_ewma shannon_entropy
  update_queries [] d = d
  update_queries (q ∷ queries) d = update_queries queries (
      if q.name == "" then d else record d {
        query_length_ewma = update_ewma nu (int (count q.name)) d.query_length_ewma;
        query_entropy_ewma = update_ewma nu (shannon_entropy q.name) d.query_entropy_ewma;
      })

  abbrev flagged : Option Bool → F
  flagged none = int 0
  flagged (some b) = if b then int 1 else int 0

  unfoldable pub update_dga : DnsParsed → DgaExtractor → DgaExtractor
  unfolding update_queries update_ewma
  update_dga m d =
      let named = update_queries m.queries d in
      record named { nxdomain_ewma = update_ewma nu (flagged m.nxdomain) named.nxdomain_ewma }

  pub record DgaFeatures : Type 0 where
    pub avg_query_length : F
    pub avg_query_entropy : F
    pub nxdomain_rate : F

  unfoldable pub extract_dga : DgaExtractor → DgaFeatures
  unfolding get_ewma
  extract_dga d = record {
    avg_query_length = get_ewma nu d.query_length_ewma;
    avg_query_entropy = get_ewma nu d.query_entropy_ewma;
    nxdomain_rate = get_ewma nu d.nxdomain_ewma;
  }

  pub record DnsExfilExtractor : Type 0 where
    pub txt_cname_queries_1m : ℕ
    pub total_query_len_1m : ℕ
    pub total_entropy_1m : F

  abbrev pub new_dns_exfil : DnsExfilExtractor
  new_dns_exfil = record {
    txt_cname_queries_1m = 0;
    total_query_len_1m = 0;
    total_entropy_1m = int 0;
  }

  -- A type is a number here: 16 is TXT and 5 CNAME.
  abbrev pub is_txt_cname : ℕ → Bool
  is_txt_cname type = nat_beq type 16 || nat_beq type 5

  unfoldable pub count_queries : List Query → DnsExfilExtractor → DnsExfilExtractor
  unfolding summed_entropy
  count_queries [] d = d
  count_queries (q ∷ queries) d = count_queries queries (
      if is_txt_cname q.type
      then record {
        txt_cname_queries_1m = d.txt_cname_queries_1m + 1;
        total_query_len_1m = d.total_query_len_1m + count q.name;
        total_entropy_1m = plus d.total_entropy_1m (summed_entropy q.name);
      }
      else d)

  unfoldable pub update_dns_exfil : DnsParsed → Bool → DnsExfilExtractor → DnsExfilExtractor
  unfolding count_queries
  update_dns_exfil m is_new_minute d =
      count_queries m.queries (if is_new_minute then new_dns_exfil else d)

  pub record DnsExfilFeatures : Type 0 where
    pub txt_cname_rate : ℕ
    pub txt_cname_avg_len : F
    pub txt_cname_avg_entropy : F

  unfoldable pub extract_dns_exfil : DnsExfilExtractor → DnsExfilFeatures
  extract_dns_exfil d =
      let counted = ltb 0 d.txt_cname_queries_1m in
      record {
        txt_cname_rate = d.txt_cname_queries_1m;
        txt_cname_avg_len =
            (if counted
              then over (int d.total_query_len_1m) (int d.txt_cname_queries_1m)
              else int 0);
        txt_cname_avg_entropy =
            (if counted then over d.total_entropy_1m (int d.txt_cname_queries_1m) else int 0);
      }
