-- ===== src/Normalize/Report.antt =====
-- internal/normalize/report.go: the report of a domain. Times are nanoseconds and the confidence is
-- in hundredths; an IANA identifier is a sign, held where it is a minus, and a magnitude.
use whois_mcp.Prelude.{ℕ, Bool, false, Option, none, List, [], Text, Dict, codes}

pub data Tristate : Type 0 where
  affirmed denied undecided : Tristate

pub data Protocol : Type 0 where
  rdap whois : Protocol

pub record Query : Type 0 where
  pub input : Text
  pub registrable_domain : Text
  pub ascii : Text
  pub tld : Text
  pub public_suffix : Text

pub record Dates : Type 0 where
  pub created : Option ℕ
  pub updated : Option ℕ
  pub expires : Option ℕ
  pub transferred : Option ℕ
  pub timezone_assumed : Bool

abbrev pub no_dates : Dates
no_dates = record {
  created = none;
  updated = none;
  expires = none;
  transferred = none;
  timezone_assumed = false;
}

pub record Registrar : Type 0 where
  pub name : Text
  pub iana_id : Bool × ℕ
  pub url : Text
  pub abuse_email : Text
  pub abuse_phone : Text

pub record Nameserver : Type 0 where
  pub host : Text
  pub ipv4 : List Text
  pub ipv6 : List Text

pub record Dnssec : Type 0 where
  pub signed : Bool
  pub ds_records : ℕ

pub record Entity : Type 0 where
  pub role : Text
  pub redacted : Bool
  pub reason : Text
  pub name : Text
  pub organization : Text
  pub email : Text
  pub phone : Text
  pub country : Text

pub record Source : Type 0 where
  pub protocol : Protocol
  pub servers : List Text
  pub fetched_at : ℕ
  pub cache : Text
  pub parse_confidence : ℕ
  pub raw_available : Bool

pub record DomainReport : Type 0 where
  pub query : Query
  pub registered : Tristate
  pub registry_domain_id : Text
  pub dates : Dates
  pub registrar : Option Registrar
  pub statuses : List Text
  pub status_meaning : Dict Text
  pub nameservers : List Nameserver
  pub dnssec : Option Dnssec
  pub entities : List Entity
  pub source : Source
  pub warnings : List Text

-- A report with an answer and its source, and nothing else.
abbrev pub bare_report : Query → Tristate → Source → List Text → DomainReport
bare_report q answer source warnings = record {
  query = q;
  registered = answer;
  registry_domain_id = [];
  dates = no_dates;
  registrar = none;
  statuses = [];
  status_meaning = [];
  nameservers = [];
  dnssec = none;
  entities = [];
  source = source;
  warnings = warnings;
}

abbrev pub miss : Text
miss = codes "miss"

abbrev pub hit : Text
hit = codes "hit"
