-- ===== src/Normalize/FromRdap/Decoded.antt =====
-- internal/normalize/fromrdap.go: the decoded objects of openrdap, as records of the fields that the
-- code reads. A vCard is the answers of its methods.
use whois_mcp.Prelude.{ℕ, Bool, Option, List, Text}

pub record Event : Type 0 where
  pub action : Text
  pub date : Text

pub record RdapNameserver : Type 0 where
  pub ldh_name : Text
  pub unicode_name : Text
  pub addresses : Option (List Text × List Text)

pub record SecureDns : Type 0 where
  pub delegation_signed : Option Bool
  pub ds_count : ℕ

pub record Vcard : Type 0 where
  pub name : Text
  pub org : Text
  pub email : Text
  pub tel : Text
  pub country : Text

pub record Remark : Type 0 where
  pub title : Text
  pub description : List Text
  pub kind : Text

pub record Link : Type 0 where
  pub rel : Text
  pub kind : Text
  pub href : Text

pub record PublicId : Type 0 where
  pub kind : Text
  pub identifier : Text

-- An entity inside an entity: only its roles and its vCard are read.
pub record SubEntity : Type 0 where
  pub roles : List Text
  pub vcard : Option Vcard

pub record RdapEntity : Type 0 where
  pub roles : List Text
  pub vcard : Option Vcard
  pub remarks : List Remark
  pub public_ids : List PublicId
  pub entities : List SubEntity
  pub links : List Link

pub record RdapDomain : Type 0 where
  pub handle : Text
  pub status : List Text
  pub events : List Event
  pub nameservers : List RdapNameserver
  pub secure_dns : Option SecureDns
  pub entities : List RdapEntity
  pub links : List Link
