-- ===== src/Whois/Parsers/Labels.antt =====
-- internal/whois/parsers/synonyms.go: the canonical field names, and the labels of the registries
-- that stand for each. The table of labels is the union of the groups that the source lists.
use Prim.Native.String.{String}
use whois_mcp.Prelude.{List, [], ◌∷◌, ◌++◌, Text, Dict, codes}

abbrev pub f_domain : Text
f_domain = codes "domain"

abbrev pub f_registry_domain_id : Text
f_registry_domain_id = codes "registry_domain_id"

abbrev pub f_registrar : Text
f_registrar = codes "registrar"

abbrev pub f_registrar_iana_id : Text
f_registrar_iana_id = codes "registrar_iana_id"

abbrev pub f_registrar_url : Text
f_registrar_url = codes "registrar_url"

abbrev pub f_abuse_email : Text
f_abuse_email = codes "abuse_email"

abbrev pub f_abuse_phone : Text
f_abuse_phone = codes "abuse_phone"

abbrev pub f_status : Text
f_status = codes "status"

abbrev pub f_nameserver : Text
f_nameserver = codes "nameserver"

abbrev pub f_dnssec : Text
f_dnssec = codes "dnssec"

abbrev pub f_created : Text
f_created = codes "created"

abbrev pub f_updated : Text
f_updated = codes "updated"

abbrev pub f_expires : Text
f_expires = codes "expires"

abbrev pub f_transferred : Text
f_transferred = codes "transferred"

abbrev pub f_registrant_name : Text
f_registrant_name = codes "registrant_name"

abbrev pub f_registrant_org : Text
f_registrant_org = codes "registrant_org"

abbrev pub f_registrant_email : Text
f_registrant_email = codes "registrant_email"

abbrev pub f_registrant_phone : Text
f_registrant_phone = codes "registrant_phone"

abbrev pub f_registrant_country : Text
f_registrant_country = codes "registrant_country"

abbrev pub f_admin_name : Text
f_admin_name = codes "admin_name"

abbrev pub f_admin_email : Text
f_admin_email = codes "admin_email"

abbrev pub f_tech_name : Text
f_tech_name = codes "tech_name"

abbrev pub f_tech_email : Text
f_tech_email = codes "tech_email"

abbrev pub core_fields : List Text
core_fields = f_domain ∷ f_registrar ∷ f_status ∷ f_nameserver ∷ f_created ∷ f_expires ∷ []

-- The rows of the labels of one field.
abbrev all_to : Text → List String → Dict Text
all_to field [] = []
all_to field (l ∷ ls) = (codes l, field) ∷ all_to field ls

abbrev domain_labels : Dict Text
domain_labels = all_to f_domain (
    "domain name" ∷ "domain" ∷ "domainname" ∷ "domain_name" ∷ "the domain" ∷ "query"
    ∷ "[domain name]" ∷ [])

abbrev registry_labels : Dict Text
registry_labels =
    all_to f_registry_domain_id ("registry domain id" ∷ "domain id" ∷ "roid" ∷ "nic-hdl" ∷ [])

abbrev registrar_labels : Dict Text
registrar_labels =
    all_to f_registrar (
      "registrar" ∷ "sponsoring registrar" ∷ "registrar name" ∷ "registrar organization"
      ∷ "registrar handle" ∷ "[registrar]" ∷ [])
    ++ (all_to f_registrar_iana_id
          ("registrar iana id" ∷ "sponsoring registrar iana id" ∷ "registrar ianaid" ∷ [])
        ++ (all_to f_registrar_url
              ("registrar url" ∷ "registrar website" ∷ "registrar web" ∷ "url" ∷ [])
            ++ (all_to f_abuse_email ("registrar abuse contact email" ∷ "abuse contact email" ∷ [])
                ++ (all_to f_abuse_phone
                    ("registrar abuse contact phone" ∷ "abuse contact phone" ∷ [])))))

abbrev status_labels : Dict Text
status_labels =
    all_to f_status
      ("domain status" ∷ "status" ∷ "state" ∷ "eppstatus" ∷ "epp status" ∷ "[status]" ∷ [])

abbrev nameserver_labels : Dict Text
nameserver_labels = all_to f_nameserver (
    "name server" ∷ "nameserver" ∷ "nserver" ∷ "name servers" ∷ "nameservers" ∷ "dns"
    ∷ "[name server]" ∷ "host name" ∷ [])

abbrev dnssec_labels : Dict Text
dnssec_labels = all_to f_dnssec ("dnssec" ∷ "dnssec status" ∷ "signed" ∷ "dnssec signed" ∷ [])

abbrev created_labels : Dict Text
created_labels = all_to f_created (
    "creation date" ∷ "created" ∷ "created on" ∷ "created date" ∷ "registered" ∷ "registered on"
    ∷ "registration date" ∷ "domain registration date" ∷ "registration time"
    ∷ "domain record activated" ∷ "[created on]" ∷ "activated" ∷ [])

abbrev updated_labels : Dict Text
updated_labels = all_to f_updated (
    "updated date" ∷ "updated" ∷ "last updated" ∷ "last modified" ∷ "changed" ∷ "modified"
    ∷ "domain record last updated" ∷ "last update" ∷ "[last updated]" ∷ [])

abbrev expires_labels : Dict Text
expires_labels = all_to f_expires (
    "registry expiry date" ∷ "expiry date" ∷ "expiration date" ∷ "expires" ∷ "expires on"
    ∷ "expire date" ∷ "paid-till" ∷ "paid till" ∷ "renewal date" ∷ "domain expiration date"
    ∷ "valid until" ∷ "[expires on]" ∷ [])

abbrev transferred_labels : Dict Text
transferred_labels = all_to f_transferred ("transfer date" ∷ "transferred" ∷ [])

abbrev registrant_labels : Dict Text
registrant_labels =
    all_to f_registrant_name
      ("registrant name" ∷ "registrant" ∷ "registrant contact name" ∷ "[registrant]" ∷ [])
    ++ (all_to f_registrant_org (
          "registrant organization" ∷ "registrant organisation" ∷ "registrant org" ∷ "organisation"
          ∷ "organization" ∷ [])
        ++ (all_to f_registrant_email
              ("registrant email" ∷ "registrant contact email" ∷ "registrant e-mail" ∷ [])
            ++ (all_to f_registrant_phone ("registrant phone" ∷ [])
                ++ (all_to f_registrant_country ("registrant country" ∷ "country" ∷ [])))))

abbrev admin_labels : Dict Text
admin_labels =
    all_to f_admin_name ("admin name" ∷ "administrative contact" ∷ "admin contact" ∷ [])
    ++ all_to f_admin_email ("admin email" ∷ "admin contact email" ∷ [])

abbrev tech_labels : Dict Text
tech_labels =
    all_to f_tech_name ("tech name" ∷ "technical contact" ∷ "tech contact" ∷ [])
    ++ all_to f_tech_email ("tech email" ∷ "tech contact email" ∷ [])

unfoldable pub synonyms : Dict Text
synonyms =
    (domain_labels
      ++ (registry_labels
          ++ (registrar_labels
              ++ (status_labels
                  ++ (nameserver_labels
                      ++ (dnssec_labels
                          ++ (created_labels
                              ++ (updated_labels
                                  ++ (expires_labels
                                      ++ (transferred_labels
                                          ++ (registrant_labels
                                              ++ (admin_labels ++ tech_labels))))))))))))

abbrev pub multi_valued : List Text
multi_valued = f_nameserver ∷ f_status ∷ []

abbrev pub redaction_markers : List Text
redaction_markers =
    codes "redacted for privacy"
    ∷ codes "redacted for gdpr"
    ∷ codes "redacted"
    ∷ codes "data protected"
    ∷ codes "gdpr masked"
    ∷ codes "not disclosed"
    ∷ codes "non-public data"
    ∷ codes "withheld for privacy"
    ∷ codes "privacy protected"
    ∷ codes "statutory masking enabled"
    ∷ codes "information unavailable"
    ∷ []
