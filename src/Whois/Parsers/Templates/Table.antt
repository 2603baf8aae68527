-- ===== src/Whois/Parsers/Templates/Table.antt =====
-- internal/whois/parsers/templates.go: the table of the templates, by WHOIS host.
use Prim.Native.String.{String}
use whois_mcp.Prelude.{List, [], ◌∷◌, ◌++◌, map, Text, Dict, codes}
use whois_mcp.Whois.Parsers.Labels.{
  f_created, f_domain, f_expires, f_nameserver, f_registrant_name, f_registrant_org, f_registrar,
  f_status, f_updated,
}

abbrev pub dropped : Text
dropped = []

pub record Template : Type 0 where
  pub labels : Dict Text
  pub date_layouts : List Text
  pub not_found : List Text
  pub registered : List Text

abbrev label_rows : List (String × Text) → Dict Text
label_rows [] = []
label_rows ((label, field) ∷ rows) = (codes label, field) ∷ label_rows rows

abbrev entry :
    String → List (String × Text) → List String → List String → List String → Text × Template
entry host labels layouts absent present = (
  codes host,
  record {
    labels = label_rows labels;
    date_layouts = map codes layouts;
    not_found = map codes absent;
    registered = map codes present;
  },
)

abbrev gtld_templates : Dict Template
gtld_templates =
    entry "whois.verisign-grs.com" [] [] ("no match for" ∷ []) ("registry expiry date" ∷ [])
    ∷ entry "whois.publicinterestregistry.org" [] []
        ("not found:" ∷ "nothing found for this query" ∷ []) []
    ∷ entry "whois.nic.google" [] [] ("domain not found" ∷ []) []
    ∷ entry "whois.nic.io" [] [] ("not found" ∷ "no match for" ∷ []) []
    ∷ entry "whois.afilias.net" [] [] ("not found:" ∷ "not found" ∷ []) []
    ∷ entry "whois.nic.biz" [] [] ("not found:" ∷ "no data found" ∷ []) []
    ∷ entry "whois.donuts.co" [] [] ("domain not found" ∷ []) []
    ∷ entry "whois.rrpproxy.net" [] [] ("domain not found" ∷ []) []
    ∷ entry "whois.centralnic.com" [] [] ("domain not found" ∷ "no match for" ∷ []) []
    ∷ []

abbrev europe_templates : Dict Template
europe_templates =
    entry "whois.nic.uk"
      (("registered on", f_created)
        ∷ ("expiry date", f_expires)
        ∷ ("last updated", f_updated)
        ∷ ("registrar", f_registrar)
        ∷ ("name servers", f_nameserver)
        ∷ ("registration status", f_status)
        ∷ [])
      ("02-Jan-2006" ∷ "Mon Jan 02 2006" ∷ [])
      ("no match for" ∷ "this domain name has not been registered" ∷ []) ("registered on:" ∷ [])
    ∷ entry "whois.denic.de"
        (("changed", f_updated)
          ∷ ("domain", f_domain)
          ∷ ("nserver", f_nameserver)
          ∷ ("status", f_status)
          ∷ [])
        [] ("status: free" ∷ "status:             free" ∷ []) ("status: connect" ∷ "changed:" ∷ [])
    ∷ entry "whois.domain-registry.nl"
        (("date registered", f_created)
          ∷ ("record maintained by", dropped)
          ∷ ("domain nameservers", f_nameserver)
          ∷ ("reseller", dropped)
          ∷ [])
        [] ("is free" ∷ "not a registered .nl domain" ∷ []) []
    ∷ entry "whois.nic.fr"
        (("created", f_created)
          ∷ ("last-update", f_updated)
          ∷ ("expiry-date", f_expires)
          ∷ ("holder-c", f_registrant_name)
          ∷ ("nsl-id", dropped)
          ∷ ("hostname", f_nameserver)
          ∷ [])
        [] ("no entries found in the afnic database" ∷ "%% no entries found" ∷ []) []
    ∷ entry "whois.dk-hostmaster.dk"
        (("registered", f_created) ∷ ("expires", f_expires) ∷ ("hostname", f_nameserver) ∷ [])
        ("2006-01-02" ∷ []) ("no entries found for the selected source" ∷ []) []
    ∷ entry "whois.iis.se"
        (("created", f_created)
          ∷ ("modified", f_updated)
          ∷ ("expires", f_expires)
          ∷ ("nserver", f_nameserver)
          ∷ ("holder", f_registrant_name)
          ∷ ("state", f_status)
          ∷ [])
        ("2006-01-02" ∷ []) ("not found" ∷ "domain not found" ∷ []) []
    ∷ entry "whois.nic.ch" [] []
        ("do not have an entry" ∷ "we do not have an entry in our database matching your query"
          ∷ [])
        []
    ∷ entry "whois.eu" (("name servers", f_nameserver) ∷ ("registrant", f_registrant_name) ∷ []) []
        ("status:      available" ∷ "status: available" ∷ []) []
    ∷ entry "whois.nic.it"
        (("created", f_created)
          ∷ ("last update", f_updated)
          ∷ ("expire date", f_expires)
          ∷ ("nameservers", f_nameserver)
          ∷ ("status", f_status)
          ∷ [])
        [] ("available" ∷ "status:             available" ∷ []) []
    ∷ entry "whois.dns.pt" [] [] ("no match" ∷ "nao existe" ∷ []) []
    ∷ entry "whois.nic.at" (("changed", f_updated) ∷ ("nserver", f_nameserver) ∷ []) []
        ("nothing found" ∷ "% nothing found" ∷ []) []
    ∷ entry "whois.norid.no"
        (("created", f_created)
          ∷ ("last updated", f_updated)
          ∷ ("name server handle", f_nameserver)
          ∷ [])
        ("2006-01-02" ∷ []) ("no matches for query" ∷ []) []
    ∷ entry "whois.fi"
        (("created", f_created)
          ∷ ("expires", f_expires)
          ∷ ("modified", f_updated)
          ∷ ("nserver", f_nameserver)
          ∷ [])
        ("2.1.2006" ∷ "02.01.2006" ∷ []) ("domain not found" ∷ []) []
    ∷ entry "whois.nic.cz"
        (("registered", f_created)
          ∷ ("changed", f_updated)
          ∷ ("expire", f_expires)
          ∷ ("nserver", f_nameserver)
          ∷ [])
        ("02.01.2006 15:04:05" ∷ []) ("no entries found" ∷ "%% no entries found" ∷ []) []
    ∷ entry "whois.dns.be" (("registered", f_created) ∷ ("nameservers", f_nameserver) ∷ []) []
        ("status:\tavailable" ∷ "status: available" ∷ "free" ∷ []) []
    ∷ entry "whois.nic.es" [] [] ("not found" ∷ "el dominio no existe" ∷ []) []
    ∷ entry "whois.tcinet.ru"
        (("created", f_created)
          ∷ ("paid-till", f_expires)
          ∷ ("nserver", f_nameserver)
          ∷ ("state", f_status)
          ∷ [])
        ("2006-01-02T15:04:05Z0700" ∷ "2006.01.02" ∷ []) ("no entries found" ∷ []) []
    ∷ entry "whois.registry.in" [] [] ("no data found" ∷ "not found" ∷ []) []
    ∷ []

abbrev asia_pacific_templates : Dict Template
asia_pacific_templates =
    entry "whois.jprs.jp"
      (("[created on]", f_created)
        ∷ ("[expires on]", f_expires)
        ∷ ("[last updated]", f_updated)
        ∷ ("[status]", f_status)
        ∷ ("[name server]", f_nameserver)
        ∷ ("[registrant]", f_registrant_name)
        ∷ ("[domain name]", f_domain)
        ∷ ("[organization]", f_registrant_org)
        ∷ ("[last update]", f_updated)
        ∷ ("[registration date]", f_created)
        ∷ ("[signing key]", dropped)
        ∷ ("[web page]", dropped)
        ∷ ("[email address]", dropped)
        ∷ [])
      ("2006/01/02" ∷ "2006/01/02 15:04:05 (JST)" ∷ []) ("no match!!" ∷ "no match" ∷ []) []
    ∷ entry "whois.auda.org.au"
        (("last modified", f_updated)
          ∷ ("name server", f_nameserver)
          ∷ ("registrant", f_registrant_name)
          ∷ [])
        [] ("no data found" ∷ []) []
    ∷ entry "whois.twnic.net.tw" [] ("2006-01-02 15:04:05" ∷ []) ("no found" ∷ "not found" ∷ []) []
    ∷ entry "whois.kr"
        (("registered date", f_created)
          ∷ ("last updated date", f_updated)
          ∷ ("expiration date", f_expires)
          ∷ [])
        ("2006. 01. 02." ∷ "2006-01-02" ∷ []) ("above domain name is not registered" ∷ []) []
    ∷ entry "whois.cnnic.cn"
        (("registration time", f_created) ∷ ("expiration time", f_expires) ∷ [])
        ("2006-01-02 15:04:05" ∷ []) ("no matching record" ∷ []) []
    ∷ entry "whois.sgnic.sg" [] ("02-Jan-2006 15:04:05" ∷ [])
        ("domain not found" ∷ "not found" ∷ []) []
    ∷ entry "whois.nic.net.nz"
        (("domain_dateregistered", f_created)
          ∷ ("domain_datelastmodified", f_updated)
          ∷ ("ns_name_01", f_nameserver)
          ∷ [])
        [] ("query_status: 220 available" ∷ []) []
    ∷ []

abbrev americas_africa_templates : Dict Template
americas_africa_templates =
    entry "whois.registro.br"
      (("created", f_created)
        ∷ ("changed", f_updated)
        ∷ ("expires", f_expires)
        ∷ ("nserver", f_nameserver)
        ∷ ("owner", f_registrant_org)
        ∷ [])
      ("20060102" ∷ []) ("no match for" ∷ "% no match for" ∷ []) []
    ∷ entry "whois.cira.ca"
        (("creation date", f_created)
          ∷ ("expiry date", f_expires)
          ∷ ("name servers", f_nameserver)
          ∷ [])
        [] ("not found" ∷ "domain status: available" ∷ []) []
    ∷ entry "whois.nic.cl" [] ("2006-01-02 15:04:05 MST" ∷ []) ("no entries found" ∷ []) []
    ∷ entry "whois.nic.mx" [] ("2006-01-02" ∷ [])
        ("object_not_found" ∷ "no_se_encontro_el_objeto" ∷ []) []
    ∷ entry "whois.registry.co.za" [] [] ("available" ∷ "not found" ∷ []) []
    ∷ entry "whois.nic.ar" [] ("2006-01-02 15:04:05" ∷ [])
        ("el dominio no se encuentra registrado" ∷ "no entries found" ∷ []) []
    ∷ []

unfoldable pub templates : Dict Template
templates =
    gtld_templates ++ (europe_templates ++ (asia_pacific_templates ++ americas_africa_templates))
