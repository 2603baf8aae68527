-- ===== src/Rdap/Registry.antt =====
-- internal/rdapx/bootstrap.go: the registry of the RDAP services of top-level domains. JSON and the
-- fetch are parameters: a body decodes to a document or not, and a refresh gets a `Fetched`.
pub mod Secure
use whois_mcp.Prelude.{
  ℕ, Bool, true, false, Option, none, some, List, [], ◌∷◌, Text, is_empty, Dict, lookup, insert,
  Result, ok, err, ◌>>=◌, or_fail, to_lower, trim_space, if◌then◌else◌,
}
use whois_mcp.Rdap.Bootstrap.{Document, prefer_https}

pub record Registry : Type 0 where
  pub by_tld : Dict (List Text)
  pub publication : ℕ
  pub loaded_at : ℕ
  pub etag : Text
  pub from_network : Bool

pub data RegistryError : Type 0 where
  unparseable no_services no_usable_tlds : RegistryError
  fetch_failed bad_status read_failed : RegistryError

-- The domains of one service that are not empty get its base URLs.
unfoldable pub add_tlds : List Text → List Text → Dict (List Text) → Dict (List Text)
unfolding to_lower trim_space insert
add_tlds [] secure m = m
add_tlds (tld ∷ tlds) secure m =
    let t = to_lower (trim_space tld) in
    add_tlds tlds secure (if is_empty t then m else insert t secure m)

abbrev pub has_none {ℓ} : {A : Type ℓ} → List A → Bool
has_none [] = true
has_none (_ ∷ _) = false

unfoldable pub add_service : List (List Text) → Dict (List Text) → Dict (List Text)
unfolding prefer_https add_tlds
add_service (tlds ∷ urls ∷ []) m =
    let secure = prefer_https urls in if has_none secure then m else add_tlds tlds secure m
add_service _ m = m

unfoldable pub tlds_from : List (List (List Text)) → Dict (List Text) → Dict (List Text)
unfolding add_service
tlds_from [] m = m
tlds_from (svc ∷ svcs) m = tlds_from svcs (add_service svc m)

unfoldable pub load_document : Document → Text → ℕ → Registry → Result RegistryError Registry
unfolding tlds_from
load_document doc etag now r =
    let by_tld = tlds_from doc.services [] in
    if has_none doc.services
    then err no_services
    else if has_none by_tld
    then err no_usable_tlds
    else ok
        (record r { by_tld = by_tld; publication = doc.publication; loaded_at = now; etag = etag })

-- The response to a refresh: none, an unchanged document, or a body with its tag.
pub data Fetched : Type 0 where
  no_response not_modified other_status no_body : Fetched
  body : Text → Text → Fetched

abbrev pub no_registry : Registry
no_registry = record {
  by_tld = [];
  publication = 0;
  loaded_at = 0;
  etag = [];
  from_network = false;
}

module _ (decode : Text → Option Document) where
  unfoldable pub load : Text → Text → ℕ → Registry → Result RegistryError Registry
  unfolding load_document
  load raw etag now r = or_fail (decode raw) unparseable >>= λ doc. load_document doc etag now r

  unfoldable pub new_registry : Text → ℕ → Result RegistryError Registry
  unfolding load
  new_registry embedded now = load embedded [] now no_registry

  abbrev as_network : Result RegistryError Registry → Registry → Registry × Option RegistryError
  as_network (err e) r = (r, some e)
  as_network (ok r') r = (record r' { from_network = true }, none)

  -- The registry after the refresh, and the error that is reported.
  unfoldable pub refresh : Fetched → ℕ → Registry → Registry × Option RegistryError
  unfolding load
  refresh no_response now r = (r, some fetch_failed)
  refresh not_modified now r = (record r { loaded_at = now }, none)
  refresh other_status now r = (r, some bad_status)
  refresh no_body now r = (r, some read_failed)
  refresh (body raw etag) now r = as_network (load raw etag now r) r

abbrev pub some_bases : Option (List Text) → Option (List Text)
some_bases none = none
some_bases (some []) = none
some_bases (some (u ∷ us)) = some (u ∷ us)

-- `Lookup`: the base URLs, at least one.
unfoldable pub bases_for : Registry → Text → Option (List Text)
unfolding lookup to_lower
bases_for r tld = some_bases (lookup (to_lower tld) r.by_tld)
