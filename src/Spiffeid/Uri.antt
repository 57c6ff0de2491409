-- ===== src/Spiffeid/Uri.antt =====
-- `FromURI`, `ID.URL` and `TrustDomainFromURI`. Of `net/url` the code reads fields, and calls `String`,
-- which is a parameter here.
use go_spiffe.Prelude.{
  if◌then◌else◌, Result, ok, ◌>>=◌, Bytes, ◌≡◌, sym, ◌∙◌, Bool, false, [], ◌∷◌, ◌++◌,
}
use go_spiffe.Spiffeid.Charset.{Error, Build, standard}
use go_spiffe.Spiffeid.Paths.{validate_path}
use go_spiffe.Spiffeid.Identifier.{TrustDomain, SpiffeId, is_zero, from_string, trust_domain, path}
use go_spiffe.Spiffeid.Identifier.Valid.{
  IsName, IsValid, is_zero-IsValid, trust_domain-IsValid, path-IsValid, from_string-IsValid,
}

-- `url.URL`; `user` says whether the pointer is set
pub record Url : Type 0 where
  pub scheme : Bytes
  pub opaque : Bytes
  pub user : Bool
  pub host : Bytes
  pub path : Bytes
  pub raw_query : Bytes
  pub fragment : Bytes

abbrev pub zero_url : Url
zero_url = record {
  scheme = [];
  opaque = [];
  user = false;
  host = [];
  path = [];
  raw_query = [];
  fragment = [];
}

-- "spiffe"
abbrev pub spiffe_scheme : Bytes
spiffe_scheme = b's' ∷ b'p' ∷ b'i' ∷ b'f' ∷ b'f' ∷ b'e' ∷ []

-- `ID.URL`
unfoldable pub url : SpiffeId → Url
url x =
    if is_zero x
    then zero_url
    else record zero_url { scheme = spiffe_scheme; host = (trust_domain x).name; path = path x }

-- What `net/url` documents of `String` on a URL with a scheme, a host and a path that need no escape:
-- "scheme://host/path". The characters of the standard build need none.
abbrev pub Prints : (Url → Bytes) → Type 0
Prints url_string =
    (host path : Bytes)
    → IsName standard host
    → validate_path standard path ≡ ok tt
    → url_string (record zero_url { scheme = spiffe_scheme; host = host; path = path })
      ≡ spiffe_scheme ++ ((b':' ∷ b'/' ∷ b'/' ∷ []) ++ (host ++ path))

module _ (url_string : Url → Bytes) where
  unfoldable pub from_uri : Build → Url → Result Error SpiffeId
  from_uri b uri = from_string b (url_string uri)

  unfoldable pub trust_domain_from_uri : Build → Url → Result Error TrustDomain
  trust_domain_from_uri b uri = do id ← from_uri b uri; ok (trust_domain id)

  -- In the standard build the URL of a valid ID, read by `FromURI`, is the ID, and
  -- `TrustDomainFromURI` returns its trust domain, if `net/url` prints a URL of that scheme, host
  -- and path as "scheme://host/path".
  pub from_uri-url :
      {x : SpiffeId}
      → Prints url_string
      → IsValid standard x
      → (from_uri standard (url x) ≡ ok x)
        × (trust_domain_from_uri standard (url x) ≡ ok (trust_domain x))
  unfolding from_uri trust_domain_from_uri url
  from_uri-url {x} prints v =
      let text : url_string (url x) ≡ x.id =
        rw (is_zero-IsValid standard v, trust_domain-IsValid standard v, path-IsValid standard v)
          (prints v.name v.rest v.name_valid v.path_valid ∙ sym v.id_is) in
      let reads : from_string standard (url_string (url x)) ≡ ok x =
        rw text (from_string-IsValid standard v) in
      (reads, rw reads)
