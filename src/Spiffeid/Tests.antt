-- ===== src/Spiffeid/Tests.antt =====
-- Package spiffeid on concrete texts.
use go_spiffe.Prelude.{
  ok, err, ◌>>◌, Bytes, bytes_eq, has_prefix, ◌≡◌, refl, ◌≢◌, ◌↔◌, ◌⊎◌, inr, List, [], ◌∷◌, ◌++◌,
  or_nil, codes,
}
use go_spiffe.Spiffeid.Identifier
use go_spiffe.Spiffeid.Paths.{
  validate_chars, validate_path_segment, validate_path, join_path_segments,
}
use go_spiffe.Spiffeid.Identifier.{
  SpiffeId, from_segments, make_id, zero_trust_domain, is_zero, path, trust_domain, zero_id, id_eq,
  append_segments, replace_path, append_path, TrustDomain, from_path, replace_segments, from_string,
}
use go_spiffe.Spiffeid.Uri.{from_uri-url, trust_domain_from_uri, url, from_uri, Url}
use go_spiffe.Spiffeid.Identifier.Valid.{
  from_string_iff, IsValid-of_from_string, IsValidTrustDomain, IsValid,
}
use go_spiffe.Spiffeid.Charset.{
  bad_path_segment_char, dot_segment, empty_segment, trailing_slash, bad_trust_domain_char,
  missing_trust_domain, wrong_scheme, empty, is_sub_delim, is_backcompat_path_char, backcompat,
  is_valid_path_segment_char, is_backcompat_trust_domain_char, standard, is_valid_trust_domain_char,
}
use go_spiffe.Spiffeid.Paths.Segments.{validate_path_iff_join}
use go_spiffe.Spiffeid.Identifier.Edit.{
  append_path-HasParts, append_path-eq-from_path, from_path-HasParts, HasParts,
}
use go_spiffe.Spiffeid.Identifier.Text.{unmarshal_text-cases, unmarshal_text-marshal_text}

abbrev name : Bytes
name = codes "example.org"

abbrev td : TrustDomain
td = record { name = name }

abbrev id_text : Bytes
id_text = codes "spiffe://example.org/foo/bar"

abbrev foo_bar : SpiffeId
foo_bar = record { id = id_text; pathidx = 20 }

foo_bar-parses : from_string standard id_text ≡ ok foo_bar
unfolding from_string has_prefix is_valid_trust_domain_char validate_path is_valid_path_segment_char
    bytes_eq
foo_bar-parses = refl

errors :
    (from_string standard (codes "") ≡ err empty)
    × (from_string standard (codes "spiffe:/x") ≡ err wrong_scheme)
    × (from_string standard (codes "spiffe:///x") ≡ err missing_trust_domain)
    × (from_string standard (codes "spiffe://eXample") ≡ err bad_trust_domain_char)
    × (from_string standard (codes "spiffe://a/") ≡ err trailing_slash)
    × (from_string standard (codes "spiffe://a//b") ≡ err empty_segment)
    × (from_string standard (codes "spiffe://a/./b") ≡ err dot_segment)
    × (from_string standard (codes "spiffe://a/b/..") ≡ err dot_segment)
    × (from_string standard (codes "spiffe://a/b!") ≡ err bad_path_segment_char)
unfolding from_string has_prefix is_valid_trust_domain_char is_backcompat_trust_domain_char
    validate_path is_valid_path_segment_char is_backcompat_path_char bytes_eq
errors = (refl, refl, refl, refl, refl, refl, refl, refl, refl)

backcompat_only :
    from_string backcompat (codes "spiffe://a/b!")
    ≡ ok (record { id = codes "spiffe://a/b!"; pathidx = 10 })
unfolding from_string has_prefix is_valid_trust_domain_char validate_path is_valid_path_segment_char
    is_backcompat_path_char is_sub_delim bytes_eq
backcompat_only = refl

abbrev segments : List Bytes
segments = codes "foo" ∷ codes "bar" ∷ []

joins : join_path_segments standard segments ≡ ok (codes "/foo/bar")
unfolding join_path_segments validate_path_segment validate_chars is_valid_path_segment_char
    bytes_eq
joins = refl

foo_bar-IsValid : IsValid standard foo_bar
foo_bar-IsValid = (IsValid-of_from_string standard id_text foo_bar-parses).0

td-IsValid : IsValidTrustDomain standard td
unfolding is_valid_trust_domain_char
td-IsValid = record { name_valid = record { ne_empty = refl; chars = refl } }

from_string_iff_example :
    (from_string standard id_text ≡ ok foo_bar)
    ↔ (IsValid standard foo_bar × (foo_bar.id ≡ id_text))
from_string_iff_example = from_string_iff standard id_text foo_bar

validate_path_iff_join_example :
    (validate_path standard (codes "/foo/bar") ≡ ok tt)
    ↔ ((ss : List Bytes) × (join_path_segments standard ss ≡ ok (codes "/foo/bar")))
validate_path_iff_join_example = validate_path_iff_join standard (codes "/foo/bar")

makes : from_path standard td (codes "/foo/bar") ≡ ok foo_bar
unfolding from_path make_id validate_path is_valid_path_segment_char bytes_eq
makes = refl

from_path-HasParts_example : HasParts standard td (codes "/foo/bar") foo_bar
from_path-HasParts_example = from_path-HasParts standard td (codes "/foo/bar") td-IsValid makes

abbrev longer : SpiffeId
longer = record { id = codes "spiffe://example.org/foo/bar/baz"; pathidx = 20 }

appends : append_path standard foo_bar (codes "/baz") ≡ ok longer
unfolding append_path validate_path is_valid_path_segment_char bytes_eq
appends = refl

append_path-eq-from_path_example : append_path standard foo_bar (codes "/baz") ≡ (
    validate_path standard (codes "/baz")
    >> from_path standard (trust_domain foo_bar) (path foo_bar ++ codes "/baz"))
append_path-eq-from_path_example = append_path-eq-from_path standard (codes "/baz") foo_bar-IsValid

appends_segments : append_segments standard foo_bar (codes "baz" ∷ []) ≡ ok longer
unfolding append_segments join_path_segments validate_path_segment validate_chars
    is_valid_path_segment_char bytes_eq
appends_segments = refl

abbrev replaced : SpiffeId
replaced = record { id = codes "spiffe://example.org/baz"; pathidx = 20 }

replaces : replace_segments standard foo_bar (codes "baz" ∷ []) ≡ ok replaced
unfolding replace_segments is_zero from_segments trust_domain make_id join_path_segments
    validate_path_segment validate_chars is_valid_path_segment_char bytes_eq
replaces = refl

replaces_path : replace_path standard foo_bar (codes "/baz") ≡ ok replaced
unfolding replace_path is_zero from_path trust_domain make_id validate_path
    is_valid_path_segment_char bytes_eq
replaces_path = refl

longer-IsValid : IsValid standard longer
longer-IsValid = (append_path-HasParts standard (codes "/baz") foo_bar-IsValid appends).valid

unmarshal_text-cases_example :
    let r = Identifier.unmarshal_text standard longer (codes "spiffe://a/") in
    ((r.1 ≡ ok tt) × ((r.0 ≡ zero_id) ⊎ IsValid standard r.0) × (r.0.id ≡ codes "spiffe://a/"))
    ⊎ ((r.1 ≢ ok tt) × (r.0 ≡ longer))
unmarshal_text-cases_example = unmarshal_text-cases standard longer (codes "spiffe://a/")

unmarshal_text-marshal_text_example :
    Identifier.unmarshal_text standard longer (or_nil (Identifier.marshal_text foo_bar))
    ≡ (foo_bar, ok tt)
unmarshal_text-marshal_text_example =
    unmarshal_text-marshal_text standard foo_bar longer (inr foo_bar-IsValid)

-- A printer of URLs that writes no user, query or fragment, and escapes nothing.
abbrev print_url : Url → Bytes
print_url u = u.scheme ++ ((b':' ∷ b'/' ∷ b'/' ∷ []) ++ (u.host ++ u.path))

from_uri-url_example :
    (from_uri print_url standard (url foo_bar) ≡ ok foo_bar)
    × (trust_domain_from_uri print_url standard (url foo_bar) ≡ ok (trust_domain foo_bar))
from_uri-url_example = from_uri-url print_url (λ h p v w. refl) foo_bar-IsValid
