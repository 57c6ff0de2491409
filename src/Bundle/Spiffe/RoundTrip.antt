-- ===== src/Bundle/Spiffe/RoundTrip.antt =====
-- `Parse` reads back what `Marshal` writes, in bundle/spiffebundle/bundle.go.
use go_spiffe.Prelude.{
  length, Result, ok, err, ℕ, ◌+◌, ◌*◌, ◌^◌, ◌≤◌, ◌≡◌, refl, ◌∙◌, true, false, Option, none, some,
  [], ◌++◌, append_assoc, arith,
}
use go_spiffe.GoMap.{has, put_all, IsMap, bytes_key}
use go_spiffe.GoMap.Same.{put_all-empty}
use go_spiffe.GoTime.{
  ℤ, pos, negsuc, second, ceil_seconds, seconds_to_duration-fits, div_second-add_almost_second,
  ceil_seconds_bounds,
}
use go_spiffe.Spiffeid.Identifier.{TrustDomain}
use go_spiffe.X509.Authorities.{IsDistinct}
use go_spiffe.Bundle.Spiffe.{Bundle, new, set_refresh_hint, set_sequence_number, is_empty_bundle}
use go_spiffe.Bundle.Spiffe.Document
use go_spiffe.Bundle.Spiffe.Written.{x509_keys, used_keys, all_keys, all_keys-cases, document-eq}
use go_spiffe.Bundle.Spiffe.ReadBack.{add_keys-x509_keys, add_keys-jwt, add_keys-wit}

-- What `Parse` can read back: no authority twice, no empty key ID, and a refresh hint that is absent,
-- or not negative and not within a second of the largest duration.
abbrev pub HintFits : Option ℤ → Type 0
HintFits none = Unit
HintFits (some (pos n)) = n + second ≤ 2 ^ 63
HintFits (some (negsuc n)) = ⊥

pub record IsValid (b : Bundle) : Type 0 where
  pub distinct : IsDistinct b.x509_authorities
  pub jwt_map : IsMap b.jwt_authorities
  pub jwt_ids : has [] b.jwt_authorities ≡ false
  pub wit_map : IsMap b.wit_authorities
  pub wit_ids : has [] b.wit_authorities ≡ false
  pub hint_fits : HintFits b.refresh_hint

abbrev pub rounded : Option ℤ → Option ℤ
rounded none = none
rounded (some (pos n)) = some (pos (ceil_seconds n * second))
rounded (some (negsuc n)) = some (negsuc n)

add_keys-all_keys :
    {E : Type 0} (b : Bundle) (hint : Option ℤ) (number : Option ℕ)
    → IsValid b
    → Document.add_keys {E = E} 0
        (all_keys b)
        (record (new b.trust_domain) { refresh_hint = hint; sequence_number = number })
      ≡ ok (record b { refresh_hint = hint; sequence_number = number })
unfolding new
add_keys-all_keys b hint number v =
    let start : 0 + length b.x509_authorities ≡ length b.x509_authorities = omega arith in
    rw
      (append_assoc (x509_keys b.x509_authorities)
        (used_keys Document.jwt_svid_use b.jwt_authorities)
        (used_keys Document.wit_svid_use b.wit_authorities))
      (add_keys-x509_keys 0 b.x509_authorities
          (used_keys Document.jwt_svid_use b.jwt_authorities
            ++ used_keys Document.wit_svid_use b.wit_authorities)
          (record (new b.trust_domain) { refresh_hint = hint; sequence_number = number }) v.distinct
        ∙ rw start (
            add_keys-jwt (length b.x509_authorities) b.jwt_authorities
              (used_keys Document.wit_svid_use b.wit_authorities)
              (record (new b.trust_domain) {
                refresh_hint = hint;
                sequence_number = number;
                x509_authorities = b.x509_authorities;
              })
              v.jwt_ids)
        ∙ add_keys-wit (length b.x509_authorities + length b.jwt_authorities) b.wit_authorities
            (record b {
              refresh_hint = hint;
              sequence_number = number;
              wit_authorities = [];
              jwt_authorities = put_all [] b.jwt_authorities;
            })
            v.wit_ids
        ∙ rw (put_all-empty b.jwt_authorities v.jwt_map, put_all-empty b.wit_authorities v.wit_map)
            refl)

start_lem :
    (td : TrustDomain) (hint : Option ℤ) (number : Option ℕ)
    → HintFits hint
    → Document.set_number number (Document.set_hint (Document.written_hint hint) (new td))
      ≡ record (new td) { refresh_hint = rounded hint; sequence_number = number }
unfolding new set_refresh_hint set_sequence_number
start_lem td none none h = refl
start_lem td none (some number) h = refl
start_lem td (some (pos n)) none h =
    let (_, above) = ceil_seconds_bounds n in
    rw
      (
        div_second-add_almost_second n (omega arith),
        seconds_to_duration-fits (ceil_seconds n) (omega arith),
      )
      refl
start_lem td (some (pos n)) (some number) h =
    let (_, above) = ceil_seconds_bounds n in
    rw
      (
        div_second-add_almost_second n (omega arith),
        seconds_to_duration-fits (ceil_seconds n) (omega arith),
      )
      refl
start_lem td (some (negsuc n)) number h = absurd h

from_document-document :
    {E : Type 0} (b : Bundle)
    → IsValid b
    → is_empty_bundle b ≡ false
    → Document.from_document {E = E} b.trust_domain (Document.document b)
      ≡ ok (record b { refresh_hint = rounded b.refresh_hint })
unfolding Document.from_document
from_document-document b v h =
    let keys = rw h at (all_keys-cases b) in
    rw (document-eq b, keys, start_lem b.trust_domain b.refresh_hint b.sequence_number v.hint_fits)
      (add_keys-all_keys b (rounded b.refresh_hint) b.sequence_number v)

-- A SPIFFE bundle without authorities is marshalled to a document that `Parse` refuses with "no
-- authorities found", whatever its refresh hint and sequence number, if the JSON decoder reads back
-- what the encoder wrote.
pub parse-marshal_empty :
    {E Json : Type 0} (encode : Document.BundleDoc → Result E Json)
    (decode : Json → Result E Document.BundleDoc)
    → ((doc : Document.BundleDoc) (json : Json) → encode doc ≡ ok json → decode json ≡ ok doc)
    → (b : Bundle) {json : Json} → is_empty_bundle b ≡ true
    → Document.marshal encode b ≡ ok json
    → Document.parse decode b.trust_domain json ≡ err Document.no_authorities_found
unfolding Document.marshal Document.parse Document.from_document
parse-marshal_empty encode decode back b {json} e h =
    let keys = rw e at (all_keys-cases b) in
    rw (back (Document.document b) json h) (rw (document-eq b, keys) refl)

-- A SPIFFE bundle with an authority, with no authority twice, no empty key ID, and a refresh hint
-- that is absent, or not negative and at least a second below the largest duration, marshalled and
-- parsed, is the same bundle with its refresh hint rounded up to seconds, if the JSON decoder reads
-- back what the encoder wrote.
pub parse-marshal_spiffe :
    {E Json : Type 0} (encode : Document.BundleDoc → Result E Json)
    (decode : Json → Result E Document.BundleDoc)
    → ((doc : Document.BundleDoc) (json : Json) → encode doc ≡ ok json → decode json ≡ ok doc)
    → (b : Bundle) {json : Json} → IsValid b
    → is_empty_bundle b ≡ false
    → Document.marshal encode b ≡ ok json
    → Document.parse decode b.trust_domain json
      ≡ ok (record b { refresh_hint = rounded b.refresh_hint })
unfolding Document.marshal Document.parse
parse-marshal_spiffe encode decode back b {json} v e h =
    rw (back (Document.document b) json h) (from_document-document b v e)
