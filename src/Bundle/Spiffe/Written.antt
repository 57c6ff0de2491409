-- ===== src/Bundle/Spiffe/Written.antt =====
-- The keys of the document that `Marshal` of bundle/spiffebundle/bundle.go writes.
use go_spiffe.Prelude.{
  ◌==◌, if◌then◌else◌, length, Bytes, ℕ, suc, ◌≡◌, refl, ap, ◌∙◌, false, ◌&&◌, Option, none, some,
  List, [], ◌∷◌, ◌++◌, append-nil, append_assoc, arith,
}
use go_spiffe.GoMap.{bytes_key}
use go_spiffe.Crypto.{Keys}
use go_spiffe.X509.{Certificate}
use go_spiffe.Bundle.Jwks.{JsonWebKey, plain_key}
use go_spiffe.Bundle.Spiffe.{Bundle, is_empty_bundle}
use go_spiffe.Bundle.Spiffe.Document

-- A list that a nil slice starts: the empty one is nil.
abbrev pub as_slice : List JsonWebKey → Option (List JsonWebKey)
as_slice [] = none
as_slice (key ∷ keys) = some (key ∷ keys)

abbrev pub x509_keys : List Certificate → List JsonWebKey
x509_keys [] = []
x509_keys (cert ∷ certs) = Document.x509_key cert ∷ x509_keys certs

abbrev pub used_keys : Bytes → Keys → List JsonWebKey
used_keys use_of [] = []
used_keys use_of ((key_id, key) ∷ rest) =
    record (plain_key key_id key) { use_of = use_of } ∷ used_keys use_of rest

pub append_key-as_slice :
    (ks : List JsonWebKey) (k : JsonWebKey)
    → Document.append_key (as_slice ks) k ≡ as_slice (ks ++ k ∷ [])
append_key-as_slice [] k = refl
append_key-as_slice (x ∷ ks) k = refl

pub marshal_x509-as_slice :
    (ks : List JsonWebKey) (certs : List Certificate)
    → Document.marshal_x509 (as_slice ks) certs ≡ as_slice (ks ++ x509_keys certs)
unfolding Document.marshal_x509
marshal_x509-as_slice ks [] = rw (append-nil ks) refl
marshal_x509-as_slice ks (cert ∷ certs) = rw (append_key-as_slice ks (Document.x509_key cert)) (
    marshal_x509-as_slice (ks ++ Document.x509_key cert ∷ []) certs
    ∙ ap as_slice (append_assoc ks (Document.x509_key cert ∷ []) (x509_keys certs)))

pub marshal_keys-as_slice :
    (use_of : Bytes) (ks : List JsonWebKey) (m : Keys)
    → Document.marshal_keys use_of (as_slice ks) m ≡ as_slice (ks ++ used_keys use_of m)
unfolding Document.marshal_keys
marshal_keys-as_slice use_of ks [] = rw (append-nil ks) refl
marshal_keys-as_slice use_of ks ((key_id, key) ∷ m) =
    let k : JsonWebKey = record (plain_key key_id key) { use_of = use_of } in
    rw (append_key-as_slice ks k) (
      marshal_keys-as_slice use_of (ks ++ k ∷ []) m
      ∙ ap as_slice (append_assoc ks (k ∷ []) (used_keys use_of m)))

-- The keys of a document, in order.
abbrev pub all_keys : Bundle → List JsonWebKey
all_keys b =
    (x509_keys b.x509_authorities ++ used_keys Document.jwt_svid_use b.jwt_authorities)
    ++ used_keys Document.wit_svid_use b.wit_authorities

pub document-keys : (b : Bundle) → (Document.document b).keys ≡ as_slice (all_keys b)
unfolding Document.document
document-keys b =
    rw
      (
        marshal_x509-as_slice [] b.x509_authorities,
        marshal_keys-as_slice Document.jwt_svid_use (x509_keys b.x509_authorities)
            b.jwt_authorities,
      )
      (marshal_keys-as_slice Document.wit_svid_use
        (x509_keys b.x509_authorities ++ used_keys Document.jwt_svid_use b.jwt_authorities)
        b.wit_authorities)

pub suc_ne_zero : (n : ℕ) → (suc n == 0) ≡ false
suc_ne_zero n = ground arith

-- A bundle without authorities has a nil slice of keys, any other has its keys.
pub as_slice-cases :
    (certs : List Certificate) (jwt wit : Keys)
    → let keys =
        (x509_keys certs ++ used_keys Document.jwt_svid_use jwt)
        ++ used_keys Document.wit_svid_use wit in
      if (length certs == 0 && length jwt == 0) && length wit == 0
      then as_slice keys ≡ none
      else as_slice keys ≡ some keys
as_slice-cases (cert ∷ certs) jwt wit = rw (suc_ne_zero (length certs)) refl
as_slice-cases [] (key ∷ jwt) wit = rw (suc_ne_zero (length jwt)) refl
as_slice-cases [] [] (key ∷ wit) = rw (suc_ne_zero (length wit)) refl
as_slice-cases [] [] [] = refl

pub all_keys-cases :
    (b : Bundle)
    → if is_empty_bundle b
      then as_slice (all_keys b) ≡ none
      else as_slice (all_keys b) ≡ some (all_keys b)
unfolding is_empty_bundle
all_keys-cases b = as_slice-cases b.x509_authorities b.jwt_authorities b.wit_authorities

pub document-eq :
    (b : Bundle)
    → Document.document b ≡ record {
      keys = as_slice (all_keys b);
      sequence_number = b.sequence_number;
      refresh_hint = Document.written_hint b.refresh_hint;
    }
unfolding Document.document
document-eq b = rw (← document-keys b) (unfold Document.document in refl)
