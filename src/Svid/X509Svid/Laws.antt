-- ===== src/Svid/X509Svid/Laws.antt =====
-- When `newSVID` makes an SVID.
use go_spiffe.Prelude.{
  All, ok, map_err, >>=-eq-ok, >>-eq-ok, Bytes, is_empty, ◌≡◌, refl, sym, ap, ◌↔◌, false, Option,
  some, List, [], ◌∷◌, ok-injective, map_err-eq-ok, if-eq-ok,
}
use go_spiffe.Spiffeid.Charset.{Build}
use go_spiffe.Spiffeid.Identifier.{SpiffeId, path}
use go_spiffe.Spiffeid.Uri.{Url, from_uri}
use go_spiffe.X509.{Certificate}
use go_spiffe.Svid.X509Svid.{
  private_key_validation_failed, certificate_validation_failed, cannot_get_leaf_id, not_an_id,
  id_from_cert, validate_leaf_certificate, Svid, id_from_uris, validate_certificates, new_svid,
  validate_signing_certificates, validate_private_key, validate_key_usage, PrivateKey,
}
use go_spiffe.Svid.X509Svid.Checks.{
  public_of, IsLeafUsage, IsSigning, validate_private_key_iff, validate_key_usage_iff,
  validate_signing_certificates_iff,
}

module _ (build : Build) (url_string : Url → Bytes) where
  -- The certificate has one URI, and `FromURI` reads the ID from it.
  abbrev pub HasId : Certificate → SpiffeId → Type 0
  HasId cert id = (uri : Url) × (cert.uris ≡ uri ∷ []) × (from_uri url_string build uri ≡ ok id)

  id_from_uris_iff :
      (uris : List Url) (id : SpiffeId)
      → (id_from_uris build url_string uris ≡ ok id)
        ↔ ((uri : Url) × (uris ≡ uri ∷ []) × (from_uri url_string build uri ≡ ok id))
  id_from_uris_iff [] id = (λ h. absurd cc, λ h. absurd (let e = h.1 in cc))
  id_from_uris_iff (uri ∷ []) id = (
    λ h. (uri, refl, map_err-eq-ok not_an_id (from_uri url_string build uri) h),
    λ h. (let same : uri ≡ h.0 = (let e = h.1 in cc) in rw (same, h.2) refl),
  )
  id_from_uris_iff (uri ∷ other_uri ∷ uris) id = (λ h. absurd cc, λ h. absurd (let e = h.1 in cc))

  pub id_from_cert_iff :
      (cert : Certificate) (id : SpiffeId)
      → (id_from_cert build url_string cert ≡ ok id) ↔ HasId cert id
  unfolding id_from_cert
  id_from_cert_iff cert id = id_from_uris_iff cert.uris id

  -- What the leaf of an SVID with that ID must be.
  abbrev pub IsLeaf : Certificate → SpiffeId → Type 0
  IsLeaf leaf id =
      HasId leaf id
      × (is_empty (path id) ≡ false)
      × (leaf.is_ca ≡ false)
      × IsLeafUsage leaf.key_usage

  validate_leaf_certificate_iff :
      (leaf : Certificate) (id : SpiffeId)
      → (validate_leaf_certificate build url_string leaf ≡ ok id) ↔ IsLeaf leaf id
  unfolding validate_leaf_certificate
  validate_leaf_certificate_iff leaf id = (
    λ h.
        let (x, e1, e2) =
          >>=-eq-ok (map_err cannot_get_leaf_id (id_from_cert build url_string leaf)) _ h in
        let (path_ok, e3) = if-eq-ok (is_empty (path x)) _ _ e2 in
        let (ca_ok, e4) = if-eq-ok leaf.is_ca _ _ e3 in
        let (usage, e5) = >>-eq-ok (validate_key_usage leaf) (ok x) e4 in
        let x_is : x ≡ id = ok-injective e5 in
        let id_ok = map_err-eq-ok cannot_get_leaf_id (id_from_cert build url_string leaf) e1 in
        rw (← x_is) (
          (id_from_cert_iff leaf x).0 id_ok,
          path_ok,
          ca_ok,
          (validate_key_usage_iff leaf).0 usage,
        ),
    λ h. rw ((id_from_cert_iff leaf id).1 h.0, (validate_key_usage_iff leaf).1 h.3, h.1, h.2) refl,
  )

  -- What `newSVID` promises of an SVID that it makes from those certificates and that key.
  pub record IsSvidOf (certs : List Certificate) (key : Option PrivateKey) (s : Svid) : Type 0 where
    pub leaf : Certificate
    pub signing_certs : List Certificate
    pub certs_are : certs ≡ leaf ∷ signing_certs
    pub leaf_valid : IsLeaf leaf s.id
    pub signing_valid : All IsSigning signing_certs
    pub key_is : key ≡ some s.private_key
    pub key_fits : public_of s.private_key ≡ some leaf.public_key
    pub certificates_are : s.certificates ≡ certs
    pub no_hint : s.hint ≡ []

  validate_certificates_iff :
      (leaf : Certificate) (signing_certs : List Certificate) (id : SpiffeId)
      → (validate_certificates build url_string (leaf ∷ signing_certs) ≡ ok id)
        ↔ (IsLeaf leaf id × All IsSigning signing_certs)
  unfolding validate_certificates
  validate_certificates_iff leaf signing_certs id = (
    λ h.
        let (x, e1, e2) = >>=-eq-ok (validate_leaf_certificate build url_string leaf) _ h in
        let (signing, e3) = >>-eq-ok (validate_signing_certificates signing_certs) (ok x) e2 in
        let x_is : x ≡ id = ok-injective e3 in
        rw (← x_is) (
          (validate_leaf_certificate_iff leaf x).0 e1,
          (validate_signing_certificates_iff signing_certs).0 signing,
        ),
    λ h.
        rw
          (
            (validate_leaf_certificate_iff leaf id).1 h.0,
            (validate_signing_certificates_iff signing_certs).1 h.1,
          )
          refl,
  )

  -- `newSVID` makes an SVID from certificates and a key if and only if there is a leaf with one
  -- URI, which `FromURI` reads as the ID of the SVID, with a path, without the CA flag, with usage
  -- for digital signatures and none for signing certificates or revocation lists; every other
  -- certificate has the CA flag and signs certificates; the key is there and of a supported type,
  -- with the public key of the leaf; and the SVID has those certificates, that key and no hint.
  pub new_svid_iff :
      {E : Type 0} (certs : List Certificate) (key : Option PrivateKey) (s : Svid)
      → (new_svid build url_string {E = E} certs key ≡ ok s) ↔ IsSvidOf certs key s
  unfolding new_svid
  new_svid_iff [] key s = (λ h. absurd cc, λ h. absurd (let e = h.certs_are in cc))
  new_svid_iff {E = E} (leaf ∷ signing_certs) key s = (
    λ h.
        let (x, e1, e2) =
          >>=-eq-ok
            (map_err certificate_validation_failed
              (validate_certificates build url_string (leaf ∷ signing_certs)))
            _ h in
        let (k, e3, e4) =
          >>=-eq-ok (map_err private_key_validation_failed (validate_private_key key leaf)) _ e2 in
        let (leaf_ok, signing_ok) =
          (validate_certificates_iff leaf signing_certs x).0
            (map_err-eq-ok certificate_validation_failed _ e1) in
        let (key_ok, fits) =
          (validate_private_key_iff key leaf k).0
            (map_err-eq-ok private_key_validation_failed _ e3) in
        rw (← ok-injective e4) (record {
          leaf = leaf;
          signing_certs = signing_certs;
          certs_are = refl;
          leaf_valid = leaf_ok;
          signing_valid = signing_ok;
          key_is = key_ok;
          key_fits = fits;
          certificates_are = refl;
          no_hint = refl;
        }),
    λ h.
        let leaf_is : leaf ≡ h.leaf = (let e = h.certs_are in cc) in
        let signing_is : signing_certs ≡ h.signing_certs = (let e = h.certs_are in cc) in
        rw
          (
            (validate_certificates_iff leaf signing_certs s.id).1
                (rw leaf_is h.leaf_valid, rw signing_is h.signing_valid),
            (validate_private_key_iff key leaf s.private_key).1 (h.key_is, rw leaf_is h.key_fits),
          )
          (ap ok (λ i. record {
            id = s.id;
            certificates = (sym h.certificates_are) i;
            private_key = s.private_key;
            hint = (sym h.no_hint) i;
          })),
  )
