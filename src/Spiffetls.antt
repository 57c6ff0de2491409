-- ===== src/Spiffetls.antt =====
-- Package spiffetls: the peer's ID of peerid.go. The modes and dialing have modules of their own.
pub mod Mode
pub mod Dial
pub mod Laws
pub mod Verifies
mod Tests
use go_spiffe.Prelude.{
  ltb, leb, ◌==◌, if◌then◌else◌, ==_iff, Bool-cases, Option-cases, &&-eq-true, eq_of_iff_true,
  length, take, drop, all, All, length-append, drop-append, take-append, take-length, all-append,
  append-left_cancel, Result, ok, err, ◌>>=◌, ◌>>◌, map_err, >>=-eq-ok, >>-eq-ok, Result-cases,
  Bytes, bytes_eq, bytes_eq_iff, is_empty, has_prefix, contains, slice, has_prefix-append,
  eq-append_of_has_prefix, slice-append, ℕ, zero, suc, ◌+◌, ◌-◌, ◌*◌, ◌/◌, ◌%◌, ◌^◌, ◌≤◌, ◌<◌, ◌≡◌,
  refl, sym, ap, ◌∙◌, ◌≢◌, ◌↔◌, ◌⊎◌, inl, inr, Bool, true, false, not, ◌&&◌, ◌||◌, Option, none,
  some, List, [], ◌∷◌, ◌++◌, map, append-nil, append_assoc, arith, ok-injective, err-injective,
  Bytes-cases, or_nil, codes, map_err-eq-ok, if-eq-ok, required, required-eq-ok, check-eq-ok,
}
use go_spiffe.X509.{Certificate}
use go_spiffe.Spiffeid.Charset.{Build}
use go_spiffe.Spiffeid.Identifier.{SpiffeId}
use go_spiffe.Spiffeid.Uri.{Url}
use go_spiffe.Svid.X509Svid.{IdError, id_from_cert}

pub data PeerIdError : Type 0 where
  no_peer_certificates : PeerIdError
  invalid_peer_certificate : IdError → PeerIdError

-- on the peer's certificates, of a connection's state
unfoldable pub peer_id_from_connection_state :
    Build → (Url → Bytes) → List Certificate → Result PeerIdError SpiffeId
peer_id_from_connection_state build url_string [] = err no_peer_certificates
peer_id_from_connection_state build url_string (leaf ∷ certs) =
    map_err invalid_peer_certificate (id_from_cert build url_string leaf)
