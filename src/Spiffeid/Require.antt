-- ===== src/Spiffeid/Require.antt =====
-- spiffeid/require.go: the functions that panic in the place of an error.
use go_spiffe.Prelude.{Result, ok, err, Bytes, List}
use go_spiffe.Spiffeid.Charset.{Error, Build}
use go_spiffe.Spiffeid.Paths.{join_path_segments, format_path}
use go_spiffe.Spiffeid.Identifier.{
  TrustDomain, SpiffeId, from_path, from_segments, from_string, from_pathf, from_stringf,
}
use go_spiffe.Spiffeid.TrustDomain.{trust_domain_from_string}
use go_spiffe.Spiffeid.Uri.{Url, from_uri, trust_domain_from_uri}

-- How a call ends: it returns, or it panics with a value.
pub data Outcome {ℓ κ} (E : Type ℓ) (A : Type κ) : Type (ℓ ⊔ κ) where
  returns : A → Outcome E A
  panics : E → Outcome E A

-- `panicOnErr(err)` between a call and the use of its value
unfoldable pub panic_on_err {ℓ κ} : {E : Type ℓ} {A : Type κ} → Result E A → Outcome E A
panic_on_err (ok a) = returns a
panic_on_err (err e) = panics e

module _ (b : Build) where
  unfoldable pub require_from_path : TrustDomain → Bytes → Outcome Error SpiffeId
  require_from_path td path = panic_on_err (from_path b td path)

  unfoldable pub require_from_segments : TrustDomain → List Bytes → Outcome Error SpiffeId
  require_from_segments td segments = panic_on_err (from_segments b td segments)

  unfoldable pub require_from_string : Bytes → Outcome Error SpiffeId
  require_from_string s = panic_on_err (from_string b s)

  unfoldable pub require_trust_domain_from_string : Bytes → Outcome Error TrustDomain
  require_trust_domain_from_string s = panic_on_err (trust_domain_from_string b s)

  unfoldable pub require_join_path_segments : List Bytes → Outcome Error Bytes
  require_join_path_segments segments = panic_on_err (join_path_segments b segments)

module _ (url_string : Url → Bytes) (b : Build) where
  unfoldable pub require_from_uri : Url → Outcome Error SpiffeId
  require_from_uri uri = panic_on_err (from_uri url_string b uri)

  unfoldable pub require_trust_domain_from_uri : Url → Outcome Error TrustDomain
  require_trust_domain_from_uri uri = panic_on_err (trust_domain_from_uri url_string b uri)

module _ {Arg : Type 0} (sprintf : Bytes → List Arg → Bytes) (b : Build) where
  unfoldable pub require_from_pathf : TrustDomain → Bytes → List Arg → Outcome Error SpiffeId
  require_from_pathf td format args = panic_on_err (from_pathf sprintf b td format args)

  unfoldable pub require_from_stringf : Bytes → List Arg → Outcome Error SpiffeId
  require_from_stringf format args = panic_on_err (from_stringf sprintf b format args)

  unfoldable pub require_format_path : Bytes → List Arg → Outcome Error Bytes
  require_format_path format args = panic_on_err (format_path sprintf b format args)
