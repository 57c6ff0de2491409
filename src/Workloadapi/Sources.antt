-- ===== src/Workloadapi/Sources.antt =====
-- workloadapi/x509source.go, jwtsource.go and witsource.go: the states of the sources and their methods;
-- the locks make each method one step. A pointer that may be nil is an Option.
use go_spiffe.Prelude.{
  if◌then◌else◌, Result, ok, err, ◌>>=◌, ◌>>◌, map_err, Bool, true, false, Option, none, some, List,
  [], ◌∷◌, required,
}
use go_spiffe.Spiffeid.Identifier.{SpiffeId, TrustDomain, id_eq}
use go_spiffe.Bundle.X509
use go_spiffe.Bundle.Jwt
use go_spiffe.Bundle.Wit
use go_spiffe.Bundle.Set
use go_spiffe.Bundle.Sets.X509Set
use go_spiffe.Bundle.Sets.JwtSet
use go_spiffe.Bundle.Sets.WitSet
use go_spiffe.Svid.X509Svid
use go_spiffe.Svid.JwtSvid
use go_spiffe.Svid.WitSvid
use go_spiffe.Workloadapi.Response.{X509Context}
use go_spiffe.Workloadapi.Client.{Params}

-- `nil_pointer` and `index_out_of_range` are panics.
pub data SourceError (E : Type 0) : Type 0 where
  source_is_closed missing_x509_svid nil_pointer index_out_of_range : SourceError E
  no_bundle : Set.SetError → SourceError E
  no_wit_svid : SpiffeId → SourceError E
  fetch_failed : E → SourceError E

-- `checkClosed` of the three sources
unfoldable pub check_closed : {E : Type 0} → Bool → Result (SourceError E) (Unit {0})
check_closed closed = if closed then err source_is_closed else ok tt

pub record X509Source : Type 0 where
  pub picker : Option (List X509Svid.Svid → Option X509Svid.Svid)
  pub svid : Option X509Svid.Svid
  pub bundles : Option (Set.Set X509.Bundle)
  pub closed : Bool

-- `x.SVIDs[0]`
unfoldable pub default_svid :
    {E : Type 0} → List X509Svid.Svid → Result (SourceError E) (Option X509Svid.Svid)
default_svid [] = err index_out_of_range
default_svid (svid ∷ svids) = ok (some svid)

-- the `if` over the picker
unfoldable pub pick :
    {E : Type 0}
    → Option (List X509Svid.Svid → Option X509Svid.Svid)
    → List X509Svid.Svid
    → Result (SourceError E) (Option X509Svid.Svid)
unfolding default_svid
pick none svids = default_svid svids
pick (some picker) svids = ok (picker svids)

unfoldable pub set_x509_context :
    {E : Type 0} → X509Context → X509Source → Result (SourceError E) X509Source
unfolding pick
set_x509_context x509_context s = do
  svid ← pick s.picker x509_context.svids
  ok (record s { svid = svid; bundles = some x509_context.bundles })

unfoldable pub close_x509_source : X509Source → X509Source
close_x509_source s = record s { closed = true }

unfoldable pub get_x509_svid : {E : Type 0} → X509Source → Result (SourceError E) X509Svid.Svid
unfolding check_closed
get_x509_svid s = do check_closed s.closed; required missing_x509_svid s.svid

unfoldable pub get_x509_bundle_for_trust_domain :
    {E : Type 0} → TrustDomain → X509Source → Result (SourceError E) X509.Bundle
unfolding check_closed
get_x509_bundle_for_trust_domain td s = do
  check_closed s.closed
  bundles ← required nil_pointer s.bundles
  map_err no_bundle (X509Set.get_x509_bundle_for_trust_domain td bundles)

pub record JwtSource : Type 0 where
  pub picker : Option (List JwtSvid.Svid → Option JwtSvid.Svid)
  pub bundles : Option (Set.Set Jwt.Bundle)
  pub closed : Bool

unfoldable pub set_jwt_bundles : Set.Set Jwt.Bundle → JwtSource → JwtSource
set_jwt_bundles bundles s = record s { bundles = some bundles }

unfoldable pub close_jwt_source : JwtSource → JwtSource
close_jwt_source s = record s { closed = true }

-- The two fetches of the client are parameters.
module _ {E : Type 0} (fetch_one : Params → Result E JwtSvid.Svid)
    (fetch_all : Params → Result E (List JwtSvid.Svid)) where
  -- the `if` over the picker
  unfoldable pub fetch_picked :
      Option (List JwtSvid.Svid → Option JwtSvid.Svid)
      → Params
      → Result (SourceError E) (Option JwtSvid.Svid)
  fetch_picked none params = do svid ← map_err fetch_failed (fetch_one params); ok (some svid)
  fetch_picked (some picker) params = do
    svids ← map_err fetch_failed (fetch_all params)
    ok (picker svids)

  unfoldable pub fetch_jwt_svid : Params → JwtSource → Result (SourceError E) (Option JwtSvid.Svid)
  unfolding check_closed fetch_picked
  fetch_jwt_svid params s = do check_closed s.closed; fetch_picked s.picker params

  unfoldable pub fetch_jwt_svids : Params → JwtSource → Result (SourceError E) (List JwtSvid.Svid)
  unfolding check_closed
  fetch_jwt_svids params s = do check_closed s.closed; map_err fetch_failed (fetch_all params)

unfoldable pub get_jwt_bundle_for_trust_domain :
    {E : Type 0} → TrustDomain → JwtSource → Result (SourceError E) Jwt.Bundle
unfolding check_closed
get_jwt_bundle_for_trust_domain td s = do
  check_closed s.closed
  bundles ← required nil_pointer s.bundles
  map_err no_bundle (JwtSet.get_jwt_bundle_for_trust_domain td bundles)

pub record WitSource : Type 0 where
  pub svids : List WitSvid.Svid
  pub bundles : Set.Set Wit.Bundle
  pub closed : Bool

unfoldable pub new_wit_source : WitSource
new_wit_source = record { svids = []; bundles = WitSet.new_set []; closed = false }

unfoldable pub on_wit_svids_update : List WitSvid.Svid → WitSource → WitSource
on_wit_svids_update svids s = record s { svids = svids }

unfoldable pub on_wit_bundles_update : Set.Set Wit.Bundle → WitSource → WitSource
on_wit_bundles_update bundles s = record s { bundles = bundles }

-- the loop of `GetWITSVIDForID`
unfoldable pub find_svid :
    {E : Type 0} → SpiffeId → List WitSvid.Svid → Result (SourceError E) WitSvid.Svid
find_svid id [] = err (no_wit_svid id)
find_svid id (svid ∷ svids) = if id_eq svid.id id then ok svid else find_svid id svids

unfoldable pub get_wit_svid_for_id :
    {E : Type 0} → SpiffeId → WitSource → Result (SourceError E) WitSvid.Svid
unfolding check_closed find_svid
get_wit_svid_for_id id s = do check_closed s.closed; find_svid id s.svids

unfoldable pub get_wit_bundle_for_trust_domain :
    {E : Type 0} → TrustDomain → WitSource → Result (SourceError E) Wit.Bundle
unfolding check_closed
get_wit_bundle_for_trust_domain td s = do
  check_closed s.closed
  map_err no_bundle (WitSet.get_wit_bundle_for_trust_domain td s.bundles)
