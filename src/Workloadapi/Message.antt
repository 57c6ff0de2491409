-- ===== src/Workloadapi/Message.antt =====
-- The messages of the Workload API that workloadapi/client.go reads, and the loop over the SVIDs of a
-- response, which its three functions share: they differ in the message and in how an SVID is parsed.
use go_spiffe.Prelude.{
  if◌then◌else◌, Result, ok, err, ◌>>=◌, Bytes, is_empty, Bool, not, ◌&&◌, List, [], ◌∷◌,
}
use go_spiffe.GoMap.{GoMap, has, put, bytes_key}

-- `workload.X509SVID` and `workload.X509SVIDResponse`
pub record X509SvidMessage : Type 0 where
  pub spiffe_id : Bytes
  pub x509_svid : Bytes
  pub x509_svid_key : Bytes
  pub bundle : Bytes
  pub hint : Bytes

pub record X509SvidResponse : Type 0 where
  pub svids : List X509SvidMessage
  pub federated_bundles : GoMap Bytes Bytes

-- `workload.JWTSVID`
pub record JwtSvidMessage : Type 0 where
  pub spiffe_id : Bytes
  pub svid : Bytes
  pub hint : Bytes

-- `workload.WITSVID`
pub record WitSvidMessage : Type 0 where
  pub spiffe_id : Bytes
  pub wit_svid : Bytes
  pub wit_svid_key : Bytes
  pub hint : Bytes

module _ {M S E : Type 0} (hint_of : M → Bytes) (parse_message : M → Result E S) where
  -- `_, ok := hints[svid.Hint]; ok && svid.Hint != ""`
  unfoldable pub is_repeated : GoMap Bytes (Unit {0}) → M → Bool
  is_repeated hints m = has (hint_of m) hints && not (is_empty (hint_of m))

  -- the loop, with the hints that it has met
  unfoldable pub parse_messages : GoMap Bytes (Unit {0}) → List M → Result E (List S)
  unfolding is_repeated
  parse_messages hints [] = ok []
  parse_messages hints (m ∷ messages) =
      let skipped = parse_messages hints messages in
      let rest = parse_messages (put (hint_of m) tt hints) messages in
      if is_repeated hints m
      then skipped
      else do svid ← parse_message m; svids ← rest; ok (svid ∷ svids)

  -- the function: `n = 1` for the first message alone
  unfoldable pub parse_svids : E → List M → Bool → Result E (List S)
  unfolding parse_messages
  parse_svids no_svids [] first_only = err no_svids
  parse_svids no_svids (m ∷ messages) first_only =
      if first_only then parse_messages [] (m ∷ []) else parse_messages [] (m ∷ messages)
