-- ===== src/Lib.antt =====
-- The core of go-spiffe, version 2: SPIFFE IDs and trust domains, the bundles of trusted keys that are
-- kept for a trust domain, the certificates and tokens that carry an ID (X509-SVIDs, JWT-SVIDs and
-- WIT-SVIDs), the client of the Workload API that fetches and watches them, and TLS configurations.
--
-- A SPIFFE ID is a text "spiffe://<trust domain><path>". Package spiffeid parses, builds and edits
-- IDs; everything else takes its trust domains and IDs from it. The bundle packages keep the
-- authorities of a trust domain: X.509 certificates (bundle/x509bundle), JWT keys (bundle/jwtbundle),
-- WIT keys (exp/bundle/witbundle), and all of them with a refresh hint and a sequence number
-- (bundle/spiffebundle). Each package has a set of bundles, keyed by trust domain, and reads and
-- writes its bundles as documents. Package svid/x509svid makes an SVID from certificates and a key,
-- and verifies the certificates of a peer: it takes the ID from the leaf, and the roots from the
-- bundle of the ID's trust domain. Packages svid/jwtsvid and exp/svid/witsvid read tokens, whose
-- signature is verified with the key that the bundle of the ID's trust domain has under the token's
-- key ID. Package workloadapi turns responses of the Workload API into SVIDs and sets of bundles,
-- watches for new ones with a backoff, and keeps the last ones in sources that the other packages ask.
-- Package spiffetls/tlsconfig verifies a peer with svid/x509svid, a source of bundles and an
-- authorizer made from a matcher. Package spiffetls dials with such a configuration, in a mode that
-- says where SVIDs and bundles come from. Package federation fetches, serves and watches the bundle
-- documents of other trust domains.
--
-- Files:
--   Prelude, GoMap, GoTime    shared names; Go's maps, and `time.Duration` as int64 of nanoseconds
--   Spiffeid.Charset          spiffeid/errors.go, spiffeid/charset_backcompat_*.go, character classes
--   Spiffeid.Paths            spiffeid/path.go
--   Spiffeid.Identifier       spiffeid/id.go: `ID` is the record SpiffeId (id, pathidx)
--   Spiffeid.TrustDomain      spiffeid/trustdomain.go
--   Spiffeid.Uri, Match       the URLs of id.go and trustdomain.go; spiffeid/match.go
--   Spiffeid.Require          spiffeid/require.go: a panic is an outcome beside the value
--   Spiffeid.Backcompat       the two builds compared
--   Crypto, X509              internal/cryptoutil/keys.go, internal/jwtutil/util.go,
--                             internal/x509util/util.go
--   Bundle.X509, Jwt, Wit     bundle.go of the three packages; the state is the record Bundle.
--                             Bundle.X509.Files and Svid.X509Svid.Files are what uses pemutil
--   Bundle.Spiffe             bundle/spiffebundle/bundle.go; Bundle.Spiffe.Document has Parse, Marshal
--   Bundle.Set, Bundle.Sets   set.go of the four packages: Bundle.Set has what they share
--   Svid.X509Svid             svid/x509svid/svid.go (Files has Load, Parse, Marshal); Verify is verify.go
--   Svid.JwtSvid, WitSvid     svid/jwtsvid/svid.go, exp/svid/witsvid/svid.go; Svid.Jose is what they use
--                             of package go-jose
--   Pem                       internal/pemutil/pem.go
--   Workloadapi.Message,      workloadapi/client.go: `parse...` of the responses (Message has the loop
--     Response, Client, Watch that three of them share), `Fetch...`, `Watch...`
--   Workloadapi.Backoff, Addr workloadapi/backoff.go; addr*.go, and setAddress of client_*.go
--   Workloadapi.Watcher       workloadapi/watcher.go: the record Watcher, and a step relation on it
--   Workloadapi.BundleSource, workloadapi/bundlesource.go; x509source.go, jwtsource.go and
--     Sources                 witsource.go
--   Tlsconfig                 spiffetls/tlsconfig: authorizer.go, trace.go, the callbacks of config.go;
--                             Tlsconfig.Hooks has the configurations
--   Federation                federation/fetch.go and handler.go; Federation.Watch is watch.go
--   Spiffetls, Mode, Dial     spiffetls/peerid.go, mode.go, and dial.go with its options of option.go
--   */Tests, Svid.TokenTests  concrete runs
-- The other modules below these hold proofs, and are named for what they are about.
--
-- A Go string or byte slice is a list of bytes. A function that returns (T, error) returns a Result,
-- with the errors of the package as a data type. A method that changes its receiver returns the new
-- receiver. A lock is held for the whole of each method, so a method is one step, and sharing one
-- bundle between goroutines interleaves whole methods. A map is a list of entries in the order in
-- which `range` meets them, which Go leaves open: theorems hold for each order. A pointer that the
-- code tests for nil is an Option; copies of slices and maps are written out, and are equal values
-- here.
--
-- Loops over a string or a slice recur on what is left of it. The loop over PEM blocks is on fuel, the
-- number of bytes of its input, which is enough since each block takes one at least. A watch goes on
-- for ever; it runs here on a script, which says for each round how the stream of responses goes and
-- how the wait behind it ends, and a script may be of any length. A refresh hint is an integer of 64
-- bits with its wrap-around written out; indices into strings and slices are plain numbers.
--
-- Not code of the repository, and parameters of the definitions: `fmt.Sprintf`, `net/url`, the parsers
-- and encoders of certificates and keys, the search for certificate chains, the JSON encoding, and the
-- contents that files and readers return, package go-jose, the PEM decoder and encoder, the generated
-- client of the Workload API, HTTP,
-- dialing with crypto/tls, the clock. The hypothesis on a JSON encoding is that it decodes
-- what it encoded, and on `net/url` how it prints a URL with a scheme, a host and a path. The
-- hypotheses on the PEM decoder are that it shortens its input and reads back what the encoder wrote.
-- The public keys of the standard library are their fields; `sort.Slice` is insertion, since sorting
-- by a strict order of distinct keys has one result.
--
-- Not modelled: of workloadapi, New, the options and convenience.go, which build and close the gRPC
-- connection, and the waiting for the first updates in newWatcher and NewWITSource; Listen of
-- spiffetls and its listeners; the logging of federation/handler.go; spiffegrpc, logger, the generated
-- code under proto and exp/proto, and internal/test and the examples, which are adapters, output,
-- generated code and test support.
pub mod Prelude
pub mod GoMap
pub mod Spiffeid
pub mod Crypto
pub mod GoTime
pub mod X509
pub mod Bundle
pub mod Svid
pub mod Pem
pub mod Workloadapi
pub mod Tlsconfig
pub mod Federation
pub mod Spiffetls
