-- ===== src/Workloadapi/Addr.antt =====
-- workloadapi/addr.go, addr_posix.go and addr_windows.go: the target of a socket address. Of net/url and
-- net the code uses the parser, the host and the port of a URL, the text of a URL, and IP addresses, which
-- are parameters; on Windows also the text of a named pipe.
use go_spiffe.Prelude.{
  if◌then◌else◌, Bool-cases, Result, ok, err, ◌>>=◌, ◌>>◌, >>=-eq-ok, >>-eq-ok, Bytes, bytes_eq,
  is_empty, has_prefix, ◌≡◌, refl, sym, ◌↔◌, inl, inr, Bool, true, false, not, ◌&&◌, Option, some,
  arith, ok-injective, codes, required, required-eq-ok, check-eq-ok,
}
use go_spiffe.Spiffeid.Uri.{Url}

pub data Platform : Type 0 where
  posix windows : Platform

pub data AddressError : Type 0 where
  not_a_uri tcp_opaque tcp_user tcp_no_host tcp_path tcp_query tcp_fragment tcp_not_ip tcp_no_port :
      AddressError
  unix_opaque unix_user unix_no_path unix_query unix_fragment : AddressError
  pipe_host pipe_not_opaque pipe_query pipe_fragment : AddressError
  invalid_endpoint_scheme : AddressError
  named_pipes_not_supported address_not_configured both_options : AddressError

-- what the code uses of net/url and net; `parse_ip` returns an address as it prints
pub record Net : Type 0 where
  pub parse : Bytes → Option Url
  pub hostname : Url → Bytes
  pub port : Url → Bytes
  pub url_string : Url → Bytes
  pub parse_ip : Bytes → Option Bytes
  pub join_host_port : Bytes → Bytes → Bytes
  pub named_pipe_target : Bytes → Bytes

not-eq-false : (b : Bool) → not b ≡ false → b ≡ true
not-eq-false b h = ground arith

module _ (net : Net) where
  unfoldable pub parse_target_posix : Url → Result AddressError Bytes
  parse_target_posix u =
      if bytes_eq u.scheme (codes "unix")
      then (do
        if not (is_empty u.opaque) then err unix_opaque else ok tt
        if u.user then err unix_user else ok tt
        if is_empty u.host && is_empty u.path then err unix_no_path else ok tt
        if not (is_empty u.raw_query) then err unix_query else ok tt
        if not (is_empty u.fragment) then err unix_fragment else ok tt
        ok (net.url_string u))
      else err invalid_endpoint_scheme

  unfoldable pub parse_target_windows : Url → Result AddressError Bytes
  parse_target_windows u =
      if bytes_eq u.scheme (codes "npipe")
      then (do
        if is_empty u.opaque && not (is_empty u.host) then err pipe_host else ok tt
        if is_empty u.opaque then err pipe_not_opaque else ok tt
        if not (is_empty u.raw_query) then err pipe_query else ok tt
        if not (is_empty u.fragment) then err pipe_fragment else ok tt
        ok (net.named_pipe_target u.opaque))
      else err invalid_endpoint_scheme

  -- `parseTargetFromURLAddrOS`
  unfoldable pub parse_target_os : Platform → Url → Result AddressError Bytes
  unfolding parse_target_posix parse_target_windows
  parse_target_os posix u = parse_target_posix u
  parse_target_os windows u = parse_target_windows u

  unfoldable pub parse_target_from_url_addr : Platform → Url → Result AddressError Bytes
  unfolding parse_target_os
  parse_target_from_url_addr platform u =
      if bytes_eq u.scheme (codes "tcp")
      then (do
        if not (is_empty u.opaque) then err tcp_opaque else ok tt
        if u.user then err tcp_user else ok tt
        if is_empty u.host then err tcp_no_host else ok tt
        if not (is_empty u.path) then err tcp_path else ok tt
        if not (is_empty u.raw_query) then err tcp_query else ok tt
        if not (is_empty u.fragment) then err tcp_fragment else ok tt
        ip ← required tcp_not_ip (net.parse_ip (net.hostname u))
        if is_empty (net.port u) then err tcp_no_port else ok tt
        ok (net.join_host_port ip (net.port u)))
      else parse_target_os platform u

  unfoldable pub target_from_address : Platform → Bytes → Result AddressError Bytes
  unfolding parse_target_from_url_addr
  target_from_address platform addr = do
    u ← required not_a_uri (net.parse addr)
    parse_target_from_url_addr platform u

  -- `ValidateAddress`
  unfoldable pub validate_address : Platform → Bytes → Result AddressError (Unit {0})
  unfolding target_from_address
  validate_address platform addr = do target ← target_from_address platform addr; ok tt

  -- the address that is set, or that of the environment
  unfoldable pub address_or_default : Bytes → Option Bytes → Result AddressError Bytes
  address_or_default address environment =
      if is_empty address then required address_not_configured environment else ok address

  -- `setAddress` on the two platforms: the address and the named pipe of the configuration, and the
  -- environment's default
  unfoldable pub set_address_posix : Bytes → Bytes → Option Bytes → Result AddressError Bytes
  unfolding address_or_default target_from_address
  set_address_posix address named_pipe environment = do
    if not (is_empty named_pipe) then err named_pipes_not_supported else ok tt
    addr ← address_or_default address environment
    target_from_address posix addr

  -- also whether the dial option for named pipes is added
  unfoldable pub set_address_windows :
      Bytes → Bytes → Option Bytes → Result AddressError (Bytes × Bool)
  unfolding address_or_default target_from_address
  set_address_windows address named_pipe environment =
      if not (is_empty named_pipe)
      then (if not (is_empty address)
          then err both_options
          else ok (net.named_pipe_target named_pipe, false))
      else do
        addr ← address_or_default address environment
        target ← target_from_address windows addr
        ok (target, has_prefix addr (codes "npipe:"))

  -- The target of an address with the scheme tcp.
  pub record IsTcpTarget (u : Url) (target : Bytes) : Type 0 where
    pub ip : Bytes
    pub no_opaque : is_empty u.opaque ≡ true
    pub no_user : u.user ≡ false
    pub host_set : is_empty u.host ≡ false
    pub no_path : is_empty u.path ≡ true
    pub no_query : is_empty u.raw_query ≡ true
    pub no_fragment : is_empty u.fragment ≡ true
    pub ip_is : net.parse_ip (net.hostname u) ≡ some ip
    pub port_set : is_empty (net.port u) ≡ false
    pub target_is : target ≡ net.join_host_port ip (net.port u)

  -- The target of an address with the scheme unix.
  pub record IsUnixTarget (u : Url) (target : Bytes) : Type 0 where
    pub scheme_is : bytes_eq u.scheme (codes "unix") ≡ true
    pub no_opaque : is_empty u.opaque ≡ true
    pub no_user : u.user ≡ false
    pub somewhere : (is_empty u.host && is_empty u.path) ≡ false
    pub no_query : is_empty u.raw_query ≡ true
    pub no_fragment : is_empty u.fragment ≡ true
    pub target_is : target ≡ net.url_string u

  parse_tcp_iff :
      (platform : Platform) (u : Url) (target : Bytes)
      → bytes_eq u.scheme (codes "tcp") ≡ true
      → (parse_target_from_url_addr platform u ≡ ok target) ↔ IsTcpTarget u target
  unfolding parse_target_from_url_addr
  parse_tcp_iff platform u target tcp = (forth, back)
    where
      forth : parse_target_from_url_addr platform u ≡ ok target → IsTcpTarget u target
      forth h0 =
          let h = rw tcp at h0 in
          let (t1, h1) = >>-eq-ok (if not (is_empty u.opaque) then err tcp_opaque else ok tt) _ h in
          let (t2, h2) = >>-eq-ok (if u.user then err tcp_user else ok tt) _ h1 in
          let (t3, h3) = >>-eq-ok (if is_empty u.host then err tcp_no_host else ok tt) _ h2 in
          let (t4, h4) = >>-eq-ok (if not (is_empty u.path) then err tcp_path else ok tt) _ h3 in
          let (t5, h5) =
            >>-eq-ok (if not (is_empty u.raw_query) then err tcp_query else ok tt) _ h4 in
          let (t6, h6) =
            >>-eq-ok (if not (is_empty u.fragment) then err tcp_fragment else ok tt) _ h5 in
          let (ip, p7, h7) = >>=-eq-ok (required tcp_not_ip (net.parse_ip (net.hostname u))) _ h6 in
          let (t8, h8) = >>-eq-ok (if is_empty (net.port u) then err tcp_no_port else ok tt) _ h7 in
          record {
            ip = ip;
            no_opaque = not-eq-false _ (check-eq-ok _ tcp_opaque t1);
            no_user = check-eq-ok u.user tcp_user t2;
            host_set = check-eq-ok (is_empty u.host) tcp_no_host t3;
            no_path = not-eq-false _ (check-eq-ok _ tcp_path t4);
            no_query = not-eq-false _ (check-eq-ok _ tcp_query t5);
            no_fragment = not-eq-false _ (check-eq-ok _ tcp_fragment t6);
            ip_is = required-eq-ok tcp_not_ip _ p7;
            port_set = check-eq-ok (is_empty (net.port u)) tcp_no_port t8;
            target_is = sym (ok-injective h8);
          }

      back : IsTcpTarget u target → parse_target_from_url_addr platform u ≡ ok target
      back h =
          rw
            (
              tcp, h.target_is, h.ip_is, h.port_set, h.no_opaque, h.host_set, h.no_path, h.no_query,
              h.no_fragment, h.no_user,
            )
            refl

  parse_unix_iff :
      (u : Url) (target : Bytes) → (parse_target_posix u ≡ ok target) ↔ IsUnixTarget u target
  unfolding parse_target_posix
  parse_unix_iff u target = (
    λ h. elim (Bool-cases (bytes_eq u.scheme (codes "unix"))) [
      | inl unix ↦ forth unix (rw unix at h)
      | inr other ↦ absurd (let k = rw other at h in cc)
    ],
    back,
  )
    where
      forth :
          bytes_eq u.scheme (codes "unix") ≡ true
          → (do
            if not (is_empty u.opaque) then err unix_opaque else ok tt
            if u.user then err unix_user else ok tt
            if is_empty u.host && is_empty u.path then err unix_no_path else ok tt
            if not (is_empty u.raw_query) then err unix_query else ok tt
            if not (is_empty u.fragment) then err unix_fragment else ok tt
            ok (net.url_string u))
            ≡ ok target
          → IsUnixTarget u target
      forth unix h =
          let (t1, h1) =
            >>-eq-ok (if not (is_empty u.opaque) then err unix_opaque else ok tt) _ h in
          let (t2, h2) = >>-eq-ok (if u.user then err unix_user else ok tt) _ h1 in
          let (t3, h3) =
            >>-eq-ok (if is_empty u.host && is_empty u.path then err unix_no_path else ok tt) _
              h2 in
          let (t4, h4) =
            >>-eq-ok (if not (is_empty u.raw_query) then err unix_query else ok tt) _ h3 in
          let (t5, h5) =
            >>-eq-ok (if not (is_empty u.fragment) then err unix_fragment else ok tt) _ h4 in
          record {
            scheme_is = unix;
            no_opaque = not-eq-false _ (check-eq-ok _ unix_opaque t1);
            no_user = check-eq-ok u.user unix_user t2;
            somewhere = check-eq-ok (is_empty u.host && is_empty u.path) unix_no_path t3;
            no_query = not-eq-false _ (check-eq-ok _ unix_query t4);
            no_fragment = not-eq-false _ (check-eq-ok _ unix_fragment t5);
            target_is = sym (ok-injective h5);
          }

      back : IsUnixTarget u target → parse_target_posix u ≡ ok target
      back h =
          rw
            (
              h.target_is, h.scheme_is, h.no_opaque, h.somewhere, h.no_query, h.no_fragment,
              h.no_user,
            )
            refl

  -- What names a target on a POSIX system.
  abbrev pub IsTarget : Url → Bytes → Type 0
  IsTarget u target =
      if bytes_eq u.scheme (codes "tcp") then IsTcpTarget u target else IsUnixTarget u target

  parse_posix_iff :
      (u : Url) (target : Bytes)
      → (parse_target_from_url_addr posix u ≡ ok target) ↔ IsTarget u target
  unfolding parse_target_from_url_addr parse_target_os
  parse_posix_iff u target = elim (Bool-cases (bytes_eq u.scheme (codes "tcp"))) [
    | inl tcp ↦ (
      λ h. rw tcp ((parse_tcp_iff posix u target tcp).0 h),
      λ t. (parse_tcp_iff posix u target tcp).1 (rw tcp at t),
    )
    | inr other ↦ rw other (parse_unix_iff u target)
  ]

  -- On a POSIX system `TargetFromAddress` returns a target if and only if the address is a URL,
  -- either with the scheme tcp, no opaque part, user, path, query or fragment, a host that names an
  -- IP address and a port, or with the scheme unix, no opaque part, user, query or fragment, and a
  -- host or a path; the target is the IP address and the port, or the text of the URL.
  pub target_from_address_iff :
      (addr target : Bytes)
      → (target_from_address posix addr ≡ ok target)
        ↔ ((u : Url) × (net.parse addr ≡ some u) × IsTarget u target)
  unfolding target_from_address
  target_from_address_iff addr target = (
    λ h.
        let (u, parsed, h1) = >>=-eq-ok (required not_a_uri (net.parse addr)) _ h in
        (u, required-eq-ok not_a_uri _ parsed, (parse_posix_iff u target).0 h1),
    λ (u, parsed, t). rw parsed ((parse_posix_iff u target).1 t),
  )
