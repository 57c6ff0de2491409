-- ===== src/Spiffeid/Charset.antt =====
-- spiffeid/errors.go, and the character classes of spiffeid/trustdomain.go, spiffeid/path.go and
-- spiffeid/charset_backcompat_*.go. The build tag `spiffeid_charset_backcompat` is an argument.
use go_spiffe.Prelude.{leb, ◌==◌, if◌then◌else◌, ℕ, ◌≡◌, Bool, true, false, ◌&&◌, ◌||◌, arith}

pub data Error : Type 0 where
  bad_trust_domain_char bad_path_segment_char dot_segment no_leading_slash : Error
  empty empty_segment missing_trust_domain trailing_slash wrong_scheme : Error
  -- the `errors.New` values made where they are returned
  trust_domain_is_empty append_path_on_zero append_segments_on_zero : Error
  replace_path_on_zero replace_segments_on_zero : Error

-- which of the two charset files is built
pub data Build : Type 0 where
  standard backcompat : Build

unfoldable pub is_sub_delim : ℕ → Bool
is_sub_delim c =
    c == b'!'
    || c == b'$'
    || c == b'&'
    || c == 39
    || c == b'('
    || c == b')'
    || c == b'*'
    || c == b'+'
    || c == b','
    || c == b';'
    || c == b'='

unfoldable pub is_backcompat_trust_domain_char : Build → ℕ → Bool
is_backcompat_trust_domain_char standard c = false
is_backcompat_trust_domain_char backcompat c = if is_sub_delim c then true else c == b'~'

unfoldable pub is_backcompat_path_char : Build → ℕ → Bool
is_backcompat_path_char standard c = false
is_backcompat_path_char backcompat c =
    if is_sub_delim c
    then true
    else if c == b'~'
    then true
    else c == b':' || c == b'[' || c == b']' || c == b'@'

unfoldable pub is_valid_trust_domain_char : Build → ℕ → Bool
is_valid_trust_domain_char b c =
    if leb b'a' c && leb c b'z'
    then true
    else if leb b'0' c && leb c b'9'
    then true
    else if c == b'-' || c == b'.' || c == b'_'
    then true
    else is_backcompat_trust_domain_char b c

unfoldable pub is_valid_path_segment_char : Build → ℕ → Bool
is_valid_path_segment_char b c =
    if leb b'a' c && leb c b'z'
    then true
    else if leb b'A' c && leb c b'Z'
    then true
    else if leb b'0' c && leb c b'9'
    then true
    else if c == b'-' || c == b'.' || c == b'_'
    then true
    else is_backcompat_path_char b c

-- Neither class holds the slash, so a slash always ends a trust domain or a segment.
pub path_char-ne-slash :
    (b : Build) (c : ℕ) → is_valid_path_segment_char b c ≡ true → (c == b'/') ≡ false
unfolding is_valid_path_segment_char is_backcompat_path_char is_sub_delim
path_char-ne-slash standard c h = ground arith
path_char-ne-slash backcompat c h = ground arith

pub trust_domain_char-ne-slash :
    (b : Build) (c : ℕ) → is_valid_trust_domain_char b c ≡ true → (c == b'/') ≡ false
unfolding is_valid_trust_domain_char is_backcompat_trust_domain_char is_sub_delim
trust_domain_char-ne-slash standard c h = ground arith
trust_domain_char-ne-slash backcompat c h = ground arith

-- A colon is in no trust domain.
pub trust_domain_char-ne-colon :
    (b : Build) (c : ℕ) → is_valid_trust_domain_char b c ≡ true → (c == b':') ≡ false
unfolding is_valid_trust_domain_char is_backcompat_trust_domain_char is_sub_delim
trust_domain_char-ne-colon standard c h = ground arith
trust_domain_char-ne-colon backcompat c h = ground arith

-- Every trust domain character is a path character.
pub path_char_of_trust_domain_char :
    (b : Build) (c : ℕ)
    → is_valid_trust_domain_char b c ≡ true
    → is_valid_path_segment_char b c ≡ true
unfolding is_valid_trust_domain_char is_backcompat_trust_domain_char is_valid_path_segment_char
    is_backcompat_path_char
path_char_of_trust_domain_char standard c h = ground arith
path_char_of_trust_domain_char backcompat c h = ground arith

-- The wider build accepts all that the standard build accepts.
pub path_char-backcompat :
    (c : ℕ)
    → is_valid_path_segment_char standard c ≡ true
    → is_valid_path_segment_char backcompat c ≡ true
unfolding is_valid_path_segment_char is_backcompat_path_char
path_char-backcompat c h = ground arith

pub trust_domain_char-backcompat :
    (c : ℕ)
    → is_valid_trust_domain_char standard c ≡ true
    → is_valid_trust_domain_char backcompat c ≡ true
unfolding is_valid_trust_domain_char is_backcompat_trust_domain_char
trust_domain_char-backcompat c h = ground arith
