-- ===== src/Spiffeid/Identifier.antt =====
-- spiffeid/id.go. `pathidx` is an index into `id`, as in the source; a slice expression past the end
-- of its text, which panics in Go, is cut short here, and no valid ID makes one.
pub mod Equal
pub mod Valid
pub mod Text
pub mod Edit
use go_spiffe.Prelude.{
  ◌==◌, if◌then◌else◌, length, drop, Result, ok, err, ◌>>=◌, ◌>>◌, Bytes, bytes_eq, is_empty,
  has_prefix, slice, ℕ, ◌+◌, Bool, not, ◌&&◌, Option, none, some, List, [], ◌∷◌, ◌++◌, ltb, leb,
  ==_iff, Bool-cases, Option-cases, &&-eq-true, eq_of_iff_true, take, all, All, length-append,
  drop-append, take-append, take-length, all-append, append-left_cancel, map_err, >>=-eq-ok,
  >>-eq-ok, Result-cases, bytes_eq_iff, contains, has_prefix-append, eq-append_of_has_prefix,
  slice-append, zero, suc, ◌-◌, ◌*◌, ◌/◌, ◌%◌, ◌^◌, ◌≤◌, ◌<◌, ◌≡◌, refl, sym, ap, ◌∙◌, ◌≢◌, ◌↔◌,
  ◌⊎◌, inl, inr, true, false, ◌||◌, map, append-nil, append_assoc, arith, ok-injective,
  err-injective, Bytes-cases, or_nil, codes,
}
use go_spiffe.Spiffeid.Charset.{
  Error, bad_trust_domain_char, empty, missing_trust_domain, wrong_scheme, trust_domain_is_empty,
  append_path_on_zero, append_segments_on_zero, replace_path_on_zero, replace_segments_on_zero,
  Build, is_valid_trust_domain_char,
}
use go_spiffe.Spiffeid.Paths.{validate_path, join_path_segments, format_path}

-- "spiffe://"
abbrev pub scheme_prefix : Bytes
scheme_prefix = b's' ∷ b'p' ∷ b'i' ∷ b'f' ∷ b'f' ∷ b'e' ∷ b':' ∷ b'/' ∷ b'/' ∷ []

abbrev pub scheme_prefix_len : ℕ
scheme_prefix_len = 9

pub record TrustDomain : Type 0 where
  pub name : Bytes

pub record SpiffeId : Type 0 where
  pub id : Bytes
  pub pathidx : ℕ

-- `TrustDomain{}` and `ID{}`
abbrev pub zero_trust_domain : TrustDomain
zero_trust_domain = record { name = [] }

abbrev pub zero_id : SpiffeId
zero_id = record { id = []; pathidx = 0 }

-- `a == b` on two of these structs
unfoldable pub trust_domain_eq : TrustDomain → TrustDomain → Bool
trust_domain_eq a b = bytes_eq a.name b.name

unfoldable pub id_eq : SpiffeId → SpiffeId → Bool
id_eq a b = bytes_eq a.id b.id && a.pathidx == b.pathidx

-- `ID.IsZero`, `TrustDomain.IsZero`
unfoldable pub is_zero : SpiffeId → Bool
is_zero x = is_empty x.id

unfoldable pub is_zero_trust_domain : TrustDomain → Bool
is_zero_trust_domain td = is_empty td.name

unfoldable pub make_id : TrustDomain → Bytes → Result Error SpiffeId
unfolding is_zero_trust_domain
make_id td path =
    if is_zero_trust_domain td
    then err trust_domain_is_empty
    else ok (record {
      id = (scheme_prefix ++ td.name) ++ path;
      pathidx = scheme_prefix_len + length td.name;
    })

unfoldable pub from_path : Build → TrustDomain → Bytes → Result Error SpiffeId
unfolding make_id
from_path b td path = (validate_path b path >> make_id td path)

unfoldable pub from_segments : Build → TrustDomain → List Bytes → Result Error SpiffeId
unfolding make_id
from_segments b td segments = do path ← join_path_segments b segments; make_id td path

-- the `for` loop of `FromString`; `rest` is `id[pathidx:]`, and the index is returned
unfoldable pub trust_domain_end : Build → ℕ → Bytes → Result Error ℕ
trust_domain_end b pathidx [] = ok pathidx
trust_domain_end b pathidx (c ∷ rest) =
    let later = trust_domain_end b (pathidx + 1) rest in
    if c == b'/'
    then ok pathidx
    else if not (is_valid_trust_domain_char b c)
    then err bad_trust_domain_char
    else later

-- behind the loop
unfoldable pub from_string_at : Build → Bytes → ℕ → Result Error SpiffeId
from_string_at b id pathidx =
    if pathidx == scheme_prefix_len
    then err missing_trust_domain
    else (validate_path b (drop pathidx id) >> ok (record { id = id; pathidx = pathidx }))

unfoldable pub from_string : Build → Bytes → Result Error SpiffeId
unfolding trust_domain_end from_string_at
from_string b id =
    if is_empty id
    then err empty
    else if not (has_prefix id scheme_prefix)
    then err wrong_scheme
    else do
      pathidx ← trust_domain_end b scheme_prefix_len (drop scheme_prefix_len id)
      from_string_at b id pathidx

-- `ID.TrustDomain`
unfoldable pub trust_domain : SpiffeId → TrustDomain
unfolding is_zero
trust_domain x =
    if is_zero x
    then zero_trust_domain
    else record { name = slice x.id scheme_prefix_len x.pathidx }

unfoldable pub member_of : SpiffeId → TrustDomain → Bool
unfolding trust_domain trust_domain_eq
member_of x td = trust_domain_eq (trust_domain x) td

-- `ID.Path`
unfoldable pub path : SpiffeId → Bytes
path x = drop x.pathidx x.id

-- `ID.String`
unfoldable pub string : SpiffeId → Bytes
string x = x.id

unfoldable pub append_path : Build → SpiffeId → Bytes → Result Error SpiffeId
unfolding is_zero
append_path b x path =
    if is_zero x
    then err append_path_on_zero
    else (validate_path b path >> ok (record x { id = x.id ++ path }))

unfoldable pub append_segments : Build → SpiffeId → List Bytes → Result Error SpiffeId
unfolding is_zero
append_segments b x segments =
    if is_zero x
    then err append_segments_on_zero
    else do path ← join_path_segments b segments; ok (record x { id = x.id ++ path })

unfoldable pub replace_path : Build → SpiffeId → Bytes → Result Error SpiffeId
replace_path b x path =
    if is_zero x then err replace_path_on_zero else from_path b (trust_domain x) path

unfoldable pub replace_segments : Build → SpiffeId → List Bytes → Result Error SpiffeId
replace_segments b x segments =
    if is_zero x then err replace_segments_on_zero else from_segments b (trust_domain x) segments

-- `nil` for the zero value; the error is always nil
unfoldable pub marshal_text : SpiffeId → Option Bytes
unfolding is_zero string
marshal_text x = if is_zero x then none else some (string x)

-- `UnmarshalText` writes through its receiver: the new value of it, and the error.
unfoldable pub unmarshal_text : Build → SpiffeId → Bytes → SpiffeId × Result Error (Unit {0})
unmarshal_text b old text =
    if is_empty text
    then (zero_id, ok tt)
    else elim (from_string b text) [ ok x ↦ (x, ok tt) | err e ↦ (old, err e) ]

-- `fmt.Sprintf` is a parameter.
module _ {Arg : Type 0} (sprintf : Bytes → List Arg → Bytes) where
  unfoldable pub from_pathf : Build → TrustDomain → Bytes → List Arg → Result Error SpiffeId
  unfolding make_id format_path
  from_pathf b td format args = do path ← format_path sprintf b format args; make_id td path

  unfoldable pub from_stringf : Build → Bytes → List Arg → Result Error SpiffeId
  from_stringf b format args = from_string b (sprintf format args)

  unfoldable pub append_pathf : Build → SpiffeId → Bytes → List Arg → Result Error SpiffeId
  unfolding is_zero format_path
  append_pathf b x format args =
      if is_zero x
      then err append_path_on_zero
      else do path ← format_path sprintf b format args; ok (record x { id = x.id ++ path })

  unfoldable pub replace_pathf : Build → SpiffeId → Bytes → List Arg → Result Error SpiffeId
  replace_pathf b x format args =
      if is_zero x then err replace_path_on_zero else from_pathf b (trust_domain x) format args
