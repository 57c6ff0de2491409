-- ===== src/Spiffeid/Paths.antt =====
-- spiffeid/path.go. A loop over a string recurs on the bytes that it has not read.
pub mod Segments
use go_spiffe.Prelude.{
  ◌==◌, if◌then◌else◌, Result, ok, err, ◌>>◌, Bytes, bytes_eq, is_empty, slice, ℕ, ◌+◌, not, ◌||◌,
  List, [], ◌∷◌, ◌++◌,
}
use go_spiffe.Spiffeid.Charset.{
  Error, bad_path_segment_char, dot_segment, no_leading_slash, empty_segment, trailing_slash, Build,
  is_valid_path_segment_char,
}

abbrev pub slash : Bytes
slash = b'/' ∷ []

abbrev pub dot : Bytes
dot = b'.' ∷ []

abbrev pub dot_dot : Bytes
dot_dot = b'.' ∷ b'.' ∷ []

-- the two `switch path[segmentStart:segmentEnd]`; the first case's error differs
unfoldable pub check_segment : Error → Bytes → Result Error (Unit {0})
check_segment on_empty segment =
    if bytes_eq segment slash
    then err on_empty
    else if bytes_eq segment (b'/' ∷ dot) || bytes_eq segment (b'/' ∷ dot_dot)
    then err dot_segment
    else ok tt

-- the `for` loop of `ValidatePath` and the switch behind it; `rest` is `path[segmentEnd:]`
unfoldable pub validate_path_loop : Build → Bytes → ℕ → ℕ → Bytes → Result Error (Unit {0})
validate_path_loop b path segment_start segment_end [] =
    check_segment trailing_slash (slice path segment_start segment_end)
validate_path_loop b path segment_start segment_end (c ∷ rest) =
    let next_segment = validate_path_loop b path segment_end (segment_end + 1) rest in
    let same_segment = validate_path_loop b path segment_start (segment_end + 1) rest in
    if c == b'/'
    then (check_segment empty_segment (slice path segment_start segment_end) >> next_segment)
    else if not (is_valid_path_segment_char b c)
    then err bad_path_segment_char
    else same_segment

unfoldable pub validate_path : Build → Bytes → Result Error (Unit {0})
unfolding validate_path_loop check_segment
validate_path b [] = ok tt
validate_path b (c ∷ rest) =
    if not (c == b'/') then err no_leading_slash else validate_path_loop b (c ∷ rest) 0 0 (c ∷ rest)

-- the loop of `ValidatePathSegment`
unfoldable pub validate_chars : Build → Bytes → Result Error (Unit {0})
validate_chars b [] = ok tt
validate_chars b (c ∷ rest) =
    let later = validate_chars b rest in
    if not (is_valid_path_segment_char b c) then err bad_path_segment_char else later

unfoldable pub validate_path_segment : Build → Bytes → Result Error (Unit {0})
unfolding validate_chars
validate_path_segment b segment =
    if is_empty segment
    then err empty_segment
    else if bytes_eq segment dot || bytes_eq segment dot_dot
    then err dot_segment
    else validate_chars b segment

-- the loop of `JoinPathSegments`, with the text in the builder so far
unfoldable pub join_loop : Build → Bytes → List Bytes → Result Error Bytes
join_loop b builder [] = ok builder
join_loop b builder (segment ∷ segments) =
    let later = join_loop b ((builder ++ slash) ++ segment) segments in
    validate_path_segment b segment >> later

unfoldable pub join_path_segments : Build → List Bytes → Result Error Bytes
unfolding join_loop validate_path_segment
join_path_segments b segments = join_loop b [] segments

-- `fmt.Sprintf` is a parameter.
module _ {Arg : Type 0} (sprintf : Bytes → List Arg → Bytes) where
  unfoldable pub format_path : Build → Bytes → List Arg → Result Error Bytes
  unfolding validate_path
  format_path b format args = let path = sprintf format args in (validate_path b path >> ok path)
