-- ===== src/Pem/Reading.antt =====
-- What `parseBlocks` reads: the sequence of the PEM blocks of its input.
use go_spiffe.Prelude.{
  if◌then◌else◌, Bool-cases, Option-cases, length, Result, ok, err, ◌>>=◌, Result-cases, Bytes,
  bytes_eq, ℕ, zero, suc, ◌≤◌, ◌<◌, ◌≡◌, refl, ap, ◌∙◌, inl, inr, Bool, true, false, not, none,
  some, List, [], ◌∷◌, ◌++◌, append-nil, append_assoc, arith,
}
use go_spiffe.Pem.{
  parse_blocks_next, parse_block_at, parse_blocks, finish, parse_object, no_pem_blocks, parse_block,
  parse_blocks_loop, Object, PemError, append_object, Block, Codec,
}

module _ {E : Type 0} (codec : Codec E) where
  -- The blocks that decoding again and again finds, up to the end or the first input without a block.
  pub data Blocks : Bytes → List Block → Type 0 where
    at_end : Blocks [] []
    no_block : (c : ℕ) (bytes : Bytes) → codec.decode (c ∷ bytes) ≡ none → Blocks (c ∷ bytes) []
    next_block :
        (c : ℕ) (bytes : Bytes) (block : Block) (rest : Bytes) (blocks : List Block)
        → codec.decode (c ∷ bytes) ≡ some (block, rest)
        → Blocks rest blocks
        → Blocks (c ∷ bytes) (block ∷ blocks)

  -- The decoder takes something off its input when it finds a block.
  abbrev pub Shortens : Type 0
  Shortens =
      (bytes rest : Bytes) (block : Block)
      → codec.decode bytes ≡ some (block, rest)
      → length rest < length bytes

  -- The objects of the blocks of a type, in order, or the error of the first that cannot be parsed.
  unfoldable pub read_objects : Bytes → List Block → Result (PemError E) (List Object)
  read_objects expected [] = ok []
  read_objects expected (block ∷ blocks) =
      let rest = read_objects expected blocks in
      if not (bytes_eq block.block_type expected) then rest else do
        object ← parse_object codec expected block.bytes
        objects ← rest
        ok (object ∷ objects)

  -- the same with the error for an input without blocks
  unfoldable pub read_all : Bytes → List Block → Result (PemError E) (List Object)
  unfolding read_objects
  read_all expected [] = err no_pem_blocks
  read_all expected (block ∷ blocks) = read_objects expected (block ∷ blocks)

  -- The objects found so far, and those of the blocks that are left.
  unfoldable continue_with :
      List Object
      → Bool
      → Result (PemError E) (List Object)
      → List Block
      → Result (PemError E) (List Object)
  continue_with objects found (err e) blocks = err e
  continue_with objects found (ok more) [] = finish (objects ++ more) found
  continue_with objects found (ok more) (block ∷ blocks) = finish (objects ++ more) true

  skip_step :
      (block : Block) (blocks : List Block) (objects : List Object) (found : Bool)
      (r : Result (PemError E) (List Object))
      → continue_with objects true r blocks ≡ continue_with objects found r (block ∷ blocks)
  unfolding continue_with
  skip_step block [] objects found (err e) = refl
  skip_step block [] objects found (ok more) = refl
  skip_step block (b ∷ blocks) objects found (err e) = refl
  skip_step block (b ∷ blocks) objects found (ok more) = refl

  take_step :
      (object : Object) (block : Block) (blocks : List Block) (objects : List Object) (found : Bool)
      (r : Result (PemError E) (List Object))
      → continue_with (append_object objects (some object)) true r blocks
        ≡ continue_with objects found (r >>= λ more. ok (object ∷ more)) (block ∷ blocks)
  unfolding continue_with append_object
  take_step object block blocks objects found (err e) = refl
  take_step object block [] objects found (ok more) =
      ap (λ l. finish l true) (append_assoc objects (object ∷ []) more)
  take_step object block (b ∷ blocks) objects found (ok more) =
      ap (λ l. finish l true) (append_assoc objects (object ∷ []) more)

  loop-eq-read :
      (shortens : Shortens) (expected bytes : Bytes) (blocks : List Block)
      → Blocks bytes blocks
      → (fuel : ℕ) → length bytes ≤ fuel
      → (objects : List Object) (found : Bool)
      → parse_blocks_loop codec fuel expected bytes objects found
        ≡ some (continue_with objects found (read_objects expected blocks) blocks)
  unfolding parse_blocks_loop continue_with read_objects parse_block parse_block_at
      parse_blocks_next append_object
  loop-eq-read shortens expected _ _ at_end fuel enough objects found = rw (append-nil objects) refl
  loop-eq-read shortens expected _ _ (no_block c bytes none_is) zero enough objects found =
      absurd (omega arith)
  loop-eq-read shortens expected _ _ (no_block c bytes none_is) (suc fuel) enough objects found =
      rw (none_is, append-nil objects) refl
  loop-eq-read shortens expected _ _ (next_block c bytes block rest blocks e more) zero enough
        objects found =
      absurd (omega arith)
  loop-eq-read shortens expected _ _ (next_block c bytes block rest blocks e more) (suc fuel) enough
        objects found =
      let shorter = shortens (c ∷ bytes) rest block e in
      let ih = loop-eq-read shortens expected rest blocks more fuel (omega arith) in
      elim (Bool-cases (bytes_eq block.block_type expected)) [
        | inl same ↦ elim (Result-cases (parse_object codec expected block.bytes)) [
          | inl (object, o) ↦
              rw (e, same, o, ih (append_object objects (some object)) true)
                (ap some
                  (take_step object block blocks objects found (read_objects expected blocks)))
          | inr (f, o) ↦ rw (e, same, o) refl
        ]
        | inr differs ↦
            rw (e, differs, ih objects true)
              (ap some (skip_step block blocks objects found (read_objects expected blocks)))
      ]

  -- every input has its blocks
  Blocks-of_bytes :
      Shortens
      → (fuel : ℕ) (bytes : Bytes) → length bytes ≤ fuel
      → (blocks : List Block) × Blocks bytes blocks
  Blocks-of_bytes shortens fuel [] enough = ([], at_end)
  Blocks-of_bytes shortens zero (c ∷ bytes) enough = absurd (omega arith)
  Blocks-of_bytes shortens (suc fuel) (c ∷ bytes) enough =
      elim (Option-cases (codec.decode (c ∷ bytes))) [
        | inl none_is ↦ ([], no_block c bytes none_is)
        | inr ((block, rest), e) ↦
            let shorter = shortens (c ∷ bytes) rest block e in
            let (blocks, more) = Blocks-of_bytes shortens fuel rest (omega arith) in
            (block ∷ blocks, next_block c bytes block rest blocks e more)
      ]

  continue_with-found :
      (block : Block) (blocks : List Block) (r : Result (PemError E) (List Object))
      → continue_with [] false r (block ∷ blocks) ≡ r
  unfolding continue_with finish
  continue_with-found block blocks (err e) = refl
  continue_with-found block blocks (ok []) = refl
  continue_with-found block blocks (ok (object ∷ objects)) = refl

  continue_with-eq-read_all :
      (expected : Bytes) (blocks : List Block)
      → continue_with [] false (read_objects expected blocks) blocks ≡ read_all expected blocks
  unfolding read_all read_objects continue_with finish
  continue_with-eq-read_all expected [] = refl
  continue_with-eq-read_all expected (block ∷ blocks) =
      continue_with-found block blocks (read_objects expected (block ∷ blocks))

  pub parse_blocks-of_Blocks :
      (shortens : Shortens) (bytes expected : Bytes) (blocks : List Block)
      → Blocks bytes blocks
      → parse_blocks codec bytes expected ≡ some (read_all expected blocks)
  unfolding parse_blocks
  parse_blocks-of_Blocks shortens bytes expected blocks are =
      loop-eq-read shortens expected bytes blocks are (length bytes) (omega arith) [] false
      ∙ ap some (continue_with-eq-read_all expected blocks)

  -- If the PEM decoder takes something off its input whenever it finds a block, the loop of
  -- `parseBlocks` ends within as many turns as the input has bytes: every input has its sequence of
  -- blocks, and the result is the error for no blocks, or the objects of the blocks of the expected
  -- type, in order, or the error of the first of them that cannot be parsed.
  pub parse_blocks-eq-read_all :
      (shortens : Shortens) (bytes expected : Bytes)
      → (blocks : List Block) × Blocks bytes blocks
        × (parse_blocks codec bytes expected ≡ some (read_all expected blocks))
  parse_blocks-eq-read_all shortens bytes expected =
      let (blocks, are) = Blocks-of_bytes shortens (length bytes) bytes (omega arith) in
      (blocks, are, parse_blocks-of_Blocks shortens bytes expected blocks are)
