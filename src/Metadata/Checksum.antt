-- ===== src/Metadata/Checksum.antt =====
-- src/metadata_manager.cpp, calculateSHA256 and verifyFileChecksum. What the file system and OpenSSL
-- answer is an argument.
use rtc_egress.Prelude.{
  sym, append-nil, Bool-cases, Option-cases, inl, inr, ℕ, zero, suc, ◌+◌, ◌-◌, ◌/◌, ◌%◌, ◌≤◌,
  String, List, [], ◌∷◌, ◌++◌, ◌≡◌, refl, ap, ◌∙◌, Option, none, some, Bool, true, false, ◌&&◌, not,
  ltb, ◌==◌, if◌then◌else◌, length, is_empty, take, drop, length-drop, take-append-drop, arith,
}

-- The file system during one operation: `opens` is the bytes of a file that can be read, `digest`
-- what OpenSSL makes of the blocks it is given one after another, none when a call of it fails.
-- `creates` says whether a directory is there after create_directories, `writes` whether a
-- stream took all that was written, `renames` whether the rename succeeds.
pub record Disk : Type 0 where
  pub now : ℕ
  pub date_time_prefix : List ℕ
  pub exists : String → Bool
  pub file_size : String → ℕ
  pub opens : String → Option (List ℕ)
  pub digest : List (List ℕ) → Option (List ℕ)
  pub creates : List ℕ → Bool
  pub opens_for_writing : List ℕ → Bool
  pub writes : List ℕ → Bool
  pub renames : List ℕ → Bool

-- while (file.read(buffer, bufferSize) || file.gcount() > 0): full blocks, then what is left.
unfoldable pub blocks : ℕ → ℕ → List ℕ → List (List ℕ)
blocks size zero bytes = []
blocks size (suc fuel) [] = []
blocks size (suc fuel) (b ∷ bytes) =
    take size (b ∷ bytes) ∷ blocks size fuel (drop size (b ∷ bytes))

abbrev pub hex_digit : ℕ → ℕ
hex_digit n = if ltb n 10 then b'0' + n else b'a' + (n - 10)

-- std::hex << std::setfill('0') << std::setw(2), for each byte.
unfoldable pub hex : List ℕ → List ℕ
hex [] = []
hex (b ∷ bytes) = hex_digit (b / 16) ∷ hex_digit (b % 16) ∷ hex bytes

-- calculateSHA256: an empty text is its failure.
unfoldable pub calculate_sha256 : Disk → String → List ℕ
unfolding blocks hex
calculate_sha256 disk path = if not (disk.exists path) then [] else elim (disk.opens path) [
  | none ↦ []
  | some bytes ↦ elim (disk.digest (blocks 8192 (length bytes) bytes)) [
    | none ↦ []
    | some hash ↦ hex hash
  ]
]

-- actualChecksum == expectedChecksum
unfoldable pub same_bytes : List ℕ → List ℕ → Bool
same_bytes [] [] = true
same_bytes [] (y ∷ ys) = false
same_bytes (x ∷ xs) [] = false
same_bytes (x ∷ xs) (y ∷ ys) = x == y && same_bytes xs ys

unfoldable pub verify_file_checksum : Disk → String → List ℕ → Bool
unfolding calculate_sha256 same_bytes
verify_file_checksum disk path expected =
    let actual = calculate_sha256 disk path in
    if is_empty expected
    then false
    else if is_empty actual
    then false
    else same_bytes actual expected

pub concat : List (List ℕ) → List ℕ
concat [] = []
concat (b ∷ bs) = b ++ concat bs

-- The blocks are the file, whole and in order, when there is a round for each byte.
blocks_lem :
    (size fuel : ℕ) (bytes : List ℕ)
    → length bytes ≤ fuel
    → concat (blocks (suc size) fuel bytes) ≡ bytes
unfolding blocks concat
blocks_lem size zero [] h = refl
blocks_lem size zero (b ∷ bytes) h = absurd (omega arith)
blocks_lem size (suc fuel) [] h = refl
blocks_lem size (suc fuel) (b ∷ bytes) h =
    ap (λ rest. take (suc size) (b ∷ bytes) ++ rest)
      (blocks_lem size fuel (drop (suc size) (b ∷ bytes))
        (omega (arith, length-drop (suc size) (b ∷ bytes))))
    ∙ take-append-drop (suc size) (b ∷ bytes)

-- OpenSSL's digest goes by the bytes, not by how they are cut into blocks.
abbrev pub IsStreaming : Disk → Type 0
IsStreaming disk = (bs cs : List (List ℕ)) → concat bs ≡ concat cs → disk.digest bs ≡ disk.digest cs

abbrev hex_of : Option (List ℕ) → List ℕ
hex_of none = []
hex_of (some hash) = hex hash

-- The digest of a file's bytes in one piece, in hexadecimal; empty where there is none.
abbrev pub whole_hash : Disk → String → List ℕ
whole_hash disk path =
    if not (disk.exists path)
    then []
    else elim (disk.opens path) [ none ↦ [] | some bytes ↦ hex_of (disk.digest (bytes ∷ [])) ]

pub calculate_sha256_lem :
    (disk : Disk) (path : String)
    → IsStreaming disk
    → calculate_sha256 disk path ≡ whole_hash disk path
unfolding calculate_sha256 concat
calculate_sha256_lem disk path streaming = elim (Bool-cases (disk.exists path)) [
  | inr gone ↦ rw gone refl
  | inl here ↦ elim (Option-cases (disk.opens path)) [
    | inl shut ↦ rw (here, shut) refl
    | inr (bytes, e) ↦
        rw (here, e)
          (ap hex_of (
            streaming (blocks 8192 (length bytes) bytes) (bytes ∷ [])
              (blocks_lem 8191 (length bytes) bytes (omega arith) ∙ sym (append-nil bytes))))
  ]
]
