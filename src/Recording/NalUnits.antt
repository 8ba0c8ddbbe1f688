-- ===== src/Recording/NalUnits.antt =====
-- src/recording_sink.cpp: annexBToAvcc, parseAnnexBNalUnits, and the H264 part of
-- setupPassthroughExtradata.
--
-- The code walks an index over the bytes; here it is what is left of them, so `j < length - 2` says that
-- three bytes are left, and `i < length - 3` that four are. The data have three bytes at least, or
-- these differences wrap around.
use rtc_egress.Prelude.{
  ℕ, zero, suc, ◌/◌, ◌%◌, List, [], ◌∷◌, ◌++◌, Bool, true, false, not, ◌&&◌, ◌||◌, ◌==◌, leb,
  if◌then◌else◌, length, drop, is_empty, Option, none, some,
}

-- The length of the start code that the bytes begin with, or 0.
unfoldable pub start_code : List ℕ → ℕ
start_code (a ∷ b ∷ c ∷ d ∷ rest) =
    if a == 0 && b == 0 && c == 0 && d == 1 then 4 else if a == 0 && b == 0 && c == 1 then 3 else 0
start_code (a ∷ b ∷ c ∷ []) = if a == 0 && b == 0 && c == 1 then 3 else 0
start_code (a ∷ b ∷ []) = 0
start_code (a ∷ []) = 0
start_code [] = 0

-- The bytes up to the next start code, and those from it on.
unfoldable pub split_nal : List ℕ → List ℕ × List ℕ
split_nal [] = ([], [])
split_nal (b ∷ bytes) =
    let rest = split_nal bytes in
    if start_code (b ∷ bytes) == 0 then (b ∷ rest.0, rest.1) else ([], b ∷ bytes)

-- (b >> 1) & 0x3F, or b & 0x1F
unfoldable pub nal_type : Bool → ℕ → ℕ
nal_type true b = b / 2 % 64
nal_type false b = b % 32

unfoldable pub is_param_set : Bool → ℕ → Bool
is_param_set true t = leb 32 t && leb t 34
is_param_set false t = t == 7 || t == 8

-- The four bytes of a length, the highest first.
unfoldable pub length_prefix : ℕ → List ℕ
length_prefix n = n / 16777216 % 256 ∷ n / 65536 % 256 ∷ n / 256 % 256 ∷ n % 256 ∷ []

-- What one unit adds to the output; `first` is its first byte.
unfoldable pub written : Bool → ℕ → List ℕ → List ℕ
written is_hevc first nal =
    if is_param_set is_hevc (nal_type is_hevc first) then [] else length_prefix (length nal) ++ nal

-- The loop of annexBToAvcc. Each round uses up a byte at least.
unfoldable pub to_avcc : Bool → ℕ → List ℕ → List ℕ
to_avcc is_hevc zero bytes = []
to_avcc is_hevc (suc fuel) [] = []
to_avcc is_hevc (suc fuel) (b ∷ bytes) = elim (start_code (b ∷ bytes)) [
  | zero ↦ to_avcc is_hevc fuel bytes
  | suc n ↦ elim (drop n bytes) [
    | [] ↦ []
    | first ∷ more ↦
        written is_hevc first (split_nal (first ∷ more)).0
        ++ to_avcc is_hevc fuel (split_nal (first ∷ more)).1
  ]
]

-- annexBToAvcc
abbrev pub annex_b_to_avcc : List ℕ → Bool → List ℕ
annex_b_to_avcc bytes is_hevc = to_avcc is_hevc (length bytes) bytes

-- while (nalEnd > nalStart && data[nalEnd - 1] == 0) nalEnd--;
unfoldable pub trim_zeros : List ℕ → List ℕ
trim_zeros [] = []
trim_zeros (b ∷ bytes) =
    let rest = trim_zeros bytes in if is_empty rest && b == 0 then [] else b ∷ rest

pub record Nal : Type 0 where
  pub kind : ℕ
  pub bytes : List ℕ

-- The loop of parseAnnexBNalUnits. The search for the next start code begins behind the first byte,
-- and trailing zeros are cut; the next round begins at the cut.
unfoldable pub parse_units : Bool → ℕ → List ℕ → List Nal
parse_units is_hevc zero bytes = []
parse_units is_hevc (suc fuel) [] = []
parse_units is_hevc (suc fuel) (b ∷ bytes) = elim (leb (length bytes) 2) [
  | true ↦ []
  | false ↦ elim (start_code (b ∷ bytes)) [
    | zero ↦ parse_units is_hevc fuel bytes
    | suc n ↦ elim (drop n bytes) [
      | [] ↦ []
      | first ∷ more ↦
          let nal = trim_zeros (first ∷ (split_nal more).0) in
          record { kind = nal_type is_hevc first; bytes = nal }
          ∷ parse_units is_hevc fuel (drop (length nal) (first ∷ more))
    ]
  ]
]

-- The first unit of a kind that is not empty.
unfoldable pub find_unit : ℕ → List Nal → List ℕ
find_unit kind [] = []
find_unit kind (n ∷ nals) =
    let rest = find_unit kind nals in
    if n.kind == kind && not (is_empty n.bytes) then n.bytes else rest

-- One of the bytes; behind their end the code reads what is there, here 0.
unfoldable pub byte_at : ℕ → List ℕ → ℕ
byte_at i [] = 0
byte_at zero (b ∷ bytes) = b
byte_at (suc i) (b ∷ bytes) = byte_at i bytes

-- The AVCDecoderConfigurationRecord of setupPassthroughExtradata.
unfoldable pub avc_extradata : List ℕ → List ℕ → List ℕ
avc_extradata sps pps =
    1
      ∷ byte_at 1 sps
      ∷ byte_at 2 sps
      ∷ byte_at 3 sps
      ∷ 255
      ∷ 225
      ∷ length sps / 256 % 256
      ∷ length sps % 256
      ∷ sps
    ++ (1 ∷ length pps / 256 % 256 ∷ length pps % 256 ∷ pps)

-- setupPassthroughExtradata for H264: none where the keyframe has no SPS or no PPS.
unfoldable pub h264_extradata : List ℕ → Option (List ℕ)
h264_extradata bytes =
    let nals = parse_units false (length bytes) bytes in
    let sps = find_unit 7 nals in
    let pps = find_unit 8 nals in
    if is_empty sps || is_empty pps then none else some (avc_extradata sps pps)
