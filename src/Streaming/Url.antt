-- ===== src/Streaming/Url.antt =====
-- src/streaming_output.cpp, StreamingOutput::validate: which destinations are accepted.
use Prim.Native.Char.{code}
use rtc_egress.Prelude.{
  ℕ, String, List, [], ◌∷◌, Option, none, some, Bool, true, false, not, ◌&&◌, ◌||◌, ltb, leb, ◌==◌,
  if◌then◌else◌, length, is_empty, pos, ltb_ℤ,
}
use rtc_egress.Streaming.Config.{Protocol, OutputConfig}

-- The bytes of an ASCII literal.
abbrev pub ascii : String → List ℕ
ascii String.[] = []
ascii (String.◌∷◌ c text) = code c ∷ ascii text

-- std::isspace(ch) || std::iscntrl(ch), in the C locale.
abbrev pub is_space_or_control : ℕ → Bool
is_space_or_control c = leb c 32 || c == 127

abbrev pub has_byte : (ℕ → Bool) → List ℕ → Bool
has_byte test [] = false
has_byte test (c ∷ cs) = test c || has_byte test cs

-- What follows the prefix: url.rfind(prefix, 0) == 0, if there is something.
unfoldable pub strip_prefix : List ℕ → List ℕ → Option (List ℕ)
strip_prefix [] cs = some cs
strip_prefix (p ∷ ps) [] = none
strip_prefix (p ∷ ps) (c ∷ cs) = if c == p then strip_prefix ps cs else none

abbrev pub starts_with : List ℕ → List ℕ → Bool
starts_with p cs = elim (strip_prefix p cs) [ none ↦ false | some _ ↦ true ]

-- What follows the first occurrence of the mark: url.find(mark) + mark.size().
unfoldable pub behind : List ℕ → List ℕ → Option (List ℕ)
unfolding strip_prefix
behind mark [] = strip_prefix mark []
behind mark (c ∷ cs) = elim (strip_prefix mark (c ∷ cs)) [ none ↦ behind mark cs | some r ↦ some r ]

-- The text before the first '/' or '?'.
unfoldable pub until_path : List ℕ → List ℕ
until_path [] = []
until_path (c ∷ cs) = if c == b'/' || c == b'?' then [] else c ∷ until_path cs

unfoldable pub has_scheme : Protocol → List ℕ → Bool
has_scheme Protocol.rtmp url =
    starts_with (ascii "rtmp://") url || starts_with (ascii "rtmps://") url
has_scheme Protocol.whip url =
    starts_with (ascii "http://") url || starts_with (ascii "https://") url

abbrev pub is_rtmp : Protocol → Bool
is_rtmp Protocol.rtmp = true
is_rtmp Protocol.whip = false

unfoldable pub has_authority : List ℕ → Bool
has_authority url = elim (behind (ascii "://") url) [
  | none ↦ false
  | some rest ↦ elim (until_path rest) [ [] ↦ false | c ∷ _ ↦ not (c == b':' || c == b'@') ]
]

-- `backend` says whether FFmpeg has the muxer, for WHIP one with the consent option.
unfoldable pub validate : (Protocol → Bool) → OutputConfig → Bool
validate backend c =
    not (
      is_empty c.url
      || (ltb 1024 (length c.url)
          || (has_byte (λ b. b == b'#') c.url
              || (ltb 512 (length c.token)
                  || (ltb_ℤ c.timeout_ms (pos 1000) || ltb_ℤ (pos 30000) c.timeout_ms)))))
    && (not (has_byte is_space_or_control c.url || has_byte is_space_or_control c.token)
        && (has_scheme c.protocol c.url
            && (not (is_rtmp c.protocol && not (is_empty c.token))
                && (has_authority c.url && backend c.protocol))))
