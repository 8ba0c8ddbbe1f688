-- ===== src/Streaming/Hosts.antt =====
-- What an accepted destination of src/streaming_output.cpp looks like.
use rtc_egress.Prelude.{
  ℕ, List, [], ◌∷◌, ◌++◌, ◌≡◌, refl, ap, ◌∙◌, arith, some, Bool, true, not, ◌||◌, ◌==◌, ==_iff, inl,
  inr, Bool-cases, Option-cases, List-cases, is_empty,
}
use rtc_egress.Streaming.Config.{Protocol, OutputConfig}
use rtc_egress.Streaming.Url.{
  ascii, strip_prefix, starts_with, behind, until_path, has_scheme, has_authority, is_rtmp,
  validate,
}

-- The schemes of a protocol.
pub data IsScheme : Protocol → List ℕ → Type 0 where
  rtmp_scheme : IsScheme Protocol.rtmp (ascii "rtmp://")
  rtmps_scheme : IsScheme Protocol.rtmp (ascii "rtmps://")
  http_scheme : IsScheme Protocol.whip (ascii "http://")
  https_scheme : IsScheme Protocol.whip (ascii "https://")

strip_prefix-append : (p cs r : List ℕ) → strip_prefix p cs ≡ some r → cs ≡ p ++ r
unfolding strip_prefix
strip_prefix-append [] cs r h = cc
strip_prefix-append (x ∷ p) [] r h = cc
strip_prefix-append (x ∷ p) (c ∷ cs) r h = elim (Bool-cases (c == x)) [
  | inl e ↦ cc ((==_iff c x).0 e, strip_prefix-append p cs r (ground arith))
  | inr e ↦ ground arith
]

starts_with-append : (p cs : List ℕ) → starts_with p cs ≡ true → (r : List ℕ) × (cs ≡ p ++ r)
starts_with-append p cs h = elim (Option-cases (strip_prefix p cs)) [
  | inl n ↦ ground arith
  | inr (r, e) ↦ (r, strip_prefix-append p cs r e)
]

has_scheme-IsScheme :
    (k : Protocol) (url : List ℕ)
    → has_scheme k url ≡ true
    → (p : List ℕ) × (r : List ℕ) × IsScheme k p × (url ≡ p ++ r)
unfolding has_scheme
has_scheme-IsScheme Protocol.rtmp url h = elim (Bool-cases (starts_with (ascii "rtmp://") url)) [
  | inl e ↦ let (r, k) = starts_with-append (ascii "rtmp://") url e in (_, r, rtmp_scheme, k)
  | inr e ↦
      let (r, k) = starts_with-append (ascii "rtmps://") url (ground arith) in
      (_, r, rtmps_scheme, k)
]
has_scheme-IsScheme Protocol.whip url h = elim (Bool-cases (starts_with (ascii "http://") url)) [
  | inl e ↦ let (r, k) = starts_with-append (ascii "http://") url e in (_, r, http_scheme, k)
  | inr e ↦
      let (r, k) = starts_with-append (ascii "https://") url (ground arith) in
      (_, r, https_scheme, k)
]

-- The first "://" is the scheme's.
behind-scheme :
    (k : Protocol) (p r : List ℕ) → IsScheme k p → behind (ascii "://") (p ++ r) ≡ some r
unfolding behind
behind-scheme Protocol.rtmp _ r rtmp_scheme = refl
behind-scheme Protocol.rtmp _ r rtmps_scheme = refl
behind-scheme Protocol.whip _ r http_scheme = refl
behind-scheme Protocol.whip _ r https_scheme = refl

-- The bytes that cannot begin an authority.
abbrev pub begins_host : ℕ → Bool
begins_host c = not ((c == b'/' || c == b'?') || (c == b':' || c == b'@'))

until_path-host :
    (r h : List ℕ) (c : ℕ)
    → until_path r ≡ c ∷ h
    → not (c == b':' || c == b'@') ≡ true
    → (rest : List ℕ) × (r ≡ c ∷ rest) × (begins_host c ≡ true)
unfolding until_path
until_path-host [] h c e n = cc
until_path-host (x ∷ r) h c e n = elim (Bool-cases (x == b'/' || x == b'?')) [
  | inl p ↦ absurd (ground arith)
  | inr p ↦ (r, ground arith, ground arith)
]

validate_parts :
    (backend : Protocol → Bool) (c : OutputConfig)
    → validate backend c ≡ true
    → (has_scheme c.protocol c.url ≡ true)
      × (has_authority c.url ≡ true)
      × (is_rtmp c.protocol ≡ true → is_empty c.token ≡ true)
unfolding validate
validate_parts backend c v = (ground arith, ground arith, λ m. ground arith)

has_authority-host :
    (url r : List ℕ)
    → behind (ascii "://") url ≡ some r
    → has_authority url ≡ true
    → (h : ℕ) × (rest : List ℕ) × (r ≡ h ∷ rest) × (begins_host h ≡ true)
unfolding has_authority
has_authority-host url r found valid = elim (List-cases (until_path r)) [
  | inl n ↦ absurd (ground (arith, found, n, valid))
  | inr (h, t, u) ↦
      let (rest, q, b) = until_path-host r t h u (ground (arith, found, u, valid)) in
      (h, rest, q, b)
]

-- A destination that is accepted is a scheme of its protocol, and then text that begins with none of
-- the bytes of '/', '?', ':' and '@': a host follows the scheme. Over RTMP it has no token.
pub validate-IsScheme :
    (backend : Protocol → Bool) (c : OutputConfig)
    → validate backend c ≡ true
    → ((p : List ℕ) × (h : ℕ) × (rest : List ℕ) × IsScheme c.protocol p
        × (c.url ≡ p ++ h ∷ rest)
        × (begins_host h ≡ true))
      × (is_rtmp c.protocol ≡ true → c.token ≡ [])
validate-IsScheme backend c v =
    let (scheme, authority, free) = validate_parts backend c v in
    let (p, r, k, e) = has_scheme-IsScheme c.protocol c.url scheme in
    let (h, rest, q, b) =
      has_authority-host c.url r (ap (behind (ascii "://")) e ∙ behind-scheme c.protocol p r k)
        authority in
    (
      (p, h, rest, k, e ∙ ap (◌++◌ p) q, b),
      λ m. elim (List-cases c.token) [ inl n ↦ n | inr (x, y, n) ↦ absurd (cc (free m)) ],
    )
