-- ===== src/Capture/Parse/Extensions.antt =====
-- The extension headers of IPv6 in parse.rs against the lengths that their standards give.
use network_l4_monitoring_co.Base.{
  ℕ, ◌+◌, ◌*◌, ◌≡◌, ◌↔◌, ◌⊎◌, List, arith, Bool, true, ◌||◌, ◌==◌, if◌then◌else◌,
}
use network_l4_monitoring_co.Capture.Bytes.{found, get}
use network_l4_monitoring_co.Capture.Parse.{extension}

-- RFC 8200 counts the length in units of 8 bytes without the first; RFC 4302 counts that of an
-- authentication header (51) in units of 4 without the first two.
abbrev pub standard_length : ℕ → ℕ → ℕ
standard_length kind len = if kind == 51 then (len + 2) * 4 else (len + 1) * 8

-- The headers that have a length byte.
abbrev pub has_length : ℕ → Bool
has_length kind = kind == 0 || kind == 43 || kind == 60 || kind == 51

-- A header with a length byte is skipped by its standard length exactly when it and the header
-- after it are both authentication headers or neither is, or its length byte is 0.
pub extension-standard_iff :
    (d : List ℕ) (kind off next' len : ℕ)
    → has_length kind ≡ true
    → get d off ≡ found next'
    → get d (off + 1) ≡ found len
    → (extension d kind off ≡ found (next', off + standard_length kind len))
      ↔ (((kind == 51) ≡ (next' == 51)) ⊎ (len ≡ 0))
unfolding extension
extension-standard_iff d kind off next' len k g h = ground arith
