-- ===== src/RawSpanData/SameFile.antt =====
-- What tells a file of this library and of this version from another.
use firebase_telemetry_persi.Common.{◌≡◌, refl, ◌∙◌}
use firebase_telemetry_persi.Layout.{Header}

-- The second header has the signature and the version of the first.
pub record SameFile (a b : Header) : Type 0 where
  pub signature : b.signature ≡ a.signature
  pub version : b.version ≡ a.version

pub SameFile-refl : (a : Header) → SameFile a a
SameFile-refl a = record { signature = refl; version = refl }

pub SameFile-trans : (a b c : Header) → SameFile a b → SameFile b c → SameFile a c
SameFile-trans a b c p q = record {
  signature = q.signature ∙ p.signature;
  version = q.version ∙ p.version;
}
