-- ===== src/Recovery.antt =====
-- accelerator/core/mutation-recovery.js: the fingerprint of recovery evidence. The classification
-- itself is in a child module.
pub mod Classify
pub mod Laws
use Prim.Native.String
use surgical_dev_ops.Base.{String, Bool, true, false, str_eq, if◌then◌else◌}
use surgical_dev_ops.Json.{Value, Fields, object, end, field}
use surgical_dev_ops.Json.Canonical.{canonical_json}

-- `{ ...value }` of an object, and of a value with no properties.
abbrev pub spread : Value → Fields
spread (object _ fs) = fs
spread _ = end

-- `const { key: ignored, ...rest } = value`.
abbrev pub without : String → Fields → Fields
without k end = end
without k (field j v fs) = let rest = without k fs in if str_eq j k then rest else field j v rest

-- `sha256(label + '\0' + canonicalJson(value))` in hexadecimal.
unfoldable pub digest : (String → String) → String → Fields → String
digest sha256 label fields =
    sha256 (String.◌++◌ label (String.◌++◌ "\0" (canonical_json (object false fields))))

abbrev pub recovery_schema : String
recovery_schema = "sdo.mutation_recovery_evidence.v1"

-- `deriveMutationRecoveryFingerprint`
unfoldable pub recovery_fingerprint : (String → String) → Value → String
recovery_fingerprint sha256 evidence =
    digest sha256 recovery_schema (without "fingerprint" (spread evidence))
