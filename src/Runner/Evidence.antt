-- ===== src/Runner/Evidence.antt =====
-- accelerator/core/mission-runner-policy.js: the identity of evidence, and whether evidence can be
-- used again.
use surgical_dev_ops.Base.Text.{codes, is_hash}
use surgical_dev_ops.Base.Outcome.{Outcome, ok, require, reject, ◌>>=◌, ◌>>◌}
use surgical_dev_ops.Base.{
  ℕ, String, Bool, true, false, List, [], ◌∷◌, ◌&&◌, ◌||◌, any, ◌==◌, map, if◌then◌else◌,
}
use surgical_dev_ops.Json.{Value, Fields, text, object, end, field, get, same}
use surgical_dev_ops.Recovery.{digest}
use surgical_dev_ops.NodePath.{split, normalize, is_absolute, is_dots, is_dot, is_empty}
use surgical_dev_ops.Runner.{opened, require_text}
use Prim.Native.Char.{code}
use Prim.Native.String

-- `target.replace(/\\/g, '/')`
unfoldable pub lexical_target : List ℕ → List ℕ
lexical_target cs = map (λ c. if c == 92 then b'/' else c) cs

-- `value.replace(/^\.\//, '')`
abbrev pub without_dot : List ℕ → List ℕ
without_dot [] = []
without_dot (c ∷ []) = c ∷ []
without_dot (c ∷ d ∷ cs) = if c == b'.' && d == b'/' then cs else c ∷ d ∷ cs

letter : String → ℕ → String
letter String.[] c = ""
letter (String.◌∷◌ d s) c = if code d == c then String.◌∷◌ d String.[] else letter s c

-- The text of code points that all stand in an alphabet.
unfoldable pub spell : String → List ℕ → String
unfolding letter
spell alphabet [] = ""
spell alphabet (c ∷ cs) = String.◌++◌ (letter alphabet c) (spell alphabet cs)

-- The target of an evidence identity as the source normalises it: relative, and inside.
unfoldable pub canonical_target : String → Outcome String
canonical_target target = do
  let cs = lexical_target (codes target)
  reject (is_absolute cs || any is_dots (split cs)) "Evidence target is malformed."
  let canonical = without_dot (normalize cs)
  reject (is_empty canonical || is_dot canonical) "Evidence target is malformed."
  ok (spell (String.◌++◌ target "./") canonical)

unfoldable pub evidence_identity : (String → String) → Value → Outcome Value
evidence_identity sha256 given = do
  input ← opened given
  lexical ← require_text (get input "target") "Evidence target" 1024
  target ← canonical_target lexical
  workspace ← require_text (get input "workspace") "Evidence workspace" 1024
  hash ← require_text (get input "sha256") "Evidence SHA-256" 64
  environment ← require_text (get input "environment") "Evidence environment" 64
  require (is_hash hash) "Evidence SHA-256 is malformed."
  let identity : Fields → Fields = λ rest. field "workspace" (text workspace) (
      field "target" (text target)
        (field "sha256" (text hash) (field "environment" (text environment) rest)))
  let print = digest sha256 "sdo.reusable_evidence_identity.v1" (identity end)
  ok (object true (identity (field "evidenceFingerprint" (text print) end)))

abbrev both_same : Outcome Value → Outcome Value → Bool
both_same (ok left) (ok right) =
    same (get left "evidenceFingerprint") (get right "evidenceFingerprint")
both_same _ _ = false

-- What throws in an identity counts as different.
unfoldable pub can_reuse_evidence : (String → String) → Value → Value → Bool
can_reuse_evidence sha256 previous current =
    both_same (evidence_identity sha256 previous) (evidence_identity sha256 current)
