-- ===== src/Framing/Serialize.antt =====
-- accelerator/adapters/local-ipc-framing.js: `canonicalSerialize`, the text of a message. A value of
-- the model is a tree of plain objects and of arrays without holes, so that what is left to refuse is
-- a number that is not finite and an undefined value.
use surgical_dev_ops.Base.Outcome.{Outcome, ok, require, ◌>>◌}
use surgical_dev_ops.Base.{String, Bool, true, false, ◌&&◌}
use surgical_dev_ops.Json.{
  Value, Items, Fields, undefined, other_number, array, object, nil, cons, end, field,
}
use surgical_dev_ops.Json.Canonical.{canonical_json}

mutual
  serializable_value : Value → Bool
  serializable_value undefined = false
  serializable_value (other_number finite s) = finite
  serializable_value (array _ vs) = serializable_items vs
  serializable_value (object _ fs) = serializable_fields fs
  serializable_value _ = true

  serializable_items : Items → Bool
  serializable_items nil = true
  serializable_items (cons v vs) = serializable_value v && serializable_items vs

  serializable_fields : Fields → Bool
  serializable_fields end = true
  serializable_fields (field k v fs) = serializable_value v && serializable_fields fs

-- Where no part is refused, the text is that of `canonicalJson`.
unfoldable pub canonical_serialize : Value → Outcome String
unfolding serializable_value serializable_items serializable_fields
canonical_serialize v = do
  require (serializable_value v) "INVALID_FRAME_VALUE"
  ok (canonical_json v)
