-- ===== src/Json/Access.antt =====
-- Reading texts and objects out of untyped values.
use surgical_dev_ops.Base.{◌≡◌, true, String, eq_iff, ap}
use surgical_dev_ops.Json.{Value, is_string, text}

pub eq-text_of_is_string : (v : Value) (s : String) → is_string v s ≡ true → v ≡ text s
eq-text_of_is_string (text t) s h = ap text ((eq_iff t s).0 h)
eq-text_of_is_string _ s h = cc
