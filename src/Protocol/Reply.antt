-- ===== src/Protocol/Reply.antt =====
-- `Reply` (src/protocol/reply.cpp): the reply lines, without their '\n'.
use tiny_kv_distributed_stor.Prelude.{◌++◌}
use tiny_kv_distributed_stor.Prelude.Text.{Text, codes}
use tiny_kv_distributed_stor.Prelude.Int.{ℤ}
use tiny_kv_distributed_stor.Prelude.Decimal.{to_string}

unfoldable pub ok : Text
ok = codes "+OK"

unfoldable pub bulk : Text → Text
bulk value = codes "+" ++ value

unfoldable pub nil : Text
nil = codes "$-1"

unfoldable pub error : Text → Text
error message = codes "-ERR " ++ message

unfoldable pub read_only_error : Text
read_only_error = codes "-READONLY You can't write against a replica."

unfoldable pub integer : ℤ → Text
integer value = codes ":" ++ to_string value
