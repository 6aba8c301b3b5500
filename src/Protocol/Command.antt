-- ===== src/Protocol/Command.antt =====
-- `CommandType`, `Command` and `isWriteCommand` (include/tinykv/protocol/command.hpp).
use tiny_kv_distributed_stor.Prelude.{Bool, true, false, List}
use tiny_kv_distributed_stor.Prelude.Text.{Text}

pub data CommandType : Type 0 where
  set get del ping incr decr ttl expire persist save replicaof sync route nodes unknown :
      CommandType

pub record Command : Type 0 where
  pub type : CommandType
  pub name : Text
  pub args : List Text

unfoldable pub is_write_command : CommandType → Bool
is_write_command CommandType.set = true
is_write_command CommandType.del = true
is_write_command CommandType.incr = true
is_write_command CommandType.decr = true
is_write_command CommandType.expire = true
is_write_command CommandType.persist = true
is_write_command _ = false

-- SAVE, the command that rewrites the files.
abbrev pub is_save : CommandType → Bool
is_save CommandType.save = true
is_save _ = false
