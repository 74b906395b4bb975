-- ===== src/Storage/Effects.antt =====
-- About the methods of internal/storage/store.go on a loaded store.
pub mod Projects
pub mod Settings
pub mod Snippets
use gopoke.Base.{◌+◌, ◌-◌, some, none}
use gopoke.Storage.Schema.{Snapshot}
use gopoke.Storage.Monad.{Store, Call, no_fault, document}

-- A store with its cache filled; every store after a successful Bootstrap or Load is one.
abbrev pub loaded : Store → Snapshot → Store
loaded s d = record s { cached = some d }

-- A call whose context is alive and whose writes succeed.
abbrev pub healthy : Call → Call
healthy c = record c { ctx = none; write = no_fault }

-- The store after a successful write, its cache aside.
abbrev pub written : Store → Snapshot → Store
written s d = record s { file = document d }
