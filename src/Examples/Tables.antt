-- ===== src/Examples/Tables.antt =====
-- One descriptor table with a file in its first slot.
use ixland.Prelude.{◌≡◌, some, arith}
use ixland.Fd.Files.{files_free}
use ixland.Fd.Files.Counts.{IsLive, retained, files_dup-retained, files_free-files_dup}
use ixland.Examples.Family.{a_heap, a_table}

a_table-IsLive : IsLive a_heap a_table.slots
a_table-IsLive p h = ground arith

files_free-files_dup_example :
    files_free (some a_table) (retained a_table.slots a_heap) ≡ some a_heap
files_free-files_dup_example =
    files_free-files_dup a_table a_table a_heap (retained a_table.slots a_heap) a_table-IsLive
      (files_dup-retained a_table a_heap a_table-IsLive)
