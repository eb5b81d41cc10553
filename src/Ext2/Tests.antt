-- ===== src/Ext2/Tests.antt =====
-- A file whose second block is missing, and directories that are searched: one of two entries, and a block of zeros.
use zoho_os_chatbot.Base.{refl, true, [], ◌∷◌, ◌≡◌, ◌+◌, ◌%◌, arith, ◌==◌, if◌then◌else◌}
use zoho_os_chatbot.Ext2.Directory.{
  running, found, Answers, search_block, search_block_lem, search_hangs,
}
use zoho_os_chatbot.Ext2.Reading.{Read, Geometry-1024, read_file_lem}
use zoho_os_chatbot.Ext2.{Volume, Inode, read_file}
use zoho_os_chatbot.Net.Wire.{bytes_of}
use zoho_os_chatbot.Vfs.Tar.{strcmp}
use zoho_os_chatbot.Vfs.{Bytes}

abbrev volume : Volume
volume = record { sectors = λ lba i. (lba + i) % 256; block_size = 1024; inodes_per_group = 8 }

abbrev inode : Inode
inode = record { mode = 0x8000; size = 3000; block = λ k. if k == 0 then 5 else 0 }

read_file_lem_example :
    Read volume inode 1000 0 100 (λ _. 7) (read_file volume inode (λ _. 9) 1000 100 (λ _. 7))
read_file_lem_example =
    read_file_lem volume 12288 inode (λ _. 9) 1000 100 (λ _. 7) Geometry-1024 (omega arith)
      (omega arith)

-- A directory of `.` and of a directory `a`, which stands at the offset 12.
abbrev directory : Bytes
directory = bytes_of (
    11 ∷ 0 ∷ 0 ∷ 0 ∷ 12 ∷ 0 ∷ 1 ∷ 2 ∷ b'.' ∷ 0 ∷ 0 ∷ 0 ∷ 12 ∷ 0 ∷ 0 ∷ 0 ∷ 0xF4 ∷ 3 ∷ 1 ∷ 2 ∷ b'a'
    ∷ [])

abbrev letter : Bytes
letter k = if k == 0 then b'a' else 0

search_runs : search_block 3 directory 1024 letter 0 ≡ found 12 true
unfolding search_block strcmp
search_runs = refl

search_block_lem_example :
    Answers directory letter (0 ∷ 12 ∷ []) (search_block 1025 directory 1024 letter 0)
search_block_lem_example =
    search_block_lem directory 1024 letter 1025 0 (0 ∷ 12 ∷ [])
      (
        refl,
        omega arith,
        omega arith,
        omega arith,
        (refl, omega arith, omega arith, omega arith, omega arith),
      )
      (omega arith)

hangs_at_once : search_block 5 (λ _. 0) 1024 letter 0 ≡ running
unfolding strcmp
hangs_at_once = search_hangs (λ _. 0) 1024 letter 5 0 (omega arith) (omega arith) refl refl
