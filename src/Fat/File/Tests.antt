-- ===== src/Fat/File/Tests.antt =====
-- Runs of the file loops of fs/fat12.c on a volume of four clusters.
use pumpkin_os.Prelude.{arith, [], ◌∷◌}
use pumpkin_os.Fat.Memory.{in_memory, in_memory-IsReliable, volume, volume-IsMounted}
use pumpkin_os.Fat.File.Write.{ReadsBack, read_clusters-write_chain}

read_clusters-write_chain_example :
    ReadsBack in_memory 8 (in_memory-IsReliable 8) volume (b'h' ∷ b'i' ∷ [])
read_clusters-write_chain_example =
    read_clusters-write_chain in_memory 8 (in_memory-IsReliable 8) (b'h' ∷ b'i' ∷ []) volume
      volume-IsMounted (omega arith)
