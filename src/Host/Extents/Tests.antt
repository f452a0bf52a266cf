-- ===== src/Host/Extents/Tests.antt =====
-- Runs of `postProcess` on small inputs, and the theorems at them.
use issd.Base.{ℕ, ◌+◌, ◌≡◌, ◌<◌, refl, some, none, List, [], ◌∷◌, arith}
use issd.Host.Extents.{ExtArr, Layout, post_process}
use issd.Host.Extents.Cover.{extent_sectors, post_process-cover}
use issd.Host.Extents.Table.{post_process-next_offset, post_process-runs}

abbrev blank : ExtArr
blank i = record { lba = 0; len = 0 }

-- Blocks of two sectors behind a partition start of 63, five slots, the file's first slot is 1.
abbrev small : Layout
small = record { max_file_ext_num = 5; offset = 1; blkbits = 10; part_first_sector = 63 }

abbrev blocks : List ℕ
blocks = 4 ∷ 5 ∷ 9 ∷ []

post_process-blocks : (post_process small blank blocks).0 ≡ some 2
unfolding post_process
post_process-blocks = refl

post_process-full : (post_process small blank (1 ∷ 3 ∷ 5 ∷ 7 ∷ [])).0 ≡ none
unfolding post_process
post_process-full = refl

post_process-cover_example :
    extent_sectors (post_process small blank blocks).1 1 2 ≡ 71 ∷ 72 ∷ 73 ∷ 74 ∷ 81 ∷ 82 ∷ []
post_process-cover_example =
    post_process-cover small blank blocks 2 (omega arith) post_process-blocks

post_process-next_offset_example : 1 + 2 < 5
post_process-next_offset_example =
    post_process-next_offset small blank blocks (omega arith) post_process-blocks

post_process-runs_example : (post_process small blank blocks).0 ≡ some 2
post_process-runs_example = post_process-runs small blank blocks
