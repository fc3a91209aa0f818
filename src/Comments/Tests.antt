-- ===== src/Comments/Tests.antt =====
-- A small configuration with comments, and what looks like one inside a string.
use redborder_monitor.Base.{◌≡◌, refl}
use redborder_monitor.Base.Text.{Bytes, codes}
use redborder_monitor.Comments.{strip_comments, strip_loop, skip_block, skip_line}
use redborder_monitor.Comments.Scanner.{plain, scan, strip_comments-scan}

abbrev commented : Bytes
commented = codes "[1/*one*/,\"//x\" // end\n,2]"

stripped : strip_comments commented ≡ codes "[1,\"//x\" \n,2]"
unfolding strip_comments strip_loop skip_block skip_line
stripped = refl

strip_comments-scan_example : strip_comments commented ≡ scan plain commented
strip_comments-scan_example = strip_comments-scan commented
