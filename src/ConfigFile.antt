-- ===== src/ConfigFile.antt =====
-- The lines of a file as handle_coalesce_enable of wifi/iw/coalesce.c and wowlan_parse_tcp_file of
-- wifi/iw/wowlan.c read them, with a buffer of 16768 bytes.
use nl.Base.{Bytes, List, [], ◌∷◌, ◌++◌, take, drop}
use nl.Libc.{cut, fgets_all}

-- A line as the code sees it: from the sixth byte on it ends at the first '\r' and the first '\n', and a
-- NUL ends it anywhere.
abbrev pub without_eol : Bytes → Bytes
without_eol s = take 5 s ++ (cut b'\n' (cut b'\r' (drop 5 s)).0).0

abbrev pub without_eols : List Bytes → List Bytes
without_eols [] = []
without_eols (l ∷ ls) = without_eol (cut 0 l).0 ∷ without_eols ls

unfoldable pub file_lines : Bytes → List Bytes
file_lines file = without_eols (fgets_all 16768 file)
