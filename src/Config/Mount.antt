-- ===== src/Config/Mount.antt =====
-- DataDirPersistent of internal/config/config.go, on the content of /proc/self/mountinfo.
pub mod Fields
use pullpilot.Prelude.{
  ℕ, Bool, true, false, Option, none, some, List, [], ◌∷◌, ◌++◌, length, leb, ltb, ◌==◌,
  if◌then◌else◌,
}
use pullpilot.Std.Str.{Str, bytes, str_eq, is_empty, is_space, trim_right}

-- bufio.ScanLines: `b` is the line so far; a carriage return before the line's end is dropped.
drop_cr : Str → Str
drop_cr [] = []
drop_cr (c ∷ []) = if c == 13 then [] else c ∷ []
drop_cr (c ∷ d ∷ s) = c ∷ drop_cr (d ∷ s)

unfoldable pub lines_from : Str → Str → List Str
unfolding drop_cr
lines_from b [] = if is_empty b then [] else drop_cr b ∷ []
lines_from b (c ∷ s) =
    let next = drop_cr b ∷ lines_from [] s in
    let longer = lines_from (b ++ c ∷ []) s in if c == b'\n' then next else longer

-- The scanner stops at a line that does not fit its buffer.
abbrev pub scan_limit : ℕ
scan_limit = 65536

unfoldable pub scanned : List Str → List Str
scanned [] = []
scanned (l ∷ ls) = let rest = scanned ls in if ltb (length l) scan_limit then l ∷ rest else []

-- strings.Fields: `b` is the field so far.
unfoldable pub fields_from : Str → Str → List Str
fields_from b [] = if is_empty b then [] else b ∷ []
fields_from b (c ∷ s) =
    let next = fields_from [] s in
    let longer = fields_from (b ++ c ∷ []) s in
    if is_space c then (if is_empty b then next else b ∷ next) else longer

abbrev pub fields : Str → List Str
fields = fields_from []

-- The fifth field is the mount point.
unfoldable pub mounts_at : Str → List Str → Bool
unfolding str_eq
mounts_at dir (a ∷ b ∷ c ∷ d ∷ point ∷ more) = str_eq point dir
mounts_at dir _ = false

unfoldable pub mounted : Str → List Str → Bool
unfolding mounts_at fields_from
mounted dir [] = false
mounted dir (l ∷ ls) = let rest = mounted dir ls in if mounts_at dir (fields l) then true else rest

unfoldable pub clean_dir : Str → Str
unfolding trim_right
clean_dir dir =
    let clean = trim_right (λ c. c == b'/') dir in if is_empty clean then bytes "/" else clean

-- Whether the directory is a mount, and whether that is known. `none`: the file cannot be opened.
unfoldable pub data_dir_persistent : Option Str → Str → Bool × Bool
unfolding mounted clean_dir scanned lines_from
data_dir_persistent none dir = (false, false)
data_dir_persistent (some content) dir =
    (mounted (clean_dir dir) (scanned (lines_from [] content)), true)
