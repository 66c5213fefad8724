-- ===== src/Hostsfile/Lines.antt =====
-- The lines of the hosts file: `_readline` aside, the steps of
-- src/libnodeupdown/nodeupdown_clusterlist_hostsfile.c on its buffer, as the bytes that were read.
use whatsup.Prelude.{
  c_string, ℕ, zero, suc, ◌-◌, Bool, true, false, not, ◌&&◌, ◌||◌, Option, none, some, [], ◌∷◌,
  Name, strchr, isspace, length, get_or, set, ltb, ◌==◌, is_some, if◌then◌else◌,
}
use whatsup.Load.Config.{maxhostnamelen}

-- the loop of `_remove_comments`, with `comment_flag` and `retlen`
unfoldable pub blank_comment : Bool → Name → ℕ → Name × ℕ
blank_comment flag [] retlen = ([], retlen)
blank_comment true (c ∷ cs) retlen =
    let (buf, left) = blank_comment true cs (retlen - 1) in (0 ∷ buf, left)
blank_comment false (c ∷ cs) retlen =
    let commented = blank_comment true cs (retlen - 1) in
    let plain = blank_comment false cs retlen in
    if c == b'#' then (0 ∷ commented.0, commented.1) else (c ∷ plain.0, plain.1)

-- `_remove_comments` on the `buflen` bytes of the buffer
unfoldable pub remove_comments : Name → ℕ → Name × ℕ
unfolding blank_comment c_string
remove_comments buf buflen =
    if is_some (strchr b'#' (c_string buf)) then blank_comment false buf buflen else (buf, buflen)

-- `_remove_trailing_whitespace`
unfoldable pub remove_trailing_whitespace : Name → ℕ → Name × ℕ
remove_trailing_whitespace buf zero = (buf, 0)
remove_trailing_whitespace buf (suc buflen) =
    let rest = remove_trailing_whitespace (set buf buflen 0) buflen in
    if isspace (get_or buf buflen 0) then rest else (buf, suc buflen)

-- `_move_past_whitespace`
unfoldable pub move_past_whitespace : Name → Option Name
move_past_whitespace [] = none
move_past_whitespace (c ∷ cs) =
    let rest = move_past_whitespace cs in
    if not (c == 0) && isspace c then rest else if c == 0 then none else some (c ∷ cs)

-- what the loop of the setup does with a line: nothing, an error, or a host
pub data Line : Type 0 where
  skipped : Line
  malformed : Line
  host : Name → Line

-- the string up to its first '.'
unfoldable pub before_dot : Name → Name
before_dot [] = []
before_dot (c ∷ cs) = let rest = before_dot cs in if c == b'.' then [] else c ∷ rest

unfoldable pub host_at : Name → Line
unfolding before_dot
host_at text =
    if is_some (strchr b' ' text) || is_some (strchr b'\t' text)
    then malformed
    else if ltb maxhostnamelen (length text)
    then malformed
    else host (before_dot text)

unfoldable pub line_at : Option Name → Line
unfolding host_at c_string
line_at none = skipped
line_at (some hostptr) = host_at (c_string hostptr)

-- the body of the loop
unfoldable pub read_host : Name → Line
unfolding remove_comments remove_trailing_whitespace move_past_whitespace line_at
read_host buf =
    let (uncommented, len) = remove_comments buf (length buf) in
    let (trimmed, len') = remove_trailing_whitespace uncommented len in
    if len == 0
    then skipped
    else if len' == 0
    then skipped
    else line_at (move_past_whitespace trimmed)
