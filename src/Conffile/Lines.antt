-- ===== src/Conffile/Lines.antt =====
-- The lines of a configuration file: `_remove_trailing_whitespace`, `_remove_comments` and
-- `_readline` of src/libcommon/conffile.c. A line buffer is the bytes of its length; the byte after
-- them is '\0'.
use whatsup.Prelude.{
  ℕ, ◌+◌, ◌-◌, Bool, true, false, ◌&&◌, Option, none, some, List, [], ◌∷◌, ◌++◌, Name, length,
  isspace, leb, ◌==◌, is_empty, if◌then◌else◌,
}
use whatsup.Conffile.Err

-- CONFFILE_MAX_LINELEN
abbrev pub max_linelen : ℕ
max_linelen = 32768

unfoldable pub remove_trailing_whitespace : Name → Name
remove_trailing_whitespace [] = []
remove_trailing_whitespace (c ∷ cs) =
    let rest = remove_trailing_whitespace cs in if isspace c && is_empty rest then [] else c ∷ rest

-- `_remove_comments`, with `previous_is_escape`
unfoldable pub remove_comments : Bool → Name → Name
remove_comments escape [] = []
remove_comments true (c ∷ cs) = c ∷ remove_comments false cs
remove_comments false (c ∷ cs) =
    let escaped = remove_comments true cs in
    let plain = remove_comments false cs in
    if c == b'\\' then c ∷ escaped else if c == b'#' then [] else c ∷ plain

-- a line without its last byte, if that is '\\'
unfoldable pub continued : Name → Option Name
continued [] = none
continued (c ∷ []) = if c == b'\\' then some [] else none
continued (c ∷ d ∷ cs) = elim (continued (d ∷ cs)) [ none ↦ none | some rest ↦ some (c ∷ rest) ]

-- What one round of the loop makes of the bytes in the buffer: the loop goes on with the bytes that
-- are left, counting the line as a new one or not, or the line is complete.
pub data Round : Type 0 where
  blank : Round
  continuation : Name → Round
  complete : Name → Round

unfoldable pub continued_or_complete : Name → Option Name → Round
continued_or_complete line none = complete line
continued_or_complete line (some rest) = continuation rest

unfoldable pub round_of : Name → Round
unfolding remove_trailing_whitespace remove_comments continued continued_or_complete
round_of linebuf =
    let trimmed = remove_trailing_whitespace linebuf in
    let uncommented = remove_comments false trimmed in
    let line = remove_trailing_whitespace uncommented in
    if is_empty trimmed
    then blank
    else if is_empty uncommented
    then blank
    else if is_empty line
    then blank
    else continued_or_complete line (continued line)

-- `struct conffile` but its options, which the functions take as an argument. The descriptor is what
-- is left of its reads: the bytes of a line, or `none` for an error; after the last one
-- `fd_read_line` returns 0.
pub record Conffile : Type 0 where
  pub magic : ℕ
  pub errnum : ℕ
  pub fd : Option (List (Option Name))
  pub case_sensitive : Bool
  pub ignore_unknown : Bool
  pub line_num : ℕ
  pub line_count : ℕ
  pub end_of_file : Bool
  pub optionname : Name

-- `none` is the return value -1, else the line, whose length is returned
abbrev pub ReadLine : Type 0
ReadLine = Option Name × Conffile

-- what the loop of `_readline` does after a round
unfoldable pub next_round : (Name → Conffile → ReadLine) → Round → Conffile → ReadLine
next_round again blank cf = again [] (record cf { line_num = cf.line_count + 1 })
next_round again (continuation linebuf) cf = again linebuf cf
next_round again (complete line) cf = (some line, cf)

-- the loop, on what the descriptor still gives, with the bytes in the buffer
unfoldable pub read_round : List (Option Name) → Name → Conffile → ReadLine
unfolding next_round round_of
read_round [] linebuf cf = (some linebuf, record cf { fd = some []; end_of_file = true })
read_round (none ∷ reads) linebuf cf = (none, record cf { fd = some reads; errnum = Err.read })
read_round (some buf ∷ reads) linebuf cf =
    let next =
      next_round (read_round reads) (round_of (linebuf ++ buf))
        (record cf { fd = some reads; line_count = cf.line_count + 1 }) in
    if is_empty buf
    then (some linebuf, record cf { fd = some reads; end_of_file = true })
    else if leb (max_linelen - 1) (length buf)
    then (none, record cf { fd = some reads; errnum = Err.parse_overflow_linelen })
    else if leb max_linelen (length buf + length linebuf)
    then (none, record cf { fd = some reads; errnum = Err.parse_overflow_linelen })
    else next

-- `fd_read_line` on the descriptor -1 fails
unfoldable pub read_from : Option (List (Option Name)) → Conffile → ReadLine
unfolding read_round
read_from none cf = (none, record cf { errnum = Err.read })
read_from (some reads) cf = read_round reads [] cf

unfoldable pub readline : Conffile → ReadLine
unfolding read_from
readline cf = read_from cf.fd (record cf { line_num = cf.line_count + 1 })
