-- ===== src/Program/Usage.antt =====
-- What the program prints about itself: `_usage` and `_version` of src/whatsup/whatsup.c.
use whatsup.Prelude.{
  String, ℕ, zero, suc, Option, none, some, List, [], ◌∷◌, ◌++◌, Name, codes, if◌then◌else◌, Exec,
}
use whatsup.Program.State.{WhatsupOption, LoadInfo, Statics, ProgramEnv}
use whatsup.Program.Modules.{option_list}

-- `%-n.ns`: exactly `n` bytes, cut or filled with spaces
unfoldable pub column : ℕ → Name → Name
column zero s = []
column (suc n) [] = b' ' ∷ column n []
column (suc n) (c ∷ s) = c ∷ column n s

unfoldable pub usage_lines : List String
usage_lines =
    "Usage: whatsup [OPTIONS]... [NODES]..."
    ∷ "  -h         --help              Print help and exit"
    ∷ "  -v         --version           Print version and exit"
    ∷ "  -o STRING  --hostname=STRING   Server hostname"
    ∷ "  -p INT     --port=INT          Server port"
    ∷ "  -b         --updown            Output up and down nodes"
    ∷ "  -u         --up                Output only up nodes"
    ∷ "  -d         --down              Output only down nodes"
    ∷ "  -t         --count             Output only node counts"
    ∷ "  -q         --hostrange         Output in hostrange format"
    ∷ "  -c         --comma             Output in comma separated list"
    ∷ "  -n         --newline           Output in newline separated list"
    ∷ "  -s         --space             Output in space separated list"
    ∷ "  -m         --module            Specify backend module"
    ∷ "  -r         --last-up-time      Output last known up time of nodes"
    ∷ "  -l         --log               Output up/down state log"
    ∷ "  -f         --log-file          Specify log file"
    ∷ "  -e         --log-poll          Specify log polling interval" ∷ []

unfoldable pub lines_text : List String → Name
lines_text [] = []
lines_text (line ∷ rest) = (codes line ++ b'\n' ∷ []) ++ lines_text rest

-- the argument and the long name of an option, in 28 bytes
unfoldable pub option_columns : Option Name → Option Name → Name
unfolding column
option_columns (some arg) (some long) = column 7 arg ++ codes " --" ++ column 17 long ++ codes " "
option_columns (some arg) none = column 27 arg ++ codes " "
option_columns none (some long) = codes "        --" ++ column 17 long ++ codes " "
option_columns none none = codes "                            "

unfoldable pub option_line : WhatsupOption → Name
unfolding option_columns
option_line o =
    codes "  -"
    ++ (o.option ∷ b' ' ∷ [])
    ++ option_columns o.option_arg o.option_long
    ++ o.description
    ++ (b'\n' ∷ [])

unfoldable pub option_lines : List WhatsupOption → Name
unfolding option_line
option_lines [] = []
option_lines (o ∷ os) = option_line o ++ option_lines os

unfoldable pub module_lines : {W : Type 0} → List (LoadInfo W) → Name
unfolding option_lines
module_lines [] = []
module_lines (m ∷ ms) = option_lines (option_list m.module_info.options) ++ module_lines ms

module _ {H L W : Type 0} where
  -- `_usage`, which ends the process with status 1
  unfoldable pub usage : {A : Type 0} → Exec (Statics H L W) A
  unfolding usage_lines lines_text module_lines
  usage s =
      let added = if s.modules_list_itr then module_lines s.modules_list else [] in
      (none, record s { stderr = s.stderr ++ lines_text usage_lines ++ added ++ (b'\n' ∷ []) })

  -- `_version`, which does too
  unfoldable pub print_version : {A : Type 0} → ProgramEnv H L W → Exec (Statics H L W) A
  print_version env s = (
    none,
    record s {
      stderr = s.stderr ++ env.package_name ++ (b' ' ∷ []) ++ env.version ++ (b'\n' ∷ []);
    },
  )
