-- ===== src/Tests/Program.antt =====
-- The theorems on the program whatsup, applied to the sample installation.
use whatsup.Prelude.{
  is_some, Returns, ℕ, suc, inl, inr, ◌≡◌, refl, Bool, true, false, Option, none, some, List, [],
  ◌∷◌, Name, codes, contains, length, All, print_ulong, ◌+◌, Post, arith, some_injective, sym,
  subst,
}
use whatsup.Devel.{up_nodes}
use whatsup.Program.State.{LoadInfo, Statics, ProgramEnv}
use whatsup.Program.Modules.{new_loadinfo, load_options_modules}
use whatsup.Program.Table.{builtin_table, builtin_soptions, builtin_loptions, watch_modules}
use whatsup.Program.Dispatch.{mark_watching, handle_options}
use whatsup.Program.Cmdline.{bufferlen, push_all, read_nodes_from_stdin}
use whatsup.Program.Nodes.{get_input_nodes}
use whatsup.Program.Output.{print_format, create_formats}
use whatsup.Program.Log.{Snapshot, take_snapshot, log_rounds}
use whatsup.Program.Main.{main}
use whatsup.Program.Replay.{replay, Once, status}
use whatsup.Program.Rounds.{ToldBy, log_rounds-ToldBy}
use whatsup.Program.Watched.{has, offers, options_of}
use whatsup.Program.Given.{Same, marked, unmarked, handle_option-watch_modules}
use whatsup.Program.Dispatch.{handle_option, give_option}
use whatsup.Program.Bounds.{Fits, IsWithin, watch_modules-Fits}
use whatsup.Program.Settled.{InRange, is_port, is_positive, handle_options-InRange}
use whatsup.Program.Unloaded.{Balanced, load_options_modules-Balanced}
use whatsup.Program.Aligned.{IsAligned, create_formats-IsAligned, greater}
use whatsup.Program.Selected.{filter, PushHostLaw, Answers, GotNodes, get_input_nodes-GotNodes}
use whatsup.Program.Returns.{Gives, Succeeds, log_rounds-Returns}
use whatsup.Program.Started.{load_options_modules-Returns}
use whatsup.Query.Nodes.{hosts_of}
use whatsup.Program.Asked.{HasLists, get_input_nodes-some}
use whatsup.Program.Tokens.{joined, words_of, read_nodes_from_stdin-joined}
use whatsup.Program.Library.{library_ops, Holding, is_known, is_held, library_ops-Answers}
use whatsup.Tests.Sample.{Hosts, SampleState, hosts_ops, hosts_laws, sample_env, loaded_state}
use whatsup.Tests.Installation.{
  program_hosts, program_strings, strict, program_hosts_laws, toggling, program_env, program_state,
  sample_module,
}

-- words with two spaces and two lines
abbrev input : List (Name × ℕ)
input = (codes "a", 32) ∷ ([], 32) ∷ (codes "bc", 10) ∷ []

-- a program with these words on the standard input
abbrev piped : ProgramEnv Hosts Bool ℕ
piped = record (program_env toggling) { read_stdin = λ n. some (joined input) }

read_nodes_from_stdin-joined_example :
    read_nodes_from_stdin piped (program_state true [])
    ≡ push_all piped (words_of input) (program_state true [])
unfolding joined
read_nodes_from_stdin-joined_example =
    read_nodes_from_stdin-joined piped input (program_state true [])
      (
        (((refl, refl, refl, refl), tt), inl refl),
        (
          (tt, inl refl),
          ((((refl, refl, refl, refl), ((refl, refl, refl, refl), tt)), inr (inr refl)), tt),
        ),
      )
      refl (omega arith)

-- 9 nodes up and 12 down.
create_formats-IsAligned_example :
    IsAligned
      (print_format (create_formats (codes ": ") 9 12).0 9)
      (codes "up:   ")
      (codes ": ")
      9
      (length (print_ulong (greater 9 12)))
    × IsAligned
        (print_format (create_formats (codes ": ") 9 12).1 12)
        (codes "down: ")
        (codes ": ")
        12
        (length (print_ulong (greater 9 12)))
create_formats-IsAligned_example =
    create_formats-IsAligned (codes ": ") 9 12 (omega arith) (omega arith)

-- Two copies of the sample module.
abbrev two_modules : List (LoadInfo ℕ)
two_modules = new_loadinfo 1 sample_module ∷ new_loadinfo 2 sample_module ∷ []

watch_modules-Fits_example :
    Fits (watch_modules two_modules builtin_table).1
    × All IsWithin (watch_modules two_modules builtin_table).0
unfolding new_loadinfo
watch_modules-Fits_example = watch_modules-Fits two_modules (refl, (refl, tt))

abbrev watcher : LoadInfo ℕ
watcher = record {
  handle = 1;
  module_info = sample_module;
  options_towatch = codes "xg";
  options_processed = [];
}

-- the state after the option -g was noted once
abbrev with_modules : Statics Hosts Bool ℕ
unfolding program_state
with_modules = record (program_state true []) {
  modules_list = mark_watching b'g' (watch_modules two_modules builtin_table).0;
  modules_list_itr = true;
}

-- The letter g of the first module, given again.
handle_option-watch_modules_example :
    ((n : LoadInfo ℕ) × (handle_option (program_env toggling) b'g' none with_modules
        ≡ give_option b'g' none (some n) with_modules)
      × Same watcher n)
    × (offers b'g' (options_of watcher) ≡ true)
    × (has b'g' builtin_soptions ≡ false)
unfolding watch_modules builtin_table builtin_loptions new_loadinfo has with_modules
handle_option-watch_modules_example =
    handle_option-watch_modules (program_env toggling) two_modules b'g' 0 watcher none with_modules
      (refl, (refl, tt)) refl refl refl (marked b'g' unmarked) refl

abbrev two_options : List (ℕ × Option Name)
two_options = (b'u', none) ∷ (b'p', some (codes "80")) ∷ []

abbrev start : Statics Hosts Bool ℕ
start = program_state true []

-- The options -u and -p 80 on the settings of the start.
handle_options-InRange_example :
    Post
      (λ _ t. InRange t.settings)
      (λ _. Unit {0})
      (handle_options (program_env toggling) two_options start)
unfolding program_state
handle_options-InRange_example =
    handle_options-InRange (program_env toggling) two_options start
      (record { port = is_port 0 (omega arith); log_poll = is_positive 29 })

-- The modules of the sample directory.
load_options_modules-Balanced_example :
    Post
      (λ _. Balanced start.dl_open start.dl_refs)
      (λ _. Unit {0})
      (load_options_modules (program_env toggling) start)
unfolding program_state
load_options_modules-Balanced_example =
    load_options_modules-Balanced (program_env toggling) start refl

-- Each load of the sample library has the node a in one list.
loaded-Once :
    (l : Bool) (t : Statics Hosts Bool ℕ) (now : Snapshot Hosts)
    → (take_snapshot (program_env toggling) (record t { library = l })).0 ≡ some now
    → Once (program_env toggling) (codes "a") now
unfolding take_snapshot program_env toggling contains
loaded-Once true t now h = subst (Once (program_env toggling) (codes "a")) (some_injective h) refl
loaded-Once false t now h = subst (Once (program_env toggling) (codes "a")) (some_injective h) refl

snapshot-Once :
    (t : Statics Hosts Bool ℕ) (now : Snapshot Hosts)
    → (take_snapshot (program_env toggling) t).0 ≡ some now
    → Once (program_env toggling) (codes "a") now
snapshot-Once t now h = loaded-Once t.library t now h

abbrev first_snapshot : Snapshot Hosts
first_snapshot = record { up = codes "a" ∷ []; down = codes "b" ∷ [] }

-- Three rounds, in which the node a goes down, up and down.
log_rounds-ToldBy_example :
    Post
      (ToldBy (program_env toggling) (codes "a") up_nodes)
      (λ _. Unit {0})
      (log_rounds (program_env toggling) 3 (some first_snapshot) start)
unfolding program_env contains status program_state replay
log_rounds-ToldBy_example =
    log_rounds-ToldBy (program_env toggling) program_hosts_laws 3 (codes "a") up_nodes
      first_snapshot start snapshot-Once refl refl

-- The loaded handle of the sample, which has a up and b down.
library_ops-Answers_example :
    Answers
      (library_ops sample_env loaded_state.handle)
      (Holding sample_env (some (codes "a" ∷ [])) (some (codes "b" ∷ [])))
      (is_known sample_env (some (codes "a" ∷ [])) (some (codes "b" ∷ [])))
      (is_held sample_env (some (codes "a" ∷ [])) (some (codes "b" ∷ [])))
unfolding sample_env
library_ops-Answers_example =
    library_ops-Answers sample_env hosts_laws loaded_state.handle (some (codes "a" ∷ []))
      (some (codes "b" ∷ []))

abbrev loaded_program : Statics Hosts SampleState ℕ
loaded_program = program_state loaded_state (codes "b" ∷ codes "a" ∷ [])

sample_push :
    PushHostLaw (program_env {L = SampleState} (library_ops sample_env loaded_state.handle))
unfolding program_env program_hosts program_strings hosts_ops
sample_push = record { hosts-push_host = λ h h' n e. sym (some_injective e) }

sample-Holding : Holding sample_env (some (codes "a" ∷ [])) (some (codes "b" ∷ [])) loaded_state
unfolding loaded_state
sample-Holding = record {
  answering = record { magic = refl; load_state = refl };
  no_module = refl;
  up_list = refl;
  down_list = refl;
}

-- The nodes b and a, asked for those that are up, with the library of the sample.
get_input_nodes-GotNodes_example :
    Post
      (GotNodes
        (program_env (library_ops sample_env loaded_state.handle))
        (Holding sample_env (some (codes "a" ∷ [])) (some (codes "b" ∷ [])))
        (is_known sample_env (some (codes "a" ∷ [])) (some (codes "b" ∷ [])))
        (is_held sample_env (some (codes "a" ∷ [])) (some (codes "b" ∷ [])))
        up_nodes
        bufferlen
        (codes "b" ∷ codes "a" ∷ []))
      (λ _. Unit {0})
      (get_input_nodes
        (program_env (library_ops sample_env loaded_state.handle))
        bufferlen
        up_nodes
        loaded_program)
unfolding program_env program_hosts program_state hosts_ops sample_env
get_input_nodes-GotNodes_example =
    get_input_nodes-GotNodes (program_env (library_ops sample_env loaded_state.handle))
      (library_ops-Answers sample_env hosts_laws loaded_state.handle (some (codes "a" ∷ []))
        (some (codes "b" ∷ [])))
      sample_push program_hosts_laws up_nodes bufferlen loaded_program sample-Holding

-- The whole program, with -g and -p 80 and no node: both nodes are printed.
main_runs : (main (program_env toggling) 0 [] (program_state false [])).0 ≡ some 0
unfolding main program_env program_state toggling new_loadinfo
main_runs = refl

-- a program that sleeps in a world that counts it
abbrev sleeping : ProgramEnv Hosts ℕ ℕ
sleeping = record (program_env strict) {
  format_now = λ w. (print_ulong w, w);
  sleep = λ seconds w. suc w;
}

abbrev awake : Statics Hosts ℕ ℕ
awake = program_state 0 []

sleeping-Succeeds : Succeeds sleeping awake.settings (λ l. l ≡ 1) (λ l. l ≡ 2) (λ w. w)
unfolding program_env strict program_strings program_hosts hosts_ops
sleeping-Succeeds = record {
  handle_create = λ l. refl;
  load_data = λ l c. rw c refl;
  nodes_string = λ which l c. rw c (refl, refl);
  iterator_create = λ h. refl;
  write_log = λ text w. refl;
  format_now = λ w. refl;
  sleep = λ w. refl;
}

-- A thousand rounds of the sample.
log_rounds-Returns_example :
    Gives (λ _ t. t.world ≡ 1000 + awake.world) (log_rounds sleeping 1000 none awake)
log_rounds-Returns_example = log_rounds-Returns sleeping sleeping-Succeeds 1000 none awake refl

-- The modules of the sample directory again.
load_options_modules-Returns_example : Returns (load_options_modules (program_env toggling))
unfolding program_env
load_options_modules-Returns_example = load_options_modules-Returns (program_env toggling) (record {
  malloc = refl;
  lt_dlinit = refl;
  list_create = refl;
  list_append = refl;
  list_iterator_create = refl;
})

sample_lists : HasLists (program_env (library_ops sample_env loaded_state.handle))
unfolding program_env program_hosts program_strings hosts_ops
sample_lists = record { create = refl; iterator_create = λ h. refl; push_host = λ h n. refl }

-- The nodes b and a, which the library of the sample knows.
get_input_nodes-some_example :
    is_some
      (get_input_nodes
        (program_env (library_ops sample_env loaded_state.handle))
        bufferlen
        up_nodes
        loaded_program).0
    ≡ true
unfolding program_env program_hosts program_state hosts_ops sample_env contains hosts_of filter
get_input_nodes-some_example =
    get_input_nodes-some (program_env (library_ops sample_env loaded_state.handle)) sample_lists
      (library_ops-Answers sample_env hosts_laws loaded_state.handle (some (codes "a" ∷ []))
        (some (codes "b" ∷ [])))
      sample_push program_hosts_laws up_nodes bufferlen loaded_program sample-Holding
      (refl, (refl, tt)) (λ hl e. rw e refl)
