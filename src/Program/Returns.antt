-- ===== src/Program/Returns.antt =====
-- The log goes on: `_log_mode` of src/whatsup/whatsup.c in an environment whose calls succeed.
use whatsup.Prelude.{
  ℕ, zero, suc, ◌+◌, ◌≡◌, refl, ap, ◌∙◌, Bool, true, false, Option, none, some, List, [], ◌∷◌, Name,
  pos, codes, is_some, if-intro, Exec, pure, Post, Post-weaken, Triple, Triple-bind, arith,
}
use whatsup.Devel.{UpOrDown, up_nodes, down_nodes}
use whatsup.Program.State.{Settings, Statics, ProgramEnv, in_library, in_world, print}
use whatsup.Program.Cmdline.{bufferlen}
use whatsup.Program.Nodes.{or_exit, require, or_exit_updown}
use whatsup.Program.Output.{loaded, load_handle}
use whatsup.Program.Log.{
  Snapshot, written, write_text, write_entry, write_changes, get_string, create_list, create_lists,
  take_snapshot, write_log, rest_until_next, log_rounds, up_string_failed, down_string_failed,
}

-- A call that returns, with this of its result.
abbrev pub Gives : {S A : Type 0} → (A → S → Type 0) → Option A × S → Type 0
Gives Q = Post Q (λ _. ⊥)

-- What a round needs, with these settings: a handle can be created, the load that the settings ask
-- for succeeds, and in the states of the library that the load leads to, the strings of the nodes fit
-- into the buffer of the program and can be made into lists; iterators can be made and the log file
-- can be written. The sleeps for the time of the settings are what `naps` counts in the world.
pub record Succeeds {H L W : Type 0} (env : ProgramEnv H L W) (settings : Settings)
    (Created Loaded : L → Type 0) (naps : W → ℕ) : Type 0 where
  pub handle_create : (l : L) → Gives (λ _. Created) (env.updown.handle_create l)
  pub load_data :
      (l : L)
      → Created l
      → Gives
          (λ _. Loaded)
          (env.updown.load_data settings.hostname settings.port (pos 0) settings.backend l)
  pub nodes_string :
      (which : UpOrDown) (l : L)
      → Loaded l
      → Gives
          (λ text m. (is_some (env.strings.create_from text) ≡ true) × Loaded m)
          (env.updown.nodes_string which (pos bufferlen) l)
  pub iterator_create : (h : H) → env.hostlist.iterator_create h ≡ true
  pub write_log : (text : Name) (w : W) → Gives (λ _ w'. naps w' ≡ naps w) (env.write_log text w)
  pub format_now : (w : W) → naps (env.format_now w).1 ≡ naps w
  pub sleep : (w : W) → naps (env.sleep settings.log_poll w) ≡ suc (naps w)

module _ {H L W : Type 0} where
  in_library-Gives :
      {A : Type 0} (Q : A → Statics H L W → Type 0) (s : Statics H L W) (r : Option A × L)
      → Gives (λ a l. Q a (record s { library = l })) r
      → Gives Q (r.0, record s { library = r.1 })
  in_library-Gives Q s (none, l) h = h
  in_library-Gives Q s (some a, l) h = h

  or_exit-Gives :
      {A : Type 0} (Q : A → Statics H L W → Type 0) (message : Name) (o : Option A)
      (s : Statics H L W)
      → Gives Q (o, s)
      → Gives Q (or_exit message o s)
  unfolding or_exit
  or_exit-Gives Q message none s h = absurd h
  or_exit-Gives Q message (some a) s h = h

  given :
      {A : Type 0} (Q : A → Statics H L W → Type 0) (o : Option A) (s : Statics H L W)
      → is_some o ≡ true
      → ((a : A) → Q a s)
      → Gives Q (o, s)
  given Q none s h k = cc h
  given Q (some a) s h k = k a

module _ {H L W : Type 0} (env : ProgramEnv H L W) {settings : Settings}
    {Created Loaded : L → Type 0} {naps : W → ℕ}
    (ok : Succeeds env settings Created Loaded naps) where
  -- The settings are these, and the program has slept so often.
  abbrev Slept : ℕ → Statics H L W → Type 0
  Slept n s = (s.settings ≡ settings) × (naps s.world ≡ n)

  abbrev Ready : Type 0 → ℕ → Statics H L W → Type 0
  Ready K n s = K × Loaded s.library × Slept n s

  loaded-Gives :
      (Q : Statics H L W → Type 0) (function : Name) (o : Option (Unit {0})) (s : Statics H L W)
      → Gives (λ _. Q) (o, s)
      → Gives (λ _. Q) (loaded env function o s)
  unfolding loaded
  loaded-Gives Q function none s h = absurd h
  loaded-Gives Q function (some a) s h = h

  updown-Gives :
      (Q : Name → Statics H L W → Type 0) (function : Name) (o : Option Name) (s : Statics H L W)
      → Gives Q (o, s)
      → Gives Q (or_exit_updown env function o s)
  unfolding or_exit_updown
  updown-Gives Q function none s h = absurd h
  updown-Gives Q function (some a) s h = h

  load_data-Gives :
      (n : ℕ) (s : Statics H L W)
      → Created s.library
      → Slept n s
      → Gives
          (λ _. Ready (Unit {0}) n)
          (in_library
            (env.updown.load_data s.settings.hostname s.settings.port (pos 0) s.settings.backend)
            s)
  unfolding in_library
  load_data-Gives n s c h =
      in_library-Gives (λ _. Ready (Unit {0}) n) s _
        (Post-weaken (λ _. Loaded) (λ _ l. Ready (Unit {0}) n (record s { library = l })) (λ _. ⊥)
          (env.updown.load_data s.settings.hostname s.settings.port (pos 0) s.settings.backend
            s.library)
          (λ _ l m. (tt, m, h)) (rw h.0 (ok.load_data s.library c)))

  load_handle-Triple :
      (n : ℕ) (function : Name)
      → Triple (Slept n) (load_handle env function) (λ _. Ready (Unit {0}) n) (λ _. ⊥)
  unfolding load_handle in_library
  load_handle-Triple n function =
      Triple-bind {Q = λ _ s. Created s.library × Slept n s} _ _
        (record {
          at = λ s h.
              or_exit-Gives (λ _ t. Created t.library × Slept n t) _ _ _
                (in_library-Gives (λ _ t. Created t.library × Slept n t) s _
                  (Post-weaken (λ _. Created) _ (λ _. ⊥) _ (λ _ l c. (c, h))
                    (ok.handle_create s.library)));
        })
        (λ _. record {
          at = λ s h. loaded-Gives (Ready (Unit {0}) n) function _ _ (load_data-Gives n s h.0 h.1);
        })

  -- the text can be made into a list
  abbrev IsText : Name → Type 0
  IsText text = is_some (env.strings.create_from text) ≡ true

  get_string-Triple :
      (K : Type 0) (n : ℕ) (which : UpOrDown) (function : Name)
      → Triple
          (Ready K n)
          (get_string env which function)
          (λ text. Ready (K × IsText text) n)
          (λ _. ⊥)
  unfolding get_string in_library
  get_string-Triple K n which function = record {
    at = λ s h.
        updown-Gives (λ text. Ready (K × IsText text) n) function _ _
          (in_library-Gives (λ text. Ready (K × IsText text) n) s _
            (Post-weaken (λ text m. IsText text × Loaded m) _ (λ _. ⊥) _
              (λ text l m. ((h.0, m.0), m.1, h.2)) (ok.nodes_string which s.library h.1)));
  }

  create_list-Triple :
      (K : Type 0) (n : ℕ) (text : Name)
      → (K → IsText text)
      → Triple (Ready K n) (create_list env text) (λ _. Ready K n) (λ _. ⊥)
  unfolding create_list
  create_list-Triple K n text k = record {
    at = λ s h.
        or_exit-Gives (λ _. Ready K n) _ (env.strings.create_from text) s
          (given (λ _. Ready K n) (env.strings.create_from text) s (k h.0) (λ _. h));
  }

  take_snapshot-Triple : (n : ℕ) → Triple (Slept n) (take_snapshot env) (λ _. Slept n) (λ _. ⊥)
  unfolding take_snapshot create_lists
  take_snapshot-Triple n = Triple-bind _ _ (load_handle-Triple n (codes "_log_mode")) (λ _.
      Triple-bind _ _ (get_string-Triple (Unit {0}) n up_nodes up_string_failed) (λ up.
        let K : Type 0 = Unit {0} × IsText up in
        Triple-bind _ _ (get_string-Triple K n down_nodes down_string_failed) (λ down.
          Triple-bind _ _ (create_list-Triple (K × IsText down) n up (λ k. k.0.1)) (λ h.
            Triple-bind _ _ (create_list-Triple (K × IsText down) n down (λ k. k.1))
              (λ k. record { at = λ s r. r.2 })))))

  written-Gives :
      (n : ℕ) (s : Statics H L W) (r : Option (Unit {0}) × W)
      → Slept n s
      → Gives (λ _ w. naps w ≡ naps s.world) r
      → Gives (λ _. Slept n) (written env r.0 (record s { world = r.1 }))
  unfolding written
  written-Gives n s (none, w) h k = absurd k
  written-Gives n s (some a, w) h k = (h.0, k ∙ h.1)

  abbrev KeepsOn : ℕ → Exec (Statics H L W) (Unit {0}) → Type 0
  KeepsOn n m = Triple (Slept n) m (λ _. Slept n) (λ _. ⊥)

  write_text-KeepsOn :
      (n : ℕ) (file : Option Name) (text : Name) → KeepsOn n (write_text env file text)
  unfolding write_text in_world print
  write_text-KeepsOn n none text = record { at = λ s h. h }
  write_text-KeepsOn n (some file) text = record {
    at = λ s h. written-Gives n s (env.write_log text s.world) h (ok.write_log text s.world);
  }

  write_changes-KeepsOn :
      (n : ℕ) (which : UpOrDown) (before : H) (nodes : List Name)
      → KeepsOn n (write_changes env which before nodes)
  unfolding write_changes write_entry
  write_changes-KeepsOn n which before [] = record { at = λ s h. h }
  write_changes-KeepsOn n which before (node ∷ rest) =
      Triple-bind _ _
        (if-intro (KeepsOn n) (is_some (env.hostlist.find before node)) (pure tt)
          (write_entry env which node) (record { at = λ s h. h })
          (record {
            at = λ s h.
                (write_text-KeepsOn n s.settings.log_file _).at _
                  (h.0, ok.format_now s.world ∙ h.1);
          }))
        (λ _. write_changes-KeepsOn n which before rest)

  require-KeepsOn : (n : ℕ) (message : Name) (b : Bool) → b ≡ true → KeepsOn n (require message b)
  unfolding require
  require-KeepsOn n message true h = record { at = λ s k. k }
  require-KeepsOn n message false h = cc h

  write_log-KeepsOn :
      (n : ℕ) (before : Option (Snapshot H)) (now : Snapshot H)
      → KeepsOn n (write_log env before now)
  unfolding write_log
  write_log-KeepsOn n none now = record { at = λ s h. h }
  write_log-KeepsOn n (some before) now =
      let message = codes "_log_mode: hostlist_iterator_create()" in
      Triple-bind _ _
        (Triple-bind _ _
          (Triple-bind _ _ (require-KeepsOn n message _ (ok.iterator_create now.up))
            (λ _. require-KeepsOn n message _ (ok.iterator_create now.down)))
          (λ _. write_changes-KeepsOn n up_nodes before.up (env.hostlist.hosts now.up)))
        (λ _. write_changes-KeepsOn n down_nodes before.down (env.hostlist.hosts now.down))

  rest_until_next-Triple :
      (n : ℕ) → Triple (Slept n) (rest_until_next env) (λ _. Slept (suc n)) (λ _. ⊥)
  unfolding rest_until_next in_library
  rest_until_next-Triple n = record { at = λ s h. (h.0, rw h.0 (ok.sleep s.world ∙ ap suc h.1)) }

  log_rounds-Triple :
      (rounds n : ℕ) (before : Option (Snapshot H))
      → Triple (Slept n) (log_rounds env rounds before) (λ _. Slept (rounds + n)) (λ _. ⊥)
  unfolding log_rounds
  log_rounds-Triple zero n before = record { at = λ s h. (h.0, omega (arith, h.1)) }
  log_rounds-Triple (suc rounds) n before = Triple-bind _ _ (take_snapshot-Triple n) (λ now.
      Triple-bind _ _
        (Triple-bind _ _ (write_log-KeepsOn n before now) (λ _. rest_until_next-Triple n))
        (λ _. record {
          at = λ s h.
              Post-weaken (λ _. Slept (rounds + suc n)) _ (λ _. ⊥) _
                (λ _ t k. (k.0, omega (arith, k.1)))
                ((log_rounds-Triple rounds (suc n) (some now)).at s h);
        }))

  -- In an environment in which the calls of a round succeed with the settings of the program, the log
  -- never stops: from any state with these settings and any lists of the load before, or none, any
  -- number of rounds returns, and it has slept for the time of the settings once in each of them.
  pub log_rounds-Returns :
      (rounds : ℕ) (before : Option (Snapshot H)) (s : Statics H L W)
      → s.settings ≡ settings
      → Gives (λ _ t. naps t.world ≡ rounds + naps s.world) (log_rounds env rounds before s)
  log_rounds-Returns rounds before s h =
      Post-weaken (λ _. Slept (rounds + naps s.world)) _ (λ _. ⊥) _ (λ _ t k. k.1)
        ((log_rounds-Triple rounds (naps s.world) before).at s (h, refl))
