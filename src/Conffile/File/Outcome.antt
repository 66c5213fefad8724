-- ===== src/Conffile/File/Outcome.antt =====
-- How a parse ends: `conffile_parse` returns, and its error number says how.
use whatsup.Prelude.{
  ℕ, suc, ◌≤◌, ◌<◌, ◌≡◌, ◌≢◌, ◌↔◌, refl, sym, subst, Bool, false, not, Option, none, some, List, [],
  ◌∷◌, Name, ◌==◌, is_empty, is_some, if◌then◌else◌, All, arith, if-cases, if-intro, Bool-cases,
  ==_iff, inl, inr, Post, Post-weaken,
}
use whatsup.Conffile.Err
use whatsup.Conffile.Options.{Numbers, ConfState, ConffileOption}
use whatsup.Conffile.Parse.{conffile_magic, put_conf_errnum}
use whatsup.Conffile.File.{
  ConfFile, readable, unreadable, unopened, Parsed, parsed, failed, out_of_fuel, all_legitimate,
  setup, is_missing, check_required, parse_lines, finish_parse, close_fd, fuel_for, parse_file,
  conffile_parse,
}
use whatsup.Conffile.File.Keeps.{CallbacksKeepFile, IsFailure}
use whatsup.Conffile.File.Rounds.{left, rounds, IsEnd, parse_lines-IsEnd}

-- No option's count is below what it requires.
abbrev pub RequiredMet : {D S : Type 0} → List (ConffileOption D S) → (ℕ → ℕ) → Type 0
RequiredMet options counts = All (λ o. is_missing counts o ≡ false) options

-- How `conffile_parse` comes back.
abbrev IsReturn : {D S : Type 0} → List (ConffileOption D S) → Parsed × ConfState S → Type 0
IsReturn options (parsed, s) = (s.cf.errnum ≡ Err.success) × RequiredMet options s.counts
IsReturn options (failed, s) = 0 < s.cf.errnum
IsReturn options (out_of_fuel, s) = ⊥

check_required-RequiredMet :
    {D S : Type 0} (options : List (ConffileOption D S)) (s : ConfState S)
    → Post
        (λ _ s'. RequiredMet options s.counts × (s'.counts ≡ s.counts))
        IsFailure
        (check_required options s)
unfolding check_required
check_required-RequiredMet [] s = (tt, refl)
check_required-RequiredMet (o ∷ options) s =
    if-cases (Post (λ _ s'. RequiredMet (o ∷ options) s.counts × (s'.counts ≡ s.counts)) IsFailure)
      (is_missing s.counts o) _ _ (λ _. omega arith)
      λ e.
        Post-weaken _ _ _ (check_required options s) (λ _ s' h. ((e, h.0), h.1))
          (check_required-RequiredMet options s)

module _ {D S : Type 0} (numbers : Numbers D) (options : List (ConffileOption D S)) where
  checked-IsReturn :
      (r : Option (Unit {0}) × ConfState S) (counts : ℕ → ℕ)
      → Post (λ _ s. RequiredMet options counts × (s.counts ≡ counts)) IsFailure r
      → IsReturn options
          (if is_some r.0 then (parsed, put_conf_errnum Err.success r.1) else (failed, r.1))
  checked-IsReturn (none, s) counts h = h
  checked-IsReturn (some u, s) counts h = (refl, subst (RequiredMet options) (sym h.1) h.0)

  finish_parse-IsReturn :
      (p : Parsed) (s : ConfState S)
      → IsEnd (p, s)
      → IsReturn options (finish_parse numbers options p s)
  unfolding finish_parse
  finish_parse-IsReturn parsed s h =
      let at_end : ConfState S = record s { cf = record s.cf { line_num = 0 } } in
      checked-IsReturn (check_required options at_end) s.counts
        (check_required-RequiredMet options at_end)
  finish_parse-IsReturn failed s h = h
  finish_parse-IsReturn out_of_fuel s h = absurd h

  close_fd-IsReturn :
      (r : Parsed × ConfState S)
      → IsReturn options r
      → IsReturn options (r.0, close_fd numbers options r.1)
  unfolding close_fd
  close_fd-IsReturn (parsed, s) h = h
  close_fd-IsReturn (failed, s) h = h
  close_fd-IsReturn (out_of_fuel, s) h = h

  fuel_covers :
      (fd : Option (List (Option Name))) → suc (suc (left fd)) ≤ fuel_for numbers options fd
  unfolding fuel_for
  fuel_covers none = omega arith
  fuel_covers (some reads) = omega arith

  fuel_is_enough : (s : ConfState S) → rounds s.cf ≤ fuel_for numbers options s.cf.fd
  unfolding fuel_for
  fuel_is_enough s =
      if-intro (λ n. n ≤ fuel_for numbers options s.cf.fd) s.cf.end_of_file _ _
        (omega (arith, fuel_covers s.cf.fd)) (fuel_covers s.cf.fd)

  parse_file-IsReturn :
      (r : Option (Unit {0}) × ConfState S)
      → CallbacksKeepFile options
      → Post (λ _ _. Unit {0}) IsFailure r
      → IsReturn options (parse_file numbers options r.0 r.1)
  unfolding parse_file
  parse_file-IsReturn (none, s) keeps h = close_fd-IsReturn (failed, s) h
  parse_file-IsReturn (some u, s) keeps h =
      let r = parse_lines numbers options (fuel_for numbers options s.cf.fd) s in
      close_fd-IsReturn (finish_parse numbers options r.0 r.1) (
        finish_parse-IsReturn r.0 r.1 (
          parse_lines-IsEnd numbers options (fuel_for numbers options s.cf.fd) s keeps
            (fuel_is_enough s)))

  setup-IsFailure :
      (case_sensitive ignore_unknown : Bool) (file : ConfFile) (s : ConfState S)
      → Post (λ _ _. Unit {0}) IsFailure (setup options case_sensitive ignore_unknown file s)
  unfolding setup
  setup-IsFailure case_sensitive ignore_unknown (readable reads) s = tt
  setup-IsFailure case_sensitive ignore_unknown unreadable s = omega arith
  setup-IsFailure case_sensitive ignore_unknown unopened s = omega arith

  conffile_parse-IsReturn :
      (case_sensitive ignore_unknown other_flags : Bool) (file : ConfFile) (s : ConfState S)
      → CallbacksKeepFile options
      → s.cf.magic ≡ conffile_magic
      → IsReturn options
          (conffile_parse numbers options case_sensitive ignore_unknown other_flags file s)
  unfolding conffile_parse
  conffile_parse-IsReturn case_sensitive ignore_unknown other_flags file s keeps h =
      if-cases (IsReturn options) (not (s.cf.magic == conffile_magic)) _ _
        (λ e. ground (arith, h, e))
        λ _. if-intro (IsReturn options) (is_empty options) _ _ (omega arith) (
          if-intro (IsReturn options) (not (all_legitimate options)) _ _ (omega arith) (
            if-intro (IsReturn options) other_flags _ _ (omega arith) (
              parse_file-IsReturn (setup options case_sensitive ignore_unknown file s) keeps
                (setup-IsFailure case_sensitive ignore_unknown file s))))

  IsReturn-ends : (r : Parsed × ConfState S) → IsReturn options r → r.0 ≢ out_of_fuel
  IsReturn-ends (parsed, s) h = λ e. cc
  IsReturn-ends (failed, s) h = λ e. cc
  IsReturn-ends (out_of_fuel, s) h = absurd h

  IsReturn-errnum :
      (r : Parsed × ConfState S)
      → IsReturn options r
      → (r.0 ≡ parsed) ↔ (r.1.cf.errnum ≡ Err.success)
  IsReturn-errnum (parsed, s) h = (λ _. h.0, λ _. refl)
  IsReturn-errnum (failed, s) h = (λ e. cc, λ e. absurd (omega (arith, h, e)))
  IsReturn-errnum (out_of_fuel, s) h = absurd h

  IsReturn-RequiredMet :
      (r : Parsed × ConfState S)
      → IsReturn options r
      → r.0 ≡ parsed
      → RequiredMet options r.1.counts
  IsReturn-RequiredMet (parsed, s) h e = h.1
  IsReturn-RequiredMet (failed, s) h e = cc
  IsReturn-RequiredMet (out_of_fuel, s) h e = absurd h

  magic_failed :
      (case_sensitive ignore_unknown other_flags : Bool) (file : ConfFile) (s : ConfState S)
      → (s.cf.magic == conffile_magic) ≡ false
      → conffile_parse numbers options case_sensitive ignore_unknown other_flags file s
        ≡ (failed, s)
  unfolding conffile_parse
  magic_failed case_sensitive ignore_unknown other_flags file s h = rw h refl

-- If each callback leaves what is left to read and the end of the file in the handle as they are,
-- `conffile_parse` comes to an end on every file: the loop reads what is left before the fuel, which
-- is the number of reads and two more, is used up.
pub conffile_parse_terminates :
    {D S : Type 0} (numbers : Numbers D) (options : List (ConffileOption D S))
    (case_sensitive ignore_unknown other_flags : Bool) (file : ConfFile) (s : ConfState S)
    → CallbacksKeepFile options
    → (conffile_parse numbers options case_sensitive ignore_unknown other_flags file s).0
      ≢ out_of_fuel
conffile_parse_terminates numbers options case_sensitive ignore_unknown other_flags file s keeps =
    elim (Bool-cases (s.cf.magic == conffile_magic)) [
      | inl e ↦ IsReturn-ends numbers options _ (
          conffile_parse-IsReturn numbers options case_sensitive ignore_unknown other_flags file s
            keeps ((==_iff s.cf.magic conffile_magic).0 e))
      | inr e ↦
          rw (magic_failed numbers options case_sensitive ignore_unknown other_flags file s e)
            (λ h. cc)
    ]

-- With a handle whose magic number is right, and callbacks that leave what is left to read and the
-- end of the file in it as they are, `conffile_parse` returns 0 if and only if the error number of
-- the handle is CONFFILE_ERR_SUCCESS when it returns.
pub conffile_parse-errnum :
    {D S : Type 0} (numbers : Numbers D) (options : List (ConffileOption D S))
    (case_sensitive ignore_unknown other_flags : Bool) (file : ConfFile) (s : ConfState S)
    → CallbacksKeepFile options
    → s.cf.magic ≡ conffile_magic
    → let r = conffile_parse numbers options case_sensitive ignore_unknown other_flags file s in
      (r.0 ≡ parsed) ↔ (r.1.cf.errnum ≡ Err.success)
conffile_parse-errnum numbers options case_sensitive ignore_unknown other_flags file s keeps h =
    IsReturn-errnum numbers options _ (
      conffile_parse-IsReturn numbers options case_sensitive ignore_unknown other_flags file s keeps
        h)

-- With a handle whose magic number is right, and callbacks that leave what is left to read and the
-- end of the file in it as they are, no option's count is below the count it requires after
-- `conffile_parse` has returned 0.
pub conffile_parse-RequiredMet :
    {D S : Type 0} (numbers : Numbers D) (options : List (ConffileOption D S))
    (case_sensitive ignore_unknown other_flags : Bool) (file : ConfFile) (s : ConfState S)
    → CallbacksKeepFile options
    → s.cf.magic ≡ conffile_magic
    → (conffile_parse numbers options case_sensitive ignore_unknown other_flags file s).0 ≡ parsed
    → RequiredMet options
        (conffile_parse numbers options case_sensitive ignore_unknown other_flags file s).1.counts
conffile_parse-RequiredMet numbers options case_sensitive ignore_unknown other_flags file s keeps
      h =
    IsReturn-RequiredMet numbers options _ (
      conffile_parse-IsReturn numbers options case_sensitive ignore_unknown other_flags file s keeps
        h)
