-- ===== src/Conffile/File/Keeps.antt =====
-- What a line of a configuration file does to the handle, on each way out of `_parseline`.
use whatsup.Prelude.{
  ℕ, ◌+◌, ◌-◌, ◌<◌, ◌≡◌, refl, ◌∙◌, Bool, Option, none, some, List, [], ◌∷◌, Name, length, ◌==◌,
  is_empty, ℤ, All, arith, if-cases, if-intro, Exec, Post, Triple, Triple-bind, c_string,
}
use whatsup.Conffile.Err
use whatsup.Conffile.Lines.{remove_trailing_whitespace}
use whatsup.Conffile.Args.{Checked, value, error}
use whatsup.Conffile.Options.{
  ConffileData, Numbers, ConfState, Callback, ConffileOption, is_ignore, check_numargs, calculate,
}
use whatsup.Conffile.Parse.{
  max_optionnamelen, move_past_whitespace, option_word, names_match, args_at, too_many,
  put_conf_errnum, lift_checked, find_option, called_back, call_back, with_args, count_option,
  with_option, with_word, parse_text, parseline, conffile_seterrnum, conffile_magic,
}
use whatsup.Conffile.File.{stored}
use whatsup.Conffile.File.Errnums.{
  IsErrnum, args_at-IsErrnum, check_numargs-IsErrnum, calculate-IsErrnum,
}

-- A callback leaves what is left to read and the end of the file as they are.
abbrev pub KeepsFile : {D S : Type 0} → Callback D S → Type 0
KeepsFile {D = D} {S = S} callback =
    (data' : ConffileData D) (s : ConfState S)
    → ((callback data' s).1.cf.fd ≡ s.cf.fd)
      × ((callback data' s).1.cf.end_of_file ≡ s.cf.end_of_file)

abbrev pub KeepsFile? : {D S : Type 0} → Option (Callback D S) → Type 0
KeepsFile? none = Unit {0}
KeepsFile? (some callback) = KeepsFile callback

abbrev pub CallbacksKeepFile : {D S : Type 0} → List (ConffileOption D S) → Type 0
CallbacksKeepFile = All (λ o. KeepsFile? o.callback_func)

abbrev FoundKeepsFile : {D S : Type 0} → Option (ConffileOption D S) → Type 0
FoundKeepsFile none = Unit {0}
FoundKeepsFile (some o) = KeepsFile? o.callback_func

-- What the descriptor gives is given, and whether the end was seen.
pub record IsAt {S : Type 0} (reads : Option (List (Option Name))) (at_end : Bool) (s : ConfState S)
    : Type 0 where
  pub fd : s.cf.fd ≡ reads
  pub end_of_file : s.cf.end_of_file ≡ at_end

abbrev pub IsFailure : {S : Type 0} → ConfState S → Type 0
IsFailure s = 0 < s.cf.errnum

module _ {S : Type 0} (fd : Option (List (Option Name))) (eof : Bool) where
  abbrev Ends : {A : Type 0} → Exec (ConfState S) A → Type 0
  Ends m = Triple (IsAt fd eof) m (λ _. IsAt fd eof) IsFailure

  pub lift_checked-Ends : {A : Type 0} (r : Checked A) → IsErrnum r → Ends (lift_checked r)
  unfolding lift_checked
  lift_checked-Ends (value a) h = record { at = λ s k. k }
  lift_checked-Ends (error e) h = record { at = λ s k. h }

  called_back-Ends :
      {D : Type 0} (numbers : Numbers D) (r : Option (Unit {0})) (s : ConfState S)
      → IsAt fd eof s
      → Post (λ _. IsAt fd eof) IsFailure (called_back {D = D} {S = S} numbers r s)
  unfolding called_back
  called_back-Ends numbers (some u) s h = h
  called_back-Ends numbers none s h =
      if-cases (Post (λ _. IsAt fd eof) IsFailure) (s.cf.errnum == Err.success) _ _
        (λ _. omega arith) (λ e. ground (arith, e))

module _ {D S : Type 0} (numbers : Numbers D) (fd : Option (List (Option Name))) (eof : Bool) where
  call_back-Ends :
      (callback : Option (Callback D S)) (data' : ConffileData D)
      → KeepsFile? callback
      → Ends fd eof (call_back numbers callback data')
  unfolding call_back
  call_back-Ends none data' k = record {
    at = λ s h. record { fd = h.fd; end_of_file = h.end_of_file };
  }
  call_back-Ends (some callback) data' k = record {
    at = λ s h.
        let cleared = put_conf_errnum Err.success s in
        let r = callback data' cleared in
        called_back-Ends fd eof numbers r.0 r.1 (record {
          fd = (k data' cleared).0 ∙ h.fd;
          end_of_file = (k data' cleared).1 ∙ h.end_of_file;
        });
  }

  with_args-Ends :
      (o : ConffileOption D S) (args : List Name)
      → KeepsFile? o.callback_func
      → Ends fd eof (with_args numbers o args)
  unfolding with_args
  with_args-Ends o args k =
      Triple-bind _ _
        (Triple-bind _ _
          (lift_checked-Ends fd eof (check_numargs o.option_type o.option_type_arg (length args))
            (check_numargs-IsErrnum o.option_type o.option_type_arg (length args)))
          λ _.
            lift_checked-Ends fd eof (calculate numbers o.option_type args)
              (calculate-IsErrnum numbers o.option_type args))
        λ data'. call_back-Ends o.callback_func data' k

  count_option-Ends :
      (max_count : ℤ) (count_ptr : Option ℕ)
      → Ends {S = S} fd eof (count_option numbers max_count count_ptr)
  unfolding count_option
  count_option-Ends max_count none = record { at = λ s h. h }
  count_option-Ends max_count (some address) = record {
    at = λ s h.
        if-intro (Post (λ _. IsAt fd eof) IsFailure) (too_many max_count (s.counts address + 1)) _ _
          (omega arith) (record { fd = h.fd; end_of_file = h.end_of_file });
  }

  find_option-KeepsFile :
      (case_sensitive : Bool) (name : Name) (options : List (ConffileOption D S))
      → CallbacksKeepFile options
      → FoundKeepsFile (find_option numbers case_sensitive name options)
  unfolding find_option
  find_option-KeepsFile case_sensitive name [] k = tt
  find_option-KeepsFile case_sensitive name (o ∷ options) k =
      if-intro FoundKeepsFile (names_match case_sensitive name o.optionname) _ _ k.0
        (find_option-KeepsFile case_sensitive name options k.1)

  with_option-Ends :
      (rest : Name) (found : Option (ConffileOption D S))
      → FoundKeepsFile found
      → Ends fd eof (with_option numbers rest found)
  unfolding with_option
  with_option-Ends rest none k = record {
    at =
        λ s h. if-intro (Post (λ _. IsAt fd eof) IsFailure) s.cf.ignore_unknown _ _ h (omega arith);
  }
  with_option-Ends rest (some o) k = record {
    at = λ s h. if-intro (Post (λ _. IsAt fd eof) IsFailure) (is_ignore o.option_type) _ _ h (
        (Triple-bind _ _
            (Triple-bind _ _ (count_option-Ends o.max_count o.count_ptr) λ _.
              lift_checked-Ends fd eof (args_at (move_past_whitespace rest))
                (args_at-IsErrnum (move_past_whitespace rest)))
            λ args. with_args-Ends o args k).at
          s h);
  }

  with_word-Ends :
      (options : List (ConffileOption D S)) (split : Name × Name)
      → CallbacksKeepFile options
      → Ends fd eof (with_word numbers options split)
  unfolding with_word
  with_word-Ends options (word, rest) k = record {
    at = λ s h.
        if-intro (Post (λ _. IsAt fd eof) IsFailure) (length word == max_optionnamelen - 1) _ _
          (omega arith)
          ((with_option-Ends rest (find_option numbers s.cf.case_sensitive word options)
              (find_option-KeepsFile s.cf.case_sensitive word options k)).at
            (record s { cf = record s.cf { optionname = word } })
            (record { fd = h.fd; end_of_file = h.end_of_file }));
  }

  parse_text-Ends :
      (options : List (ConffileOption D S)) (text : Option Name)
      → CallbacksKeepFile options
      → Ends fd eof (parse_text numbers options text)
  unfolding parse_text
  parse_text-Ends options none k = record { at = λ s h. h }
  parse_text-Ends options (some text) k =
      with_word-Ends options (option_word (max_optionnamelen - 1) text) k

  pub parseline-Ends :
      (options : List (ConffileOption D S)) (line : Name)
      → CallbacksKeepFile options
      → Triple (IsAt fd eof) (parseline numbers options line) (λ _. IsAt fd eof) IsFailure
  unfolding parseline
  parseline-Ends options line k = record {
    at = λ s h.
        if-intro (Post (λ _. IsAt fd eof) IsFailure) (is_empty (remove_trailing_whitespace line)) _
          _ h
          ((parse_text-Ends options
              (move_past_whitespace (c_string (remove_trailing_whitespace line))) k).at
            s h);
  }

-- The callbacks of the library that store a value change the error number at most.
pub stored-KeepsFile :
    {D S A : Type 0} (option_ptr : Option (A → S → S)) (a : ConffileData D → A)
    → KeepsFile (λ data'. stored option_ptr (a data'))
unfolding stored conffile_seterrnum
stored-KeepsFile none a data' s =
    if-intro
      (λ (r : Option (Unit {0}) × ConfState _).
        (r.1.cf.fd ≡ s.cf.fd) × (r.1.cf.end_of_file ≡ s.cf.end_of_file))
      (s.cf.magic == conffile_magic) _ _ (refl, refl) (refl, refl)
stored-KeepsFile (some write) a data' s = (refl, refl)
