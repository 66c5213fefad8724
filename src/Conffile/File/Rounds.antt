-- ===== src/Conffile/File/Rounds.antt =====
-- Each round of the loop of `conffile_parse` leaves fewer to come, so the loop ends.
use whatsup.Prelude.{
  ℕ, zero, suc, ◌+◌, ◌-◌, ◌≤◌, ◌<◌, ◌≡◌, refl, sym, subst, Bool, false, Option, none, some, List,
  [], ◌∷◌, ◌++◌, Name, length, leb, is_empty, if◌then◌else◌, arith, if-cases, if-intro, Post,
}
use whatsup.Conffile.Lines.{
  Conffile, ReadLine, Round, blank, continuation, complete, next_round, round_of, read_round,
  read_from, readline, max_linelen,
}
use whatsup.Conffile.Options.{Numbers, ConfState, ConffileOption}
use whatsup.Conffile.Parse.{parseline}
use whatsup.Conffile.File.{
  Parsed, parsed, failed, out_of_fuel, put_cf, after_line, with_line, parse_lines,
}
use whatsup.Conffile.File.Keeps.{CallbacksKeepFile, IsAt, IsFailure, parseline-Ends}

-- the reads that are left
abbrev pub left : Option (List (Option Name)) → ℕ
left none = 0
left (some reads) = length reads

-- the rounds of the loop that are left
abbrev pub rounds : Conffile → ℕ
rounds cf = if cf.end_of_file then 1 else suc (suc (left cf.fd))

-- A line that was read leaves fewer rounds; a failure has set the error number.
abbrev IsRead : ℕ → ReadLine → Type 0
IsRead n (none, cf) = 0 < cf.errnum
IsRead n (some line, cf) = rounds cf < n

IsRead-weaken : (m n : ℕ) (r : ReadLine) → m ≤ n → IsRead m r → IsRead n r
IsRead-weaken m n (none, cf) k h = h
IsRead-weaken m n (some line, cf) k h = omega (arith, h, k)

next_round-IsRead :
    (again : Name → Conffile → ReadLine) (round : Round) (cf : Conffile) (n : ℕ)
    → ((linebuf : Name) (cf' : Conffile) → cf'.end_of_file ≡ false → IsRead n (again linebuf cf'))
    → cf.end_of_file ≡ false
    → suc (suc (left cf.fd)) ≤ n
    → IsRead (suc n) (next_round again round cf)
unfolding next_round
next_round-IsRead again blank cf n h e k =
    IsRead-weaken n (suc n) (again [] _) (omega arith) (h [] _ e)
next_round-IsRead again (continuation linebuf) cf n h e k =
    IsRead-weaken n (suc n) (again linebuf cf) (omega arith) (h linebuf cf e)
next_round-IsRead again (complete line) cf n h e k = rw e (omega (arith, k))

read_round-IsRead :
    (reads : List (Option Name)) (linebuf : Name) (cf : Conffile)
    → cf.end_of_file ≡ false
    → IsRead (suc (suc (length reads))) (read_round reads linebuf cf)
unfolding read_round
read_round-IsRead [] linebuf cf e = omega arith
read_round-IsRead (none ∷ reads) linebuf cf e = omega arith
read_round-IsRead (some buf ∷ reads) linebuf cf e =
    let P = IsRead (suc (suc (suc (length reads)))) in
    if-intro P (is_empty buf) _ _ (omega arith) (
      if-intro P (leb (max_linelen - 1) (length buf)) _ _ (omega arith) (
        if-intro P (leb max_linelen (length buf + length linebuf)) _ _ (omega arith) (
          next_round-IsRead (read_round reads) (round_of (linebuf ++ buf)) _
            (suc (suc (length reads))) (read_round-IsRead reads) e (omega arith))))

read_from-IsRead :
    (fd : Option (List (Option Name))) (cf : Conffile)
    → cf.end_of_file ≡ false
    → IsRead (suc (suc (left fd))) (read_from fd cf)
unfolding read_from
read_from-IsRead none cf e = omega arith
read_from-IsRead (some reads) cf e = read_round-IsRead reads [] cf e

rounds-pos : (cf : Conffile) → 0 < rounds cf
rounds-pos cf = if-intro (λ n. 0 < n) cf.end_of_file _ _ (omega arith) (omega arith)

readline-IsRead : (cf : Conffile) → cf.end_of_file ≡ false → IsRead (rounds cf) (readline cf)
unfolding readline
readline-IsRead cf e =
    subst (λ b. IsRead (if b then 1 else suc (suc (left cf.fd))) (readline cf)) (sym e)
      (read_from-IsRead cf.fd (record cf { line_num = cf.line_count + 1 }) e)

-- The loop does not run out of fuel, and it fails with an error number.
abbrev pub IsEnd : {S : Type 0} → Parsed × ConfState S → Type 0
IsEnd (parsed, s) = Unit {0}
IsEnd (failed, s) = 0 < s.cf.errnum
IsEnd (out_of_fuel, s) = ⊥

module _ {D S : Type 0} (numbers : Numbers D) (options : List (ConffileOption D S)) where
  after_line-IsEnd :
      (rest : ConfState S → Parsed × ConfState S) (fd : Option (List (Option Name))) (eof : Bool)
      (r : Option (Unit {0}) × ConfState S)
      → Post (λ _. IsAt fd eof) IsFailure r
      → ((s : ConfState S) → IsAt fd eof s → IsEnd (rest s))
      → IsEnd (after_line numbers options rest r.0 r.1)
  unfolding after_line
  after_line-IsEnd rest fd eof (none, s) h k = h
  after_line-IsEnd rest fd eof (some u, s) h k = k s h

  with_line-IsEnd :
      (rest : ConfState S → Parsed × ConfState S) (n : ℕ) (r : ReadLine) (s : ConfState S)
      → CallbacksKeepFile options
      → IsRead (suc n) r
      → ((s' : ConfState S) → rounds s'.cf ≤ n → IsEnd (rest s'))
      → IsEnd (with_line numbers options rest r.0 (put_cf r.1 s))
  unfolding with_line
  with_line-IsEnd rest n (none, cf) s keeps h k = h
  with_line-IsEnd rest n (some [], cf) s keeps h k = tt
  with_line-IsEnd rest n (some (c ∷ cs), cf) s keeps h k =
      after_line-IsEnd rest cf.fd cf.end_of_file (parseline numbers options (c ∷ cs) (put_cf cf s))
        ((parseline-Ends numbers cf.fd cf.end_of_file options (c ∷ cs) keeps).at (put_cf cf s)
          (record { fd = refl; end_of_file = refl }))
        λ s' at. k s' (rw at.fd (rw at.end_of_file (omega (arith, h))))

  pub parse_lines-IsEnd :
      (fuel : ℕ) (s : ConfState S)
      → CallbacksKeepFile options
      → rounds s.cf ≤ fuel
      → IsEnd (parse_lines numbers options fuel s)
  unfolding parse_lines readline
  parse_lines-IsEnd zero s keeps h = absurd (omega (arith, h, rounds-pos s.cf))
  parse_lines-IsEnd (suc fuel) s keeps h =
      if-cases IsEnd s.cf.end_of_file _ _ (λ _. tt)
        λ e.
          with_line-IsEnd (parse_lines numbers options fuel) fuel (readline s.cf) s keeps
            (IsRead-weaken (rounds s.cf) (suc fuel) (readline s.cf) h (readline-IsRead s.cf e))
            (λ s' k. parse_lines-IsEnd fuel s' keeps k)
