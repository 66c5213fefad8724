-- ===== src/Hostsfile/Hosts.antt =====
-- What the setup of the hostsfile module makes of a hosts file.
use whatsup.Prelude.{
  c_string, ℕ, ◌-◌, ◌≤◌, ◌≡◌, refl, Bool, false, ◌||◌, Option, none, some, List, [], ◌∷◌, ◌++◌,
  Name, strchr, length, leb, ltb, ◌==◌, is_some, Exec, arith, All, Post, if-cases, if-intro, ℤ,
  continue,
}
use whatsup.External.{ListOps, ListLaws}
use whatsup.Handle.State.{State}
use whatsup.Handle.Checks.{nodeupdown_set_errnum, nodeupdown_handle_error_check}
use whatsup.Load.Config.{maxhostnamelen}
use whatsup.Hostsfile.Lines.{
  Line, skipped, malformed, host, before_dot, host_at, line_at, read_host, remove_comments,
  remove_trailing_whitespace, move_past_whitespace,
}
use whatsup.Hostsfile.{
  HostsFile, opened, missing, unopened, appended, append_to, add_line, read_hosts, read_file,
  created_hosts, bufferlen, put_hosts, hostsfile_clusterlist_setup,
}

-- A name that the module may keep: it fits, and has no domain and no blank.
pub record IsHostName (n : Name) : Type 0 where
  pub fits : length n ≤ maxhostnamelen
  pub dot : strchr b'.' n ≡ none
  pub space : strchr b' ' n ≡ none
  pub tab : strchr b'\t' n ≡ none

abbrev HostLine : Line → Type 0
HostLine skipped = Unit {0}
HostLine malformed = Unit {0}
HostLine (host n) = IsHostName n

before_dot-none : (s : Name) → strchr b'.' (before_dot s) ≡ none
unfolding strchr before_dot
before_dot-none [] = refl
before_dot-none (c ∷ cs) = ground (arith, before_dot-none cs)

before_dot-strchr : (x : ℕ) (s : Name) → strchr x s ≡ none → strchr x (before_dot s) ≡ none
unfolding strchr before_dot
before_dot-strchr x [] h = refl
before_dot-strchr x (c ∷ cs) h = ground (arith, h, before_dot-strchr x cs)

length-before_dot : (s : Name) → length (before_dot s) ≤ length s
unfolding before_dot
length-before_dot [] = omega arith
length-before_dot (c ∷ cs) = ground (arith, length-before_dot cs)

none_of : (a b : Option Name) → (is_some a || is_some b) ≡ false → (a ≡ none) × (b ≡ none)
none_of a b h = ground arith

ltb-le : (n : ℕ) → ltb maxhostnamelen n ≡ false → n ≤ maxhostnamelen
ltb-le n h = ground arith

host_at-HostLine : (text : Name) → HostLine (host_at text)
unfolding host_at
host_at-HostLine text =
    if-cases HostLine (is_some (strchr b' ' text) || is_some (strchr b'\t' text)) _ _ (λ _. tt)
      λ e.
        if-cases HostLine (ltb maxhostnamelen (length text)) _ _ (λ _. tt)
          λ f.
            let blank = none_of (strchr b' ' text) (strchr b'\t' text) e in
            record {
              fits = omega (arith, ltb-le (length text) f, length-before_dot text);
              dot = before_dot-none text;
              space = before_dot-strchr b' ' text blank.0;
              tab = before_dot-strchr b'\t' text blank.1;
            }

line_at-HostLine : (o : Option Name) → HostLine (line_at o)
unfolding line_at
line_at-HostLine none = tt
line_at-HostLine (some text) = host_at-HostLine (c_string text)

read_host-HostLine : (buf : Name) → HostLine (read_host buf)
unfolding read_host
read_host-HostLine buf =
    let uncommented = remove_comments buf (length buf) in
    let trimmed = remove_trailing_whitespace uncommented.0 uncommented.1 in
    if-intro HostLine (uncommented.1 == 0) skipped _ tt (
      if-intro HostLine (trimmed.1 == 0) skipped _ tt
        (line_at-HostLine (move_past_whitespace trimmed.0)))

All-append :
    (l : List Name) (n : Name) → All IsHostName l → IsHostName n → All IsHostName (l ++ n ∷ [])
All-append [] n a h = (h, tt)
All-append (m ∷ l) n a h = (a.0, All-append l n a.1 h)

-- The list is there, and has host names only.
abbrev pub HostNames : Option (List Name) → Type 0
HostNames none = ⊥
HostNames (some l) = All IsHostName l

module _ {H T : Type 0} (list : ListOps) (laws : ListLaws list) (malloc : Bool) (file : HostsFile)
    (undefined : (A : Type 0) → Exec (State H T) A) where
  set_errnum-hosts :
      (e : ℤ) (s : State H T) → HostNames s.hosts → HostNames (nodeupdown_set_errnum e s).hosts
  unfolding nodeupdown_set_errnum
  set_errnum-hosts e s h =
      if-intro (λ (t : State H T). HostNames t.hosts)
        (nodeupdown_handle_error_check (some s.handle)) _ _ h h

  abbrev Kept : {A : Type 0} → Option A × State H T → Type 0
  Kept = Post (λ _ t. HostNames t.hosts) (λ t. HostNames t.hosts)

  appended-HostNames :
      (o : Option (List Name)) (l : List Name) (name : Name) (s : State H T)
      → list.append l name ≡ o
      → All IsHostName l
      → HostNames s.hosts
      → IsHostName name
      → Kept (appended list malloc file undefined o s)
  unfolding appended
  appended-HostNames none l name s e h k n = set_errnum-hosts _ s k
  appended-HostNames (some l') l name s e h k n =
      rw (laws.append-last l l' name e) (All-append l name h n)

  append_to-HostNames :
      (o : Option (List Name)) (name : Name) (s : State H T)
      → HostNames o
      → HostNames s.hosts
      → IsHostName name
      → Kept (append_to list malloc file undefined o name s)
  unfolding append_to appended
  append_to-HostNames none name s h k n = absurd h
  append_to-HostNames (some l) name s h k n =
      if-intro Kept malloc (appended list malloc file undefined (list.append l name) s) _
        (appended-HostNames (list.append l name) l name s refl h k n) (set_errnum-hosts _ s k)

  add_line-HostNames :
      (line : Line) (s : State H T)
      → HostNames s.hosts
      → HostLine line
      → Kept (add_line list malloc file undefined line s)
  unfolding add_line
  add_line-HostNames skipped s h l = h
  add_line-HostNames malformed s h l = set_errnum-hosts _ s h
  add_line-HostNames (host n) s h l = append_to-HostNames s.hosts n s h h l

  continue-Kept :
      (r : Option (Unit {0}) × State H T) (f : Exec (State H T) (Unit {0}))
      → Kept r
      → ((t : State H T) → HostNames t.hosts → Kept (f t))
      → Kept (continue r.0 (λ _. f) r.1)
  continue-Kept (none, t) f h k = h
  continue-Kept (some _, t) f h k = k t h

  read_hosts-HostNames :
      (reads : List (Option Name)) (s : State H T)
      → HostNames s.hosts
      → Kept (read_hosts list malloc file undefined reads s)
  unfolding read_hosts
  read_hosts-HostNames [] s h = h
  read_hosts-HostNames (none ∷ reads) s h = set_errnum-hosts _ s h
  read_hosts-HostNames (some line ∷ reads) s h =
      let added = add_line-HostNames (read_host line) s h (read_host-HostLine line) in
      if-intro Kept (leb (bufferlen - 1) (length line)) _ _ (set_errnum-hosts _ s h) (
        if-intro Kept (length line == 0) _ _ h (
          continue-Kept (add_line list malloc file undefined (read_host line) s) _ added
            (λ t k. read_hosts-HostNames reads t k)))

  read_file-HostNames :
      (f : HostsFile) (s : State H T)
      → HostNames s.hosts
      → Kept (read_file list malloc file undefined f s)
  unfolding read_file
  read_file-HostNames (opened reads) s h = read_hosts-HostNames reads s h
  read_file-HostNames missing s h = h
  read_file-HostNames unopened s h = set_errnum-hosts _ s h

  loosen :
      (x : Option (Unit {0}) × State H T)
      → Kept x
      → Post (λ _ t. HostNames t.hosts) (λ _. Unit {0}) x
  loosen (none, t) h = tt
  loosen (some _, t) h = h

  created-HostNames :
      (o : Option (List Name)) (s : State H T)
      → list.create ≡ o
      → Post
          (λ _ t. HostNames t.hosts)
          (λ _. Unit {0})
          (created_hosts list malloc file undefined o s)
  unfolding created_hosts put_hosts
  created-HostNames none s e = tt
  created-HostNames (some l) s e =
      loosen (read_file list malloc file undefined file (put_hosts list malloc file undefined l s))
        (read_file-HostNames file (put_hosts list malloc file undefined l s)
          (rw (laws.create-empty l e) tt))

  -- With a list library as documented: where the setup of the module succeeds, its list is there, and every host in it is of at most 64
  -- characters and has no domain and no blank, whatever is in the file.
  pub setup-HostNames :
      (s : State H T)
      → Post
          (λ _ t. HostNames t.hosts)
          (λ _. Unit {0})
          (hostsfile_clusterlist_setup list malloc file undefined s)
  unfolding hostsfile_clusterlist_setup
  setup-HostNames s = created-HostNames list.create s refl
