-- ===== src/Program/Aligned.antt =====
-- The width of the counts: `_log10` and `_create_formats` of src/whatsup/whatsup.c.
use whatsup.Prelude.{
  ℕ, zero, suc, ◌+◌, ◌-◌, ◌/◌, ◌%◌, ◌^◌, ◌≤◌, ◌<◌, ◌≡◌, refl, sym, All, codes, ap, ◌∙◌, true, inl,
  inr, [], ◌∷◌, ◌++◌, Name, length, length-append, digits_of, print_ulong, ltb, if◌then◌else◌,
  Bool-cases, arith,
}
use whatsup.Program.Output.{log10, Format, spaces, print_format, create_formats}

length-digits_of-suc :
    (d n : ℕ)
    → length (digits_of (suc d) n) ≡ (if ltb n 10 then 1 else suc (length (digits_of d (n / 10))))
unfolding digits_of
length-digits_of-suc d n =
    let e = length-append (digits_of d (n / 10)) ((48 + n % 10) ∷ []) in
    elim (Bool-cases (ltb n 10)) [ inl h ↦ rw h refl | inr h ↦ rw h (omega (arith, e)) ]

log10-suc : (d n : ℕ) → log10 (suc d) n ≡ (if ltb n 10 then 0 else suc (log10 d (n / 10)))
unfolding log10
log10-suc d n = ground arith

-- a number below 10^(d + 1) has one digit more than its logarithm
length-digits_of : (d n : ℕ) → n < 10 ^ suc d → length (digits_of (suc d) n) ≡ suc (log10 (suc d) n)
length-digits_of zero n h =
    let e : ltb n 10 ≡ true = ground (arith, h) in
    length-digits_of-suc zero n ∙ rw (log10-suc zero n) (rw e refl)
length-digits_of (suc d) n h =
    let q : n / 10 < 10 ^ suc d = omega (arith, h) in
    length-digits_of-suc (suc d) n
    ∙ rw (log10-suc (suc d) n) (elim (Bool-cases (ltb n 10)) [
      | inl e ↦ rw e refl
      | inr e ↦ rw e (ap suc (length-digits_of d (n / 10) q))
    ])

log10_mono : (d m n : ℕ) → m ≤ n → log10 d m ≤ log10 d n
unfolding log10
log10_mono zero m n h = omega arith
log10_mono (suc d) m n h =
    let q : m / 10 ≤ n / 10 = omega (arith, h) in
    ground (arith, log10_mono d (m / 10) (n / 10) q, q)

length-spaces : (n : ℕ) → length (spaces n) ≡ n
unfolding spaces
length-spaces zero = refl
length-spaces (suc n) = ap suc (length-spaces n)

length-print : (n : ℕ) → n < 2 ^ 31 → length (print_ulong n) ≡ suc (log10 20 n)
unfolding print_ulong
length-print n h = length-digits_of 19 n (omega (arith, h))

-- A line has the label, the number in a column of that width, with nothing but blanks before its
-- digits, and the end.
pub record IsAligned (line label endstr : Name) (n width : ℕ) : Type 0 where
  pub pad : Name
  pub blank : All (λ c. c ≡ b' ') pad
  pub column : length (pad ++ print_ulong n) ≡ width
  pub parts : line ≡ label ++ (pad ++ print_ulong n) ++ endstr

spaces-blank : (n : ℕ) → All (λ c. c ≡ b' ') (spaces n)
unfolding spaces
spaces-blank zero = tt
spaces-blank (suc n) = (refl, spaces-blank n)

print_format-IsAligned :
    (fmt : Format) (n width : ℕ)
    → fmt.width ≡ width
    → length (print_ulong n) ≤ width
    → IsAligned (print_format fmt n) fmt.label fmt.endstr n width
unfolding print_format
print_format-IsAligned fmt n width w h =
    let digits = print_ulong n in
    let pad = spaces (fmt.width - length digits) in
    record {
      pad = pad;
      blank = spaces-blank (fmt.width - length digits);
      column =
          omega (arith, length-append pad digits, length-spaces (fmt.width - length digits), w, h);
      parts = refl;
    }

-- The greater of the two counts, as `_create_formats` takes it.
abbrev pub greater : ℕ → ℕ → ℕ
greater up_count down_count = if ltb down_count up_count then up_count else down_count

-- For counts that are `int`s: the line of the up count and the line of the down count have labels of
-- the same length, and the counts stand on the right, after blanks, of columns of the same width,
-- which is the number of digits of the greater count.
pub create_formats-IsAligned :
    (endstr : Name) (up_count down_count : ℕ)
    → up_count < 2 ^ 31
    → down_count < 2 ^ 31
    → IsAligned
        (print_format (create_formats endstr up_count down_count).0 up_count)
        (codes "up:   ")
        endstr
        up_count
        (length (print_ulong (greater up_count down_count)))
      × IsAligned
          (print_format (create_formats endstr up_count down_count).1 down_count)
          (codes "down: ")
          endstr
          down_count
          (length (print_ulong (greater up_count down_count)))
unfolding create_formats
create_formats-IsAligned endstr up_count down_count u d =
    elim (Bool-cases (ltb down_count up_count)) [
      | inl e ↦
          let le : down_count ≤ up_count = ground (arith, e) in
          let mono = log10_mono 20 down_count up_count le in
          let up = length-print up_count u in
          let down = length-print down_count d in
          rw e (
            print_format-IsAligned _ up_count _ (sym up) (omega arith),
            print_format-IsAligned _ down_count _ (sym up) (omega (arith, mono, up, down)),
          )
      | inr e ↦
          let le : up_count ≤ down_count = ground (arith, e) in
          let mono = log10_mono 20 up_count down_count le in
          let up = length-print up_count u in
          let down = length-print down_count d in
          rw e (
            print_format-IsAligned _ up_count _ (sym down) (omega (arith, mono, up, down)),
            print_format-IsAligned _ down_count _ (sym down) (omega arith),
          )
    ]
