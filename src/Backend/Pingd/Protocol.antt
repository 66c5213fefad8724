-- ===== src/Backend/Pingd/Protocol.antt =====
-- What the daemon tells a client is what the pingd module reads.
use whatsup.Prelude.{
  ℕ, zero, suc, ◌-◌, ◌%◌, ◌^◌, ◌≤◌, ◌<◌, ◌≡◌, refl, ap, ◌∙◌, true, false, some, [], ◌∷◌, ◌++◌, Name,
  length, length-append, take, c_string, isspace, print_ulong, print_ulong-digits,
  length-print_ulong, scan_ulong, scan_ulong-print_ulong, is_digit, All, arith,
}
use whatsup.Load.Config.{maxhostnamelen}
use whatsup.Pingd.Server.{ping_line}
use whatsup.Backend.Pingd.{
  skip_blanks, scan_word, with_scanned, with_number, sscanf, pingd_backend_buflen,
}

-- A byte of a host name: no blank and no '\0'.
abbrev pub IsHostByte : ℕ → Type 0
IsHostByte c = (isspace c ≡ false) × (0 < c)

-- A host name that fits the module's buffer.
pub record IsHostName (host : Name) : Type 0 where
  pub some_bytes : 0 < length host
  pub fits : length host ≤ maxhostnamelen
  pub bytes : All IsHostByte host

take_short : (n : ℕ) (xs : Name) → length xs ≤ n → take n xs ≡ xs
take_short zero [] h = refl
take_short zero (x ∷ xs) h = absurd (omega (arith, h))
take_short (suc n) [] h = refl
take_short (suc n) (x ∷ xs) h = ap (λ l. x ∷ l) (take_short n xs (omega (arith, h)))

c_string_plain : (xs : Name) → All (λ c. 0 < c) xs → c_string xs ≡ xs
unfolding c_string
c_string_plain [] h = refl
c_string_plain (c ∷ cs) h = rw (c_string_plain cs h.1) (ground (arith, h.0))

space-blank : isspace b' ' ≡ true
unfolding isspace
space-blank = refl

scan_word-host :
    (room : ℕ) (host rest : Name)
    → length host ≤ room
    → All IsHostByte host
    → scan_word room (host ++ b' ' ∷ rest) ≡ (host, b' ' ∷ rest)
unfolding scan_word
scan_word-host zero [] rest h k = refl
scan_word-host zero (c ∷ cs) rest h k = absurd (omega (arith, h))
scan_word-host (suc room) [] rest h k = rw space-blank refl
scan_word-host (suc room) (c ∷ cs) rest h k =
    rw k.0.0 (rw (scan_word-host room cs rest (omega (arith, h)) k.1) refl)

All-both : (P : ℕ → Type 0) (xs ys : Name) → All P xs → All P ys → All P (xs ++ ys)
All-both P [] ys h k = k
All-both P (x ∷ xs) ys h k = (h.0, All-both P xs ys h.1 k)

digits-positive : (xs : Name) → All (λ c. is_digit c ≡ true) xs → All (λ c. 0 < c) xs
digits-positive [] h = tt
digits-positive (c ∷ cs) h = (ground (arith, h.0), digits-positive cs h.1)

bytes-positive : (xs : Name) → All IsHostByte xs → All (λ c. 0 < c) xs
bytes-positive [] h = tt
bytes-positive (c ∷ cs) h = (h.0.1, bytes-positive cs h.1)

ping_line-positive :
    (host : Name) (t : ℕ) → All IsHostByte host → All (λ c. 0 < c) (ping_line host t)
unfolding ping_line
ping_line-positive host t h =
    All-both (λ c. 0 < c) host _ (bytes-positive host h)
      (
        omega arith,
        All-both (λ c. 0 < c) (print_ulong (t % 2 ^ 64)) (10 ∷ [])
            (digits-positive (print_ulong (t % 2 ^ 64)) (print_ulong-digits (t % 2 ^ 64)))
            (omega arith, tt),
      )

pub length-ping_line :
    (host : Name) (t : ℕ) → length host ≤ maxhostnamelen → length (ping_line host t) ≤ 86
unfolding ping_line
length-ping_line host t h =
    let digits = print_ulong (t % 2 ^ 64) in
    omega (
      arith,
      h,
      length-append host (b' ' ∷ (digits ++ 10 ∷ [])),
      length-append digits (10 ∷ []),
      length-print_ulong (t % 2 ^ 64),
    )

skip_blanks-host : (host rest : Name) → IsHostName host → skip_blanks (host ++ rest) ≡ host ++ rest
unfolding skip_blanks
skip_blanks-host [] rest h = absurd (omega (arith, h.some_bytes))
skip_blanks-host (c ∷ cs) rest h = rw h.bytes.0.0 refl

with_scanned-host :
    (host : Name) (t : ℕ)
    → 0 < length host
    → with_scanned (host, b' ' ∷ (print_ulong (t % 2 ^ 64) ++ 10 ∷ [])) ≡ some (host, t % 2 ^ 64)
unfolding with_scanned with_number scan_ulong
with_scanned-host [] t h = absurd (omega (arith, h))
with_scanned-host (c ∷ cs) t h =
    rw space-blank (ap (with_number (c ∷ cs)) (scan_ulong-print_ulong (t % 2 ^ 64) (omega arith)))

scanned :
    (host : Name) (t : ℕ) → IsHostName host → sscanf (ping_line host t) ≡ some (host, t % 2 ^ 64)
unfolding sscanf ping_line
scanned host t h =
    let rest = print_ulong (t % 2 ^ 64) ++ 10 ∷ [] in
    ap (λ l. with_scanned (scan_word maxhostnamelen l)) (skip_blanks-host host (b' ' ∷ rest) h)
    ∙ ap with_scanned (scan_word-host maxhostnamelen host rest h.fits h.bytes)
    ∙ with_scanned-host host t h.some_bytes

-- The line that the daemon prints for a host is scanned by the module as the host's name and the
-- time, cut to an `unsigned long`, if the name has 1 to 64 bytes, none of them a blank or '\0'.
pub sscanf-ping_line :
    (host : Name) (t : ℕ)
    → IsHostName host
    → sscanf (c_string (take (pingd_backend_buflen - 1) (ping_line host t)))
      ≡ some (host, t % 2 ^ 64)
unfolding sscanf
sscanf-ping_line host t h =
    let line = ping_line host t in
    ap (λ l. sscanf (c_string l))
      (take_short (pingd_backend_buflen - 1) line (omega (arith, length-ping_line host t h.fits)))
    ∙ ap sscanf (c_string_plain line (ping_line-positive host t h.bytes))
    ∙ scanned host t h
