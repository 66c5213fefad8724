-- ===== src/Pingd/Ping/Checksum.antt =====
-- The checksum of a packet that the daemon sends is the one that its receiver wants.
use whatsup.Prelude.{◌%◌, ℕ, ◌+◌, ◌-◌, ◌^◌, ◌<◌, ◌≡◌, ap, ◌∙◌, Bool, true, false, [], ◌∷◌, arith}
use whatsup.Pingd.Ping.{
  word, first_byte, second_byte, sum_words, fold_carries, in_cksum, ping_header, icmp_ping_build,
}

-- A sum with its own checksum folds to zero.
fold_carries-own :
    (sum : ℕ) → 0 < sum → sum < 2 ^ 32 - 2 ^ 16 → fold_carries (sum + fold_carries sum) ≡ 0
unfolding fold_carries
fold_carries-own sum h k = omega (arith, h, k)

-- the first word of the packet: type 8, code 0
abbrev first_word : Bool → ℕ
first_word true = 2048
first_word false = 8

first_word-positive : (be : Bool) (n : ℕ) → 0 < first_word be + n
first_word-positive true n = omega arith
first_word-positive false n = omega arith

first_word-small : (be : Bool) (n : ℕ) → n < 2 ^ 16 → first_word be + n < 2 ^ 32 - 2 ^ 16
first_word-small true n h = omega (arith, h)
first_word-small false n h = omega (arith, h)

-- A word that is stored is read back.
word-bytes : (be : Bool) (w : ℕ) → word be (first_byte be w) (second_byte be w) ≡ w
word-bytes true w = omega arith
word-bytes false w = omega arith

sum_words-packet :
    (be : Bool) (w n : ℕ)
    → w < 2 ^ 16
    → n < 2 ^ 16
    → sum_words be
        (8
          ∷ 0
          ∷ first_byte be w
          ∷ second_byte be w
          ∷ 0
          ∷ 0
          ∷ first_byte be n
          ∷ second_byte be n
          ∷ [])
        0
      ≡ first_word be + n + w
unfolding sum_words
sum_words-packet true w n h k = omega (arith, h, k, word-bytes true w, word-bytes true n)
sum_words-packet false w n h k = omega (arith, h, k, word-bytes false w, word-bytes false n)

sum_words-header :
    (be : Bool) (n : ℕ) → n < 2 ^ 16 → sum_words be (ping_header be n) 0 ≡ first_word be + n
unfolding sum_words
sum_words-header true n k = omega (arith, k, word-bytes true n)
sum_words-header false n k = omega (arith, k, word-bytes false n)

fold_carries-word : (sum : ℕ) → fold_carries sum < 2 ^ 16
unfolding fold_carries
fold_carries-word sum = omega arith

-- The sum of the words is a multiple of 2^16 - 1.
fold_carries-sum : (sum : ℕ) → sum < 2 ^ 32 - 2 ^ 16 → (sum + fold_carries sum) % (2 ^ 16 - 1) ≡ 0
unfolding fold_carries
fold_carries-sum sum k = omega (arith, k)

sum_words-ping :
    (be : Bool) (n : ℕ)
    → n < 2 ^ 16
    → sum_words be (icmp_ping_build be n).0 0 ≡ first_word be + n + fold_carries (first_word be + n)
unfolding icmp_ping_build in_cksum
sum_words-ping be n h =
    let w = fold_carries (sum_words be (ping_header be n) 0) in
    sum_words-packet be w n (fold_carries-word _) h
    ∙ ap (λ s. first_word be + n + fold_carries s) (sum_words-header be n h)

-- For an `uint16_t` sequence number, the 16-bit words of the packet with the checksum stored in it
-- sum up to a multiple of 2^16 - 1, as the receiver wants it, and the checksum of that packet is 0,
-- on machines of either byte order.
pub icmp_ping_build-cksum :
    (words_bigendian : Bool) (sequence_number : ℕ)
    → sequence_number < 2 ^ 16
    → (sum_words words_bigendian (icmp_ping_build words_bigendian sequence_number).0 0
          % (2 ^ 16 - 1)
        ≡ 0)
      × (in_cksum words_bigendian (icmp_ping_build words_bigendian sequence_number).0 ≡ 0)
unfolding in_cksum
icmp_ping_build-cksum be n h =
    let sum = first_word be + n in
    (
      ap (λ s. s % (2 ^ 16 - 1)) (sum_words-ping be n h)
          ∙ fold_carries-sum sum (first_word-small be n h),
      ap fold_carries (sum_words-ping be n h)
          ∙ fold_carries-own sum (first_word-positive be n) (first_word-small be n h),
    )
