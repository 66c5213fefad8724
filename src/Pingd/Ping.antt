-- ===== src/Pingd/Ping.antt =====
-- The echo request that the daemon sends: `_in_cksum` and `_icmp_ping_build` of
-- src/pingd/pingd_loop.c. A buffer is its bytes; a 16-bit word of it is read as the machine does,
-- WORDS_BIGENDIAN or not.
pub mod Checksum
use whatsup.Prelude.{ℕ, ◌+◌, ◌-◌, ◌*◌, ◌/◌, ◌%◌, ◌^◌, Bool, true, false, List, [], ◌∷◌, Name}

-- two bytes as an `uint16_t`, and the bytes of one
abbrev pub word : Bool → ℕ → ℕ → ℕ
word true a b = 256 * a + b
word false a b = a + 256 * b

abbrev pub first_byte : Bool → ℕ → ℕ
first_byte true w = w / 256
first_byte false w = w % 256

abbrev pub second_byte : Bool → ℕ → ℕ
second_byte true w = w % 256
second_byte false w = w / 256

-- the loop with the odd byte after it, on a `uint32_t`
unfoldable pub sum_words : Bool → Name → ℕ → ℕ
sum_words words_bigendian [] sum = sum
sum_words words_bigendian (a ∷ []) sum = (sum + word words_bigendian a 0) % 2 ^ 32
sum_words words_bigendian (a ∷ b ∷ rest) sum =
    sum_words words_bigendian rest ((sum + word words_bigendian a b) % 2 ^ 32)

-- the carries are added back, the sum complemented and cut to 16 bits
unfoldable pub fold_carries : ℕ → ℕ
fold_carries sum =
    let high = (sum / 2 ^ 16 + sum % 2 ^ 16) % 2 ^ 32 in
    let both = (high + high / 2 ^ 16) % 2 ^ 32 in (2 ^ 32 - 1 - both) % 2 ^ 16

unfoldable pub in_cksum : Bool → Name → ℕ
unfolding sum_words fold_carries
in_cksum words_bigendian addr = fold_carries (sum_words words_bigendian addr 0)

-- the packet before its checksum is stored
abbrev pub ping_header : Bool → ℕ → Name
ping_header words_bigendian sequence_number =
    8
    ∷ 0
    ∷ 0
    ∷ 0
    ∷ 0
    ∷ 0
    ∷ first_byte words_bigendian sequence_number
    ∷ second_byte words_bigendian sequence_number
    ∷ []

-- the store of a word at `buf + 2`
abbrev pub store_cksum : Bool → ℕ → Name → Name
store_cksum words_bigendian w (type ∷ code ∷ a ∷ b ∷ rest) =
    type ∷ code ∷ first_byte words_bigendian w ∷ second_byte words_bigendian w ∷ rest
store_cksum words_bigendian w short = short

-- `_icmp_ping_build`: the bytes of the packet, and the sequence number after it
unfoldable pub icmp_ping_build : Bool → ℕ → Name × ℕ
unfolding in_cksum
icmp_ping_build words_bigendian sequence_number =
    let header = ping_header words_bigendian sequence_number in
    (
      store_cksum words_bigendian (in_cksum words_bigendian header) header,
      (sequence_number + 1) % 2 ^ 16,
    )
