-- ===== src/Mm/Frames/Bits.antt =====
-- The bits of a byte under the three operations on it.
use Prim.Native.Nat.{bit_and, bit_or}
use minic_os.Base.{
  ℕ, ◌-◌, ◌^◌, ◌<◌, ◌≡◌, refl, Bool, true, false, ◌&&◌, ◌==◌, ltb, ltb→lt, if◌then◌else◌,
}
use minic_os.Base.Below.{same_bool, same_bool_lem, all_below, all_below_lem, and_left, and_right}

-- The bit `k` of a byte is 0.
abbrev pub clear_bit : ℕ → ℕ → Bool
clear_bit b k = bit_and b (2 ^ k) == 0

set_ok : ℕ → ℕ → ℕ → Bool
set_ok b j k = same_bool (clear_bit (bit_or b (2 ^ j)) k) (if j == k then false else clear_bit b k)

clear_ok : ℕ → ℕ → ℕ → Bool
clear_ok b j k =
    same_bool (clear_bit (bit_and b (255 - 2 ^ j)) k) (if j == k then true else clear_bit b k)

round_ok : ℕ → ℕ → ℕ → Bool
round_ok b j k =
    (set_ok b j k && clear_ok b j k)
    && (ltb (bit_or b (2 ^ j)) 256 && ltb (bit_and b (255 - 2 ^ j)) 256)

table : all_below 256 (λ b. all_below 8 (λ j. all_below 8 (round_ok b j))) ≡ true
unfolding all_below round_ok set_ok clear_ok same_bool
table = refl

module _ (b j k : ℕ) (small : b < 256) (lj : j < 8) (lk : k < 8) where
  round : round_ok b j k ≡ true
  round =
      all_below_lem 8 (round_ok b j) k
        (all_below_lem 8 (λ j. all_below 8 (round_ok b j)) j
          (all_below_lem 256 (λ b. all_below 8 (λ j. all_below 8 (round_ok b j))) b table small) lj)
        lk

  pub clear_bit-set : clear_bit (bit_or b (2 ^ j)) k ≡ (if j == k then false else clear_bit b k)
  unfolding round_ok set_ok
  clear_bit-set = same_bool_lem _ _ (and_left _ _ (and_left _ _ round))

  pub clear_bit-clear :
      clear_bit (bit_and b (255 - 2 ^ j)) k ≡ (if j == k then true else clear_bit b k)
  unfolding round_ok clear_ok
  clear_bit-clear = same_bool_lem _ _ (and_right _ _ (and_left _ _ round))

  pub set_small : bit_or b (2 ^ j) < 256
  unfolding round_ok
  set_small = ltb→lt _ _ (and_left _ _ (and_right _ _ round))

  pub clear_small : bit_and b (255 - 2 ^ j) < 256
  unfolding round_ok
  clear_small = ltb→lt _ _ (and_right _ _ (and_right _ _ round))
