-- ===== src/Tests/Bignum.antt =====
-- A small power.
use minic_os.Base.{ℕ, ◌^◌, ◌%◌, ◌≡◌, refl, List, [], ◌∷◌, length, replicate, arith}
use minic_os.Base.Exec.{done}
use minic_os.Security.Bignum.{bignum_limbs, bignum_modexp}
use minic_os.Security.Bignum.Value.{IsLimbs, value, value-replicate, replicate-IsLimbs}
use minic_os.Security.Bignum.Power.{bignum_modexp_lem}

abbrev seven : List ℕ
seven = 7 ∷ replicate 127 0

bignum_modexp_lem_example :
    (r : List ℕ) × (bignum_modexp (3 ∷ 0 ∷ []) (5 ∷ []) seven ≡ done r)
    × IsLimbs r
    × (length r ≡ bignum_limbs)
    × (value r ≡ value (3 ∷ 0 ∷ []) ^ value (5 ∷ []) % value seven)
bignum_modexp_lem_example =
    bignum_modexp_lem (3 ∷ 0 ∷ []) (5 ∷ []) seven (omega arith, (omega arith, tt)) (omega arith, tt)
      (omega arith, replicate-IsLimbs 127) refl (omega (arith, value-replicate 127))
