-- ===== src/Perf/Reads.antt =====
-- What a step of the parser reads from bytes that stand at the offset,
-- kvmTest/src/platform/device/perf_parser.cpp.
use kognizance_tool.Prelude.{
  ℕ, zero, suc, ◌+◌, ◌*◌, ◌/◌, ◌%◌, ◌^◌, ◌<◌, ◌≡◌, refl, ap, ◌∙◌, sym, List, [], ◌∷◌, ◌++◌, length,
  take, drop, arith,
}
use native.Mathlib.Nat.{
  mod-lt, mod-one, mod-eq_of_lt, div-add-mod, mod-add-div, mul_assoc, mul_comm, pow-suc,
  add-mul-mod_self_left,
}
use kognizance_tool.Ring.{of_le}
use kognizance_tool.Perf.Encode.{le}

drop_nil : {A : Type 0} (n : ℕ) → drop {A = A} n [] ≡ []
drop_nil zero = refl
drop_nil (suc n) = refl

pub drop-add : {A : Type 0} (m n : ℕ) (xs : List A) → drop (m + n) xs ≡ drop n (drop m xs)
drop-add zero n xs = let e : 0 + n ≡ n = omega arith in ap (λ k. drop k xs) e
drop-add (suc m) n [] = drop_nil (suc m + n) ∙ sym (drop_nil n)
drop-add (suc m) n (x ∷ xs) =
    let e : suc m + n ≡ suc (m + n) = omega arith in ap (λ k. drop k (x ∷ xs)) e ∙ drop-add m n xs

pub drop-append : {A : Type 0} (xs ys : List A) → drop (length xs) (xs ++ ys) ≡ ys
drop-append [] ys = refl
drop-append (x ∷ xs) ys = drop-append xs ys

pub take-append : {A : Type 0} (xs ys : List A) → take (length xs) (xs ++ ys) ≡ xs
take-append [] ys = refl
take-append (x ∷ xs) ys = ap (λ zs. x ∷ zs) (take-append xs ys)

pub length-le : (n v : ℕ) → length (le n v) ≡ n
unfolding le
length-le zero v = refl
length-le (suc n) v = ap suc (length-le n (v / 256))

pow_pos : (n : ℕ) → 0 < 256 ^ n
pow_pos zero = omega arith
pow_pos (suc n) = omega (arith, pow-suc 256 n, pow_pos n)

low_digits : (v k : ℕ) → 0 < k → v % 256 + 256 * (v / 256 % k) ≡ v % (256 * k)
low_digits v k h =
    let q = v / 256 / k in
    let s = v / 256 % k in
    let small : s < k = mod-lt (v / 256) h in
    let high : k * q + s ≡ v / 256 = div-add-mod (v / 256) k in
    let whole : v % 256 + 256 * s + 256 * k * q ≡ v =
      let e : 256 * k * q ≡ 256 * (k * q) = mul_assoc 256 k q in
      omega (arith, e, high, mod-add-div v 256) in
    sym (
      ap (λ n. n % (256 * k)) (sym whole)
      ∙ add-mul-mod_self_left (v % 256 + 256 * s) (256 * k) q
      ∙ mod-eq_of_lt (omega arith))

-- The n low bytes make up the number modulo 256^n.
pub of_le-le : (n v : ℕ) → of_le (le n v) ≡ v % 256 ^ n
unfolding of_le le
of_le-le zero v = sym (mod-one v)
of_le-le (suc n) v =
    let e : 256 ^ suc n ≡ 256 * 256 ^ n = pow-suc 256 n ∙ mul_comm (256 ^ n) 256 in
    ap (λ k. v % 256 + 256 * k) (of_le-le n (v / 256))
    ∙ low_digits v (256 ^ n) (pow_pos n)
    ∙ ap (λ k. v % k) (sym e)
