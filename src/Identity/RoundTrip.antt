-- ===== src/Identity/RoundTrip.antt =====
-- identity/identity.go: from a number to a node id and back.
use banyan.Base.{
  ℕ, zero, suc, ◌+◌, ◌-◌, ◌*◌, ◌/◌, ◌%◌, ◌^◌, ◌≤◌, ◌<◌, ◌≡◌, ◌≢◌, refl, ap, ◌∙◌, inl, inr, [], ◌∷◌,
  ◌++◌, some, ltb, arith, Bool-cases, Option-cases, Word, Bytes, slt_zero, word_mod,
}
use mathlib.Core.List.{append_assoc, append-nil}
use banyan.Identity.{digits, itoa, parse_digits, parse_uint, new_node_id, node}

-- 10 ^ k
pow_ten : ℕ → ℕ
pow_ten zero = 1
pow_ten (suc k) = 10 * pow_ten k

parse_digit :
    (acc d : ℕ) (s : Bytes)
    → d < 10
    → acc * 10 + d < word_mod
    → parse_digits acc ((b'0' + d) ∷ s) ≡ parse_digits (acc * 10 + d) s
unfolding parse_digits
parse_digit acc d s small fits =
    let value : acc * 10 + (b'0' + d - b'0') ≡ acc * 10 + d = omega arith in rw value (ground arith)

-- A number of two digits or more needs fuel for them.
several : (fuel n : ℕ) → 10 ≤ n → n < 10 * pow_ten fuel → 0 < fuel
unfolding pow_ten
several zero n h k = absurd (omega arith)
several (suc fuel) n h k = omega arith

parse-digits :
    (fuel n : ℕ) (s : Bytes)
    → n < pow_ten fuel
    → 0 < fuel
    → n < word_mod
    → parse_digits 0 (digits fuel n ++ s) ≡ parse_digits n s
unfolding digits pow_ten
parse-digits zero n s h pos fits = absurd (omega arith)
parse-digits (suc fuel) n s h pos fits = elim (Bool-cases (ltb n 10)) [
  | inl one ↦ rw one (
      parse_digit 0 n s (ground arith) (ground arith)
      ∙ ap (λ (m : ℕ). parse_digits m s) (omega arith))
  | inr more ↦
      rw (more, append_assoc)
        (parse-digits fuel (n / 10) _ (omega arith) (several fuel n (ground arith) h) (omega arith)
          ∙ parse_digit (n / 10) (n % 10) s (omega arith) (omega arith)
          ∙ ap (λ (m : ℕ). parse_digits m s) (omega arith))
]

append-one-ne : (xs : Bytes) (x : ℕ) → xs ++ x ∷ [] ≢ []
append-one-ne [] x = λ e. cc
append-one-ne (y ∷ xs) x = λ e. cc

digits-ne : (fuel n : ℕ) → digits (suc fuel) n ≢ []
unfolding digits
digits-ne fuel n = elim (Bool-cases (ltb n 10)) [
  | inl one ↦ rw one (λ e. cc)
  | inr more ↦ rw more (append-one-ne (digits fuel (n / 10)) (b'0' + n % 10))
]

parse_uint-parse_digits : (s : Bytes) → s ≢ [] → parse_uint s ≡ parse_digits 0 s
unfolding parse_uint
parse_uint-parse_digits [] h = absurd (h refl)
parse_uint-parse_digits (c ∷ s) h = refl

parse_uint-digits : (n : ℕ) → n < word_mod → parse_uint (digits 20 n) ≡ some n
unfolding pow_ten parse_digits
parse_uint-digits n h =
    parse_uint-parse_digits (digits 20 n) (digits-ne 19 n)
    ∙ rw (append-nil (digits 20 n)) at (parse-digits 20 n [] (omega arith) (omega arith) h)

new_node_id-digits : (n : Word) → n < 2 ^ 63 → new_node_id n ≡ digits 20 n
unfolding new_node_id itoa
new_node_id-digits n h = rw (slt_zero n h, slt_zero n h) refl

node-parse_uint : (i : Bytes) (n : ℕ) → parse_uint i ≡ some n → node i ≡ n
unfolding node
node-parse_uint i n h = ground arith

-- A node id made of a number below 2^63 reads back as that number.
pub node-new_node_id : (n : Word) → n < 2 ^ 63 → node (new_node_id n) ≡ n
node-new_node_id n h =
    rw (new_node_id-digits n h)
      (node-parse_uint (digits 20 n) n (parse_uint-digits n (omega arith)))

parse_digits_bounded :
    (s : Bytes) (acc n : ℕ) → acc < word_mod → parse_digits acc s ≡ some n → n < word_mod
unfolding parse_digits
parse_digits_bounded [] acc n h e = ground arith
parse_digits_bounded (c ∷ s) acc n h e =
    ground (arith, parse_digits_bounded s (acc * 10 + (c - b'0')) n)

parse_uint_bounded : (i : Bytes) (n : ℕ) → parse_uint i ≡ some n → n < word_mod
unfolding parse_uint
parse_uint_bounded [] n e = absurd (cc)
parse_uint_bounded (c ∷ s) n e = parse_digits_bounded (c ∷ s) 0 n (omega arith) e

-- What `Node` returns is an `int`.
pub node_bounded : (i : Bytes) → node i < word_mod
unfolding node
node_bounded i = elim (Option-cases (parse_uint i)) [
  | inl e ↦ rw (e, node) (omega arith)
  | inr (n, e) ↦ rw (e, node) (parse_uint_bounded i n e)
]
