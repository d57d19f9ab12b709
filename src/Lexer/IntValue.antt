-- ===== src/Lexer/IntValue.antt =====
-- What `arche_int_lit` of lexer/lexer.c accepts, and the value that it gives, against a description
-- of literals by their digits.
use arche.Base.{ℕ, ◌+◌, ◌*◌, ◌%◌, ◌<◌, ◌≤◌, ◌≡◌, ◌≢◌, refl, sym, ap, ◌∙◌}
use arche.Base.{Bool, true, false, List, [], ◌∷◌, inl, inr, ◌⊎◌, ◌↔◌, arith}
use arche.Base.{Option, none, some, ◌==◌, if◌then◌else◌, Bytes, Bool-cases}
use mathlib.Core.Option
use native.Mathlib.Nat.{div-add-mod}
use arche.Lexer.IntPrefix.{Prefixed, base_prefix-Prefixed, Prefixed-base_prefix}
use arche.Lexer.IntLit.{u64_mod, digit_value, base_prefix, push_digit, digits_loop}
use arche.Lexer.IntLit.{unsigned_lit}
use arche.Lexer.IntLit.{negated, int_lit}

-- The byte spells the digit: 0 to 9, and a to f in either case for 10 to 15.
abbrev pub IsDigit : ℕ → ℕ → Type 0
IsDigit c d =
    ((d < 10) × (c ≡ b'0' + d))
    ⊎ ((10 ≤ d) × (d < 16) × ((c + 10 ≡ b'a' + d) ⊎ (c + 10 ≡ b'A' + d)))

pub digit_value-eq-some_iff : (c d : ℕ) → (digit_value c ≡ some d) ↔ IsDigit c d
unfolding digit_value
digit_value-eq-some_iff c d = ground arith

-- `digits` are the digits of `text` in a base; separators may stand anywhere among them.
pub data Digits (base : ℕ) : Bytes → List ℕ → Type 0 where
  stop : Digits base [] []
  separator :
      {c : ℕ} {text : Bytes} {digits : List ℕ}
      → (c == b'_') ≡ true
      → Digits base text digits
      → Digits base (c ∷ text) digits
  digit :
      {c d : ℕ} {text : Bytes} {digits : List ℕ}
      → (c == b'_') ≡ false
      → IsDigit c d
      → d < base
      → Digits base text digits
      → Digits base (c ∷ text) (d ∷ digits)

-- The number that digits stand for, behind a number `v`.
abbrev pub value_from : ℕ → ℕ → List ℕ → ℕ
value_from base v [] = v
value_from base v (d ∷ digits) = value_from base (v * base + d) digits

-- Reducing a number before the digits are read changes nothing modulo 2 ^ 64.
push_mod : (base v d : ℕ) → (v % u64_mod * base + d) % u64_mod ≡ (v * base + d) % u64_mod
push_mod base v d = omega (arith, ap (λ (t : ℕ). t * base) (div-add-mod v u64_mod))

value_mod :
    (base v : ℕ) (digits : List ℕ)
    → value_from base (v % u64_mod) digits % u64_mod ≡ value_from base v digits % u64_mod
value_mod base v [] = omega arith
value_mod base v (d ∷ digits) =
    sym (value_mod base (v % u64_mod * base + d) digits)
    ∙ rw (push_mod base v d) (value_mod base (v * base + d) digits)

-- What a run of the loop from `v` reads: digits, one at least unless some were read before, and
-- their number modulo 2 ^ 64.
pub record Reads (base : ℕ) (text : Bytes) (v : ℕ) (any : Bool) (r : ℕ) : Type 0 where
  pub digits : List ℕ
  pub are_digits : Digits base text digits
  pub some_digit : (any ≡ true) ⊎ (digits ≢ [])
  pub value_is : r ≡ value_from base v digits % u64_mod

push_digit-some :
    (base v : ℕ) (o : Option ℕ) {w : ℕ}
    → push_digit base v o ≡ some w
    → (d : ℕ) × (o ≡ some d) × (d < base) × (w ≡ (v * base + d) % u64_mod)
unfolding push_digit
push_digit-some base v none e = cc
push_digit-some base v (some d) e = (d, refl, ground arith, ground arith)

Option-bind-some :
    (o : Option ℕ) (f : ℕ → Option ℕ) {r : ℕ}
    → Option.bind o f ≡ some r
    → (w : ℕ) × (o ≡ some w) × (f w ≡ some r)
unfolding Option.bind
Option-bind-some none f e = cc
Option-bind-some (some w) f e = (w, refl, e)

digits_loop-Reads :
    (base : ℕ) (text : Bytes) (v : ℕ) (any : Bool) {r : ℕ}
    → v < u64_mod
    → digits_loop base text v any ≡ some r
    → Reads base text v any r
unfolding digits_loop
digits_loop-Reads base [] v false h e = cc
digits_loop-Reads base [] v true h e = record {
  digits = [];
  are_digits = stop;
  some_digit = inl refl;
  value_is = ground arith;
}
digits_loop-Reads base (c ∷ cs) v any h e = elim (Bool-cases (c == b'_')) [
  | inl t ↦
      let x = digits_loop-Reads base cs v any h (rw t at e) in
      record {
        digits = x.digits;
        are_digits = separator t x.are_digits;
        some_digit = x.some_digit;
        value_is = x.value_is;
      }
  | inr f ↦
      let (w, pushed, rest) = Option-bind-some _ (λ w. digits_loop base cs w true) (rw f at e) in
      let (d, is_d, d_lt, w_is) = push_digit-some base v (digit_value c) pushed in
      let x = digits_loop-Reads base cs w true (omega (arith, w_is)) rest in
      record {
        digits = d ∷ x.digits;
        are_digits = digit f ((digit_value-eq-some_iff c d).0 is_d) d_lt x.are_digits;
        some_digit = inr (λ e. cc);
        value_is =
            x.value_is
            ∙ ap (λ (t : ℕ). value_from base t x.digits % u64_mod) w_is
            ∙ value_mod base (v * base + d) x.digits;
      }
]

push_digit-lt :
    (base v d : ℕ) → d < base → push_digit base v (some d) ≡ some ((v * base + d) % u64_mod)
unfolding push_digit
push_digit-lt base v d h = ground arith

digits_loop_reads :
    {base : ℕ} {text : Bytes} {digits : List ℕ} (v : ℕ) (any : Bool)
    → Digits base text digits
    → v < u64_mod
    → (any ≡ true) ⊎ (digits ≢ [])
    → digits_loop base text v any ≡ some (value_from base v digits % u64_mod)
unfolding digits_loop Option.bind
digits_loop_reads v any stop h (inl t) = ground arith
digits_loop_reads v any stop h (inr ne) = absurd (ne refl)
digits_loop_reads v any (separator t ds) h some_digit =
    rw t (digits_loop_reads v any ds h some_digit)
digits_loop_reads {base} {digits = d ∷ digits} v any (digit f is_d d_lt ds) h some_digit =
    rw (f, (digit_value-eq-some_iff _ d).1 is_d, push_digit-lt base v d d_lt)
      (digits_loop_reads ((v * base + d) % u64_mod) true ds (omega arith) (inl refl)
        ∙ ap some (value_mod base (v * base + d) digits))

-- An unsigned literal: a base by its prefix, or 10, and digits of that base, one at least.
pub record IsUnsigned (text : Bytes) (r : ℕ) : Type 0 where
  pub base : ℕ
  pub behind_prefix : Bytes
  pub prefixed : Prefixed text base behind_prefix
  pub digits : List ℕ
  pub are_digits : Digits base behind_prefix digits
  pub nonempty : digits ≢ []
  pub value_is : r ≡ value_from base 0 digits % u64_mod

unsigned_lit-IsUnsigned : (text : Bytes) {r : ℕ} → unsigned_lit text ≡ some r → IsUnsigned text r
unfolding unsigned_lit
unsigned_lit-IsUnsigned text e =
    let x = digits_loop-Reads (base_prefix text).0 (base_prefix text).1 0 false (omega arith) e in
    record {
      base = (base_prefix text).0;
      behind_prefix = (base_prefix text).1;
      prefixed = base_prefix-Prefixed text;
      digits = x.digits;
      are_digits = x.are_digits;
      nonempty = elim x.some_digit [ inl t ↦ cc | inr ne ↦ ne ];
      value_is = x.value_is;
    }

IsUnsigned-unsigned_lit : (text : Bytes) {r : ℕ} → IsUnsigned text r → unsigned_lit text ≡ some r
unfolding unsigned_lit
IsUnsigned-unsigned_lit text x = rw (Prefixed-base_prefix x.prefixed) (
    digits_loop_reads 0 false x.are_digits (omega arith) (inr x.nonempty)
    ∙ ap some (sym x.value_is))

-- The bits of minus the number with the bits `v`.
pub record IsNegated (v r : ℕ) : Type 0 where
  pub sum_is : (r + v) % u64_mod ≡ 0
  pub fits : r < u64_mod

negated-IsNegated : (v : ℕ) → v < u64_mod → IsNegated v (negated v)
negated-IsNegated v h = record { sum_is = omega arith; fits = omega arith }

IsNegated-negated : {v r : ℕ} → v < u64_mod → IsNegated v r → negated v ≡ r
IsNegated-negated {v} {r} h x = omega (arith, x.sum_is, x.fits)

IsUnsigned-fits : {text : Bytes} {v : ℕ} → IsUnsigned text v → v < u64_mod
IsUnsigned-fits x = omega (arith, x.value_is)

-- `r` is the value of the literal `text`: a sign may stand before it, and minus negates it.
abbrev pub IsLiteral : Bytes → ℕ → Type 0
IsLiteral [] r = ⊥
IsLiteral (c ∷ cs) r =
    if c == b'-'
    then ((v : ℕ) × IsUnsigned cs v × IsNegated v r)
    else if c == b'+'
    then IsUnsigned cs r
    else IsUnsigned (c ∷ cs) r

Option-map-some :
    (o : Option ℕ) (f : ℕ → ℕ) {r : ℕ}
    → Option.map f o ≡ some r
    → (v : ℕ) × (o ≡ some v) × (r ≡ f v)
Option-map-some none f e = cc
Option-map-some (some v) f e = (v, refl, cc)

int_lit-IsLiteral : (text : Bytes) {r : ℕ} → int_lit text ≡ some r → IsLiteral text r
unfolding int_lit
int_lit-IsLiteral [] e = cc
int_lit-IsLiteral (c ∷ cs) e = elim (Bool-cases (c == b'-')) [
  | inl t ↦
      let (v, u, r_is) = Option-map-some (unsigned_lit cs) negated (rw t at e) in
      let x = unsigned_lit-IsUnsigned cs u in
      rw t (v, x, rw r_is (negated-IsNegated v (IsUnsigned-fits x)))
  | inr f ↦ rw f (elim (Bool-cases (c == b'+')) [
    | inl t ↦ rw t (unsigned_lit-IsUnsigned cs (rw (f, t) at e))
    | inr g ↦ rw g (unsigned_lit-IsUnsigned (c ∷ cs) (rw (f, g) at e))
  ])
]

IsLiteral-int_lit : (text : Bytes) {r : ℕ} → IsLiteral text r → int_lit text ≡ some r
unfolding int_lit
IsLiteral-int_lit [] x = absurd x
IsLiteral-int_lit (c ∷ cs) x = elim (Bool-cases (c == b'-')) [
  | inl t ↦
      let (v, u, r_is) = rw t at x in
      rw (t, IsUnsigned-unsigned_lit cs u) (ap some (IsNegated-negated (IsUnsigned-fits u) r_is))
  | inr f ↦ rw f (elim (Bool-cases (c == b'+')) [
    | inl t ↦ rw t (IsUnsigned-unsigned_lit cs (rw (f, t) at x))
    | inr g ↦ rw g (IsUnsigned-unsigned_lit (c ∷ cs) (rw (f, g) at x))
  ])
]

pub int_lit-eq-some_iff : (text : Bytes) (r : ℕ) → (int_lit text ≡ some r) ↔ IsLiteral text r
int_lit-eq-some_iff text r = (int_lit-IsLiteral text, IsLiteral-int_lit text)
