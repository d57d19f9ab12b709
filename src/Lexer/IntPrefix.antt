-- ===== src/Lexer/IntPrefix.antt =====
-- The base prefixes that `arche_int_lit` of lexer/lexer.c reads, against their letters.
use arche.Base.{ℕ, ◌≡◌, ◌≢◌, refl, sym, ap, subst}
use arche.Base.{==_iff, ◌||◌, true, false, [], ◌∷◌, inl, inr, ◌⊎◌, arith}
use arche.Base.{◌==◌, Bytes, Bool-cases}
use arche.Lexer.IntLit.{base_prefix}

-- The letter behind a 0 that names a base.
pub data Names : ℕ → ℕ → Type 0 where
  hexadecimal : Names b'x' 16
  upper_hexadecimal : Names b'X' 16
  binary : Names b'b' 2
  upper_binary : Names b'B' 2
  octal : Names b'o' 8
  upper_octal : Names b'O' 8

-- The text begins with a 0 and such a letter.
pub HasPrefix : Bytes → Type 0
HasPrefix text = (b base : ℕ) × (rest : Bytes) × (text ≡ b'0' ∷ b ∷ rest) × Names b base

-- The text is its digits behind a prefix for the base, or without a prefix in base 10.
pub data Prefixed : Bytes → ℕ → Bytes → Type 0 where
  behind : {b base : ℕ} {rest : Bytes} → Names b base → Prefixed (b'0' ∷ b ∷ rest) base rest
  without : {text : Bytes} → ¬ (HasPrefix text) → Prefixed text 10 text

base_prefix-Names :
    {b base : ℕ} (rest : Bytes) → Names b base → base_prefix (b'0' ∷ b ∷ rest) ≡ (base, rest)
unfolding base_prefix
base_prefix-Names rest hexadecimal = refl
base_prefix-Names rest upper_hexadecimal = refl
base_prefix-Names rest binary = refl
base_prefix-Names rest upper_binary = refl
base_prefix-Names rest octal = refl
base_prefix-Names rest upper_octal = refl

-- A letter that is none of them.
record Nameless (b : ℕ) : Type 0 where
  no_hexadecimal : (b == b'x' || b == b'X') ≡ false
  no_binary : (b == b'b' || b == b'B') ≡ false
  no_octal : (b == b'o' || b == b'O') ≡ false

Names-subst : {b k base : ℕ} → (b == k) ≡ true → Names k base → Names b base
Names-subst {b} {k} {base} e n = subst (λ a. Names a base) (sym ((==_iff b k).0 e)) n

pair_cases :
    {b k l base : ℕ} → Names k base → Names l base → Names b base ⊎ ((b == k || b == l) ≡ false)
pair_cases {b} {k} {l} m n = elim (Bool-cases (b == k)) [
  | inl t ↦ inl (Names-subst t m)
  | inr f ↦ elim (Bool-cases (b == l)) [
    | inl t ↦ inl (Names-subst t n)
    | inr g ↦ inr (rw (f, g) refl)
  ]
]

letter_cases : (b : ℕ) → ((base : ℕ) × Names b base) ⊎ Nameless b
letter_cases b = elim (pair_cases {b = b} hexadecimal upper_hexadecimal) [
  | inl n ↦ inl (16, n)
  | inr x ↦ elim (pair_cases {b = b} binary upper_binary) [
    | inl n ↦ inl (2, n)
    | inr y ↦ elim (pair_cases {b = b} octal upper_octal) [
      | inl n ↦ inl (8, n)
      | inr z ↦ inr (record { no_hexadecimal = x; no_binary = y; no_octal = z })
    ]
  ]
]

base_prefix-Nameless :
    (c b : ℕ) (rest : Bytes) → Nameless b → base_prefix (c ∷ b ∷ rest) ≡ (10, c ∷ b ∷ rest)
unfolding base_prefix
base_prefix-Nameless c b rest x = elim (Bool-cases (c == b'0')) [
  | inl t ↦ rw (t, x.no_hexadecimal, x.no_binary, x.no_octal) refl
  | inr f ↦ rw f refl
]

base_prefix-no_zero :
    (c b : ℕ) (rest : Bytes) → (c == b'0') ≡ false → base_prefix (c ∷ b ∷ rest) ≡ (10, c ∷ b ∷ rest)
unfolding base_prefix
base_prefix-no_zero c b rest f = rw f refl

Names-letter : {b base : ℕ} → Names b base → Nameless b → ⊥
Names-letter hexadecimal x = cc
Names-letter upper_hexadecimal x = cc
Names-letter binary x = cc
Names-letter upper_binary x = cc
Names-letter octal x = cc
Names-letter upper_octal x = cc

abbrev first_byte : Bytes → ℕ
first_byte [] = 0
first_byte (c ∷ cs) = c

abbrev second_byte : Bytes → ℕ
second_byte (c ∷ b ∷ cs) = b
second_byte _ = 0

not_zero : (c : ℕ) → (c == b'0') ≡ false → c ≢ b'0'
not_zero c f e = ground (arith, e)

-- How a text begins, and what the decoder makes of it.
prefix_cases :
    (text : Bytes) → HasPrefix text ⊎ ((¬ (HasPrefix text)) × (base_prefix text ≡ (10, text)))
unfolding HasPrefix base_prefix
prefix_cases [] = inr ((λ (b, base, rest, e, n). cc), refl)
prefix_cases (c ∷ []) = inr ((λ (b, base, rest, e, n). cc), refl)
prefix_cases (c ∷ b ∷ rest) = elim (Bool-cases (c == b'0')) [
  | inl t ↦ elim (letter_cases b) [
    | inl (base, n) ↦ inl (b, base, rest, ap (λ (a : ℕ). a ∷ b ∷ rest) ((==_iff c b'0').0 t), n)
    | inr x ↦ inr (
      (λ (b', base, rest', e, n). Names-letter n (subst Nameless (ap second_byte e) x)),
      base_prefix-Nameless c b rest x,
    )
  ]
  | inr f ↦ inr (
    (λ (b', base, rest', e, n). absurd (not_zero c f (ap first_byte e))),
    base_prefix-no_zero c b rest f,
  )
]

pub base_prefix-Prefixed : (text : Bytes) → Prefixed text (base_prefix text).0 (base_prefix text).1
unfolding HasPrefix
base_prefix-Prefixed text = elim (prefix_cases text) [
  | inl (b, base, rest, e, n) ↦ rw (e, base_prefix-Names rest n) (behind n)
  | inr (no_prefix, e) ↦ rw e (without no_prefix)
]

pub Prefixed-base_prefix :
    {text digits : Bytes} {base : ℕ} → Prefixed text base digits → base_prefix text ≡ (base, digits)
Prefixed-base_prefix (behind {rest = rest} n) = base_prefix-Names rest n
Prefixed-base_prefix (without {text} no_prefix) = elim (prefix_cases text) [
  | inl has ↦ absurd (no_prefix has)
  | inr (_, e) ↦ e
]
