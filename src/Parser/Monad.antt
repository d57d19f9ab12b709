-- ===== src/Parser/Monad.antt =====
-- How a routine of parser/parser.c is written: it returns a value, or fails (`return 0`), with the
-- state after it and the steps that led there. The types also keep what is left of the source, by
-- which every loop and every recursive call ends; no routine can run out of anything.
use arche.Base.{ℕ, ◌<◌, ◌≤◌, arith, Bool, true, false}
use arche.Base.{inl, inr, Bool-cases, if◌then◌else◌}
use arche.Lexer.Kind.{TokenKind}
use arche.Lexer.Next.{is_eof}
use arche.Parser.State.{Parser, advance}
use arche.Parser.Measure.{left, advance-lt-left}
use arche.Parser.Steps.{Step, advances, Steps, none_made, one_made, joined, left-Steps}

-- A routine is entered with at most `o` left. Whether it has consumed a token since, so that less
-- than `o` is left; `inside` is for a loop's body, where already `o` is below the bound; `ended` says
-- nothing.
pub data Stage : Type 0 where
  fresh inside moved ended : Stage

-- With `k` left, `n` bounds what a recursive call must be below.
abbrev pub At : Stage → ℕ → ℕ → ℕ → Type 0
At fresh n o k = (k ≤ o) × (o ≤ n)
At inside n o k = (k ≤ o) × (o < n)
At moved n o k = (k < o) × (o ≤ n)
At ended n o k = Unit

-- What a routine gives from the state `p`.
pub data Ran (p : Parser) (n o : ℕ) (j : Stage) (A : Type 0) : Type 0 where
  returned : A → (q : Parser) → Steps p q → At j n o (left q) → Ran p n o j A
  failed : (q : Parser) → Steps p q → Ran p n o j A

-- A routine from stage `i` to stage `j`.
pub record M (n o : ℕ) (i j : Stage) (A : Type 0) : Type 0 where
  pub run : (p : Parser) → At i n o (left p) → Ran p n o j A

pub At-le : (i : Stage) (n o : ℕ) {k m : ℕ} → At i n o k → m ≤ k → At i n o m
At-le fresh n o h l = omega arith
At-le inside n o h l = omega arith
At-le moved n o h l = omega arith
At-le ended n o h l = tt

-- The stages at which a routine may consume a token.
pub data Begun : Stage → Type 0 where
  at_fresh : Begun fresh
  at_inside : Begun inside
  at_moved : Begun moved

instance abbrev pub fresh_begun : Begun fresh
fresh_begun = at_fresh

instance abbrev pub inside_begun : Begun inside
inside_begun = at_inside

instance abbrev pub moved_begun : Begun moved
moved_begun = at_moved

pub At-lt : {i : Stage} (n o : ℕ) → Begun i → {k m : ℕ} → At i n o k → m < k → At moved n o m
At-lt n o at_fresh h l = omega arith
At-lt n o at_inside h l = omega arith
At-lt n o at_moved h l = omega arith

-- The steps that led to where a run begins come first.
abbrev pub after :
    {n o : ℕ} {j : Stage} {A : Type 0} {p q : Parser} → Steps p q → Ran q n o j A → Ran p n o j A
after s (returned a r t h) = returned a r (joined s t) h
after s (failed r t) = failed r (joined s t)

infixl 5 ◌>>=◌ ◌>>◌
abbrev pub ◌>>=◌ :
    {n o : ℕ} {i j k : Stage} {A B : Type 0} → M n o i j A → (A → M n o j k B) → M n o i k B
m >>= f = record {
  run = λ p h. elim (m.run p h) [
    | returned a q s g ↦ after s ((f a).run q g)
    | failed q s ↦ failed q s
  ];
}

abbrev pub ◌>>◌ :
    {n o : ℕ} {i j k : Stage} {B : Type 0} → M n o i j (Unit {0}) → M n o j k B → M n o i k B
m >> f = m >>= λ _. f

module _ {n o : ℕ} {i : Stage} where
  abbrev pub done : {A : Type 0} → A → M n o i i A
  done a = record { run = λ p h. returned a p (none_made p) h }

  -- `return 0`
  abbrev pub fail : {j : Stage} {A : Type 0} → M n o i j A
  fail = record { run = λ p h. failed p (none_made p) }

  -- The end of a routine that need not say what is left.
  abbrev pub stop : {A : Type 0} → A → M n o i ended A
  stop a = record { run = λ p h. returned a p (none_made p) tt }

  -- A primitive, which gives back nothing of what was consumed.
  abbrev pub primitive :
      (f : Parser → Parser) → ((p : Parser) → Step p (f p)) → M n o i i (Unit {0})
  primitive f made = record {
    run = λ p h.
        returned tt (f p) (one_made (made p)) (At-le i n o h (left-Steps (one_made (made p))));
  }

  -- What a routine reads of the state.
  abbrev pub reads : {A : Type 0} → (Parser → A) → M n o i i A
  reads f = record { run = λ p h. returned (f p) p (none_made p) h }

  -- `if (m) … else …` on the result of a routine whose failure does not end the caller.
  abbrev pub orelse : {j : Stage} {A : Type 0} → M n o i j A → M n o i j A → M n o i j A
  orelse m handler = record {
    run = λ p h. elim (m.run p h) [
      | returned a q s g ↦ returned a q s g
      | failed q s ↦ after s (handler.run q (At-le i n o h (left-Steps s)))
    ];
  }

  -- `if (m) … else …`, where what follows a success goes on from it.
  abbrev pub branch :
      {k j : Stage} {A B : Type 0} → M n o i k A → (A → M n o k j B) → M n o i j B → M n o i j B
  branch m f e = record {
    run = λ p h. elim (m.run p h) [
      | returned a q s g ↦ after s ((f a).run q g)
      | failed q s ↦ after s (e.run q (At-le i n o h (left-Steps s)))
    ];
  }

  -- A routine called for its effect; whether it succeeded.
  abbrev pub attempt : {j : Stage} {A : Type 0} → M n o i j A → M n o i i Bool
  attempt m = record {
    run = λ p h. elim (m.run p h) [
      | returned a q s g ↦ returned true q s (At-le i n o h (left-Steps s))
      | failed q s ↦ returned false q s (At-le i n o h (left-Steps s))
    ];
  }

  -- A routine that need not say what is left, for one that has consumed a token.
  abbrev pub forget : {A : Type 0} → M n o i moved A → M n o i ended A
  forget m = record {
    run =
        λ p h. elim (m.run p h) [ returned a q s g ↦ returned a q s tt | failed q s ↦ failed q s ];
  }

  -- `if (test(current.kind)) { advance; … } else …`, at a token that is not the end mark.
  abbrev pub when :
      {j : Stage} {A : Type 0} ⦃b : Begun i⦄
      → (TokenKind → Bool)
      → M n o moved j A
      → M n o i j A
      → M n o i j A
  when ⦃b⦄ test t e = record {
    run = λ p h. elim (Bool-cases (is_eof p.current.kind)) [
      | inl eof ↦ e.run p h
      | inr live ↦
          if test p.current.kind
          then after (one_made (advances p live))
              (t.run (advance p) (At-lt n o b h (advance-lt-left p live)))
          else e.run p h
    ];
  }
