-- ===== src/Parser/Recursion.antt =====
-- The loops of parser/parser.c and the calls by which its routines are recursive. Both are bounded
-- by what is left of the source, which is less at each round and at each call.
use arche.Base.{ℕ, zero, suc, ◌<◌, ◌≤◌, ◌≡◌, arith}
use arche.Base.{inl, inr, Bool-cases, if◌then◌else◌}
use arche.Lexer.Kind.{TokenKind}
use arche.Lexer.Next.{is_eof}
use arche.Syntax.Tree.{count}
use arche.Parser.Kinds.{is}
use arche.Parser.State.{Parser, synchronize}
use arche.Parser.Measure.{left, left-live}
use arche.Parser.Steps.{synchronizes, one_made, Steps, none_made, joined, left-Steps}
use arche.Parser.Recovery.{left-synchronize}
use arche.Parser.Monad.{Stage, inside, moved, ended, At, At-le, Ran, returned}
use arche.Parser.Monad.{failed, M, after, ◌>>◌}

-- A routine from the state `p`, as another calls it: if it returns, a token is consumed.
pub data Called (p : Parser) (A : Type 0) : Type 0 where
  succeeds : A → (q : Parser) → Steps p q → left q < left p → Called p A
  refuses : (q : Parser) → Steps p q → Called p A

-- A routine for every state with less than `n` left.
abbrev pub Proc : ℕ → Type 0 → Type 0
Proc n A = (p : Parser) → left p < n → Called p A

abbrev pub called :
    {p : Parser} {n o : ℕ} {A : Type 0} → Ran p n o moved A → left p ≡ o → Called p A
called (returned a q s h) e = succeeds a q s (omega (arith, h.0, e))
called (failed q s) e = refuses q s

abbrev from_called :
    {p : Parser} {n o : ℕ} {A : Type 0} → left p < o → o ≤ n → Called p A → Ran p n o moved A
from_called l b (succeeds a q s h) = returned a q s (omega arith, omega arith)
from_called l b (refuses q s) = failed q s

-- A recursive call, of a routine that has consumed a token.
unfoldable pub call : {n o : ℕ} {A : Type 0} → Proc n A → M n o moved moved A
call f = record { run = λ p h. from_called h.0 h.1 (f p (omega arith)) }

abbrev from_inside :
    {p : Parser} {n o : ℕ} {A : Type 0} → left p ≤ o → o < n → Called p A → Ran p n o moved A
from_inside l b (succeeds a q s h) = returned a q s (omega arith, omega arith)
from_inside l b (refuses q s) = failed q s

-- A recursive call, with which the body of a loop begins.
unfoldable pub call_first : {n o : ℕ} {A : Type 0} → Proc n A → M n o inside moved A
call_first f = record { run = λ p h. from_inside h.0 h.1 (f p (omega arith)) }

-- A round of a loop with its variables `S`: it is given the rest of the loop, for which it must
-- have consumed a token.
abbrev pub Body : ℕ → Type 0 → Type 0 → Type 0
Body n S A = (o : ℕ) → (S → M n o moved ended A) → S → M n o inside ended A

abbrev pub rebase : {p : Parser} {n o o' : ℕ} {A : Type 0} → Ran p n o ended A → Ran p n o' ended A
rebase (returned a q s h) = returned a q s tt
rebase (failed q s) = failed q s

-- The rounds, of which no more than `m` can follow.
unfoldable pub rounds :
    {n : ℕ} {S A : Type 0} (m : ℕ)
    → Body n S A
    → S
    → (p : Parser) → left p < m
    → left p < n
    → Ran p n (left p) ended A
rounds zero body s p h k = elim h [ ]
rounds (suc m) body s p h k =
    (body (left p)
        (λ t. record {
          run = λ q g. rebase (rounds m body t q (omega (arith, g.0)) (omega (arith, g.0)));
        })
        s).run
      p (omega arith, k)

abbrev pub finish :
    {p : Parser} (i : Stage) (n o o' : ℕ) {A : Type 0}
    → At i n o' (left p)
    → Ran p n o ended A
    → Ran p n o' i A
finish i n o o' h (returned a q s g) = returned a q s (At-le i n o' h (left-Steps s))
finish i n o o' h (failed q s) = failed q s

unfoldable pub loop : {n o : ℕ} {S A : Type 0} → Body n S A → S → M n o moved moved A
unfolding rounds
loop {n} {o} body s = record {
  run = λ p h.
      finish moved n (left p) o h (rounds (suc (left p)) body s p (omega arith) (omega (arith, h)));
}

-- `if (!item) { synchronize; recover }`, where a token is left, and what follows.
unfoldable pub resume :
    {n o : ℕ} {p : Parser}
    → 0 < left p
    → At inside n o (left p)
    → M n o moved moved (Unit {0})
    → M n o moved ended (Unit {0})
    → Ran p n o moved (Unit {0})
    → Ran p n o ended (Unit {0})
resume l h recover next (returned a q s g) = after s (next.run q g)
resume l h recover next (failed q s) = after (joined s (one_made (synchronizes q))) (
    (recover >> next).run (synchronize q)
      (omega (arith, h.0, h.1, left-Steps s, left-synchronize q), omega (arith, h.1)))

-- A round of `while (!check(closes) && !check(TOK_EOF)) { if (!item) { synchronize; recover } }`.
-- The item and the recovery are given the checkpoint before the item.
unfoldable pub each :
    {n o : ℕ}
    → TokenKind
    → (ℕ → M n o inside moved (Unit {0}))
    → (ℕ → M n o moved moved (Unit {0}))
    → M n o moved ended (Unit {0})
    → M n o inside ended (Unit {0})
unfolding resume
each closes item recover next = record {
  run = λ p h. elim (Bool-cases (is_eof p.current.kind)) [
    | inl eof ↦ returned tt p (none_made p) tt
    | inr live ↦
        let cp = count p.builder.items in
        if is closes p.current.kind
        then returned tt p (none_made p) tt
        else resume (left-live p live) h (recover cp) next ((item cp).run p h)
  ];
}
