-- ===== src/Parser/Results.antt =====
-- What the routines of parser/parser.c return: a predicate on results, with a rule for each way in
-- which routines are composed.
use arche.Base.{ℕ, zero, suc, ◌<◌, ◌≡◌, refl, Bool, true, false, inl, inr, ◌⊎◌, ap}
use arche.Base.{◌∙◌, Bool-cases}
use arche.Base.{◌||◌, if◌then◌else◌}
use arche.Lexer.Kind.{TokenKind, tok_eof}
use arche.Lexer.Next.{is_eof}
use arche.Parser.State.{Parser, advance, synchronize}
use arche.Parser.Measure.{left, advance-lt-left, left-live}
use arche.Parser.Steps.{Steps, none_made, one_made, joined, advances, synchronizes}
use arche.Parser.Monad.{Stage, inside, moved, ended, At, Begun, Ran, returned, failed, M, ◌>>=◌}
use arche.Parser.Monad.{after, done}
use arche.Parser.Monad.{when, At-lt}
use arche.Parser.Recursion.{Body, rounds, loop, rebase, finish, resume, each}
use arche.Parser.Routines.{while_each}
use arche.Parser.Kinds.{is}
use arche.Syntax.Tree.{count}

-- If a result is returned, it and the state satisfy `Q`; if none is, the state satisfies `F`.
abbrev pub Outcome :
    {p : Parser} {n o : ℕ} {j : Stage} {A : Type 0}
    → (Parser → Type 0)
    → (A → Parser → Type 0)
    → Ran p n o j A
    → Type 0
Outcome F Q (returned a q s h) = Q a q
Outcome F Q (failed q s) = F q

-- Every run of a routine has such an outcome.
unfoldable pub Yielding :
    {n o : ℕ} {i j : Stage} {A : Type 0}
    → (Parser → Type 0)
    → (A → Parser → Type 0)
    → M n o i j A
    → Type 0
Yielding {n} {o} {i} F Q m = (p : Parser) (h : At i n o (left p)) → Outcome F Q (m.run p h)

abbrev pub Anything : Parser → Type 0
Anything q = Unit

abbrev pub Nothing : Parser → Type 0
Nothing q = ⊥

-- A failure is let pass.
abbrev pub Returns :
    {p : Parser} {n o : ℕ} {j : Stage} {A : Type 0} → (A → Parser → Type 0) → Ran p n o j A → Type 0
Returns Q x = Outcome Anything Q x

abbrev pub Ensures :
    {n o : ℕ} {i j : Stage} {A : Type 0} → (A → Parser → Type 0) → M n o i j A → Type 0
Ensures Q m = Yielding Anything Q m

-- There is no failure.
abbrev pub Succeeds :
    {p : Parser} {n o : ℕ} {j : Stage} {A : Type 0} → (A → Parser → Type 0) → Ran p n o j A → Type 0
Succeeds Q x = Outcome Nothing Q x

pub Outcome-after :
    {n o : ℕ} {j : Stage} {A : Type 0} {p q : Parser} (F : Parser → Type 0)
    (Q : A → Parser → Type 0) (s : Steps p q) (x : Ran q n o j A)
    → Outcome F Q x
    → Outcome F Q (after s x)
Outcome-after F Q s (returned a r t h) y = y
Outcome-after F Q s (failed r t) y = y

pub Returns-after :
    {n o : ℕ} {j : Stage} {A : Type 0} {p q : Parser} (Q : A → Parser → Type 0) (s : Steps p q)
    (x : Ran q n o j A)
    → Returns Q x
    → Returns Q (after s x)
Returns-after Q s x y = Outcome-after Anything Q s x y

bound-Returns :
    {n o : ℕ} {j k : Stage} {A B : Type 0} {p : Parser} (Q : B → Parser → Type 0)
    (f : A → M n o j k B)
    → ((a : A) → Ensures Q (f a))
    → (x : Ran p n o j A)
    → Returns {n = n} {o = o} {j = k} Q
        (elim x [ returned a q s g ↦ after s ((f a).run q g) | failed q s ↦ failed q s ])
unfolding Yielding
bound-Returns Q f e (returned a q s g) = Returns-after Q s ((f a).run q g) (e a q g)
bound-Returns Q f e (failed q s) = tt

-- A sequence ensures what its last routine does.
pub Ensures-bind :
    {n o : ℕ} {i j k : Stage} {A B : Type 0} (Q : B → Parser → Type 0) (m : M n o i j A)
    (f : A → M n o j k B)
    → ((a : A) → Ensures Q (f a))
    → Ensures Q (m >>= f)
unfolding Yielding
Ensures-bind Q m f e p h = bound-Returns Q f e (m.run p h)

pub kind_at_end : (k : TokenKind) → is_eof k ≡ true → k ≡ tok_eof
kind_at_end tok_eof e = refl
kind_at_end _ e = absurd (cc)

module _ {n o : ℕ} {i j : Stage} {A : Type 0} (b : Begun i) (Q : A → Parser → Type 0)
    (test : TokenKind → Bool) (t : M n o moved j A) (e : M n o i j A)
    (none_at_end : test tok_eof ≡ false) (then_t : Ensures Q t)
    (else_e : (p : Parser) (h : At i n o (left p))
      → test p.current.kind ≡ false
      → Returns Q (e.run p h))
    (p : Parser) (h : At i n o (left p)) where
  when-Returns :
      (x : (is_eof p.current.kind ≡ true) ⊎ (is_eof p.current.kind ≡ false))
      → Returns {n = n} {o = o} {j = j} Q (elim x [
        | inl eof ↦ e.run p h
        | inr live ↦
            if test p.current.kind
            then after
                (one_made (advances p live))
                (t.run (advance p) (At-lt n o b h (advance-lt-left p live)))
            else e.run p h
      ])
  unfolding Yielding
  when-Returns (inl eof) = else_e p h (ap test (kind_at_end p.current.kind eof) ∙ none_at_end)
  when-Returns (inr live) = elim (Bool-cases (test p.current.kind)) [
    | inl yes_t ↦ rw yes_t (Returns-after Q (one_made (advances p live)) _ (then_t (advance p) _))
    | inr no_t ↦ rw no_t (else_e p h no_t)
  ]

-- `if (test(current.kind)) { advance; … } else …`: the other branch is told that the test fails, for
-- a test that the end mark fails.
pub Ensures-when :
    {n o : ℕ} {i j : Stage} {A : Type 0} (b : Begun i) (Q : A → Parser → Type 0)
    (test : TokenKind → Bool) (t : M n o moved j A) (e : M n o i j A)
    → test tok_eof ≡ false
    → Ensures Q t
    → ((p : Parser) (h : At i n o (left p)) → test p.current.kind ≡ false → Returns Q (e.run p h))
    → Ensures Q (when ⦃b = b⦄ test t e)
unfolding Yielding
Ensures-when b Q test t e none_at_end then_t else_e p h =
    when-Returns b Q test t e none_at_end then_t else_e p h (Bool-cases (is_eof p.current.kind))

rebase-Outcome :
    {p : Parser} {n o : ℕ} (o' : ℕ) {A : Type 0} (F : Parser → Type 0) (Q : A → Parser → Type 0)
    (x : Ran p n o ended A)
    → Outcome F Q x
    → Outcome F Q (rebase {o' = o'} x)
rebase-Outcome o' F Q (returned a q s h) y = y
rebase-Outcome o' F Q (failed q s) y = y

rounds-Outcome :
    {n : ℕ} {S A : Type 0} (F : Parser → Type 0) (Q : A → Parser → Type 0) (body : Body n S A)
    → ((o : ℕ) (again : S → M n o moved ended A)
        → ((s : S) → Yielding F Q (again s))
        → (s : S) → Yielding F Q (body o again s))
    → (m : ℕ) (s : S) (p : Parser) (h : left p < m) (k : left p < n)
    → Outcome F Q (rounds m body s p h k)
unfolding rounds Yielding
rounds-Outcome F Q body keeps zero s p h k = elim h [ ]
rounds-Outcome F Q body keeps (suc m) s p h k =
    keeps (left p) _ (λ t q g. rebase-Outcome _ F Q _ (rounds-Outcome F Q body keeps m t q _ _)) s p
      _

finish-Outcome :
    {p : Parser} (i : Stage) {n o : ℕ} (o' : ℕ) {A : Type 0} (F : Parser → Type 0)
    (Q : A → Parser → Type 0) (h : At i n o' (left p)) (x : Ran p n o ended A)
    → Outcome F Q x
    → Outcome F Q (finish i n o o' h x)
finish-Outcome i o' F Q h (returned a q s g) y = y
finish-Outcome i o' F Q h (failed q s) y = y

-- A loop has the outcome that each of its rounds has, where the rounds that follow have it.
pub Yielding-loop :
    {n : ℕ} (o : ℕ) {S A : Type 0} (F : Parser → Type 0) (Q : A → Parser → Type 0)
    (body : Body n S A)
    → ((o : ℕ) (again : S → M n o moved ended A)
        → ((s : S) → Yielding F Q (again s))
        → (s : S) → Yielding F Q (body o again s))
    → (s : S) → Yielding F Q (loop {n = n} {o = o} body s)
unfolding loop Yielding
Yielding-loop o F Q body keeps s p h =
    finish-Outcome moved _ F Q h _ (rounds-Outcome F Q body keeps (suc (left p)) s p _ _)

abbrev pub Closed : TokenKind → Unit {0} → Parser → Type 0
Closed closes _ q = (is_eof q.current.kind || is closes q.current.kind) ≡ true

-- A loop whose recovery does nothing but synchronize.
module _ {n o : ℕ} (F : Parser → Type 0) (Q : Unit {0} → Parser → Type 0)
    (next : M n o moved ended (Unit {0})) (next_e : Yielding F Q next) where
  resume-Outcome :
      {p : Parser} (l : 0 < left p) (h : At inside n o (left p)) (x : Ran p n o moved (Unit {0}))
      → Outcome F Q (resume l h (done tt) next x)
  unfolding resume Yielding
  resume-Outcome l h (returned a q s g) = Outcome-after F Q s (next.run q g) (next_e q g)
  resume-Outcome l h (failed q s) =
      Outcome-after F Q (joined s (one_made (synchronizes q))) _
        (Outcome-after F Q (none_made (synchronize q)) _ (next_e (synchronize q) _))

module _ {n o : ℕ} (closes : TokenKind) (item : M n o inside moved (Unit {0}))
    (next : M n o moved ended (Unit {0})) (next_e : Yielding Nothing (Closed closes) next)
    (p : Parser) (h : At inside n o (left p)) where
  each-Succeeds :
      (x : (is_eof p.current.kind ≡ true) ⊎ (is_eof p.current.kind ≡ false))
      → Succeeds {n = n} {o = o} {j = ended} (Closed closes) (elim x [
        | inl eof ↦ returned tt p (none_made p) tt
        | inr live ↦
            if is closes p.current.kind
            then returned tt p (none_made p) tt
            else resume (left-live p live) h (done tt) next (item.run p h)
      ])
  each-Succeeds (inl eof) = rw eof refl
  each-Succeeds (inr live) = elim (Bool-cases (is closes p.current.kind)) [
    | inl closed ↦ rw closed (rw (live, closed) refl)
    | inr further ↦
        rw further
          (resume-Outcome Nothing (Closed closes) next next_e (left-live p live) h (item.run p h))
  ]

-- A loop over items that synchronizes where an item fails does not fail, and ends at the token that
-- closes it, or at the end mark.
pub while_each-Succeeds :
    {n : ℕ} (o : ℕ) (closes : TokenKind) (item : (o : ℕ) → ℕ → M n o inside moved (Unit {0}))
    → Yielding Nothing (Closed closes) (while_each {n = n} {o = o} closes item (λ o cp. done tt))
unfolding each Yielding
while_each-Succeeds o closes item =
    Yielding-loop o Nothing _ _
      (λ o again ih s p h.
        let cp = count p.builder.items in
        each-Succeeds closes (item o cp) (again tt) (ih tt) p h
          (Bool-cases (is_eof p.current.kind)))
      tt
