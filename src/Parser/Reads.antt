-- ===== src/Parser/Reads.antt =====
-- Each step of parser/parser.c, and so each routine, consumes some of the tokens before the parser,
-- and pushes their leaves to the builder of the syntax tree between the nodes that it wraps.
use arche.Base.{ℕ, ◌≡◌, refl, sym, ap, ◌∙◌}
use arche.Base.{List, [], ◌∷◌, ◌++◌, Option, none, some}
use arche.Base.{append_assoc, append-nil}
use arche.Lexer.Token.{Token}
use arche.Syntax.Tree.{SyntaxToken, CstBuilder}
use arche.Syntax.Calls.{BuilderCall, push_token, wrap_from, perform, perform_all, tokens_of}
use arche.Parser.State.{Parser, leaf, emit, fetch}
use arche.Parser.Ahead.{leaf_list, leaf_tokens, leaf_tokens-append, Yields, Ahead}
use arche.Parser.Ahead.{fetch-Ahead}

perform_all-append :
    (b : CstBuilder) (cs ds : List BuilderCall)
    → perform_all b (cs ++ ds) ≡ perform_all (perform_all b cs) ds
unfolding perform_all
perform_all-append b [] ds = refl
perform_all-append b (c ∷ cs) ds = perform_all-append (perform b c) cs ds

tokens_of-append : (cs ds : List BuilderCall) → tokens_of (cs ++ ds) ≡ tokens_of cs ++ tokens_of ds
unfolding tokens_of
tokens_of-append [] ds = refl
tokens_of-append (push_token t ∷ cs) ds = ap (λ ts. t ∷ ts) (tokens_of-append cs ds)
tokens_of-append (wrap_from cp k ∷ cs) ds = tokens_of-append cs ds

-- From `p` to `q` the parser consumes the first of the tokens before it, and performs calls of the
-- builder that push their leaves.
pub record Reads (b : ℕ) (p q : Parser) (ts : List Token) : Type 0 where
  pub read : List Token
  pub rest : List Token
  pub split : ts ≡ read ++ rest
  pub ahead : Ahead b q rest
  pub calls : List BuilderCall
  pub built : q.builder ≡ perform_all p.builder calls
  pub emitted : tokens_of calls ≡ leaf_tokens read

-- Nothing is consumed and no node is made.
pub Reads-none :
    (b : ℕ) (p q : Parser) (ts : List Token) → q.builder ≡ p.builder → Ahead b q ts → Reads b p q ts
unfolding perform_all tokens_of leaf_tokens
Reads-none b p q ts e a = record {
  read = [];
  rest = ts;
  split = refl;
  ahead = a;
  calls = [];
  built = e;
  emitted = refl;
}

pub Reads-trans :
    {b : ℕ} {p q s : Parser} {ts : List Token} (x : Reads b p q ts)
    → Reads b q s x.rest
    → Reads b p s ts
Reads-trans {b} {p} x y = record {
  read = x.read ++ y.read;
  rest = y.rest;
  split = x.split ∙ (ap (λ us. x.read ++ us) y.split ∙ sym (append_assoc x.read y.read y.rest));
  ahead = y.ahead;
  calls = x.calls ++ y.calls;
  built =
      y.built
      ∙ (ap (λ c. perform_all c y.calls) x.built
          ∙ sym (perform_all-append p.builder x.calls y.calls));
  emitted = simp (tokens_of-append, leaf_tokens-append, x.emitted, y.emitted);
}

pushes : Option SyntaxToken → List BuilderCall
pushes none = []
pushes (some t) = push_token t ∷ []

emit-pushes : (o : Option SyntaxToken) (c : CstBuilder) → emit o c ≡ perform_all c (pushes o)
unfolding emit pushes perform_all perform
emit-pushes none c = refl
emit-pushes (some t) c = refl

tokens_of-pushes : (o : Option SyntaxToken) → tokens_of (pushes o) ≡ leaf_list o
unfolding tokens_of pushes
tokens_of-pushes none = refl
tokens_of-pushes (some t) = refl

-- The current token is consumed: `q` has its leaf, and goes on with the lexer of `p`.
pub Reads-token :
    (b : ℕ) (p q : Parser) (us : List Token)
    → q.builder ≡ emit (leaf p.current) p.builder
    → q.lexer ≡ p.lexer
    → Yields p.lexer us
    → Reads b p (fetch q) (p.current ∷ us)
unfolding leaf_tokens fetch
Reads-token b p q us e l y = record {
  read = p.current ∷ [];
  rest = us;
  split = refl;
  ahead = fetch-Ahead b q us (rw l y);
  calls = pushes (leaf p.current);
  built = e ∙ emit-pushes (leaf p.current) p.builder;
  emitted = tokens_of-pushes (leaf p.current) ∙ sym (append-nil _);
}
