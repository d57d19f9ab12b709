-- ===== src/Cli/Lookup.antt =====
-- `args_has` and `args_value` of cli/args.c: which of the hits they answer for.
use arche.Base.{ℕ, false, List, [], ◌∷◌, ◌++◌, ◌≡◌, ◌↔◌, refl, ap, ◌∙◌}
use arche.Base.{arith}
use arche.Base.{All, Bytes, ◌==◌, ==_self, Option, none}
use arche.Cli.Args.{ArgHit, ArgParse, args_has, args_value, has_hit, value_loop}

-- No hit has this id.
abbrev pub Misses : ℕ → List ArgHit → Type 0
Misses id hs = All (λ h. (h.id == id) ≡ false) hs

value_loop-append :
    (hs ks : List ArgHit) (id : ℕ) (v : Option Bytes)
    → value_loop (hs ++ ks) id v ≡ value_loop ks id (value_loop hs id v)
value_loop-append [] ks id v = refl
value_loop-append (h ∷ hs) ks id v = value_loop-append hs ks id _

value_loop-Misses :
    (hs : List ArgHit) (id : ℕ) (v : Option Bytes) → Misses id hs → value_loop hs id v ≡ v
value_loop-Misses [] id v m = refl
value_loop-Misses (h ∷ hs) id v (m, ms) = rw m (value_loop-Misses hs id v ms)

-- The value asked for is that of the last hit with the id.
pub args_value-last :
    (p : ArgParse) (before after : List ArgHit) (h : ArgHit)
    → p.hits ≡ before ++ (h ∷ after)
    → Misses h.id after
    → args_value p h.id ≡ h.value
unfolding args_value
args_value-last p before after h e m =
    ap (λ hs. value_loop hs h.id none) e
    ∙ value_loop-append before (h ∷ after) h.id none
    ∙ rw (==_self h.id) (value_loop-Misses after h.id h.value m)

-- An id that no hit has, has no value and is not seen.
has_hit-Misses : (hs : List ArgHit) (id : ℕ) → (has_hit hs id ≡ false) ↔ Misses id hs
has_hit-Misses [] id = ((λ _. tt), (λ _. refl))
has_hit-Misses (h ∷ hs) id = ground (arith, has_hit-Misses hs id)

pub args_has-Misses : (p : ArgParse) (id : ℕ) → (args_has p id ≡ false) ↔ Misses id p.hits
unfolding args_has
args_has-Misses p id = has_hit-Misses p.hits id
